-- ===== src/Budget/Period.antt =====
-- Budget periods: PeriodKey and nextPeriodStart of internal/gateway/budget.go. A time is a number
-- of nanoseconds from Go's zero time, so that 0 is the time of which IsZero holds.
use kubeclaw.Prelude.{ℕ, ◌+◌, ◌-◌, ◌/◌, ◌%◌, String, str_eq, if◌then◌else◌, ◌==◌}

-- What the program uses of package time, in UTC.
pub record Calendar : Type 0 where
  pub format : String → ℕ → String  -- t.Format(layout)
  pub week_key : ℕ → String  -- fmt.Sprintf("%d-W%02d", t.ISOWeek())
  pub weekday : ℕ → ℕ  -- 0 is Sunday
  pub midnight : ℕ → ℕ  -- time.Date of the day, at 00:00
  pub month_start : ℕ → ℕ  -- time.Date of the first day of the month
  pub add_date : ℕ → ℕ → ℕ → ℕ → ℕ  -- t.AddDate(years, months, days)

unfoldable pub period_key : Calendar → String → ℕ → String
period_key cal scheme t =
    if str_eq scheme "monthly"
    then cal.format "2006-01" t
    else if str_eq scheme "weekly"
    then cal.week_key t
    else if str_eq scheme "daily"
    then cal.format "2006-01-02" t
    else ""

unfoldable pub days_until_monday : ℕ → ℕ
days_until_monday weekday = let days = (8 - weekday) % 7 in if days == 0 then 7 else days

unfoldable pub next_period_start : Calendar → String → ℕ → ℕ
next_period_start cal scheme t =
    if str_eq scheme "monthly"
    then cal.add_date (cal.month_start t) 0 1 0
    else if str_eq scheme "weekly"
    then cal.add_date (cal.midnight t) 0 0 (days_until_monday (cal.weekday t))
    else cal.add_date (cal.midnight t) 0 0 1

-- int(time.Until(next).Seconds()) + 1, where `wall` is time.Now()
unfoldable pub retry_after : Calendar → String → ℕ → ℕ → ℕ
retry_after cal scheme now wall = (next_period_start cal scheme now - wall) / 1000000000 + 1
