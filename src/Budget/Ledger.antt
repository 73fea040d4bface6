-- ===== src/Budget/Ledger.antt =====
-- BudgetLedger of internal/gateway/budget.go: one replica's spend counters. A method that locks
-- the ledger returns the new ledger; `now` is the clock's value in the critical section.
use kubeclaw.Prelude.{
  ℕ, ◌-◌, String, Bool, false, Option, none, some, List, [], ◌∷◌, leb, ltb, ◌==◌, ◌&&◌, ◌||◌,
  str_eq, if◌then◌else◌, map, not,
}
use kubeclaw.Prelude.Maps.{Map, lookup, insert, get_or}
use kubeclaw.Prelude.Floats.{Floats}
use kubeclaw.Budget.Period.{Calendar, period_key}
use kubeclaw.Budget.Config.{Provider, ModelPrice}
use Prim.Native.String.{◌++◌ as concat}

-- 10 * time.Second
abbrev pub rate_bucket_width : ℕ
rate_bucket_width = 10000000000

module _ (F : Floats) where
  open F use {Float, of_nat, add, mul, div, lt, le, eq, parse, format, seconds}

  pub record ProviderLedger : Type 0 where
    pub period : String
    pub own : Map Float
    pub peers : Map Float
    pub own_w : Map Float
    pub peers_w : Map Float
    pub adm : Map ℕ
    pub next_token : ℕ  -- uint64
    pub max_cost_per_call : Float
    pub rate_bucket_start : ℕ
    pub rate_bucket_sum : Float
    pub peak_rate : Float
    pub dirty_since : ℕ
    pub last_fold_ok : ℕ
    pub margin_raised : Bool

  pub record BudgetLedger : Type 0 where
    pub staleness_window : ℕ
    pub kick : List String  -- the channel's buffer, of 64 names
    pub providers : Map ProviderLedger

  abbrev pub zero_usd : Float
  zero_usd = of_nat 0

  unfoldable pub new_budget_ledger : BudgetLedger
  new_budget_ledger = record { staleness_window = 30000000000; kick = []; providers = [] }

  unfoldable pub new_provider_ledger : String → ProviderLedger
  new_provider_ledger period = record {
    period = period;
    own = [];
    peers = [];
    own_w = [];
    peers_w = [];
    adm = [];
    next_token = 0;
    max_cost_per_call = zero_usd;
    rate_bucket_start = 0;
    rate_bucket_sum = zero_usd;
    peak_rate = zero_usd;
    dirty_since = 0;
    last_fold_ok = 0;
    margin_raised = false;
  }

  -- the reset of ledgerFor when the clock has crossed a boundary
  unfoldable pub roll_over : String → ProviderLedger → ProviderLedger
  roll_over period l = if str_eq l.period period then l else record l {
    period = period;
    own = [];
    peers = [];
    own_w = [];
    peers_w = [];
    adm = [];
    max_cost_per_call = zero_usd;
    rate_bucket_start = 0;
    rate_bucket_sum = zero_usd;
    peak_rate = zero_usd;
    margin_raised = false;
  }

  unfoldable pub found_or_new : String → Option ProviderLedger → ProviderLedger
  unfolding new_provider_ledger
  found_or_new period none = new_provider_ledger period
  found_or_new period (some l) = l

  -- ledgerFor; its callers write the result back by `store`
  unfoldable pub ledger_for : Calendar → BudgetLedger → ℕ → String → String → ProviderLedger
  unfolding roll_over found_or_new
  ledger_for cal b now name scheme =
      let period = period_key cal scheme now in
      roll_over period (found_or_new period (lookup name b.providers))

  unfoldable pub store : BudgetLedger → String → ProviderLedger → BudgetLedger
  store b name l = record b { providers = insert name l b.providers }

  -- m[k] += v
  unfoldable pub bump : String → Float → Map Float → Map Float
  bump k v m = insert k (add (get_or zero_usd k m) v) m

  -- the rollover of the rate bucket in trackLocked
  unfoldable pub next_bucket : ℕ → ProviderLedger → ProviderLedger
  next_bucket now l =
      let r = div l.rate_bucket_sum (seconds rate_bucket_width) in
      let peak = if not (l.rate_bucket_start == 0) && lt l.peak_rate r then r else l.peak_rate in
      record l { rate_bucket_start = now; rate_bucket_sum = zero_usd; peak_rate = peak }

  unfoldable pub rolls_bucket : ℕ → ProviderLedger → Bool
  rolls_bucket now l = l.rate_bucket_start == 0 || leb rate_bucket_width (now - l.rate_bucket_start)

  unfoldable pub track : ℕ → Float → ProviderLedger → ProviderLedger
  unfolding next_bucket rolls_bucket
  track now cost l =
      if le cost zero_usd
      then l
      else let top = if lt l.max_cost_per_call cost then cost else l.max_cost_per_call in
        let l₁ : ProviderLedger = record l { max_cost_per_call = top } in
        let l₂ : ProviderLedger = if rolls_bucket now l₁ then next_bucket now l₁ else l₁ in
        record l₂ { rate_bucket_sum = add l₂.rate_bucket_sum cost }

  -- what Add and settle do with a cost that is not zero
  unfoldable pub spend : ℕ → String → String → Float → ProviderLedger → ProviderLedger
  unfolding bump
  spend now ns workload cost l =
      let l₁ : ProviderLedger = track now cost (record l {
        own = bump ns cost l.own;
        own_w = bump (concat ns (concat "/" workload)) cost l.own_w;
      }) in
      record l₁ { dirty_since = if l₁.dirty_since == 0 then now else l₁.dirty_since }

  -- Add
  unfoldable pub add_spend :
      Calendar → ℕ → Provider → String → String → Float → BudgetLedger → BudgetLedger
  unfolding spend store
  add_spend cal now p ns workload cost b =
      let scheme = p.budget.period in
      if str_eq (period_key cal scheme now) "" || eq cost zero_usd
      then b
      else store b p.name (spend now ns workload cost (ledger_for cal b now p.name scheme))

  unfoldable pub fold_peers : Calendar → ℕ → Provider → Map Float → BudgetLedger → BudgetLedger
  unfolding store
  fold_peers cal now p peers b =
      let l : ProviderLedger = ledger_for cal b now p.name p.budget.period in
      store b p.name (record l { peers = peers; last_fold_ok = now })

  unfoldable pub fold_workload_peers :
      Calendar → ℕ → Provider → Map Float → BudgetLedger → BudgetLedger
  unfolding store
  fold_workload_peers cal now p peers b =
      let l : ProviderLedger = ledger_for cal b now p.name p.budget.period in
      store b p.name (record l { peers_w = peers })

  abbrev pub formats : Map Float → Map String
  formats = map (λ e. (e.0, format e.1))

  pub record Partial : Type 0 where
    pub period : String
    pub spend : Map String
    pub margin_exceeded : Bool

  unfoldable pub own_partial : BudgetLedger → String → Option Partial
  own_partial b name = elim (lookup name b.providers) [
    | none ↦ none
    | some l ↦ elim l.own [
      | [] ↦ none
      | e ∷ own ↦ some (record {
        period = l.period;
        spend = formats (e ∷ own);
        margin_exceeded = l.margin_raised;
      })
    ]
  ]

  unfoldable pub published : ℕ → ProviderLedger → ProviderLedger
  published snapshot l =
      if not (l.dirty_since == 0) && not (ltb snapshot l.dirty_since)
      then record l { dirty_since = 0 }
      else l

  unfoldable pub mark_published : String → ℕ → BudgetLedger → BudgetLedger
  unfolding store published
  mark_published name snapshot b = elim (lookup name b.providers) [
    | none ↦ b
    | some l ↦ store b name (published snapshot l)
  ]

  -- costOf
  unfoldable pub price : List ModelPrice → String → ℕ → ℕ → Float
  price [] model tokens_in tokens_out = zero_usd
  price (m ∷ ms) model tokens_in tokens_out =
      let rest = price ms model tokens_in tokens_out in
      if not (str_eq m.id model) then rest else elim (parse m.cost_per_1m_input) [
        | none ↦ zero_usd
        | some i ↦ elim (parse m.cost_per_1m_output) [
          | none ↦ zero_usd
          | some o ↦
              add (div (mul (of_nat tokens_in) i) (of_nat 1000000))
                (div (mul (of_nat tokens_out) o) (of_nat 1000000))
        ]
      ]
