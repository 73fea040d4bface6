-- ===== src/ChannelHealth/Report.antt =====
-- What a snapshot reports of a channel's observations.
use kubeclaw.Prelude.{
  ℕ, ◌+◌, ◌-◌, ◌≤◌, ◌<◌, filter, length, Bool, true, false, not, ◌&&◌, Option, none, some, List, [],
  ◌∷◌, ltb, if◌then◌else◌, ◌≡◌, refl, sym, ap, subst, ◌∙◌, arith, Bool-cases, inl, inr, ◌⊎◌, All,
}
use kubeclaw.ChannelHealth.{
  Observation, in_window, newer, last_from, drop, snoc, kept_with, entry, report, success_state,
}

-- counts for the successes, or for the failures
abbrev pub counts : Bool → ℕ → ℕ → Observation → Bool
counts good window now o = in_window window now o && (if good then o.success else not o.success)

abbrev pub Among : Observation → List Observation → Type 0
Among l [] = ⊥
Among l (o ∷ list) = (l ≡ o) ⊎ Among l list

-- `last` is an observation of the list that counts and no other that counts is later, or there is
-- none that counts
abbrev pub Latest : Bool → ℕ → ℕ → List Observation → Option Observation → Type 0
Latest good window now list none = All (λ o. counts good window now o ≡ false) list
Latest good window now list (some l) =
    Among l list
    × (counts good window now l ≡ true)
    × All (λ o. (counts good window now o ≡ false) ⊎ (o.time ≤ l.time)) list

module _ (good : Bool) (window now : ℕ) where
  abbrev Missed : Observation → Observation → Type 0
  Missed l o = (counts good window now o ≡ false) ⊎ (o.time ≤ l.time)

  -- one turn of the loop
  abbrev turn : Option Observation → Observation → Option Observation
  turn last o = if counts good window now o then newer last o else last

  abbrev NotBefore : Option Observation → Observation → Type 0
  NotBefore none l = Unit
  NotBefore (some k) l = k.time ≤ l.time

  -- what a turn leaves is no earlier than what it got and what it saw
  record Turned (last : Option Observation) (o : Observation) : Type 0 where
    after : Observation
    left : turn last o ≡ some after
    not_before : NotBefore last after
    seen : o.time ≤ after.time
    origin : (last ≡ some after) ⊎ (after ≡ o)

  turn-Turned :
      (last : Option Observation) (o : Observation)
      → counts good window now o ≡ true
      → Turned last o
  unfolding newer
  turn-Turned none o counted = record {
    after = o;
    left = rw counted refl;
    not_before = tt;
    seen = omega arith;
    origin = inr refl;
  }
  turn-Turned (some l) o counted = elim (Bool-cases (ltb l.time o.time)) [
    | inl later ↦ record {
      after = o;
      left = rw (counted, newer, later) refl;
      not_before = ground arith;
      seen = omega arith;
      origin = inr refl;
    }
    | inr before ↦ record {
      after = l;
      left = rw (counted, newer, before) refl;
      not_before = omega arith;
      seen = ground arith;
      origin = inl refl;
    }
  ]

  -- the end of the loop over `list` from `last`
  abbrev From : Option Observation → List Observation → Option Observation → Type 0
  From last list none = (last ≡ none) × All (λ o. counts good window now o ≡ false) list
  From last list (some l) =
      ((last ≡ some l) ⊎ (Among l list × (counts good window now l ≡ true)))
      × NotBefore last l
      × All (Missed l) list

  NotBefore-trans :
      (last : Option Observation) (k l : Observation)
      → NotBefore last k
      → k.time ≤ l.time
      → NotBefore last l
  NotBefore-trans none k l h le = tt
  NotBefore-trans (some m) k l h le = omega (arith, h, le)

  origin-Turned :
      (last : Option Observation) (o : Observation) (list : List Observation) (l : Observation)
      → counts good window now o ≡ true
      → Turned last o
      → (turn last o ≡ some l) ⊎ (Among l list × (counts good window now l ≡ true))
      → (last ≡ some l) ⊎ (Among l (o ∷ list) × (counts good window now l ≡ true))
  origin-Turned last o list l counted t (inr (among, c)) = inr (inr among, c)
  origin-Turned last o list l counted t (inl left) =
      first (ground (arith, sym t.left ∙ left)) t.origin
    where
      first :
          (t.after ≡ l)
          → (last ≡ some t.after) ⊎ (t.after ≡ o)
          → (last ≡ some l) ⊎ (Among l (o ∷ list) × (counts good window now l ≡ true))
      first e (inl kept) = inl (kept ∙ ap some e)
      first e (inr new) =
          inr (inl (sym e ∙ new), ap (counts good window now) (sym e ∙ new) ∙ counted)

  turned :
      (last : Option Observation) (o : Observation) (list : List Observation)
      (r : Option Observation)
      → counts good window now o ≡ true
      → Turned last o
      → From (turn last o) list r
      → From last (o ∷ list) r
  turned last o list none counted t f = absurd (ground (arith, sym t.left ∙ f.0))
  turned last o list (some l) counted t f =
      let later : t.after.time ≤ l.time = subst (λ x. NotBefore x l) t.left f.1 in
      (
        origin-Turned last o list l counted t f.0,
        NotBefore-trans last t.after l t.not_before later,
        (inr (omega (arith, t.seen, later)), f.2),
      )

  passed_over :
      (last : Option Observation) (o : Observation) (list : List Observation)
      (r : Option Observation)
      → counts good window now o ≡ false
      → From last list r
      → From last (o ∷ list) r
  passed_over last o list none passed f = (f.0, (passed, f.1))
  passed_over last o list (some l) passed (inl kept, before, f) =
      (inl kept, before, (inl passed, f))
  passed_over last o list (some l) passed (inr (among, c), before, f) =
      (inr (inr among, c), before, (inl passed, f))

  last_from-From :
      (last : Option Observation) (list : List Observation)
      → From last list (last_from good window now last list)
  unfolding last_from
  last_from-From none [] = (refl, tt)
  last_from-From (some l) [] = (inl refl, omega arith, tt)
  last_from-From last (o ∷ list) =
      either (Bool-cases (counts good window now o)) (last_from-From (turn last o) list)
    where
      either :
          (counts good window now o ≡ true) ⊎ (counts good window now o ≡ false)
          → From (turn last o) list (last_from good window now (turn last o) list)
          → From last (o ∷ list) (last_from good window now (turn last o) list)
      either (inl counted) f =
          turned last o list (last_from good window now (turn last o) list) counted
            (turn-Turned last o counted) f
      either (inr passed) f =
          passed_over last o list (last_from good window now (turn last o) list) passed (
            subst (λ x. From x list (last_from good window now (turn last o) list)) (rw passed refl)
              f)

  -- The loop of a snapshot finds an observation of the list that counts and than which no other
  -- that counts is later, and finds none only if none counts.
  pub last_from-Latest :
      (list : List Observation) → Latest good window now list (last_from good window now none list)
  last_from-Latest list = latest (last_from good window now none list) (last_from-From none list)
    where
      latest : (r : Option Observation) → From none list r → Latest good window now list r
      latest none f = f.1
      latest (some l) (inl e, _, f) = absurd (ground arith)
      latest (some l) (inr (among, c), _, f) = (among, c, f)

All-snoc :
    (P : Observation → Type 0) (xs : List Observation) (o : Observation) → All P (snoc xs o) → P o
All-snoc P [] o h = h.0
All-snoc P (x ∷ xs) o h = All-snoc P xs o h.1

report-Latest :
    (list : List Observation) (window now : ℕ) (o : Observation) (good bad : Option Observation)
    → counts true window now o ≡ true
    → Latest true window now (snoc list o) good
    → (report good bad).state ≡ success_state
unfolding report
report-Latest list window now o none bad counted h =
    absurd
      (ground (arith, sym (All-snoc (λ x. counts true window now x ≡ false) list o h) ∙ counted))
report-Latest list window now o (some l) bad counted h = refl

-- After a success is recorded, the channel is reported as successful for as long as the
-- observation lies in the window, whatever was recorded before.
pub entry-kept_with :
    (window before now : ℕ) (o : Observation) (list : List Observation)
    → o.success ≡ true
    → now < o.time + window
    → (entry window now (kept_with window before o list)).state ≡ success_state
unfolding entry kept_with
entry-kept_with window before now o list good recent =
    let kept = filter (in_window window before) list in
    let tail : List Observation =
      if ltb 256 (length kept) then drop (length kept - 256) kept else kept in
    report-Latest tail window now o (last_from true window now none (snoc tail o))
      (last_from false window now none (snoc tail o)) (ground (arith, good, recent))
      (last_from-Latest true window now (snoc tail o))
