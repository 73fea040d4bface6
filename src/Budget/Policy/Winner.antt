-- ===== src/Budget/Policy/Winner.antt =====
-- The policy that decide picks.
use mathlib.Core.List.{Memᴰ}
use kubeclaw.Prelude.{
  ◌≤◌, ◌≡◌, sym, true, none, some, List, [], ◌∷◌, arith, ◌≢◌, ◌∙◌, Option-cases, if◌then◌else◌, All,
  ◌⊎◌, inl, inr, Bool-cases, ◌&&◌,
}
use kubeclaw.Prelude.Floats.{Floats}
use kubeclaw.Budget.Config.{BudgetPolicy, Budget}
use kubeclaw.Budget.Policy.{Env, Utilization, beats, winner_from, decide, decide_on}

module _ (F : Floats) where
  -- the policy's threshold is reached
  abbrev pub Reached : F.Float → BudgetPolicy → Type 0
  Reached worst p = F.le (F.of_nat p.at_percent) worst ≡ true

  -- `w` is reached, and no policy of the list that is reached has a higher threshold
  pub record Wins (worst : F.Float) (ps : List BudgetPolicy) (w : BudgetPolicy) : Type 0 where
    pub member : Memᴰ w ps
    pub reached : Reached worst w
    pub highest : All (λ (q : BudgetPolicy). (¬ Reached worst q) ⊎ (q.at_percent ≤ w.at_percent)) ps

  -- the winner so far after one more policy
  pick : F.Float → BudgetPolicy → BudgetPolicy → BudgetPolicy
  unfolding beats
  pick worst w p = if F.le (F.of_nat p.at_percent) worst && beats p (some w) then p else w

  pick_lem :
      (worst : F.Float) (w p : BudgetPolicy)
      → ((pick worst w p ≡ w) ⊎ (pick worst w p ≡ p))
        × (Reached worst w → Reached worst (pick worst w p))
        × (w.at_percent ≤ (pick worst w p).at_percent)
        × ((¬ Reached worst p) ⊎ (p.at_percent ≤ (pick worst w p).at_percent))
  unfolding pick
  pick_lem worst w p = elim (Bool-cases (F.le (F.of_nat p.at_percent) worst)) [
    | inl e ↦ (ground arith, ground arith, ground arith, inr (ground arith))
    | inr e ↦ (ground arith, ground arith, ground arith, inl (λ r. cc))
  ]

  winner_from-cons :
      (worst : F.Float) (w p : BudgetPolicy) (ps : List BudgetPolicy)
      → winner_from F worst (some w) (p ∷ ps) ≡ winner_from F worst (some (pick worst w p)) ps
  unfolding winner_from pick
  winner_from-cons worst w p ps = ground arith

  -- from a winner so far that is reached
  winner_from-some :
      (worst : F.Float) (w : BudgetPolicy) (ps : List BudgetPolicy) (v : BudgetPolicy)
      → winner_from F worst (some w) ps ≡ some v
      → Reached worst w
      → ((v ≡ w) ⊎ Memᴰ v ps)
        × Reached worst v
        × (w.at_percent ≤ v.at_percent)
        × All (λ (q : BudgetPolicy). (¬ Reached worst q) ⊎ (q.at_percent ≤ v.at_percent)) ps
  unfolding winner_from
  winner_from-some worst w [] v h r = (ground arith, ground arith, ground arith, tt)
  winner_from-some worst w (p ∷ ps) v h r =
      let (which, keeps, above, covers) = pick_lem worst w p in
      let (place, at, le, rest) =
        winner_from-some worst (pick worst w p) ps v (sym (winner_from-cons worst w p ps) ∙ h)
          (keeps r) in
      (placed place which, at, omega arith, (covered covers le, rest))
    where
      placed :
          (v ≡ pick worst w p) ⊎ Memᴰ v ps
          → (pick worst w p ≡ w) ⊎ (pick worst w p ≡ p)
          → (v ≡ w) ⊎ Memᴰ v (p ∷ ps)
      placed (inl e) (inl f) = inl (e ∙ f)
      placed (inl e) (inr f) = inr (Memᴰ.head (e ∙ f))
      placed (inr m) which = inr (Memᴰ.tail m)

      covered :
          (¬ Reached worst p) ⊎ (p.at_percent ≤ (pick worst w p).at_percent)
          → (pick worst w p).at_percent ≤ v.at_percent
          → (¬ Reached worst p) ⊎ (p.at_percent ≤ v.at_percent)
      covered (inl n) le = inl n
      covered (inr h) le = inr (omega arith)

  winner_from-some_total :
      (worst : F.Float) (w : BudgetPolicy) (ps : List BudgetPolicy)
      → winner_from F worst (some w) ps ≢ none
  unfolding winner_from beats
  winner_from-some_total worst w [] h = cc
  winner_from-some_total worst w (p ∷ ps) h =
      ground (arith, winner_from-some_total worst w ps, winner_from-some_total worst p ps)

  winner_from-Wins :
      (worst : F.Float) (ps : List BudgetPolicy) (v : BudgetPolicy)
      → winner_from F worst none ps ≡ some v
      → Wins worst ps v
  unfolding winner_from beats
  winner_from-Wins worst [] v h = cc
  winner_from-Wins worst (p ∷ ps) v h = elim (Bool-cases (F.le (F.of_nat p.at_percent) worst)) [
    | inl reached ↦
        let (place, at, le, rest) = winner_from-some worst p ps v (starts reached) reached in
        record { member = first place; reached = at; highest = (inr le, rest) }
    | inr low ↦
        let w = winner_from-Wins worst ps v (ground arith) in
        record {
          member = Memᴰ.tail w.member;
          reached = w.reached;
          highest = (inl (λ r. cc), w.highest);
        }
  ]
    where
      starts : F.le (F.of_nat p.at_percent) worst ≡ true → winner_from F worst (some p) ps ≡ some v
      starts reached = ground arith

      first : (v ≡ p) ⊎ Memᴰ v ps → Memᴰ v (p ∷ ps)
      first (inl e) = Memᴰ.head e
      first (inr m) = Memᴰ.tail m

  winner_from-none :
      (worst : F.Float) (ps : List BudgetPolicy)
      → winner_from F worst none ps ≡ none
      → All (λ (q : BudgetPolicy). ¬ Reached worst q) ps
  unfolding winner_from beats
  winner_from-none worst [] h = tt
  winner_from-none worst (p ∷ ps) h = elim (Bool-cases (F.le (F.of_nat p.at_percent) worst)) [
    | inl reached ↦ absurd (winner_from-some_total worst p ps (ground arith))
    | inr low ↦ ((λ r. cc), winner_from-none worst ps (ground arith))
  ]

  -- What decide does: it takes the action of a policy that the worst utilization reaches and that
  -- has the highest threshold of those, and no action exactly if no policy is reached.
  pub decide_highest :
      (env : Env) (budget : Budget) (u : Utilization F)
      → (((decide F env budget u).action ≡ none)
          × All (λ (q : BudgetPolicy). ¬ Reached u.worst q) budget.policies)
        ⊎ ((w : BudgetPolicy) × Wins u.worst budget.policies w
            × ((decide F env budget u).action ≡ some w.action))
  unfolding decide decide_on
  decide_highest env budget u = elim (Option-cases (winner_from F u.worst none budget.policies)) [
    | inl e ↦ inl (rw e, winner_from-none u.worst budget.policies e)
    | inr (w, e) ↦ inr (w, winner_from-Wins u.worst budget.policies w e, rw e)
  ]
