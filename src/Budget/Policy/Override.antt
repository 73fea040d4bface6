-- ===== src/Budget/Policy/Override.antt =====
-- A block policy under a policy with a higher threshold.
use mathlib.Core.List.{Memᴰ}
use kubeclaw.Prelude.{◌≡◌, ◌<◌, ◌≤◌, ◌⊎◌, inl, inr, false, List, [], ◌∷◌, arith, All}
use kubeclaw.Prelude.Floats.{Floats}
use kubeclaw.Budget.Config.{BudgetPolicy, Budget, is_block}
use kubeclaw.Budget.Policy.{Env, Utilization, decide}
use kubeclaw.Budget.Policy.Winner.{Reached, decide_highest}
use kubeclaw.Budget.Hard.{is_block_action}

All-mem {ℓ κ} : {A : Type ℓ} (P : A → Type κ) (a : A) (xs : List A) → All P xs → Memᴰ a xs → P a
All-mem P a [] h m = elim m [ ]
All-mem P a (x ∷ xs) h (Memᴰ.head e) = rw e h.0
All-mem P a (x ∷ xs) h (Memᴰ.tail m) = All-mem P a xs h.1 m

-- a policy that does not block, or blocks only below the threshold `at`
abbrev pub BlocksBelow : BudgetPolicy → BudgetPolicy → Type 0
BlocksBelow q p = (is_block p.action ≡ false) ⊎ (p.at_percent < q.at_percent)

module _ (F : Floats) where
  -- Once the worst utilization reaches a policy that does not block and whose threshold is above
  -- that of every block policy, decide does not block, however far the spend goes.
  pub decide_overridden :
      (env : Env) (budget : Budget) (u : Utilization F) (q : BudgetPolicy)
      → Memᴰ q budget.policies
      → Reached F u.worst q
      → All (BlocksBelow q) budget.policies
      → is_block_action (decide F env budget u) ≡ false
  decide_overridden env budget u q member reached below = elim (decide_highest F env budget u) [
    | inl (e, _) ↦ ground arith
    | inr (w, wins, e) ↦
        let top =
          All-mem (λ p. (¬ Reached F u.worst p) ⊎ (p.at_percent ≤ w.at_percent)) q budget.policies
            wins.highest member in
        let under = All-mem (BlocksBelow q) w budget.policies below wins.member in
        rw e (not_block w top under)
  ]
    where
      not_block :
          (w : BudgetPolicy)
          → (¬ Reached F u.worst q) ⊎ (q.at_percent ≤ w.at_percent)
          → BlocksBelow q w
          → is_block w.action ≡ false
      not_block w (inl n) under = absurd (n reached)
      not_block w (inr le) (inl e) = e
      not_block w (inr le) (inr lt) = absurd (omega arith)
