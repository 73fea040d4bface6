-- ===== src/Budget/Reducer/Usage.antt =====
-- The state that a namespace's status entry shows.
use kubeclaw.Prelude.{
  ◌≡◌, refl, Bool, true, false, List, [], ◌∷◌, if◌then◌else◌, arith, any, ◌&&◌, not,
}
use kubeclaw.Prelude.Floats.{Floats}
use kubeclaw.Budget.Config.{Action, block, warn, degrade, BudgetPolicy, is_block}
use kubeclaw.Budget.Reducer.{BudgetState, normal, throttled, blocked, usage_state}

abbrev pub is_degrade : Action → Bool
is_degrade degrade = true
is_degrade block = false
is_degrade warn = false

abbrev pub is_blocked : BudgetState → Bool
is_blocked blocked = true
is_blocked throttled = false
is_blocked normal = false

module _ (F : Floats) where
  -- the policy's threshold is not above the percentage
  abbrev pub fires : F.Float → BudgetPolicy → Bool
  fires percent p = not (F.lt percent (F.of_nat p.at_percent))

  usage_state_blocked :
      (percent : F.Float) (ps : List BudgetPolicy) → usage_state F percent ps blocked ≡ blocked
  unfolding usage_state
  usage_state_blocked percent [] = refl
  usage_state_blocked percent (p ∷ ps) = ground (arith, usage_state_blocked percent ps)

  usage_state_throttled :
      (percent : F.Float) (ps : List BudgetPolicy)
      → usage_state F percent ps throttled ≡ (
          if any (λ (p : BudgetPolicy). fires percent p && is_block p.action) ps
          then blocked
          else throttled)
  unfolding usage_state
  usage_state_throttled percent [] = refl
  usage_state_throttled percent (p ∷ ps) =
      ground (arith, usage_state_throttled percent ps, usage_state_blocked percent ps)

  -- The state of a namespace at a percentage: blocked if any block policy's threshold is reached,
  -- else throttled if any degrade policy's is, else normal, in whatever order the policies stand.
  pub usage_state_worst :
      (percent : F.Float) (ps : List BudgetPolicy)
      → usage_state F percent ps normal ≡ (
          if any (λ (p : BudgetPolicy). fires percent p && is_block p.action) ps
          then blocked
          else if any (λ (p : BudgetPolicy). fires percent p && is_degrade p.action) ps
          then throttled
          else normal)
  unfolding usage_state
  usage_state_worst percent [] = refl
  usage_state_worst percent (p ∷ ps) = ground (
    arith,
    usage_state_worst percent ps,
    usage_state_throttled percent ps,
    usage_state_blocked percent ps,
  )
