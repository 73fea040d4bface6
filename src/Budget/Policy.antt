-- ===== src/Budget/Policy.antt =====
-- Utilization and the policy ladder of internal/gateway/budget.go.
pub mod Winner
pub mod Override
use kubeclaw.Prelude.{
  ℕ, String, Bool, true, false, Option, none, some, List, [], ◌∷◌, ltb, ◌&&◌, str_eq, if◌then◌else◌,
}
use kubeclaw.Prelude.Maps.{Map, get_or}
use kubeclaw.Prelude.Floats.{Floats}
use kubeclaw.Budget.Period.{Calendar, period_key, retry_after}
use kubeclaw.Budget.Config.{Provider, Budget, BudgetPolicy, Action, degrade, is_block}
use kubeclaw.Budget.Ledger.{ProviderLedger, BudgetLedger, zero_usd, ledger_for, store}

pub record Decision : Type 0 where
  pub action : Option Action  -- none for ""
  pub degrade_to : String
  pub retry_after : ℕ
  pub percent : ℕ
  pub ceiling : String
  pub throttled : Bool
  pub unavailable : Bool
  pub boundary_engaged : Bool
  pub margin_raised_now : Bool

abbrev pub no_decision : Decision
no_decision = record {
  action = none;
  degrade_to = "";
  retry_after = 0;
  percent = 0;
  ceiling = "";
  throttled = false;
  unavailable = false;
  boundary_engaged = false;
  margin_raised_now = false;
}

-- What a call reads of its surroundings: the ledger's clock, time.Now() and the replica counter,
-- `none` where no counter was injected.
pub record Env : Type 0 where
  pub cal : Calendar
  pub now : ℕ
  pub wall : ℕ
  pub replicas : Option ℕ

-- Whether `p` replaces the winner so far, which is none or a policy.
unfoldable pub beats : BudgetPolicy → Option BudgetPolicy → Bool
beats p none = true
beats p (some w) = ltb w.at_percent p.at_percent

abbrev pub degrade_target : Action → Option String → String
degrade_target degrade (some t) = t
degrade_target _ _ = ""

module _ (F : Floats) where
  open F use {Float, of_nat, add, mul, div, lt, le, to_int, parse}

  pub record Utilization : Type 0 where
    pub ns_pct : Float
    pub cl_pct : Float
    pub ns_usd : Float
    pub cl_usd : Float
    pub worst : Float
    pub worst_is_cluster : Bool

  -- spent
  unfoldable pub spent : ProviderLedger F → String → Float
  spent l ns = add (get_or (zero_usd F) ns l.own) (get_or (zero_usd F) ns l.peers)

  unfoldable pub total_from : Float → Map Float → Float
  total_from acc [] = acc
  total_from acc ((k, v) ∷ m) = total_from (add acc v) m

  unfoldable pub cluster_spent : ProviderLedger F → Float
  unfolding total_from
  cluster_spent l = total_from (total_from (zero_usd F) l.own) l.peers

  abbrev pub unused : Utilization
  unused = record {
    ns_pct = zero_usd F;
    cl_pct = zero_usd F;
    ns_usd = zero_usd F;
    cl_usd = zero_usd F;
    worst = zero_usd F;
    worst_is_cluster = false;
  }

  -- a ceiling counts if it parses to a positive amount
  unfoldable pub ceiling_of : String → Option Float
  ceiling_of s = elim (parse s) [
    | none ↦ none
    | some c ↦ if lt (zero_usd F) c then some c else none
  ]

  unfoldable pub with_namespace : Option Float → Float → Utilization → Utilization
  with_namespace none used u = u
  with_namespace (some c) used u =
      let pct = mul (div used c) (of_nat 100) in record u { ns_usd = c; ns_pct = pct; worst = pct }

  unfoldable pub with_cluster : Option Float → Float → Utilization → Utilization
  with_cluster none used u = u
  with_cluster (some c) used u =
      let pct = mul (div used c) (of_nat 100) in
      let worse = lt u.worst pct in
      record u {
        cl_usd = c;
        cl_pct = pct;
        worst = if worse then pct else u.worst;
        worst_is_cluster = if worse then true else u.worst_is_cluster;
      }

  unfoldable pub cluster_ceiling : Budget → Option Float
  unfolding ceiling_of
  cluster_ceiling budget = elim budget.cluster_usd [ none ↦ none | some s ↦ ceiling_of s ]

  unfoldable pub utilization : Budget → ProviderLedger F → String → Utilization
  unfolding with_namespace with_cluster cluster_ceiling ceiling_of
  utilization budget l ns =
      with_cluster (cluster_ceiling budget) (cluster_spent l)
        (with_namespace (ceiling_of budget.per_namespace_usd) (spent l ns) unused)

  -- the loop of decide, from the winner so far
  unfoldable pub winner_from : Float → Option BudgetPolicy → List BudgetPolicy → Option BudgetPolicy
  winner_from worst w [] = w
  winner_from worst w (p ∷ ps) =
      winner_from worst (if le (of_nat p.at_percent) worst && beats p w then some p else w) ps

  unfoldable pub decide_on : Env → Budget → Option BudgetPolicy → Decision → Decision
  decide_on env budget none d = d
  decide_on env budget (some w) d = record d {
    action = some w.action;
    degrade_to = degrade_target w.action w.degrade_to;
    retry_after =
        if is_block w.action
        then retry_after env.cal budget.period env.now env.wall
        else d.retry_after;
  }

  unfoldable pub decide : Env → Budget → Utilization → Decision
  unfolding decide_on
  decide env budget u =
      decide_on env budget (winner_from u.worst none budget.policies) (record no_decision {
        percent = to_int u.worst;
        ceiling = if u.worst_is_cluster then "cluster" else "namespace";
      })

  abbrev pub is_empty {ℓ} : {A : Type ℓ} → List A → Bool
  is_empty [] = true
  is_empty (x ∷ xs) = false

  -- PeriodKey of scheme none, or no policy: the budget does nothing
  unfoldable pub untracked : Env → Budget → Bool
  untracked env budget =
      if str_eq (period_key env.cal budget.period env.now) ""
      then true
      else is_empty budget.policies

  unfoldable pub enforce : Env → Provider → String → BudgetLedger F → BudgetLedger F × Decision
  unfolding store
  enforce env p ns b =
      if untracked env p.budget
      then (b, no_decision)
      else let l : ProviderLedger F = ledger_for F env.cal b env.now p.name p.budget.period in
        (store F b p.name l, decide env p.budget (utilization p.budget l ns))
