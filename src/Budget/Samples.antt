-- ===== src/Budget/Samples.antt =====
-- Concrete budgets, over dollars in ten-thousandths: the theorems at inputs that meet their hypotheses.
use mathlib.Core.List.{Memᴰ}
use kubeclaw.Prelude.{
  String, ◌≡◌, ◌≢◌, refl, Bool, true, false, not, ◌&&◌, ◌||◌, none, some, [], ◌∷◌, arith, inl, inr,
  ◌⊎◌, is_some, str_eq, str_eq_iff, if◌then◌else◌, All,
}
use kubeclaw.Prelude.Maps.{Map, lookup, insert, get_or}
use kubeclaw.Prelude.Floats.{fixed}
use kubeclaw.Budget.Period.{Calendar}
use kubeclaw.Budget.Config.{
  Budget, BudgetPolicy, Provider, block, warn, hard, soft, hard_active, min_block_at,
  configured_margin,
}
use kubeclaw.Budget.Ledger.{
  ProviderLedger, Partial, new_provider_ledger, new_budget_ledger, spend, track, bump, zero_usd,
}
use kubeclaw.Budget.Policy.{
  Env, Utilization, utilization, spent, cluster_spent, decide, winner_from, enforce,
}
use kubeclaw.Budget.Policy.Winner.{Reached, Wins, decide_highest}
use kubeclaw.Budget.Policy.Override.{decide_overridden}
use kubeclaw.Budget.Wire.{marshal, parse_fields, parse_partial, nothing_parsed}
use kubeclaw.Budget.Wire.Roundtrip.{parse-marshal}
use kubeclaw.Budget.Wire.PeriodName.{parse_period_namespace}
use kubeclaw.Budget.Exchange.{Json, fold_partials, canonical_key}
use kubeclaw.Budget.Exchange.Fold.{is_peer, total, contributions, fold_partials-total}
use kubeclaw.Budget.Reducer.{fold_budget_keys}
use kubeclaw.Budget.Reducer.Keys.{fold_budget_keys_kept}
use kubeclaw.Budget.Reducer.Spend.{is_current, is_retired, fold_budget_keys_sums}
use kubeclaw.Budget.Hard.{
  Grant, admit, admit_locked, boundary, effective_margin, replicas_count, stale, engage,
  is_block_action, settle_locked,
}
use kubeclaw.Budget.Hard.Admission.{admit_locked_guarded, in_boundary}
use kubeclaw.Budget.Hard.Exclusive.{Reach, Step, System, Reach-NoneShared, NoneShared, fresh_system}
use kubeclaw.Budget.Hard.Settle.{settle_frees, settle_spends, admit-enforce}

abbrev cal : Calendar
cal = record {
  format = λ layout t. "2026-01";
  week_key = λ t. "2026-W01";
  weekday = λ t. 4;
  midnight = λ t. t;
  month_start = λ t. t;
  add_date = λ t y m d. t;
}

abbrev pub at_noon : Env
at_noon = record { cal = cal; now = 1000; wall = 1000; replicas = none }

abbrev block_at_90 : BudgetPolicy
block_at_90 = record { at_percent = 90; action = block; degrade_to = none }

abbrev warn_at_95 : BudgetPolicy
warn_at_95 = record { at_percent = 95; action = warn; degrade_to = none }

abbrev hundred : Budget
hundred = record {
  period = "monthly";
  per_namespace_usd = "100";
  policies = block_at_90 ∷ [];
  cluster_usd = none;
  enforcement = hard;
  hard_margin = none;
}

abbrev pub provider : Provider
provider = record {
  name = "acme";
  kind = "anthropic";
  models = [];
  allowed_namespaces = "*" ∷ [];
  budget = hundred;
  requests_per_minute = 0;
  fallback = [];
}

-- 88 of 100 dollars spent: in the boundary region below 90 percent
abbrev near_limit : ProviderLedger fixed
near_limit = record {
  period = "2026-01";
  own = ("team", 880000) ∷ [];
  peers = [];
  own_w = [];
  peers_w = [];
  adm = [];
  next_token = 0;
  max_cost_per_call = 10000;
  rate_bucket_start = 1;
  rate_bucket_sum = 0;
  peak_rate = 0;
  dirty_since = 0;
  last_fold_ok = 1000;
  margin_raised = false;
}

abbrev pub grant : Grant
grant = record {
  provider = "acme";
  scheme = "monthly";
  period = "2026-01";
  namespace = "team";
  workload = "agent/a";
  keys = "team" ∷ [];
  token = 1;
}

near_limit_granted :
    (admit_locked fixed at_noon 30000000000 provider "team" "agent/a" near_limit).2 ≡ some grant
unfolding admit_locked engage boundary effective_margin replicas_count stale utilization spent
    cluster_spent decide lookup hard_active min_block_at configured_margin winner_from
near_limit_granted = refl

in_boundary-near_limit : in_boundary fixed at_noon 30000000000 provider "team" near_limit ≡ true
unfolding boundary effective_margin replicas_count utilization spent cluster_spent lookup
    min_block_at configured_margin
in_boundary-near_limit = refl

admit_locked_guarded_example :
    let a = admit_locked fixed at_noon 30000000000 provider "team" "agent/a" near_limit in
    (is_block_action a.1 ≡ true)
    ⊎ (a.1.throttled ≡ true)
    ⊎ (a.1.unavailable ≡ true)
    ⊎ ((is_some a.2 ≡ true) × (stale fixed 1000 30000000000 near_limit ≡ false))
admit_locked_guarded_example =
    admit_locked_guarded fixed at_noon 30000000000 provider "team" "agent/a" near_limit
      (unfold hard_active in refl) in_boundary-near_limit

-- the system after a spend, a fold and a grant
abbrev one_grant : System fixed
one_grant = record {
  ledger =
      (admit_locked fixed at_noon 30000000000 provider "team" "agent/a"
        (record (spend fixed 1 "team" "agent/a" 880000 (new_provider_ledger fixed "2026-01")) {
          peers = [];
          last_fold_ok = 1000;
        })).0;
  live = grant ∷ [];
  left = [];
}

Reach-one_grant : Reach fixed (fresh_system fixed "2026-01") one_grant
unfolding admit_locked engage boundary effective_margin replicas_count stale utilization spent
    cluster_spent decide lookup hard_active min_block_at configured_margin winner_from spend track
    bump new_provider_ledger insert
Reach-one_grant =
    Reach.next
      (Reach.next (Reach.next Reach.here (Step.adds 1 "team" "agent/a" 880000))
        (Step.folds 1000 []))
      (Step.grants at_noon 30000000000 provider "team" "agent/a" grant (omega arith) refl)

Reach-NoneShared_example : NoneShared one_grant.live
Reach-NoneShared_example = Reach-NoneShared fixed "2026-01" one_grant Reach-one_grant

-- the ledger with the slot of "team" and that of another namespace held
abbrev two_held : ProviderLedger fixed
two_held = record near_limit { adm = ("team", 1) ∷ ("other", 2) ∷ []; next_token = 2 }

settle_frees_example : lookup "team" (settle_locked fixed 2000 grant 20000 two_held).adm ≡ none
unfolding lookup
settle_frees_example = settle_frees fixed 2000 grant 20000 two_held "team" refl (refl, tt)

settle_spends_example :
    let l' = settle_locked fixed 2000 grant 20000 two_held in
    (lookup "team" l'.own ≡ some 900000) × (l'.peers ≡ []) × (l'.dirty_since ≢ 0)
unfolding lookup
settle_spends_example = settle_spends fixed 2000 grant 20000 two_held "team" refl (omega arith)

-- the same provider with soft enforcement
abbrev soft_provider : Provider
soft_provider = record provider { budget = record hundred { enforcement = soft } }

admit-enforce_example :
    admit fixed at_noon soft_provider "team" "agent/a" (new_budget_ledger fixed) ≡ (
      (enforce fixed at_noon soft_provider "team" (new_budget_ledger fixed)).0,
      (enforce fixed at_noon soft_provider "team" (new_budget_ledger fixed)).1,
      none,
    )
unfolding hard_active
admit-enforce_example =
    admit-enforce fixed at_noon soft_provider "team" "agent/a" (new_budget_ledger fixed) refl

abbrev at_96 : Utilization fixed
at_96 = record {
  ns_pct = 960000;
  cl_pct = 0;
  ns_usd = 1000000;
  cl_usd = 0;
  worst = 960000;
  worst_is_cluster = false;
}

decide_highest_example :
    (((decide fixed at_noon hundred at_96).action ≡ none)
      × All (λ (q : BudgetPolicy). ¬ Reached fixed 960000 q) (block_at_90 ∷ []))
    ⊎ ((w : BudgetPolicy) × Wins fixed 960000 (block_at_90 ∷ []) w
        × ((decide fixed at_noon hundred at_96).action ≡ some w.action))
decide_highest_example = decide_highest fixed at_noon hundred at_96

-- a warning above the block policy
abbrev warned : Budget
warned = record hundred { policies = block_at_90 ∷ warn_at_95 ∷ [] }

decide_overridden_example : is_block_action (decide fixed at_noon warned at_96) ≡ false
decide_overridden_example =
    decide_overridden fixed at_noon warned at_96 warn_at_95 (Memᴰ.tail (Memᴰ.head refl)) refl
      (inr (omega arith), (inl refl, tt))

abbrev live : String → Bool
live k = str_eq k "gw-1"

abbrev json : Json
json = record {
  encode = λ m. "";
  decode = λ raw.
      if str_eq raw "now"
      then some (("period", "2026-01") ∷ ("team", "7") ∷ [])
      else if str_eq raw "past"
      then some (("period", "2025-12") ∷ ("team", "5") ∷ [])
      else none;
}

abbrev partials : Map String
partials = ("gw-1", "now") ∷ ("gw-2", "now") ∷ ("gw-3", "past") ∷ ("_canonical", "") ∷ []

fold_partials-total_example :
    get_or (zero_usd fixed) "team" (fold_partials fixed json partials "gw-1" "2026-01")
    ≡ total fixed
        (zero_usd fixed)
        (contributions fixed json (is_peer "gw-1") "2026-01" "team" partials)
fold_partials-total_example = fold_partials-total fixed json partials "gw-1" "2026-01" "team"

fold_budget_keys_kept_example :
    lookup "gw-2" (fold_budget_keys fixed json live "2026-01" partials).entries ≡ none
unfolding lookup
fold_budget_keys_kept_example =
    fold_budget_keys_kept fixed json live "2026-01" "gw-2" partials
      (refl, (refl, (refl, (refl, tt))))

fold_budget_keys_sums_example :
    let f = fold_budget_keys fixed json live "2026-01" partials in
    (get_or (zero_usd fixed) "team" f.current ≡ 70000)
    × (get_or (zero_usd fixed) "team" f.retired ≡ 70000)
    × ((k : String)
        → (is_current live k && is_retired live k ≡ false)
          × (is_current live k || is_retired live k ≡ not (str_eq k canonical_key)))
unfolding lookup parse_partial insert
fold_budget_keys_sums_example = fold_budget_keys_sums fixed json live "2026-01" "team" partials

abbrev published : Partial fixed
published = record { period = "2026-01"; spend = ("team", "7") ∷ []; margin_exceeded = true }

team_not_period : ¬ (◌≡◌ {A = String} "team" "period")
team_not_period = ground (arith, str_eq_iff "team" "period")

parse-marshal_example :
    parse_fields fixed (marshal fixed published) (nothing_parsed fixed)
    ≡ record { period = "2026-01"; spend = ("team", 70000) ∷ []; margin_exceeded = true }
unfolding lookup
parse-marshal_example =
    parse-marshal fixed published (("team", 70000) ∷ [])
      (refl, refl, team_not_period, refl, refl, tt)

parse_period_namespace_example :
    (parse_fields fixed
      (marshal fixed (record published { spend = ("period", "7") ∷ [] }))
      (nothing_parsed fixed)).period
    ≡ "7"
unfolding lookup
parse_period_namespace_example =
    parse_period_namespace fixed (record published { spend = ("period", "7") ∷ [] }) "7" (refl, tt)
      refl
