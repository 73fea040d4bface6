-- ===== src/Budget/Exchange.antt =====
-- The replica side of the budget counter exchange: BudgetPublisher of internal/gateway/budget.go.
-- Reads and writes of the ConfigMaps are the API server's: a read is an argument, and a write is
-- returned, with the outcome that the server gave it as an argument.
pub mod Fold
use kubeclaw.Prelude.{
  ℕ, String, Bool, true, false, Option, none, some, List, [], ◌∷◌, ◌++◌, ◌||◌, not, str_eq,
  if◌then◌else◌,
}
use kubeclaw.Prelude.Maps.{Map, lookup, insert}
use kubeclaw.Prelude.Floats.{Floats}
use kubeclaw.Budget.Period.{Calendar, period_key}
use kubeclaw.Budget.Config.{Provider}
use kubeclaw.Budget.Ledger.{
  BudgetLedger, Partial, own_partial, mark_published, fold_peers, fold_workload_peers, formats,
}
use kubeclaw.Budget.Wire.{Parsed, marshal, parse_partial, sum_into}

abbrev pub canonical_key : String
canonical_key = "_canonical"

abbrev pub retired_key : String
retired_key = "_retired"

-- encoding/json on objects of strings
pub record Json : Type 0 where
  pub encode : Map String → String
  pub decode : String → Option (Map String)

-- A Get of a ConfigMap.
pub data Read : Type 0 where
  found : Map String → Read
  not_found : Read
  failed : Read

-- A server-side apply of one key.
pub data Write : Type 0 where
  budget_write workload_write : String → String → String → Write

module _ (F : Floats) where
  -- own_partial's sibling for workloads
  unfoldable pub own_workload_partial : BudgetLedger F → String → Option (Partial F)
  own_workload_partial b name = elim (lookup name b.providers) [
    | none ↦ none
    | some l ↦ elim l.own_w [
      | [] ↦ none
      | e ∷ own ↦
          some (record { period = l.period; spend = formats F (e ∷ own); margin_exceeded = false })
    ]
  ]

  -- The partial of `key` counts for a replica of the given name.
  unfoldable pub counts_for : String → String → Bool
  counts_for own_pod key = not (str_eq key own_pod || str_eq key canonical_key)

  unfoldable pub add_partial : String → Option (Parsed F) → Map F.Float → Map F.Float
  add_partial current none peers = peers
  add_partial current (some p) peers =
      if str_eq p.period current then sum_into F p.spend peers else peers

  unfoldable pub fold_from : Json → String → String → Map String → Map F.Float → Map F.Float
  unfolding add_partial counts_for
  fold_from json own_pod current [] peers = peers
  fold_from json own_pod current ((key, raw) ∷ m) peers = fold_from json own_pod current m (
      if counts_for own_pod key
      then add_partial current (parse_partial F json.decode raw) peers
      else peers)

  unfoldable pub fold_partials : Json → Map String → String → String → Map F.Float
  unfolding fold_from
  fold_partials json m own_pod current = fold_from json own_pod current m []

  -- publish: `applied` is whether the server took the budget partial
  unfoldable pub publish :
      Json → String → ℕ → Bool → Provider → BudgetLedger F → BudgetLedger F × List Write
  publish json pod snapshot applied p b = elim (own_partial F b p.name) [
    | none ↦ (b, [])
    | some own ↦
        let w = budget_write p.name pod (json.encode (marshal F own)) in
        if applied
        then (
          mark_published F p.name snapshot b,
          w ∷ elim (own_workload_partial (mark_published F p.name snapshot b) p.name) [
            | none ↦ []
            | some work ↦ workload_write p.name pod (json.encode (marshal F work)) ∷ []
          ],
        )
        else (b, w ∷ [])
  ]

  unfoldable pub fold_workloads :
      Json → Calendar → ℕ → String → Read → Provider → BudgetLedger F → BudgetLedger F
  fold_workloads json cal now pod (found m) p b =
      fold_workload_peers F cal now p
        (fold_partials json m pod (period_key cal p.budget.period now)) b
  fold_workloads json cal now pod not_found p b = fold_workload_peers F cal now p [] b
  fold_workloads json cal now pod failed p b = b

  -- fold, with the reads of the budget and of the workload ConfigMap
  unfoldable pub fold :
      Json → Calendar → ℕ → String → Read → Read → Provider → BudgetLedger F → BudgetLedger F
  unfolding fold_workloads
  fold json cal now pod (found m) work p b =
      fold_workloads json cal now pod work p
        (fold_peers F cal now p (fold_partials json m pod (period_key cal p.budget.period now)) b)
  fold json cal now pod not_found work p b = fold_peers F cal now p [] b
  fold json cal now pod failed work p b = b

  -- one provider's turn of tick
  unfoldable pub tick_provider :
      Json
      → Calendar
      → ℕ
      → String
      → Bool
      → Read
      → Read
      → Provider
      → BudgetLedger F
      → BudgetLedger F × List Write
  tick_provider json cal now pod applied budget work p b =
      if str_eq (period_key cal p.budget.period now) ""
      then (b, [])
      else let (b₁, ws) = publish json pod now applied p b in
        (fold json cal now pod budget work p b₁, ws)

  -- the amounts of _canonical that parse
  unfoldable pub amounts_of : Map String → Map F.Float → Map F.Float
  amounts_of [] acc = acc
  amounts_of ((ns, v) ∷ m) acc =
      amounts_of m (elim (F.parse v) [ none ↦ acc | some f ↦ insert ns f acc ])

  -- one provider's turn of SeedFromCanonical
  unfoldable pub seed : Json → Calendar → ℕ → Read → Provider → BudgetLedger F → BudgetLedger F
  unfolding amounts_of
  seed json cal now not_found p b = b
  seed json cal now failed p b = b
  seed json cal now (found m) p b = elim (lookup canonical_key m) [
    | none ↦ b
    | some raw ↦ elim (json.decode raw) [
      | none ↦ b
      | some flat ↦ fold_peers F cal now p (amounts_of flat []) b
    ]
  ]
