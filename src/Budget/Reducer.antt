-- ===== src/Budget/Reducer.antt =====
-- The controller's reducer over a budget ConfigMap: foldBudgetKeys, reconcileBudget and
-- budgetUsageEntries of internal/controller/modelprovider_budget.go.
pub mod Keys
pub mod Spend
pub mod Usage
use kubeclaw.Prelude.{
  String, Bool, true, false, Option, none, some, List, [], ◌∷◌, ◌++◌, ◌||◌, not, str_eq,
  if◌then◌else◌, map, ℕ,
}
use kubeclaw.Prelude.Maps.{Map, lookup, insert, erase, get_or}
use kubeclaw.Prelude.Floats.{Floats}
use kubeclaw.Budget.Config.{Action, block, warn, degrade, Budget, BudgetPolicy}
use kubeclaw.Budget.Ledger.{Partial, formats, bump, zero_usd}
use kubeclaw.Budget.Wire.{Parsed, marshal, parse_partial, sum_into, retired_partial}
use kubeclaw.Budget.Exchange.{Json, canonical_key, retired_key}

pub data BudgetState : Type 0 where
  normal throttled blocked : BudgetState

module _ (F : Floats) where
  -- budgetFold, with the ConfigMap's data, from which the walk deletes
  pub record BudgetFold : Type 0 where
    pub current : Map F.Float
    pub retired : Map F.Float
    pub previous : Map F.Float
    pub previous_period : String
    pub changed : Bool
    pub retired_changed : Bool
    pub margin_raised : Bool
    pub entries : Map String

  abbrev pub start_fold : Map String → BudgetFold
  start_fold m = record {
    current = [];
    retired = [];
    previous = [];
    previous_period = "";
    changed = false;
    retired_changed = false;
    margin_raised = false;
    entries = m;
  }

  -- an old period's totals, and the deletion of their key
  unfoldable pub archive : String → Parsed F → BudgetFold → BudgetFold
  archive k p f = record f {
    previous_period = p.period;
    previous = sum_into F p.spend f.previous;
    entries = erase k f.entries;
    changed = true;
  }

  unfoldable pub drop_key : String → BudgetFold → BudgetFold
  drop_key k f = record f { entries = erase k f.entries; changed = true }

  -- the _retired accumulator
  unfoldable pub reduce_retired : String → String → Option (Parsed F) → BudgetFold → BudgetFold
  unfolding archive
  reduce_retired current k none f = f
  reduce_retired current k (some p) f =
      if str_eq p.period current
      then record f { retired = sum_into F p.spend f.retired }
      else archive k p f

  -- a key with no live gateway Pod
  unfoldable pub reduce_dead : String → String → Option (Parsed F) → BudgetFold → BudgetFold
  unfolding archive drop_key
  reduce_dead current k none f = drop_key k f
  reduce_dead current k (some p) f =
      if str_eq p.period current
      then drop_key k (record f { retired = sum_into F p.spend f.retired; retired_changed = true })
      else archive k p f

  -- a live replica's key
  unfoldable pub reduce_live : String → String → Option (Parsed F) → BudgetFold → BudgetFold
  unfolding archive
  reduce_live current k none f = f
  reduce_live current k (some p) f =
      if str_eq p.period current
      then record f {
        current = sum_into F p.spend f.current;
        margin_raised = if p.margin_exceeded then true else f.margin_raised;
      }
      else archive k p f

  unfoldable pub reduce_key :
      (String → Bool) → String → String → Option (Parsed F) → BudgetFold → BudgetFold
  unfolding reduce_retired reduce_dead reduce_live
  reduce_key live current k parsed f =
      if str_eq k canonical_key
      then f
      else if str_eq k retired_key
      then reduce_retired current k parsed f
      else if not (live k)
      then reduce_dead current k parsed f
      else reduce_live current k parsed f

  unfoldable pub reduce_from :
      Json → (String → Bool) → String → Map String → BudgetFold → BudgetFold
  reduce_from json live current [] f = f
  reduce_from json live current ((k, raw) ∷ m) f =
      reduce_from json live current m
        (reduce_key live current k (parse_partial F json.decode raw) f)

  unfoldable pub fold_budget_keys : Json → (String → Bool) → String → Map String → BudgetFold
  unfolding reduce_from
  fold_budget_keys json live current m = reduce_from json live current m (start_fold m)

  -- the ConfigMap that reconcileBudget updates to, and whether it updates it
  unfoldable pub with_retired : Json → String → BudgetFold → Map String × Bool
  with_retired json current f =
      if f.retired_changed
      then (
        insert retired_key (json.encode (marshal F (retired_partial F current f.retired)))
            f.entries,
        true,
      )
      else (f.entries, f.changed)

  unfoldable pub with_canonical : Json → Map F.Float → Map String × Bool → Map String × Bool
  with_canonical json total (m, changed) =
      let raw = json.encode (formats F total) in
      if str_eq (get_or "" canonical_key m) raw
      then (m, changed)
      else (insert canonical_key raw m, true)

  -- current[ns] += v for the retired amounts: what everyone must see
  unfoldable pub visible : BudgetFold → Map F.Float
  visible f = sum_into F f.retired f.current

  unfoldable pub reconcile_map : Json → (String → Bool) → String → Map String → Map String × Bool
  unfolding with_retired with_canonical visible
  reconcile_map json live current m =
      let f = fold_budget_keys json live current m in
      with_canonical json (visible f) (with_retired json current f)

  -- the loop over the policies in budgetUsageEntries
  unfoldable pub usage_state : F.Float → List BudgetPolicy → BudgetState → BudgetState
  usage_state percent [] state = state
  usage_state percent (p ∷ ps) state = usage_state percent ps (
      if F.lt percent (F.of_nat p.at_percent) then state else elim p.action [
        | block ↦ blocked
        | degrade ↦ elim state [ blocked ↦ blocked | _ ↦ throttled ]
        | warn ↦ state
      ])

  pub record UsageEntry : Type 0 where
    pub namespace : String
    pub period : String
    pub spent_usd : String
    pub percent_used : ℕ
    pub state : BudgetState

  unfoldable pub usage_entry : Budget → String → String × F.Float → UsageEntry
  usage_entry budget period (ns, spent) =
      let ceiling : F.Float = elim (F.parse budget.per_namespace_usd) [
        | none ↦ zero_usd F
        | some c ↦ c
      ] in
      let percent = F.mul (F.div spent ceiling) (F.of_nat 100) in
      let capped = F.lt (zero_usd F) ceiling in
      record {
        namespace = ns;
        period = period;
        spent_usd = F.format spent;
        percent_used = if capped then F.to_int percent else 0;
        state = if capped then usage_state percent budget.policies normal else normal;
      }

  -- one entry for each namespace, `sorted` by sort.Strings on the names
  unfoldable pub usage_entries :
      (Map F.Float → Map F.Float) → Budget → String → Map F.Float → List UsageEntry
  unfolding usage_entry
  usage_entries sorted budget period spend = map (usage_entry budget period) (sorted spend)
