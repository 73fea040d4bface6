-- ===== src/Budget/Hard.antt =====
-- Hard enforcement: internal/gateway/budget_hard.go. Inside the boundary region below a block
-- threshold a request is admitted by taking the slots of the ceilings near which it is, and holds
-- them until it settles with its cost.
pub mod Slots
pub mod Admission
pub mod Exclusive
pub mod Settle
use kubeclaw.Prelude.{
  ℕ, ◌+◌, ◌-◌, ◌%◌, ◌^◌, String, Bool, true, false, not, Option, none, some, List, [], ◌∷◌, ◌++◌,
  ltb, ◌==◌, ◌&&◌, ◌||◌, str_eq, if◌then◌else◌, is_some, length,
}
use kubeclaw.Prelude.Maps.{Map, lookup, insert, erase, get_or}
use kubeclaw.Prelude.Floats.{Floats}
use kubeclaw.Budget.Config.{
  Provider, Budget, is_block, hard_active, min_block_at, configured_margin,
}
use kubeclaw.Budget.Ledger.{ProviderLedger, BudgetLedger, zero_usd, ledger_for, store, spend}
use kubeclaw.Budget.Policy.{Env, Decision, no_decision, Utilization, utilization, decide, untracked}

-- the slot of the cluster ceiling
abbrev pub cluster_slot : String
cluster_slot = ""

-- nextToken is a uint64
abbrev pub token_mod : ℕ
token_mod = 2 ^ 64

abbrev pub is_block_action : Decision → Bool
is_block_action d = elim d.action [ none ↦ false | some a ↦ is_block a ]

unfoldable pub replicas_count : Option ℕ → ℕ
replicas_count none = 1
replicas_count (some r) = if ltb 1 r then r else 1

-- What the settle function returned by Admit has captured; `used` is its sync.Once.
pub record Grant : Type 0 where
  pub provider : String
  pub scheme : String
  pub period : String
  pub namespace : String
  pub workload : String
  pub keys : List String
  pub token : ℕ

-- the loop of settle that frees the slots this token still holds
unfoldable pub release : ℕ → List String → Map ℕ → Map ℕ
release token [] adm = adm
release token (k ∷ keys) adm =
    release token keys (if get_or 0 k adm == token then erase k adm else adm)

-- the slots that an admitted request takes
unfoldable pub slot_keys : Bool → Bool → String → List String
slot_keys ns cl namespace =
    (if ns then namespace ∷ [] else []) ++ (if cl then cluster_slot ∷ [] else [])

unfoldable pub take_slots : ℕ → List String → Map ℕ → Map ℕ
take_slots token [] adm = adm
take_slots token (k ∷ keys) adm = take_slots token keys (insert k token adm)

module _ (F : Floats) where
  open F use {Float, of_nat, add, sub, mul, div, lt, le, eq, seconds}

  -- effectiveMarginPctLocked
  unfoldable pub effective_margin : Env → ℕ → ProviderLedger F → Float → Float → Float
  effective_margin env window l ceiling configured =
      let reps = of_nat (replicas_count env.replicas) in
      let margin =
        add (mul reps l.max_cost_per_call)
          (mul (mul (sub reps (of_nat 1)) l.peak_rate) (seconds window)) in
      let pct = div (mul (of_nat 100) margin) ceiling in
      if le ceiling (zero_usd F) then configured else if lt configured pct then pct else configured

  -- Admit's view of the boundary regions
  pub record Boundary : Type 0 where
    pub in_ns : Bool
    pub in_cl : Bool
    pub widened : Bool

  unfoldable pub boundary : Env → ℕ → Budget → ProviderLedger F → Utilization F → Boundary
  boundary env window budget l u =
      let block_at = of_nat (min_block_at budget) in
      let configured = of_nat (configured_margin budget) in
      let eff_ns = effective_margin env window l u.ns_usd configured in
      let eff_cl = effective_margin env window l u.cl_usd configured in
      let in_ns = lt (zero_usd F) u.ns_usd && le (sub block_at eff_ns) u.ns_pct in
      let in_cl = lt (zero_usd F) u.cl_usd && le (sub block_at eff_cl) u.cl_pct in
      record {
        in_ns = in_ns;
        in_cl = in_cl;
        widened = (in_ns && lt configured eff_ns) || (in_cl && lt configured eff_cl);
      }

  -- a replica that cannot verify the budget's state
  unfoldable pub stale : ℕ → ℕ → ProviderLedger F → Bool
  stale now window l =
      (not (l.dirty_since == 0) && ltb window (now - l.dirty_since))
      || (l.last_fold_ok == 0 || ltb window (now - l.last_fold_ok))

  abbrev pub Admission : Type 0
  Admission = ProviderLedger F × Decision × Option Grant

  -- the end of Admit: the request takes its slots under a new token
  unfoldable pub engage :
      Env → Provider → String → String → Boundary → ProviderLedger F → Decision → Admission
  unfolding take_slots slot_keys
  engage env p ns workload r l d =
      let rising = r.widened && not l.margin_raised in
      let token = (l.next_token + 1) % token_mod in
      let keys = slot_keys r.in_ns r.in_cl ns in
      (
        record l {
          margin_raised = if r.widened then true else l.margin_raised;
          next_token = token;
          adm = take_slots token keys l.adm;
        },
        record d { boundary_engaged = true; margin_raised_now = rising },
        some (record {
          provider = p.name;
          scheme = p.budget.period;
          period = l.period;
          namespace = ns;
          workload = workload;
          keys = keys;
          token = token;
        }),
      )

  -- Admit on the provider's ledger, the lock held
  unfoldable pub admit_locked : Env → ℕ → Provider → String → String → ProviderLedger F → Admission
  admit_locked env window p ns workload l =
      let u : Utilization F = utilization F p.budget l ns in
      let d = decide F env p.budget u in
      let r = boundary env window p.budget l u in
      if not (hard_active p.budget) || is_block_action d
      then (l, d, none)
      else if is_some (lookup ns l.adm)
      then (l, record d { throttled = true }, none)
      else if is_some (lookup cluster_slot l.adm) && lt (zero_usd F) u.cl_usd
      then (l, record d { throttled = true }, none)
      else if not (r.in_ns || r.in_cl)
      then (l, d, none)
      else if stale env.now window l
      then (l, record d { unavailable = true }, none)
      else engage env p ns workload r l d

  unfoldable pub admit :
      Env → Provider → String → String → BudgetLedger F → BudgetLedger F × Decision × Option Grant
  unfolding store
  admit env p ns workload b =
      if untracked F env p.budget
      then (b, no_decision, none)
      else let (l, d, g) =
          admit_locked env b.staleness_window p ns workload
            (ledger_for F env.cal b env.now p.name p.budget.period) in
        (store F b p.name l, d, g)

  -- the slots that a settle frees: none of them if the period has rolled over
  unfoldable pub free_slots : Grant → ProviderLedger F → ProviderLedger F
  unfolding release
  free_slots g l =
      if str_eq l.period g.period then record l { adm = release g.token g.keys l.adm } else l

  unfoldable pub settle_locked : ℕ → Grant → Float → ProviderLedger F → ProviderLedger F
  unfolding free_slots
  settle_locked now g cost l =
      let l₁ = free_slots g l in
      if eq cost (zero_usd F) then l₁ else spend F now g.namespace g.workload cost l₁

  -- a send that never blocks
  unfoldable pub send_kick : String → List String → List String
  send_kick name kick = if ltb (length kick) 64 then kick ++ name ∷ [] else kick

  unfoldable pub settle : Env → Grant → Float → BudgetLedger F → BudgetLedger F
  unfolding store
  settle env g cost b =
      let l = settle_locked env.now g cost (ledger_for F env.cal b env.now g.provider g.scheme) in
      let b₁ : BudgetLedger F = store F b g.provider l in
      if eq cost (zero_usd F) then b₁ else record b₁ { kick = send_kick g.provider b₁.kick }

  -- sync.Once around settle: `used` says that it has run
  unfoldable pub settle_once : Env → Grant → Bool → Float → BudgetLedger F → Bool × BudgetLedger F
  settle_once env g used cost b = if used then (true, b) else (true, settle env g cost b)
