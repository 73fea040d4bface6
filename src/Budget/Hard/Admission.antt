-- ===== src/Budget/Hard/Admission.antt =====
-- The outcomes of Admit on a provider's ledger.
use kubeclaw.Prelude.{
  ◌⊎◌, is_some, ◌||◌, ℕ, ◌+◌, ◌%◌, String, ◌≡◌, refl, Bool, true, false, none, some, arith,
}
use kubeclaw.Prelude.Maps.{lookup}
use kubeclaw.Prelude.Floats.{Floats}
use kubeclaw.Budget.Config.{Provider, hard_active}
use kubeclaw.Budget.Ledger.{BudgetLedger, ledger_for, ProviderLedger, zero_usd}
use kubeclaw.Budget.Policy.{Env, Decision, Utilization, utilization, decide, decide_on}
use kubeclaw.Budget.Hard.{
  admit, stale, is_block_action, Grant, Boundary, boundary, engage, admit_locked, slot_keys,
  take_slots, cluster_slot, token_mod,
}
use kubeclaw.Budget.Hard.Slots.{Free}

module _ (F : Floats) where
  -- A granted admission of `ns`, from the ledger `l` to `l'`.
  pub record Granted (l l' : ProviderLedger F) (d : Decision) (g : Grant) : Type 0 where
    pub free : Free g.keys l.adm
    pub taken : l'.adm ≡ take_slots g.token g.keys l.adm
    pub fresh_token : g.token ≡ (l.next_token + 1) % token_mod
    pub next_token : l'.next_token ≡ g.token
    pub same_period : l'.period ≡ l.period
    pub own_period : g.period ≡ l.period
    pub same_own : l'.own ≡ l.own
    pub same_peers : l'.peers ≡ l.peers
    pub engaged : d.boundary_engaged ≡ true
    pub not_throttled : d.throttled ≡ false
    pub not_unavailable : d.unavailable ≡ false

  -- the policy ladder raises none of the flags of hard enforcement
  pub decide_flags :
      (env : Env) (p : Provider) (u : Utilization F)
      → let d = decide F env p.budget u in
        (d.throttled ≡ false)
        × (d.unavailable ≡ false)
        × (d.boundary_engaged ≡ false)
        × (d.margin_raised_now ≡ false)
  unfolding decide decide_on
  decide_flags env p u = ground arith

  -- the call is in the boundary region of a ceiling
  abbrev pub in_boundary : Env → ℕ → Provider → String → ProviderLedger F → Bool
  in_boundary env window p ns l =
      let r = boundary F env window p.budget l (utilization F p.budget l ns) in r.in_ns || r.in_cl

  module _ (env : Env) (window : ℕ) (p : Provider) (ns workload : String)
      (l : ProviderLedger F) where
    boundary_cl :
        (u : Utilization F)
        → (boundary F env window p.budget l u).in_cl ≡ true
        → F.lt (zero_usd F) u.cl_usd ≡ true
    unfolding boundary
    boundary_cl u h = ground arith

    slot_keys-Free :
        (a b : Bool)
        → lookup ns l.adm ≡ none
        → (b ≡ true → lookup cluster_slot l.adm ≡ none)
        → Free (slot_keys a b ns) l.adm
    unfolding slot_keys
    slot_keys-Free true true h g = (h, (g refl, tt))
    slot_keys-Free true false h g = (h, tt)
    slot_keys-Free false true h g = (g refl, tt)
    slot_keys-Free false false h g = tt

    pub admit_locked-Granted :
        (g : Grant)
        → (admit_locked F env window p ns workload l).2 ≡ some g
        → Granted l
            (admit_locked F env window p ns workload l).0
            (admit_locked F env window p ns workload l).1
            g
    unfolding admit_locked engage
    admit_locked-Granted g h =
        let u : Utilization F = utilization F p.budget l ns in
        let r : Boundary F = boundary F env window p.budget l u in
        ground (arith, decide_flags env p u, boundary_cl u, slot_keys-Free r.in_ns r.in_cl)

    -- A call that grants nothing leaves the ledger as it was.
    pub admit_locked_refused :
        (admit_locked F env window p ns workload l).2 ≡ none
        → (admit_locked F env window p ns workload l).0 ≡ l
    unfolding admit_locked engage
    admit_locked_refused h = ground arith

    -- In a boundary region of a hard budget a call is blocked, throttled, refused because the
    -- state cannot be verified, or granted on a state that is not stale.
    pub admit_locked_guarded :
        hard_active p.budget ≡ true
        → in_boundary env window p ns l ≡ true
        → let a = admit_locked F env window p ns workload l in
          (is_block_action a.1 ≡ true)
          ⊎ (a.1.throttled ≡ true)
          ⊎ (a.1.unavailable ≡ true)
          ⊎ ((is_some a.2 ≡ true) × (stale F env.now window l ≡ false))
    unfolding admit_locked engage
    admit_locked_guarded h i = ground arith

    -- While the slot of `ns` is held nothing is granted to `ns`.
    pub admit_locked_held :
        (t : ℕ) → lookup ns l.adm ≡ some t → (admit_locked F env window p ns workload l).2 ≡ none
    unfolding admit_locked
    admit_locked_held t h = ground arith

    -- A refused call has nothing to settle.
    pub admit_locked_nothing :
        let d = (admit_locked F env window p ns workload l).1 in
        d.unavailable || (d.throttled || is_block_action d) ≡ true
        → (admit_locked F env window p ns workload l).2 ≡ none
    unfolding admit_locked engage
    admit_locked_nothing h = ground (arith, decide_flags env p (utilization F p.budget l ns))

    pub admit_locked_provider :
        (g : Grant) → (admit_locked F env window p ns workload l).2 ≡ some g → g.provider ≡ p.name
    unfolding admit_locked engage
    admit_locked_provider g h = ground arith

  module _ (env : Env) (p : Provider) (ns workload : String) (b : BudgetLedger F) where
    -- Admit returns a settle only for a call that it does not refuse, and for its provider.
    pub admit_nothing :
        let d = (admit F env p ns workload b).1 in
        d.unavailable || (d.throttled || is_block_action d) ≡ true
        → (admit F env p ns workload b).2 ≡ none
    unfolding admit
    admit_nothing h = ground (
      arith,
      admit_locked_nothing env b.staleness_window p ns workload
          (ledger_for F env.cal b env.now p.name p.budget.period),
    )

    pub admit_provider :
        (g : Grant) → (admit F env p ns workload b).2 ≡ some g → g.provider ≡ p.name
    unfolding admit
    admit_provider g h = ground (
      arith,
      admit_locked_provider env b.staleness_window p ns workload
          (ledger_for F env.cal b env.now p.name p.budget.period) g,
    )
