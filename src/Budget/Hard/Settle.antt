-- ===== src/Budget/Hard/Settle.antt =====
-- What a settle does to the slots and to the spend, and hard mode against soft mode.
use kubeclaw.Prelude.{
  ap, ◌∙◌, ℕ, String, ◌≡◌, ◌≢◌, Bool, true, false, none, some, arith, str_eq, str_eq_iff,
  str_eq_of_ne, if◌then◌else◌,
}
use kubeclaw.Prelude.Maps.{Map, lookup, get_or, lookup-insert}
use kubeclaw.Prelude.Floats.{Floats}
use kubeclaw.Budget.Config.{Provider, hard_active}
use kubeclaw.Budget.Ledger.{ProviderLedger, BudgetLedger, zero_usd, spend, track, bump}
use kubeclaw.Budget.Policy.{Env, enforce}
use kubeclaw.Budget.Hard.{Grant, admit, admit_locked, settle_once, settle_locked, free_slots}
use kubeclaw.Budget.Hard.Slots.{Held, is_key, release-Held}
use kubeclaw.Budget.Hard.Exclusive.{spend_keeps}

module _ (F : Floats) where
  settle_adm :
      (now : ℕ) (g : Grant) (cost : F.Float) (l : ProviderLedger F)
      → (settle_locked F now g cost l).adm ≡ (free_slots F g l).adm
  unfolding settle_locked
  settle_adm now g cost l =
      ground (arith, spend_keeps F now g.namespace g.workload cost (free_slots F g l))

  -- In the period of its admission a settle frees the slots that its request holds and no other,
  -- whatever it cost.
  pub settle_frees :
      (now : ℕ) (g : Grant) (cost : F.Float) (l : ProviderLedger F) (k : String)
      → l.period ≡ g.period
      → Held g.token g.keys l.adm
      → lookup k (settle_locked F now g cost l).adm
        ≡ (if is_key k g.keys then none else lookup k l.adm)
  unfolding free_slots
  settle_frees now g cost l k same held =
      rw (settle_adm now g cost l, (str_eq_iff l.period g.period).1 same)
        (release-Held g.token k g.keys l.adm held)

  -- After a rollover a settle touches no slot.
  pub settle_late_keeps :
      (now : ℕ) (g : Grant) (cost : F.Float) (l : ProviderLedger F)
      → l.period ≢ g.period
      → (settle_locked F now g cost l).adm ≡ l.adm
  unfolding free_slots
  settle_late_keeps now g cost l moved =
      rw (settle_adm now g cost l, str_eq_of_ne l.period g.period moved)

  track_own :
      (now : ℕ) (cost : F.Float) (l : ProviderLedger F)
      → ((track F now cost l).own ≡ l.own)
        × ((track F now cost l).peers ≡ l.peers)
        × ((track F now cost l).dirty_since ≡ l.dirty_since)
  unfolding track
  track_own now cost l = ground arith

  -- spending adds to one namespace's counter
  pub spend_own :
      (now : ℕ) (ns workload : String) (cost : F.Float) (l : ProviderLedger F)
      → let l' = spend F now ns workload cost l in
        (l'.own ≡ bump F ns cost l.own) × (l'.peers ≡ l.peers) × (now ≢ 0 → l'.dirty_since ≢ 0)
  unfolding spend track
  spend_own now ns workload cost l = ground arith

  free_slots_own :
      (g : Grant) (l : ProviderLedger F)
      → ((free_slots F g l).own ≡ l.own) × ((free_slots F g l).peers ≡ l.peers)
  unfolding free_slots
  free_slots_own g l = ground arith

  settle_locked_costs :
      (now : ℕ) (g : Grant) (cost : F.Float) (l : ProviderLedger F)
      → F.eq cost (zero_usd F) ≡ false
      → settle_locked F now g cost l ≡ spend F now g.namespace g.workload cost (free_slots F g l)
  unfolding settle_locked
  settle_locked_costs now g cost l nz = rw nz

  lookup-bump :
      (ns k : String) (cost : F.Float) (m : Map F.Float)
      → lookup k (bump F ns cost m)
        ≡ (if str_eq ns k then some (F.add (get_or (zero_usd F) ns m) cost) else lookup k m)
  unfolding bump
  lookup-bump ns k cost m = lookup-insert ns k (F.add (get_or (zero_usd F) ns m) cost) m

  -- A settle with a cost adds it to its namespace's own spend, whatever the period, touches no
  -- other namespace's and no peer's, and leaves the ledger marked as not published.
  pub settle_spends :
      (now : ℕ) (g : Grant) (cost : F.Float) (l : ProviderLedger F) (k : String)
      → F.eq cost (zero_usd F) ≡ false
      → now ≢ 0
      → let l' = settle_locked F now g cost l in
        (lookup k l'.own ≡ (
          if str_eq g.namespace k
          then some (F.add (get_or (zero_usd F) g.namespace l.own) cost)
          else lookup k l.own))
        × (l'.peers ≡ l.peers)
        × (l'.dirty_since ≢ 0)
  settle_spends now g cost l k nz clock =
      let kept = free_slots_own g l in
      let spent = spend_own now g.namespace g.workload cost (free_slots F g l) in
      rw (settle_locked_costs now g cost l nz) (
        ap (lookup k) (spent.0 ∙ ap (bump F g.namespace cost) kept.0)
            ∙ lookup-bump g.namespace k cost l.own,
        spent.1 ∙ kept.1,
        spent.2 clock,
      )

  -- For a provider without active hard enforcement Admit is Enforce and grants nothing.
  pub admit-enforce :
      (env : Env) (p : Provider) (ns workload : String) (b : BudgetLedger F)
      → hard_active p.budget ≡ false
      → admit F env p ns workload b ≡ ((enforce F env p ns b).0, (enforce F env p ns b).1, none)
  unfolding admit enforce admit_locked
  admit-enforce env p ns workload b soft = ground arith

  -- A settle that has run does nothing when it is called again.
  pub settle_once_idem :
      (env later : Env) (g : Grant) (used : Bool) (cost again : F.Float) (b : BudgetLedger F)
      → let (used', b') = settle_once F env g used cost b in
        settle_once F later g used' again b' ≡ (true, b')
  unfolding settle_once
  settle_once_idem env later g used cost again b = ground arith
