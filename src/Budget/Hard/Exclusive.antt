-- ===== src/Budget/Hard/Exclusive.antt =====
-- The requests in flight on one provider's ledger, and why no two of them share a slot.
use mathlib.Core.List.{Memᴰ, append_assoc}
use kubeclaw.Prelude.{
  ◌∙◌, ap, Bool-cases, inl, inr, All-at, All-drop, All-left, All-imp, ℕ, ◌+◌, ◌<◌, ◌≤◌, String, ◌≡◌,
  ◌≢◌, refl, sym, none, some, List, [], ◌∷◌, ◌++◌, arith, All, str_eq, if◌then◌else◌,
}
use kubeclaw.Prelude.Maps.{Map, lookup}
use kubeclaw.Prelude.Floats.{Floats}
use kubeclaw.Budget.Config.{Provider}
use kubeclaw.Budget.Ledger.{ProviderLedger, roll_over, spend, track, published, new_provider_ledger}
use kubeclaw.Budget.Policy.{Env}
use kubeclaw.Budget.Hard.{
  Grant, admit_locked, settle_locked, free_slots, take_slots, release, token_mod,
}
use kubeclaw.Budget.Hard.Slots.{
  Held, Free, release_other, take_slots_other, take_slots-Held, Free-ne,
}
use kubeclaw.Budget.Hard.Admission.{admit_locked-Granted, admit_locked_refused}

-- no slot in both lists
abbrev pub Apart : List String → List String → Type 0
Apart xs ys = (k : String) → ¬ (Memᴰ k xs × Memᴰ k ys)

-- no slot in the keys of two grants
abbrev pub NoneShared : List Grant → Type 0
NoneShared [] = Unit
NoneShared (g ∷ gs) = All (λ h. Apart g.keys h.keys) gs × NoneShared gs

-- Newest first: every token is below those in front of it.
abbrev pub Descends : List Grant → Type 0
Descends [] = Unit
Descends (g ∷ gs) = All (λ h. h.token < g.token) gs × Descends gs

module _ (F : Floats) where
  -- The ledger, the grants of the current period that have not settled, newest first, and those
  -- that the last rollovers left behind.
  pub record System : Type 0 where
    pub ledger : ProviderLedger F
    pub live : List Grant
    pub left : List Grant

  -- One locked section of a method on the ledger, in any order that the callers come.
  pub data Step (s : System) : System → Type 0 where
    -- ledgerFor in a new period
    rolls :
        (period : String)
        → s.ledger.period ≢ period
        → Step s
            (record { ledger = roll_over F period s.ledger; live = []; left = s.live ++ s.left })
    -- Admit with a settle
    grants :
        (env : Env) (window : ℕ) (p : Provider) (ns workload : String) (g : Grant)
        → s.ledger.next_token + 1 < token_mod
        → (admit_locked F env window p ns workload s.ledger).2 ≡ some g
        → Step s (record s {
          ledger = (admit_locked F env window p ns workload s.ledger).0;
          live = g ∷ s.live;
        })
    -- Admit without one
    refuses :
        (env : Env) (window : ℕ) (p : Provider) (ns workload : String)
        → (admit_locked F env window p ns workload s.ledger).2 ≡ none
        → Step s (record s { ledger = (admit_locked F env window p ns workload s.ledger).0 })
    -- a settle in the period of its admission
    settles :
        (now : ℕ) (cost : F.Float) (g : Grant) (before after : List Grant)
        → s.live ≡ before ++ g ∷ after
        → Step s (record s { ledger = settle_locked F now g cost s.ledger; live = before ++ after })
    -- a settle after a rollover
    settles_late :
        (now : ℕ) (cost : F.Float) (g : Grant) (before after : List Grant)
        → s.left ≡ before ++ g ∷ after
        → Step s (record s { ledger = settle_locked F now g cost s.ledger; left = before ++ after })
    adds :
        (now : ℕ) (ns workload : String) (cost : F.Float)
        → Step s (record s { ledger = spend F now ns workload cost s.ledger })
    folds :
        (now : ℕ) (peers : Map F.Float)
        → Step s (record s { ledger = record s.ledger { peers = peers; last_fold_ok = now } })
    publishes : (snapshot : ℕ) → Step s (record s { ledger = published F snapshot s.ledger })

  pub data Reach (s : System) : System → Type 0 where
    here : Reach s s
    next : {t u : System} → Reach s t → Step t u → Reach s u

  pub record Inv (s : System) : Type 0 where
    pub held : All (λ (g : Grant). Held g.token g.keys s.ledger.adm) s.live
    pub bounded : All (λ (g : Grant). g.token ≤ s.ledger.next_token) (s.live ++ s.left)
    pub descends : Descends (s.live ++ s.left)

Descends-drop :
    (xs : List Grant) (g : Grant) (ys : List Grant) → Descends (xs ++ g ∷ ys) → Descends (xs ++ ys)
Descends-drop [] g ys h = h.1
Descends-drop (x ∷ xs) g ys h =
    (All-drop (λ (h : Grant). h.token < x.token) xs g ys h.0, Descends-drop xs g ys h.1)

Descends-left : (xs ys : List Grant) → Descends (xs ++ ys) → Descends xs
Descends-left [] ys h = tt
Descends-left (x ∷ xs) ys h =
    (All-left (λ (h : Grant). h.token < x.token) xs ys h.0, Descends-left xs ys h.1)

-- no other grant of the list has the token of `g`
Descends-ne :
    (xs : List Grant) (g : Grant) (ys : List Grant)
    → Descends (xs ++ g ∷ ys)
    → All (λ (h : Grant). h.token ≢ g.token) (xs ++ ys)
Descends-ne [] g ys h = All-imp (λ k lt. omega arith) ys h.0
Descends-ne (x ∷ xs) g ys h =
    let below = All-at (λ (h : Grant). h.token < x.token) xs g ys h.0 in
    (omega arith, Descends-ne xs g ys h.1)

Held-release :
    (t u : ℕ) (keys freed : List String) (adm : Map ℕ)
    → u ≢ t
    → Held u keys adm
    → Held u keys (release t freed adm)
Held-release t u [] freed adm ne h = tt
Held-release t u (k ∷ keys) freed adm ne h =
    (release_other t u k freed adm h.0 ne, Held-release t u keys freed adm ne h.1)

Held-take :
    (t u : ℕ) (keys taken : List String) (adm : Map ℕ)
    → Free taken adm
    → Held u keys adm
    → Held u keys (take_slots t taken adm)
Held-take t u [] taken adm free h = tt
Held-take t u (k ∷ keys) taken adm free h = (
  take_slots_other t u k taken adm (Free-ne u k taken adm free h.0) ∙ h.0,
  Held-take t u keys taken adm free h.1,
)

module _ (F : Floats) where
  pub spend_keeps :
      (now : ℕ) (ns workload : String) (cost : F.Float) (l : ProviderLedger F)
      → let l' = spend F now ns workload cost l in
        (l'.adm ≡ l.adm) × (l'.next_token ≡ l.next_token) × (l'.period ≡ l.period)
  unfolding spend track
  spend_keeps now ns workload cost l = ground arith

  settle_keeps :
      (now : ℕ) (g : Grant) (cost : F.Float) (l : ProviderLedger F)
      → let l' = settle_locked F now g cost l in
        (l'.adm ≡ (if str_eq l.period g.period then release g.token g.keys l.adm else l.adm))
        × (l'.next_token ≡ l.next_token)
        × (l'.period ≡ l.period)
  unfolding settle_locked
  settle_keeps now g cost l = ground (
    arith,
    spend_keeps now g.namespace g.workload cost l,
    spend_keeps now g.namespace g.workload cost (free_slots F g l),
  )

  -- a grant with another token keeps its slots when `g` settles
  Held-settle :
      (now : ℕ) (g h : Grant) (cost : F.Float) (l : ProviderLedger F)
      → h.token ≢ g.token
      → Held h.token h.keys l.adm
      → Held h.token h.keys (settle_locked F now g cost l).adm
  Held-settle now g h cost l ne held =
      rw (settle_keeps now g cost l).0 (elim (Bool-cases (str_eq l.period g.period)) [
        | inl same ↦ rw same (Held-release g.token h.token h.keys g.keys l.adm ne held)
        | inr moved ↦ rw moved held
      ])

  Held-settle-All :
      (now : ℕ) (g : Grant) (cost : F.Float) (l : ProviderLedger F) (gs : List Grant)
      → All (λ (h : Grant). h.token ≢ g.token) gs
      → All (λ (h : Grant). Held h.token h.keys l.adm) gs
      → All (λ (h : Grant). Held h.token h.keys (settle_locked F now g cost l).adm) gs
  Held-settle-All now g cost l [] ne held = tt
  Held-settle-All now g cost l (h ∷ gs) ne held =
      (Held-settle now g h cost l ne.0 held.0, Held-settle-All now g cost l gs ne.1 held.1)

  published_keeps :
      (snapshot : ℕ) (l : ProviderLedger F)
      → let l' = published F snapshot l in (l'.adm ≡ l.adm) × (l'.next_token ≡ l.next_token)
  unfolding published
  published_keeps snapshot l = ground arith

  roll_over_keeps :
      (period : String) (l : ProviderLedger F) → (roll_over F period l).next_token ≡ l.next_token
  unfolding roll_over
  roll_over_keeps period l = ground arith

  grant-Inv :
      (s : System F) (env : Env) (window : ℕ) (p : Provider) (ns workload : String) (g : Grant)
      → s.ledger.next_token + 1 < token_mod
      → (admit_locked F env window p ns workload s.ledger).2 ≡ some g
      → Inv F s
      → Inv F (record s {
        ledger = (admit_locked F env window p ns workload s.ledger).0;
        live = g ∷ s.live;
      })
  grant-Inv s env window p ns workload g room e v =
      let r = admit_locked-Granted F env window p ns workload s.ledger g e in
      let fresh : g.token ≡ s.ledger.next_token + 1 = omega (arith, r.fresh_token) in
      record {
        held = (
          rw r.taken (take_slots-Held g.token g.keys s.ledger.adm),
          All-imp
              (λ h held.
                rw r.taken (Held-take g.token h.token h.keys g.keys s.ledger.adm r.free held))
              s.live v.held,
        );
        bounded = (
          omega (arith, r.next_token),
          All-imp (λ h le. omega (arith, r.next_token, fresh)) (s.live ++ s.left) v.bounded,
        );
        descends =
            (All-imp (λ h le. omega (arith, fresh)) (s.live ++ s.left) v.bounded, v.descends);
      }

  settle-Inv :
      (s : System F) (now : ℕ) (cost : F.Float) (g : Grant) (before after : List Grant)
      → s.live ≡ before ++ g ∷ after
      → Inv F s
      → Inv F (record s { ledger = settle_locked F now g cost s.ledger; live = before ++ after })
  settle-Inv s now cost g before after e v =
      let le : Grant → Type 0 = λ h. h.token ≤ s.ledger.next_token in
      let whole : s.live ++ s.left ≡ before ++ g ∷ (after ++ s.left) =
        rw e (append_assoc before (g ∷ after) s.left) in
      let rest : (before ++ after) ++ s.left ≡ before ++ (after ++ s.left) =
        append_assoc before after s.left in
      let ordered = rw whole at v.descends in
      let held = rw e at v.held in
      let others =
        Descends-ne before g after
          (Descends-left (before ++ g ∷ after) s.left (rw e at v.descends)) in
      record {
        held =
            Held-settle-All now g cost s.ledger (before ++ after) others
              (All-drop (λ (h : Grant). Held h.token h.keys s.ledger.adm) before g after held);
        bounded =
            rw ((settle_keeps now g cost s.ledger).1, rest)
              (All-drop le before g (after ++ s.left) (rw whole at v.bounded));
        descends = rw rest (Descends-drop before g (after ++ s.left) ordered);
      }

  settle_late-Inv :
      (s : System F) (now : ℕ) (cost : F.Float) (g : Grant) (before after : List Grant)
      → s.left ≡ before ++ g ∷ after
      → Inv F s
      → Inv F (record s { ledger = settle_locked F now g cost s.ledger; left = before ++ after })
  settle_late-Inv s now cost g before after e v =
      let le : Grant → Type 0 = λ h. h.token ≤ s.ledger.next_token in
      let whole : s.live ++ s.left ≡ (s.live ++ before) ++ g ∷ after =
        rw e (sym (append_assoc s.live before (g ∷ after))) in
      let rest : s.live ++ (before ++ after) ≡ (s.live ++ before) ++ after =
        sym (append_assoc s.live before after) in
      let ordered = rw whole at v.descends in
      let others =
        All-left (λ (h : Grant). h.token ≢ g.token) s.live (before ++ after)
          (rw rest (Descends-ne (s.live ++ before) g after ordered)) in
      record {
        held = Held-settle-All now g cost s.ledger s.live others v.held;
        bounded =
            rw ((settle_keeps now g cost s.ledger).1, rest)
              (All-drop le (s.live ++ before) g after (rw whole at v.bounded));
        descends = rw rest (Descends-drop (s.live ++ before) g after ordered);
      }

  same-Inv :
      (s : System F) (l : ProviderLedger F)
      → l.adm ≡ s.ledger.adm
      → l.next_token ≡ s.ledger.next_token
      → Inv F s
      → Inv F (record s { ledger = l })
  same-Inv s l same_adm same_token v = record {
    held = rw same_adm v.held;
    bounded = rw same_token v.bounded;
    descends = v.descends;
  }

  pub Step-Inv : {s t : System F} → Step F s t → Inv F s → Inv F t
  Step-Inv {s} (rolls period moved) v = record {
    held = tt;
    bounded = rw (roll_over_keeps period s.ledger) v.bounded;
    descends = v.descends;
  }
  Step-Inv {s} (grants env window p ns workload g room e) v =
      grant-Inv s env window p ns workload g room e v
  Step-Inv {s} (refuses env window p ns workload e) v =
      let kept = admit_locked_refused F env window p ns workload s.ledger e in
      same-Inv s _ (ap (λ (l : ProviderLedger F). l.adm) kept)
        (ap (λ (l : ProviderLedger F). l.next_token) kept) v
  Step-Inv {s} (settles now cost g before after e) v = settle-Inv s now cost g before after e v
  Step-Inv {s} (settles_late now cost g before after e) v =
      settle_late-Inv s now cost g before after e v
  Step-Inv {s} (adds now ns workload cost) v =
      let kept = spend_keeps now ns workload cost s.ledger in same-Inv s _ kept.0 kept.1 v
  Step-Inv {s} (folds now peers) v = same-Inv s _ refl refl v
  Step-Inv {s} (publishes snapshot) v =
      let kept = published_keeps snapshot s.ledger in same-Inv s _ kept.0 kept.1 v

  pub Reach-Inv : {s t : System F} → Inv F s → Reach F s t → Inv F t
  Reach-Inv v here = v
  Reach-Inv v (next r st) = Step-Inv st (Reach-Inv v r)

  abbrev pub fresh_system : String → System F
  fresh_system period = record { ledger = new_provider_ledger F period; live = []; left = [] }

  fresh_system-Inv : (period : String) → Inv F (fresh_system period)
  fresh_system-Inv period = record { held = tt; bounded = tt; descends = tt }

lookup-Held :
    (t : ℕ) (k : String) (keys : List String) (adm : Map ℕ)
    → Held t keys adm
    → Memᴰ k keys
    → lookup k adm ≡ some t
lookup-Held t k [] adm h m = elim m [ ]
lookup-Held t k (z ∷ keys) adm h (Memᴰ.head e) = rw e h.0
lookup-Held t k (z ∷ keys) adm h (Memᴰ.tail m) = lookup-Held t k keys adm h.1 m

-- grants that hold their slots under different tokens have none in common
Held-Apart :
    (t u : ℕ) (xs ys : List String) (adm : Map ℕ)
    → t ≢ u
    → Held t xs adm
    → Held u ys adm
    → Apart xs ys
Held-Apart t u xs ys adm ne hx hy k (mx, my) =
    ne (cc (lookup-Held t k xs adm hx mx, lookup-Held u k ys adm hy my))

Held-NoneShared :
    (gs : List Grant) (adm : Map ℕ)
    → Descends gs
    → All (λ (g : Grant). Held g.token g.keys adm) gs
    → NoneShared gs
Held-NoneShared [] adm d h = tt
Held-NoneShared (g ∷ gs) adm d h = (all_apart gs d.0 h.1, Held-NoneShared gs adm d.1 h.1)
  where
    all_apart :
        (hs : List Grant)
        → All (λ (k : Grant). k.token < g.token) hs
        → All (λ (k : Grant). Held k.token k.keys adm) hs
        → All (λ (k : Grant). Apart g.keys k.keys) hs
    all_apart [] lt held = tt
    all_apart (k ∷ hs) lt held = (
      Held-Apart g.token k.token g.keys k.keys adm (omega arith) h.0 held.0,
      all_apart hs lt.1 held.1,
    )

module _ (F : Floats) where
  -- After any interleaving of admissions, settles, spends, folds, publishes and rollovers from a
  -- new ledger, no two requests admitted in the current period and not yet settled hold a common
  -- slot: each ceiling has at most one request in flight.
  pub Reach-NoneShared :
      (period : String) (s : System F) → Reach F (fresh_system F period) s → NoneShared s.live
  Reach-NoneShared period s r =
      let v = Reach-Inv F (fresh_system-Inv F period) r in
      Held-NoneShared s.live s.ledger.adm (Descends-left s.live s.left v.descends) v.held
