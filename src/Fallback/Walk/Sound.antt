-- ===== src/Fallback/Walk/Sound.antt =====
-- The walk ends, makes no more attempts than its depth allows, and leaks no admission slot.
use kubeclaw.Prelude.{
  ℕ, suc, ◌+◌, ◌≤◌, ◌<◌, String, ◌≡◌, refl, ap, ◌∙◌, Bool, true, false, not, ◌⊎◌, Option, none,
  some, List, [], ◌∷◌, arith, ◌==◌, ◌&&◌, str_eq, str_eq_iff, sym, if◌then◌else◌, Bool-cases, inl,
  inr, ◌||◌,
}
use kubeclaw.Prelude.Maps.{insert}
use kubeclaw.Prelude.Floats.{Floats}
use kubeclaw.Budget.Config.{Provider, FallbackRef}
use kubeclaw.Budget.Hard.{Grant}
use kubeclaw.Fallback.Classify.{FailClass}
use kubeclaw.Fallback.Types.{
  Request, Result, Event, called, granted, settled, skipped, rejected, forward_once,
}
use kubeclaw.Fallback.Walk.{
  Walk, Walked, emit, mapped_model, or_else, walk_children, descend, settle_zero, attempt_with,
  candidate_model, is_success, credentials_rejected, note_class,
}

-- the upstream calls among the events
abbrev pub calls : List Event → ℕ
calls [] = 0
calls (called n ∷ es) = suc (calls es)
calls (_ ∷ es) = calls es

abbrev same_grant : Grant → Grant → Bool
same_grant g h = str_eq g.provider h.provider && g.token == h.token

-- The slot that is open after one more event, `none` for an event that must not happen: a grant
-- while one is open, a settle of another grant, or a call of a provider that does not hold the
-- open grant.
abbrev pub then_event : Event → Option Grant → Option (Option Grant)
then_event (called n) none = some none
then_event (called n) (some g) = if str_eq g.provider n then some (some g) else none
then_event (granted g) none = some (some g)
then_event (granted g) (some h) = none
then_event (settled g) none = none
then_event (settled g) (some h) = if same_grant g h then some none else none
then_event (skipped n) o = some o
then_event (rejected n) o = some o

abbrev pub open_after : List Event → Option (Option Grant)
open_after [] = some none
open_after (e ∷ es) = elim (open_after es) [ none ↦ none | some o ↦ then_event e o ]

-- the grant is the provider's
abbrev pub OwnedBy : String → Option Grant → Type 0
OwnedBy name none = Unit
OwnedBy name (some g) = g.provider ≡ name

module _ (F : Floats) (q : Request) where
  -- A walk from `st` that ended in `st'` with `r`: within the depth, with no more calls than
  -- attempts, every slot in order, and open at the end only the slot that the result carries.
  pub record Sound (st st' : Walk F) (r : Result) : Type 0 where
    pub more : st.attempt_count ≤ st'.attempt_count
    pub capped : st'.attempt_count ≤ q.max_depth
    pub calls_counted : calls st'.events + st.attempt_count ≤ calls st.events + st'.attempt_count
    pub slots : open_after st'.events ≡ some r.settle
    pub freed : (r.ok ≡ true) ⊎ (r.settle ≡ none)

  abbrev pub Ends : Walk F → Walked F → Type 0
  Ends st none = ⊥
  Ends st (some (st', r)) = Sound st st' r

  -- the state at the start of a walk or between two candidates
  pub record Ready (n : ℕ) (st : Walk F) : Type 0 where
    pub enough : n ≤ st.attempt_count
    pub room : st.attempt_count ≤ q.max_depth
    pub none_open : open_after st.events ≡ some none

  abbrev pub Try : Type 0
  Try = Provider → Walk F → Walked F

  abbrev pub EndsFrom : Try → ℕ → Type 0
  EndsFrom try n = (p : Provider) (st : Walk F) → Ready n st → Ends st (try p st)

  -- from an earlier state
  pub Ends-since :
      (s t : Walk F) (o : Walked F)
      → s.attempt_count ≤ t.attempt_count
      → calls t.events + s.attempt_count ≤ calls s.events + t.attempt_count
      → Ends t o
      → Ends s o
  Ends-since s t none m c e = e
  Ends-since s t (some (u, r)) m c e = record {
    more = omega (arith, e.more);
    capped = e.capped;
    calls_counted = omega (arith, e.calls_counted);
    slots = e.slots;
    freed = e.freed;
  }

  closed :
      {s t : Walk F} {r : Result} → Sound s t r → r.ok ≡ false → open_after t.events ≡ some none
  closed e bad = ground arith

  -- after a failure nothing is open
  or_else-Ends :
      (n : ℕ) (st : Walk F) (o : Walked F) (next : Walk F → Walked F)
      → n ≤ st.attempt_count
      → Ends st o
      → ((t : Walk F) → Ready n t → Ends t (next t))
      → Ends st (or_else F o next)
  unfolding or_else
  or_else-Ends n st none next le e k = e
  or_else-Ends n st (some (t, r)) next le e k = elim (Bool-cases r.ok) [
    | inl good ↦ rw (good, or_else) e
    | inr bad ↦
        rw (bad, or_else)
          (Ends-since st t (next t) e.more e.calls_counted (
            k t (record {
              enough = omega (arith, e.more);
              room = e.capped;
              none_open = closed e bad;
            })))
  ]

  walk_children-Ends :
      (n : ℕ) (try : Try) (parent : String) (refs : List FallbackRef) (st : Walk F)
      → EndsFrom try n
      → Ready n st
      → Ends st (walk_children F q try parent refs st)
  unfolding walk_children
  walk_children-Ends n try parent [] st sound v = record {
    more = omega arith;
    capped = v.room;
    calls_counted = omega arith;
    slots = v.none_open;
    freed = inr refl;
  }
  walk_children-Ends n try parent (ref ∷ refs) st sound v =
      one (q.find ref.name) (walk_children-Ends n try parent refs)
    where
      one :
          (found : Option Provider)
          → ((t : Walk F)
              → EndsFrom try n
              → Ready n t
              → Ends t (walk_children F q try parent refs t))
          → Ends st (elim found [
            | none ↦ walk_children F q try parent refs (emit F (skipped ref.name) st)
            | some child ↦
                or_else F
                  (try child (record st {
                    model_for = insert child.name (mapped_model F ref parent) st.model_for;
                  }))
                  (λ st'. walk_children F q try parent refs st')
          ])
      one none rest = Ends-since st (emit F (skipped ref.name) st) _ (omega arith) (omega arith) (
          rest (emit F (skipped ref.name) st) sound
            (record { enough = v.enough; room = v.room; none_open = ground arith }))
      one (some child) rest =
          let down : Walk F = record st {
            model_for = insert child.name (mapped_model F ref parent) st.model_for;
          } in
          or_else-Ends n st (try child down) (walk_children F q try parent refs) v.enough
            (Ends-since st down (try child down) (omega arith) (omega arith) (
              sound child down
                (record { enough = v.enough; room = v.room; none_open = v.none_open })))
            (λ t w. rest t sound w)

  pub descend-Ends :
      (n : ℕ) (try : Try) (p : Provider) (own : Result) (st : Walk F)
      → EndsFrom try n
      → Ready n st
      → own.settle ≡ none
      → Ends st (descend F q try p own st)
  unfolding descend
  descend-Ends n try p own st sound v none_left =
      or_else-Ends n st (walk_children F q try (candidate_model F q st p) p.fallback st)
        (λ st'. some (st', own)) v.enough
        (walk_children-Ends n try (candidate_model F q st p) p.fallback st sound v)
        (λ t w. record {
          more = omega arith;
          capped = w.room;
          calls_counted = omega arith;
          slots = w.none_open ∙ ap some (sym none_left);
          freed = inr none_left;
        })

  note_class_keeps :
      (c : FailClass) (st : Walk F)
      → ((note_class F c st).events ≡ st.events)
        × ((note_class F c st).attempt_count ≡ st.attempt_count)
  note_class_keeps c st = ground arith

  same_grant_refl : (g : Grant) → same_grant g g ≡ true
  same_grant_refl g = ground (arith, str_eq_iff g.provider g.provider)

  settle_zero_closes :
      (g : Option Grant) (st : Walk F)
      → open_after st.events ≡ some g
      → let t = settle_zero F q g st in
        (open_after t.events ≡ some none)
        × (calls t.events ≡ calls st.events)
        × (t.attempt_count ≡ st.attempt_count)
  unfolding settle_zero
  settle_zero_closes none st h = (h, refl, refl)
  settle_zero_closes (some g) st h = (ground (arith, same_grant_refl g), refl, refl)

  call_keeps :
      (name : String) (g : Option Grant) (es : List Event)
      → open_after es ≡ some g
      → OwnedBy name g
      → open_after (called name ∷ es) ≡ some g
  call_keeps name none es h own = ground arith
  call_keeps name (some g) es h own = ground (arith, str_eq_iff g.provider name)

  rejected_keeps :
      (name : String) (bad : Bool) (st : Walk F)
      → open_after st.events ≡ some none
      → let t : Walk F = if bad then emit F (rejected name) st else st in
        (open_after t.events ≡ some none)
        × (calls t.events ≡ calls st.events)
        × (t.attempt_count ≡ st.attempt_count)
  rejected_keeps name true st h = (ground arith, refl, refl)
  rejected_keeps name false st h = (h, refl, refl)

  pub attempt_with-Ends :
      (n : ℕ) (try : Try) (p : Provider) (g : Option Grant) (s st : Walk F)
      → EndsFrom try n
      → n ≤ st.attempt_count
      → st.attempt_count ≤ q.max_depth
      → s.attempt_count < st.attempt_count
      → calls st.events ≡ calls s.events
      → open_after st.events ≡ some g
      → OwnedBy p.name g
      → Ends s (attempt_with F q try p g st)
  unfolding attempt_with
  attempt_with-Ends n try p g s st sound le room lt same held own =
      let o = forward_once (q.reply st.attempt_count p (candidate_model F q st p)) in
      let st₀ : Walk F = emit F (called p.name) st in
      let st₁ : Walk F = note_class F o.class st₀ in
      let (events₁, count₁) = note_class_keeps o.class st₀ in
      let held₁ : open_after st₁.events ≡ some g =
        ap open_after events₁ ∙ call_keeps p.name g st.events held own in
      let st₂ : Walk F = settle_zero F q g st₁ in
      let (open₂, calls₂, count₂) = settle_zero_closes g st₁ held₁ in
      let st₃ : Walk F = if credentials_rejected F o then emit F (rejected p.name) st₂ else st₂ in
      let calls₁ : calls st₁.events ≡ suc (calls st.events) = ap calls events₁ in
      let (open₃, calls₃, count₃) = rejected_keeps p.name (credentials_rejected F o) st₂ open₂ in
      elim (Bool-cases (is_success F o || not o.fallbackable)) [
        | inl done ↦ rw done (record {
          more = omega (arith, count₁);
          capped = omega (arith, count₁);
          calls_counted = omega (arith, count₁, calls₁, same);
          slots = held₁;
          freed = inl refl;
        })
        | inr failed ↦ rw failed (
            Ends-since s st₃ _ (omega (arith, count₁, count₂, count₃))
              (omega (arith, count₁, count₂, count₃, calls₁, calls₂, calls₃, same))
              (descend-Ends n try p
                (record { ok = false; outcome = some (p.name, o); settle = none }) st₃ sound
                (record {
                  enough = omega (arith, count₁, count₂, count₃);
                  room = omega (arith, count₁, count₂, count₃);
                  none_open = open₃;
                })
                refl))
      ]
