-- ===== src/Fallback/Walk/Ends.antt =====
-- tryWithFallbacks from its admission on: enough fuel, and what holds of the end of a walk.
use kubeclaw.Prelude.{
  ℕ, zero, suc, subst, ◌+◌, ◌≤◌, ◌<◌, String, ◌≡◌, refl, ap, ◌∙◌, true, Option, none, some, ◌∷◌,
  arith, leb, str_eq, str_eq_iff, sym, any, Bool-cases, inl, inr, ◌||◌,
}
use kubeclaw.Prelude.Floats.{Floats}
use kubeclaw.Budget.Config.{Provider}
use kubeclaw.Budget.Policy.{Decision}
use kubeclaw.Budget.Hard.{Grant, admit, is_block_action}
use kubeclaw.Budget.Hard.Admission.{admit_nothing, admit_provider}
use kubeclaw.Fallback.Types.{Request, Result, skipped, no_result}
use kubeclaw.Fallback.Walk.{
  Walk, emit, descend, receive, admitted_with, visit, enter, eligible, try_with_fallbacks,
}
use kubeclaw.Fallback.Walk.Sound.{
  calls, open_after, OwnedBy, Sound, Ends, Ready, Try, EndsFrom, Ends-since, descend-Ends,
  attempt_with-Ends,
}

module _ (F : Floats) (q : Request) where
  receive_opens :
      (g : Option Grant) (st : Walk F)
      → open_after st.events ≡ some none
      → let t = receive F g st in
        (open_after t.events ≡ some g)
        × (calls t.events ≡ calls st.events)
        × (t.attempt_count ≡ st.attempt_count)
  receive_opens none st h = (h, refl, refl)
  receive_opens (some g) st h = (ground arith, refl, refl)

  -- a refused candidate: nothing is open, and the walk descends from a state that has only
  -- recorded why
  refused-Ends :
      (n : ℕ) (try : Try F q) (p : Provider) (own : Result) (s st t : Walk F)
      → EndsFrom F q try n
      → n ≤ st.attempt_count
      → st.attempt_count ≤ q.max_depth
      → s.attempt_count < st.attempt_count
      → calls st.events ≡ calls s.events
      → open_after st.events ≡ some none
      → t.attempt_count ≡ st.attempt_count
      → t.events ≡ st.events
      → own.settle ≡ none
      → Ends F q s (descend F q try p own t)
  refused-Ends n try p own s st t sound le room lt same closed count events none_left =
      let calls_t : calls t.events ≡ calls st.events = ap calls events in
      Ends-since F q s t (descend F q try p own t) (omega (arith, count))
        (omega (arith, count, calls_t, same))
        (descend-Ends F q n try p own t sound
          (record {
            enough = omega (arith, count);
            room = omega (arith, count);
            none_open = ap open_after events ∙ closed;
          })
          none_left)

  -- a candidate that is refused, or attempted with the slot that it was granted
  admitted_with-Ends :
      (n : ℕ) (try : Try F q) (p : Provider) (d : Decision) (g : Option Grant) (s st : Walk F)
      → EndsFrom F q try n
      → (d.unavailable || (d.throttled || is_block_action d) ≡ true → g ≡ none)
      → n ≤ st.attempt_count
      → st.attempt_count ≤ q.max_depth
      → s.attempt_count < st.attempt_count
      → calls st.events ≡ calls s.events
      → open_after st.events ≡ some g
      → OwnedBy p.name g
      → Ends F q s (admitted_with F q try p d g st)
  unfolding admitted_with
  admitted_with-Ends n try p d g s st sound refused le room lt same held own =
      elim (Bool-cases d.unavailable) [
        | inl u ↦ rw u (
            refused-Ends n try p _ s st _ sound le room lt same (shut (ground arith)) refl refl
              refl)
        | inr nu ↦ elim (Bool-cases d.throttled) [
          | inl t ↦
              rw (nu, t)
                (refused-Ends n try p _ s st _ sound le room lt same (shut (ground arith)) refl refl
                  refl)
          | inr nt ↦ elim (Bool-cases (is_block_action d)) [
            | inl b ↦
                rw (nu, nt, b)
                  (refused-Ends n try p _ s st _ sound le room lt same (shut (ground arith)) refl
                    refl refl)
            | inr nb ↦
                rw (nu, nt, nb)
                  (attempt_with-Ends F q n try p g s st sound le room lt same held own)
          ]
        ]
      ]
    where
      shut :
          (d.unavailable || (d.throttled || is_block_action d) ≡ true)
          → open_after st.events ≡ some none
      shut h = held ∙ ap some (refused h)

  granted_owned :
      (name : String) (g : Option Grant)
      → ((h : Grant) → g ≡ some h → h.provider ≡ name)
      → OwnedBy name g
  granted_owned name none own = tt
  granted_owned name (some h) own = own h refl

  visit-Ends :
      (n : ℕ) (try : Try F q) (p : Provider) (s st : Walk F)
      → EndsFrom F q try n
      → OwnedBy q.primary.name q.primary_settle
      → n ≤ st.attempt_count
      → st.attempt_count ≤ q.max_depth
      → s.attempt_count < st.attempt_count
      → calls st.events ≡ calls s.events
      → open_after st.events ≡ some none
      → Ends F q s (visit F q try p st)
  unfolding visit
  visit-Ends n try p s st sound own le room lt same shut =
      elim (Bool-cases (str_eq p.name q.primary.name)) [
        | inl primary ↦
            let g = q.primary_settle in
            let (open_t, calls_t, count_t) = receive_opens g st shut in
            rw primary (
              attempt_with-Ends F q n try p g s (receive F g st) sound (omega (arith, count_t))
                (omega (arith, count_t)) (omega (arith, count_t)) (calls_t ∙ same) open_t
                (subst (λ (m : String). OwnedBy m g) (sym (to_eq primary)) own))
        | inr other ↦
            let env = q.clock st.attempt_count in
            let a = admit F env p q.namespace q.workload st.ledger in
            let st' : Walk F = record st { ledger = a.0 } in
            let (open_t, calls_t, count_t) = receive_opens a.2 st' shut in
            rw other (
              admitted_with-Ends n try p a.1 a.2 s (receive F a.2 st') sound
                (admit_nothing F env p q.namespace q.workload st.ledger) (omega (arith, count_t))
                (omega (arith, count_t)) (omega (arith, count_t)) (calls_t ∙ same) open_t
                (granted_owned p.name a.2
                  (admit_provider F env p q.namespace q.workload st.ledger)))
      ]
    where
      to_eq : str_eq p.name q.primary.name ≡ true → p.name ≡ q.primary.name
      to_eq h = ground (arith, str_eq_iff p.name q.primary.name)

  eligible_keeps :
      (st : Walk F) (p : Provider)
      → let t = (eligible F q st p).1 in
        (t.events ≡ st.events) × (t.attempt_count ≡ st.attempt_count)
  unfolding eligible
  eligible_keeps st p = ground arith

  -- a candidate that is not tried
  stays :
      (st t : Walk F)
      → st.attempt_count ≤ q.max_depth
      → t.attempt_count ≡ st.attempt_count
      → calls t.events ≡ calls st.events
      → open_after t.events ≡ some none
      → Sound F q st t no_result
  stays st t room count same shut = record {
    more = omega (arith, count);
    capped = omega (arith, count);
    calls_counted = omega (arith, count, same);
    slots = shut;
    freed = inr refl;
  }

  enter-Ends :
      (n : ℕ) (try : Try F q) (p : Provider) (st : Walk F)
      → EndsFrom F q try (n + 1)
      → OwnedBy q.primary.name q.primary_settle
      → Ready F q n st
      → Ends F q st (enter F q try p st)
  unfolding enter
  enter-Ends n try p st sound own v =
      let st₁ : Walk F = record st { visited = p.name ∷ st.visited } in
      let st₂ : Walk F = (eligible F q st₁ p).1 in
      let (events, count) = eligible_keeps st₁ p in
      let calls₂ : calls st₂.events ≡ calls st.events = ap calls events in
      let shut₂ : open_after st₂.events ≡ some none = ap open_after events ∙ v.none_open in
      elim (Bool-cases (any (λ (m : String). str_eq m p.name) st.visited)) [
        | inl seen ↦ rw seen (stays st st v.room refl refl v.none_open)
        | inr new ↦ elim (Bool-cases (eligible F q st₁ p).0) [
          | inr fails ↦
              rw (new, fails)
                (stays st (emit F (skipped p.name) st₁) v.room refl refl (ground arith))
          | inl passes ↦ elim (Bool-cases (leb q.max_depth st₂.attempt_count)) [
            | inl full ↦ rw (new, passes, full) (stays st st₂ v.room count calls₂ shut₂)
            | inr space ↦
                rw (new, passes, space)
                  (visit-Ends (n + 1) try p st
                    (record st₂ { attempt_count = st₂.attempt_count + 1 }) sound own
                    (omega (arith, count, v.enough)) (ground (arith, count)) (omega (arith, count))
                    calls₂ shut₂)
          ]
        ]
      ]

  -- fuel for each attempt that the depth has left, and one more
  try-EndsFrom :
      (fuel n : ℕ)
      → OwnedBy q.primary.name q.primary_settle
      → q.max_depth < n + fuel
      → EndsFrom F q (try_with_fallbacks F fuel q) n
  unfolding try_with_fallbacks
  try-EndsFrom zero n own deep p st v = omega (arith, deep, v.enough, v.room)
  try-EndsFrom (suc fuel) n own deep p st v =
      enter-Ends n (try_with_fallbacks F fuel q) p st
        (try-EndsFrom fuel (n + 1) own (omega (arith, deep))) own v

  -- tryWithFallbacks ends, from a state with no slot open and within the depth, if the caller's
  -- settle is the primary's. It makes no more attempts than MaxDepth and no more upstream calls
  -- than attempts; a provider with a slot is called while that slot alone is held; and at the end
  -- at most the slot of the result is held, which a failed result has not.
  pub try_with_fallbacks-Ends :
      (p : Provider) (st : Walk F)
      → OwnedBy q.primary.name q.primary_settle
      → Ready F q 0 st
      → Ends F q st (try_with_fallbacks F (q.max_depth + 1) q p st)
  try_with_fallbacks-Ends p st own v = try-EndsFrom (q.max_depth + 1) 0 own (omega arith) p st v
