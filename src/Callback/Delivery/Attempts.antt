-- ===== src/Callback/Delivery/Attempts.antt =====
-- What the retry loops of sendCallback and patchWithRetry do: whom they dial, how often, and when
-- a response counts as delivered.
use kubeclaw.Prelude.{
  ℕ, suc, ◌+◌, ◌≤◌, ◌<◌, ◌==◌, Bool, true, false, not, ◌&&◌, ◌||◌, Option, none, some, List, [],
  ◌∷◌, leb, ltb, length, if◌then◌else◌, All, ◌≡◌, refl, sym, ap, ◌∙◌, arith, Bool-cases,
  Option-cases, inl, inr, ◌⊎◌,
}
use kubeclaw.Callback.Address.{Ip}
use kubeclaw.Callback.Policy.{Bytes, Policy, allowed}
use kubeclaw.Callback.Delivery.{
  CallbackOutcome, exhausted, invalid, callback_invalid, Event, dialled, failure, patched, World,
  Step, stop, retry, go_on, after_dial, attempt, attempts, Webhook, send_callback, patches,
  patch_with_retry, run_async_pipeline, is_delivered, is_terminal,
}

abbrev pub dials : List Event → ℕ
dials [] = 0
dials (dialled n ip ∷ es) = suc (dials es)
dials (_ ∷ es) = dials es

-- the policy allows what was dialled
abbrev pub Permitted : Policy → Bytes → Event → Type 0
Permitted p host (dialled n ip) = allowed p host ip ≡ true
Permitted p host _ = Unit

-- the last thing that happened was a dial that the receiver answered with a 2xx
abbrev pub Accepted : World → List Event → Type 0
Accepted w (dialled n ip ∷ es) = (s : ℕ) × (w.receive n ip ≡ some s) × (200 ≤ s) × (s ≤ 299)
Accepted w _ = ⊥

module _ (w : World) (p : Policy) (host : Bytes) where
  -- `after` follows on `before` with the outcome `o`, with at most `n` more dials
  pub record Follows (n : ℕ) (before after : List Event) (o : CallbackOutcome) : Type 0 where
    pub permitted : All (Permitted p host) after
    pub bounded : dials after ≤ dials before + n
    pub accepted : (is_delivered o ≡ false) ⊎ Accepted w after

  -- what one attempt leaves
  abbrev After : List Event → Step × List Event → Type 0
  After es (stop o, es') = Follows 1 es es' o
  After es (retry, es') = Follows 1 es es' exhausted

  after_dial-After :
      (n : ℕ) (ip : Ip) (es : List Event)
      → allowed p host ip ≡ true
      → All (Permitted p host) es
      → After es (after_dial (w.receive n ip) (dialled n ip ∷ es))
  unfolding after_dial
  after_dial-After n ip es ok all = elim (Option-cases (w.receive n ip)) [
    | inl silent ↦
        rw silent (record { permitted = (ok, all); bounded = omega arith; accepted = inl refl })
    | inr (s, answered) ↦ elim (Bool-cases (leb 200 s && leb s 299)) [
      | inl good ↦
          rw (answered, good)
            (record {
              permitted = (ok, all);
              bounded = omega arith;
              accepted = inr (s, answered, ground arith, ground arith);
            })
      | inr bad ↦ elim (Bool-cases (is_terminal s)) [
        | inl final ↦
            rw (answered, bad, final)
              (record { permitted = (tt, (ok, all)); bounded = omega arith; accepted = inl refl })
        | inr other ↦
            rw (answered, bad, other)
              (record { permitted = (ok, all); bounded = omega arith; accepted = inl refl })
      ]
    ]
  ]

  attempt-After :
      (n : ℕ) (es : List Event) → All (Permitted p host) es → After es (attempt w p host n es)
  unfolding attempt
  attempt-After n es all = checked (w.resolve n)
    where
      checked :
          (r : Option (List Ip))
          → After es (elim r [
            | none ↦ (retry, es)
            | some ips ↦ elim ips [
              | [] ↦ (retry, es)
              | ip ∷ _ ↦
                  if not (allowed p host ip)
                  then (stop invalid, failure callback_invalid ∷ es)
                  else after_dial (w.receive n ip) (dialled n ip ∷ es)
            ]
          ])
      checked none = record { permitted = all; bounded = omega arith; accepted = inl refl }
      checked (some []) = record { permitted = all; bounded = omega arith; accepted = inl refl }
      checked (some (ip ∷ ips)) = elim (Bool-cases (allowed p host ip)) [
        | inl ok ↦ rw ok (after_dial-After n ip es ok all)
        | inr blocked ↦
            rw blocked
              (record { permitted = (tt, all); bounded = omega arith; accepted = inl refl })
      ]

  go_on-Follows :
      (m : ℕ) (es : List Event) (r : Step × List Event)
      (next : List Event → CallbackOutcome × List Event)
      → After es r
      → ((es' : List Event) → All (Permitted p host) es' → Follows m es' (next es').1 (next es').0)
      → Follows (suc m) es (go_on r next).1 (go_on r next).0
  go_on-Follows m es (stop o, es') next a rest = record {
    permitted = a.permitted;
    bounded = omega (arith, a.bounded);
    accepted = a.accepted;
  }
  go_on-Follows m es (retry, es') next a rest =
      let r = rest es' a.permitted in
      record {
        permitted = r.permitted;
        bounded = omega (arith, a.bounded, r.bounded);
        accepted = r.accepted;
      }

  attempts-Follows :
      (n : ℕ) (delays : List ℕ) (es : List Event)
      → All (Permitted p host) es
      → Follows
          (length delays)
          es
          (attempts w p host n delays es).1
          (attempts w p host n delays es).0
  unfolding attempts
  attempts-Follows n [] es all = record {
    permitted = all;
    bounded = omega arith;
    accepted = inl refl;
  }
  attempts-Follows n (delay ∷ delays) es all = elim (Bool-cases (ltb 0 delay && w.cancelled n)) [
    | inl stopped ↦
        rw (stopped, attempts)
          (record { permitted = all; bounded = omega arith; accepted = inl refl })
    | inr goes ↦
        rw (goes, attempts)
          (go_on-Follows (length delays) es (attempt w p host n es)
            (λ es'. attempts w p host (suc n) delays es') (attempt-After n es all)
            (λ es' all'. attempts-Follows (suc n) delays es' all'))
  ]

-- However the resolver and the receiver answer, sendCallback dials only addresses that the policy
-- allows at the time of the dial, at most once for the first try and each delay, and reports a
-- response as delivered only if the last dial was answered with a 2xx.
pub send_callback-Follows :
    (w : World) (p : Policy) (backoff : List ℕ) (hook : Webhook)
    → Follows w p hook.host
        (suc (length backoff))
        []
        (send_callback w p backoff hook []).1
        (send_callback w p backoff hook []).0
unfolding send_callback
send_callback-Follows w p backoff hook = elim (Bool-cases (not hook.https || not hook.secret_ok)) [
  | inl bad ↦ rw bad (record { permitted = (tt, tt); bounded = omega arith; accepted = inl refl })
  | inr fine ↦ rw fine (attempts-Follows w p hook.host 0 (0 ∷ backoff) [] tt)
]

-- the last thing that happened was a patch that succeeded
abbrev pub Stored : World → List Event → Type 0
Stored w (patched n ∷ es) = w.patch n ≡ true
Stored w _ = ⊥

and_false : (b : Bool) → b && false ≡ false
and_false true = refl
and_false false = refl

patches-Stored :
    (w : World) (n : ℕ) (delays : List ℕ) (es : List Event) (k : ℕ)
    → ((m : ℕ) → w.cancelled m ≡ false)
    → n ≤ k
    → k < n + length delays
    → w.patch k ≡ true
    → Stored w (patches w n delays es)
unfolding patches
patches-Stored w n [] es k alive from few good = absurd (omega (arith, from, few))
patches-Stored w n (delay ∷ delays) es k alive from few good =
    rw (patches, alive n, and_false (ltb 0 delay))
      (tried (Bool-cases (w.patch n))
        (λ next. patches-Stored w (suc n) delays es k alive next (omega (arith, few)) good))
  where
    tried :
        (w.patch n ≡ true) ⊎ (w.patch n ≡ false)
        → (suc n ≤ k → Stored w (patches w (suc n) delays es))
        → Stored w (if w.patch n then patched n ∷ es else patches w (suc n) delays es)
    tried (inl now) rest = rw now now
    tried (inr not_now) rest = rw not_now (rest (later (Bool-cases (n == k))))
      where
        later : ((n == k) ≡ true) ⊎ ((n == k) ≡ false) → suc n ≤ k
        later (inl same) =
            let e : n ≡ k = ground arith in
            absurd (ground (arith, sym not_now ∙ ap w.patch e ∙ good))
        later (inr other) = ground arith

-- If the context lives and the API server takes the patch of one of the tries that the schedule
-- has, the response of the pipeline ends delivered to a receiver that answered 2xx, or stored in
-- the polling record.
pub run_async_pipeline_kept :
    (w : World) (p : Policy) (backoff : List ℕ) (hook : Option Webhook) (k : ℕ)
    → ((m : ℕ) → w.cancelled m ≡ false)
    → k ≤ length backoff
    → w.patch k ≡ true
    → Accepted w (run_async_pipeline w p backoff hook)
      ⊎ Stored w (run_async_pipeline w p backoff hook)
unfolding run_async_pipeline patch_with_retry
run_async_pipeline_kept w p backoff none k alive few good =
    inr (patches-Stored w 0 (0 ∷ backoff) [] k alive (omega arith) (omega (arith, few)) good)
run_async_pipeline_kept w p backoff (some hook) k alive few good =
    let sent = send_callback w p backoff hook [] in
    elim (Bool-cases (is_delivered sent.0)) [
      | inl done ↦
          rw done
            (inl (settled sent.0 sent.1 done (send_callback-Follows w p backoff hook).accepted))
      | inr more ↦ rw more (
          inr (
            patches-Stored w 0 (0 ∷ backoff) sent.1 k alive (omega arith) (omega (arith, few))
              good))
    ]
  where
    settled :
        (o : CallbackOutcome) (es : List Event)
        → is_delivered o ≡ true
        → (is_delivered o ≡ false) ⊎ Accepted w es
        → Accepted w es
    settled o es done (inl undone) = absurd (ground (arith, sym done ∙ undone))
    settled o es done (inr a) = a
