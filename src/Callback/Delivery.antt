-- ===== src/Callback/Delivery.antt =====
-- The delivery of async responses: runAsyncPipeline, patchWithRetry, sendCallback, handlePoll and
-- pollRetryAfter of internal/gateway/async.go. Each attempt reads its part of the world from a
-- function of its number: the context, the resolver, the receiver and the API server.
pub mod Attempts
use kubeclaw.Prelude.{
  ℕ, suc, ◌+◌, ◌-◌, ◌*◌, String, Bool, true, false, not, Option, none, some, List, [], ◌∷◌, ◌==◌,
  ◌&&◌, ◌||◌, leb, ltb, str_eq, if◌then◌else◌, any,
}
use kubeclaw.Callback.Address.{Ip}
use kubeclaw.Callback.Policy.{Bytes, Policy, allowed}

pub data CallbackOutcome : Type 0 where
  delivered exhausted rejected invalid : CallbackOutcome

-- what the channel's health learns, by its reason
pub data HealthReason : Type 0 where
  callback_invalid callback_rejected : HealthReason

-- what happens while a response is delivered, the last first
pub data Event : Type 0 where
  dialled : ℕ → Ip → Event  -- the attempt, and the pinned address
  failure : HealthReason → Event
  patched : ℕ → Event
  dropped : Event

pub record World : Type 0 where
  pub cancelled : ℕ → Bool  -- ctx.Done() before the delay of this attempt is over
  pub resolve : ℕ → Option (List Ip)  -- LookupIP, none for an error
  pub receive : ℕ → Ip → Option ℕ  -- the status of dialCallbackOnce, none for an error
  pub patch : ℕ → Bool  -- whether Patch succeeds

-- the statuses of the terminal bucket
unfoldable pub is_terminal : ℕ → Bool
is_terminal s = any (λ n. n == s) (401 ∷ 403 ∷ 404 ∷ 405 ∷ 410 ∷ 415 ∷ [])

-- the end of one attempt: a result, or on to the next
pub data Step : Type 0 where
  stop : CallbackOutcome → Step
  retry : Step

abbrev pub go_on :
    Step × List Event → (List Event → CallbackOutcome × List Event) → CallbackOutcome × List Event
go_on (stop o, es) next = (o, es)
go_on (retry, es) next = next es

unfoldable pub after_dial : Option ℕ → List Event → Step × List Event
unfolding is_terminal
after_dial none es = (retry, es)
after_dial (some s) es =
    if leb 200 s && leb s 299
    then (stop delivered, es)
    else if is_terminal s
    then (stop rejected, failure callback_rejected ∷ es)
    else (retry, es)

-- one attempt after its delay: resolve, check the address, dial it
unfoldable pub attempt : World → Policy → Bytes → ℕ → List Event → Step × List Event
unfolding after_dial
attempt w p host n es = elim (w.resolve n) [
  | none ↦ (retry, es)
  | some ips ↦ elim ips [
    | [] ↦ (retry, es)
    | ip ∷ _ ↦
        if not (allowed p host ip)
        then (stop invalid, failure callback_invalid ∷ es)
        else after_dial (w.receive n ip) (dialled n ip ∷ es)
  ]
]

-- the loop of sendCallback over the delays, from the attempt of the given number
unfoldable pub attempts :
    World → Policy → Bytes → ℕ → List ℕ → List Event → CallbackOutcome × List Event
unfolding attempt
attempts w p host n [] es = (exhausted, es)
attempts w p host n (delay ∷ delays) es = elim (ltb 0 delay && w.cancelled n) [
  | true ↦ (exhausted, es)
  | false ↦ go_on (attempt w p host n es) (λ es'. attempts w p host (suc n) delays es')
]

-- the callback of a channel's webhook: whether its URL parses as https, its host, and whether the
-- secret of its callbackAuth is there
pub record Webhook : Type 0 where
  pub https : Bool
  pub host : Bytes
  pub secret_ok : Bool

unfoldable pub send_callback :
    World → Policy → List ℕ → Webhook → List Event → CallbackOutcome × List Event
unfolding attempts
send_callback w p backoff hook es =
    if not hook.https || not hook.secret_ok
    then (invalid, failure callback_invalid ∷ es)
    else attempts w p hook.host 0 (0 ∷ backoff) es

-- the loop of patchWithRetry
unfoldable pub patches : World → ℕ → List ℕ → List Event → List Event
patches w n [] es = dropped ∷ es
patches w n (delay ∷ delays) es =
    let rest = patches w (suc n) delays es in
    if ltb 0 delay && w.cancelled n then es else if w.patch n then patched n ∷ es else rest

unfoldable pub patch_with_retry : World → List ℕ → List Event → List Event
unfolding patches
patch_with_retry w backoff es = patches w 0 (0 ∷ backoff) es

abbrev pub is_delivered : CallbackOutcome → Bool
is_delivered delivered = true
is_delivered _ = false

-- runAsyncPipeline from the payload on
unfoldable pub run_async_pipeline : World → Policy → List ℕ → Option Webhook → List Event
unfolding send_callback patch_with_retry
run_async_pipeline w p backoff none = patch_with_retry w backoff []
run_async_pipeline w p backoff (some hook) =
    let (outcome, es) = send_callback w p backoff hook [] in
    if is_delivered outcome then es else patch_with_retry w backoff es
