-- ===== src/Fallback/Walk.antt =====
-- tryWithFallbacks and walkChildren of internal/gateway/fallback.go: the depth-first walk over a
-- provider and its fallbacks. The store's lookups, the upstream calls and the translator's verdict
-- are functions of the request; the walk's own state and the budget ledger are passed along, with
-- the calls and the settles in the order in which they happen.
pub mod Sound
pub mod Ends
use kubeclaw.Prelude.{
  ℕ, zero, suc, ◌+◌, String, Bool, true, false, not, Option, none, some, List, [], ◌∷◌, ltb, leb,
  ◌==◌, ◌&&◌, ◌||◌, str_eq, if◌then◌else◌, any, is_some,
}
use kubeclaw.Prelude.Maps.{Map, lookup, insert}
use kubeclaw.Prelude.Floats.{Floats}
use kubeclaw.Budget.Config.{Provider, FallbackRef, ModelPrice}
use kubeclaw.Budget.Ledger.{BudgetLedger, zero_usd}
use kubeclaw.Budget.Policy.{Env, Decision}
use kubeclaw.Budget.Hard.{Grant, admit, settle, is_block_action}
use kubeclaw.Tenancy.{Glob, namespace_allowed}
use kubeclaw.Fallback.Classify.{
  FailClass, no_failure, connect, timeout, is_fallbackable, budget, budget_unavailable, upstream,
  observe, between, format_compatible, crosses_format, Format, format_for_type, same_format,
}
use kubeclaw.Fallback.Types.{
  Reply, Outcome, failed_attempt, forward_once, Event, Request, Result, no_result, no_credential,
  transport_failed, body_failed, replied, called, granted, settled, skipped, rejected,
}

module _ (F : Floats) where
  -- The parts of walkState that change, the ledger, and the events.
  pub record Walk : Type 0 where
    pub attempt_count : ℕ
    pub visited : List String
    pub observed : List FailClass
    pub max_retry_after : ℕ
    pub model_for : Map String
    pub translated : List String
    pub ledger : BudgetLedger F
    pub events : List Event

  abbrev pub emit : Event → Walk → Walk
  emit e st = record st { events = e ∷ st.events }

  unfoldable pub candidate_model : Request → Walk → Provider → String
  candidate_model q st p = elim (lookup p.name st.model_for) [
    | none ↦ q.model_id
    | some m ↦ if str_eq m "" then q.model_id else m
  ]

  unfoldable pub crosses : Request → Provider → Bool
  crosses q p = elim q.inbound_format [
    | none ↦ false
    | some inbound ↦ elim (format_for_type p.kind) [
      | none ↦ false
      | some target ↦ not (same_format target inbound)
    ]
  ]

  -- the checks against the primary's type
  unfoldable pub follows : Request → Provider → Bool
  follows q p =
      if str_eq p.name q.primary.name
      then true
      else format_compatible q.primary.kind p.kind
        && not (crosses_format q.primary.kind p.kind && not (is_some q.inbound_format))

  unfoldable pub offers : String → List ModelPrice → Bool
  offers model models = any (λ (m : ModelPrice). str_eq m.id model) models

  -- the checks of staticallyIneligible that read the configuration alone
  unfoldable pub configured : Request → Walk → Provider → Bool
  unfolding follows offers
  configured q st p =
      follows q p
      && namespace_allowed q.glob q.namespace p.allowed_namespaces
      && offers (candidate_model q st p) p.models

  -- staticallyIneligible: whether the candidate passes, and the state with its translated body
  unfoldable pub eligible : Request → Walk → Provider → Bool × Walk
  eligible q st p =
      let fresh = not (any (λ (n : String). str_eq n p.name) st.translated) in
      if not (configured q st p)
      then (false, st)
      else if crosses q p && q.has_body && fresh
      then (if q.translates p (candidate_model q st p)
          then (true, record st { translated = p.name ∷ st.translated })
          else (false, st))
      else (true, st)

  -- the edge's model map, applied on the way down
  unfoldable pub mapped_model : FallbackRef → String → String
  mapped_model ref parent = elim (lookup parent ref.model_map) [
    | none ↦ parent
    | some m ↦ if str_eq m "" then parent else m
  ]

  abbrev pub Walked : Type 0
  Walked = Option (Walk × Result)

  -- a success ends the walk, and a failure goes on from the state that it left
  unfoldable pub or_else : Walked → (Walk → Walked) → Walked
  or_else none next = none
  or_else (some (st, r)) next = elim r.ok [ true ↦ some (st, r) | false ↦ next st ]

  -- walkChildren, where `try` is tryWithFallbacks and `none` means that its fuel ran out
  unfoldable pub walk_children :
      Request → (Provider → Walk → Walked) → String → List FallbackRef → Walk → Walked
  walk_children q try parent [] st = some (st, no_result)
  walk_children q try parent (ref ∷ refs) st = elim (q.find ref.name) [
    | none ↦ walk_children q try parent refs (emit (skipped ref.name) st)
    | some child ↦
        or_else
          (try child
            (record st { model_for = insert child.name (mapped_model ref parent) st.model_for }))
          (λ st'. walk_children q try parent refs st')
  ]

  -- the descent after a failure: the children's success, or this candidate's own result
  unfoldable pub descend : Request → (Provider → Walk → Walked) → Provider → Result → Walk → Walked
  unfolding walk_children
  descend q try p own st =
      or_else (walk_children q try (candidate_model q st p) p.fallback st) (λ st'. some (st', own))

  -- the candidate's settle comes into its hands
  abbrev pub receive : Option Grant → Walk → Walk
  receive none st = st
  receive (some g) st = emit (granted g) st

  -- free the candidate's slot before descending
  unfoldable pub settle_zero : Request → Option Grant → Walk → Walk
  settle_zero q none st = st
  settle_zero q (some g) st = record st {
    ledger = settle F (q.clock st.attempt_count) g (zero_usd F) st.ledger;
    events = settled g ∷ st.events;
  }

  abbrev pub is_success : Outcome → Bool
  is_success o = elim o.class [
    | no_failure ↦
        not o.transport_error && elim o.status [ none ↦ false | some s ↦ between 200 299 s ]
    | _ ↦ false
  ]

  -- a 401 or 403 of the upstream
  abbrev pub credentials_rejected : Outcome → Bool
  credentials_rejected o = elim o.class [
    | upstream ↦ elim o.status [ none ↦ false | some s ↦ s == 401 || s == 403 ]
    | _ ↦ false
  ]

  -- st.observed[fr.class] = true, unless there was no failure
  abbrev pub note_class : FailClass → Walk → Walk
  note_class no_failure st = st
  note_class c st = record st { observed = observe c st.observed }

  -- the upstream attempt of an admitted candidate
  unfoldable pub attempt_with :
      Request → (Provider → Walk → Walked) → Provider → Option Grant → Walk → Walked
  unfolding descend settle_zero
  attempt_with q try p g st =
      let o = forward_once (q.reply st.attempt_count p (candidate_model q st p)) in
      let st₁ : Walk = note_class o.class (emit (called p.name) st) in
      let st₂ : Walk = settle_zero q g st₁ in
      let st₃ : Walk = if credentials_rejected o then emit (rejected p.name) st₂ else st₂ in
      if is_success o || not o.fallbackable
      then some (st₁, record { ok = true; outcome = some (p.name, o); settle = g })
      else descend q try p (record { ok = false; outcome = some (p.name, o); settle = none }) st₃

  abbrev pub blocked_result : FailClass → Result
  blocked_result c = record {
    ok = false;
    outcome =
        some
          ("", record { status = none; fallbackable = false; class = c; transport_error = false });
    settle = none;
  }

  -- the switch on the decision for a candidate that is not the primary
  unfoldable pub admitted_with :
      Request → (Provider → Walk → Walked) → Provider → Decision → Option Grant → Walk → Walked
  unfolding descend attempt_with
  admitted_with q try p d g st =
      if d.unavailable
      then descend q try p (blocked_result budget_unavailable)
          (record st { observed = observe budget_unavailable st.observed })
      else if d.throttled
      then descend q try p (blocked_result budget) (record st {
        observed = observe budget st.observed;
        max_retry_after = if ltb st.max_retry_after 1 then 1 else st.max_retry_after;
      })
      else if is_block_action d
      then descend q try p (blocked_result budget) (record st {
        observed = observe budget st.observed;
        max_retry_after =
            if ltb st.max_retry_after d.retry_after then d.retry_after else st.max_retry_after;
      })
      else attempt_with q try p g st

  unfoldable pub visit : Request → (Provider → Walk → Walked) → Provider → Walk → Walked
  unfolding attempt_with admitted_with
  visit q try p st =
      if str_eq p.name q.primary.name
      then attempt_with q try p q.primary_settle (receive q.primary_settle st)
      else let (b, d, g) = admit F (q.clock st.attempt_count) p q.namespace q.workload st.ledger in
        admitted_with q try p d g (receive g (record st { ledger = b }))

  -- tryWithFallbacks before its admission: the cycle, eligibility and depth checks
  unfoldable pub enter : Request → (Provider → Walk → Walked) → Provider → Walk → Walked
  unfolding visit
  enter q try p st =
      let st₁ : Walk = record st { visited = p.name ∷ st.visited } in
      let (passes, st₂) = eligible q st₁ p in
      if any (λ (n : String). str_eq n p.name) st.visited
      then some (st, no_result)
      else if not passes
      then some (emit (skipped p.name) st₁, no_result)
      else if leb q.max_depth st₂.attempt_count
      then some (st₂, no_result)
      else visit q try p (record st₂ { attempt_count = st₂.attempt_count + 1 })

  unfoldable pub try_with_fallbacks : ℕ → Request → Provider → Walk → Walked
  unfolding enter
  try_with_fallbacks zero q p st = none
  try_with_fallbacks (suc fuel) q p st = enter q (try_with_fallbacks fuel q) p st
