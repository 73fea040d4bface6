-- ===== src/Agent/Rests.antt =====
-- The same for the whole of evaluateActivity of internal/controller/agent_controller.go.
use kubeclaw.Prelude.{
  ℕ, String, Bool, true, false, Option, none, some, List, [], ◌∷◌, map, ◌==◌, if◌then◌else◌, ◌≡◌,
  refl, sym, ◌∙◌, ◌⊎◌, inl, inr, arith,
}
use kubeclaw.Activity.{merged_activity}
use kubeclaw.AgentTask.{Requeue, later}
use kubeclaw.Agent.{AgentStatus, Replica}
use kubeclaw.Agent.Checks.{Effective}
use kubeclaw.Agent.Idle.{
  unknown_wait, evaluate_phase, qualified, evaluate_silent, evaluate_reachable, evaluate_activity,
}
use kubeclaw.Agent.Silence.{KnownActivity, Rests, phase-Rests}

module _ (now : ℕ) (eff : Effective) where
  same-Rests :
      (name : String) (reachable : List Replica) (s u : AgentStatus)
      → u.phase ≡ s.phase
      → Rests now name eff reachable s u
  same-Rests name reachable s u same = record {
    idles = λ at. inl (same ∙ at);
    sleeps = λ at. inl (same ∙ at);
  }

  silent-Rests :
      (name : String) (reachable : List Replica) (s : AgentStatus)
      → merged_activity (map (λ (r : Replica). r.agents) reachable) name eff.activity_source ≡ none
      → Rests now name eff reachable s (evaluate_silent now eff reachable s).0
  unfolding evaluate_silent
  silent-Rests name reachable s silent = by_transition s.phase_transition
    where
      known :
          (since t : ℕ)
          → KnownActivity name eff reachable s t
          → ((true ≡ false) × (since ≡ t)) ⊎ (s.last_activity ≡ some t)
      known since t (inl q) = absurd (ground (arith, sym silent ∙ q))
      known since t (inr q) = inr q

      by_transition :
          (o : Option ℕ)
          → Rests now name eff reachable s
              (elim o as (λ _. AgentStatus × Requeue) [
                | none ↦ (s, later unknown_wait)
                | some since ↦
                    if qualified now eff.idle_timeout reachable
                    then evaluate_phase now eff true since s
                    else (s, later unknown_wait)
              ]).0
      by_transition none = same-Rests name reachable s s refl
      by_transition (some since) = by_watch (qualified now eff.idle_timeout reachable)
        where
          by_watch :
              (b : Bool)
              → Rests now name eff reachable s
                  (if b then evaluate_phase now eff true since s else (s, later unknown_wait)).0
          by_watch true = phase-Rests now eff name reachable true since s (known since)
          by_watch false = same-Rests name reachable s s refl

-- the replicas that answered
abbrev pub answering : Option (List Replica × ℕ) → List Replica
answering none = []
answering (some (rs, total)) = rs

-- A running agent goes idle only after every known time of activity is more than the idle timeout
-- ago, and an idle agent is sent to hibernate only if hibernation is on and every known time is
-- more than the idle timeout and the hibernation delay ago; else a running agent stays running and
-- an idle one idle or becomes running.
pub evaluate_activity-Rests :
    (now : ℕ) (name : String) (eff : Effective) (answer : Option (List Replica × ℕ))
    (s : AgentStatus)
    → Rests now name eff (answering answer) s (evaluate_activity now name eff answer s).0
unfolding evaluate_activity evaluate_reachable
evaluate_activity-Rests now name eff none s = same-Rests now eff name [] s _ refl
evaluate_activity-Rests now name eff (some ([], total)) s = same-Rests now eff name [] s _ refl
evaluate_activity-Rests now name eff (some (r ∷ rs, total)) s = by_total (total == 0)
  where
    s₁ : AgentStatus
    s₁ = record s { gateway_reachable = some true }

    merged : Option ℕ
    merged = merged_activity (map (λ (r : Replica). r.agents) (r ∷ rs)) name eff.activity_source

    same_time : {x y : ℕ} → some x ≡ some y → x ≡ y
    same_time q = ground arith

    known :
        (last t : ℕ)
        → merged ≡ some last
        → KnownActivity name eff (r ∷ rs) s t
        → ((false ≡ false) × (last ≡ t)) ⊎ (s.last_activity ≡ some t)
    known last t q (inl h) = inl (refl, same_time (sym q ∙ h))
    known last t q (inr h) = inr h

    marked : {u : AgentStatus} → Rests now name eff (r ∷ rs) s₁ u → Rests now name eff (r ∷ rs) s u
    marked x = record { idles = x.idles; sleeps = x.sleeps }

    by_merged :
        (o : Option ℕ)
        → merged ≡ o
        → Rests now name eff
            (r ∷ rs)
            s
            (elim o as (λ _. AgentStatus × Requeue) [
              | none ↦ evaluate_silent now eff (r ∷ rs) s₁
              | some last ↦ evaluate_phase now eff false last s₁
            ]).0
    by_merged none q = marked (silent-Rests now eff name (r ∷ rs) s₁ q)
    by_merged (some last) q =
        marked (phase-Rests now eff name (r ∷ rs) false last s₁ (λ t. known last t q))

    by_total :
        (b : Bool)
        → Rests now name eff
            (r ∷ rs)
            s
            (if b
              then (record s { gateway_reachable = some false }, later unknown_wait)
              else evaluate_reachable now name eff (r ∷ rs) s₁).0
    by_total true = same-Rests now eff name (r ∷ rs) s _ refl
    by_total false = by_merged merged refl
