-- ===== src/Agent/Moves/Kept.antt =====
-- evaluateActivity of internal/controller/agent_controller.go leaves the phase before Degraded.
use kubeclaw.Prelude.{
  ◌+◌, ℕ, String, Bool, true, false, ltb, ◌==◌, Option, none, some, List, [], ◌∷◌, if◌then◌else◌,
  ◌≡◌, refl,
}
use kubeclaw.AgentTask.{Requeue, again, later}
use kubeclaw.Agent.{AgentPhase, running, idle, hibernating, AgentStatus, Replica, set_phase}
use kubeclaw.Agent.Checks.{Effective}
use kubeclaw.Agent.Idle.{
  activity_cache_window, floored, evaluate_running, evaluate_idle, evaluate_phase, evaluate_silent,
  evaluate_reachable, evaluate_activity, fresh_activity, qualified, unknown_wait,
}
use kubeclaw.Agent.Phases.{set_phase_pre}

module _ (now : ℕ) (eff : Effective) where
  running_pre :
      (last : ℕ) (s : AgentStatus)
      → (evaluate_running now eff last s).0.pre_degraded ≡ s.pre_degraded
  unfolding evaluate_running
  running_pre last s = by_test (ltb (floored last s.last_activity + eff.idle_timeout) now)
    where
      by_test :
          (b : Bool)
          → (if◌then◌else◌ {A = AgentStatus × Requeue} b
              (
                record (set_phase now idle s) {
                  last_activity = some (floored last s.last_activity);
                },
                again,
              )
              (s, later activity_cache_window)).0.pre_degraded
            ≡ s.pre_degraded
      by_test true = set_phase_pre now idle s
      by_test false = refl

  idle_pre :
      (synthetic : Bool) (last : ℕ) (s : AgentStatus)
      → (evaluate_idle now eff synthetic last s).0.pre_degraded ≡ s.pre_degraded
  unfolding evaluate_idle
  idle_pre synthetic last s = by_tests (fresh_activity synthetic last s.last_activity) _
    where
      by_tests :
          (b c : Bool)
          → (if◌then◌else◌ {A = AgentStatus × Requeue} b
              (record (set_phase now running s) { last_activity = some last }, again)
              (if c
                then (set_phase now hibernating s, again)
                else (s, later activity_cache_window))).0.pre_degraded
            ≡ s.pre_degraded
      by_tests true c = set_phase_pre now running s
      by_tests false true = set_phase_pre now hibernating s
      by_tests false false = refl

  phase_pre :
      (synthetic : Bool) (last : ℕ) (s : AgentStatus)
      → (evaluate_phase now eff synthetic last s).0.pre_degraded ≡ s.pre_degraded
  unfolding evaluate_phase
  phase_pre synthetic last s = by_phase s.phase
    where
      by_phase :
          (p : AgentPhase)
          → (elim p as (λ _. AgentStatus × Requeue) [
            | running ↦ evaluate_running now eff last s
            | idle ↦ evaluate_idle now eff synthetic last s
            | _ ↦ (s, later activity_cache_window)
          ]).0.pre_degraded
            ≡ s.pre_degraded
      by_phase running = running_pre last s
      by_phase idle = idle_pre synthetic last s
      by_phase p = refl

  silent_pre :
      (reachable : List Replica) (s : AgentStatus)
      → (evaluate_silent now eff reachable s).0.pre_degraded ≡ s.pre_degraded
  unfolding evaluate_silent
  silent_pre reachable s =
      by_transition s.phase_transition (qualified now eff.idle_timeout reachable)
    where
      by_transition :
          (o : Option ℕ) (b : Bool)
          → (elim o as (λ _. AgentStatus × Requeue) [
            | none ↦ (s, later unknown_wait)
            | some since ↦
                if b then evaluate_phase now eff true since s else (s, later unknown_wait)
          ]).0.pre_degraded
            ≡ s.pre_degraded
      by_transition none b = refl
      by_transition (some since) true = phase_pre true since s
      by_transition (some since) false = refl

  reachable_pre :
      (name : String) (reachable : List Replica) (s : AgentStatus)
      → (evaluate_reachable now name eff reachable s).0.pre_degraded ≡ s.pre_degraded
  unfolding evaluate_reachable
  reachable_pre name reachable s = by_merged _
    where
      by_merged :
          (o : Option ℕ)
          → (elim o as (λ _. AgentStatus × Requeue) [
            | none ↦ evaluate_silent now eff reachable s
            | some last ↦ evaluate_phase now eff false last s
          ]).0.pre_degraded
            ≡ s.pre_degraded
      by_merged none = silent_pre reachable s
      by_merged (some last) = phase_pre false last s

  pub activity_pre :
      (name : String) (answer : Option (List Replica × ℕ)) (s : AgentStatus)
      → (evaluate_activity now name eff answer s).0.pre_degraded ≡ s.pre_degraded
  unfolding evaluate_activity
  activity_pre name none s = refl
  activity_pre name (some ([], total)) s = refl
  activity_pre name (some (r ∷ rs, total)) s = by_total (total == 0)
    where
      by_total :
          (b : Bool)
          → (if b
              then (record s { gateway_reachable = some false }, later unknown_wait)
              else evaluate_reachable now name eff
                  (r ∷ rs)
                  (record s { gateway_reachable = some true })).0.pre_degraded
            ≡ s.pre_degraded
      by_total true = refl
      by_total false = reachable_pre name (r ∷ rs) (record s { gateway_reachable = some true })
