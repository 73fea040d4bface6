-- ===== src/Agent/Silence.antt =====
-- When evaluateActivity of internal/controller/agent_controller.go lets an agent go idle and
-- hibernate.
use kubeclaw.Prelude.{
  ℕ, ◌+◌, ◌<◌, ◌≤◌, String, Bool, true, false, ◌&&◌, Option, none, some, List, map, ltb, ◌≡◌, subst,
  ap, sym, ◌⊎◌, inl, inr, Bool-cases, arith,
}
use kubeclaw.Activity.{merged_activity}
use kubeclaw.AgentTask.{Requeue, later}
use kubeclaw.Agent.{AgentPhase, running, idle, hibernating, AgentStatus, Replica}
use kubeclaw.Agent.Checks.{Effective}
use kubeclaw.Agent.Idle.{
  activity_cache_window, floored, evaluate_running, silence_start, fresh_activity, evaluate_idle,
  evaluate_phase,
}
use kubeclaw.Agent.Phases.{set_phase_phase}

-- `t` is a time of activity that is known of the agent: what a replica has recorded, or the stamp
-- of its status
abbrev pub KnownActivity : String → Effective → List Replica → AgentStatus → ℕ → Type 0
KnownActivity name eff reachable s t =
    (merged_activity (map (λ (r : Replica). r.agents) reachable) name eff.activity_source ≡ some t)
    ⊎ (s.last_activity ≡ some t)

-- what a pass may do to the phase of an agent that is running or idle
pub record Rests (now : ℕ) (name : String) (eff : Effective) (reachable : List Replica)
    (s u : AgentStatus) : Type 0 where
  pub idles :
      s.phase ≡ running
      → (u.phase ≡ running)
        ⊎ ((u.phase ≡ idle)
            × ((t : ℕ) → KnownActivity name eff reachable s t → t + eff.idle_timeout < now))
  pub sleeps :
      s.phase ≡ idle
      → (u.phase ≡ idle)
        ⊎ (u.phase ≡ running)
        ⊎ ((u.phase ≡ hibernating)
            × (eff.hibernation_enabled ≡ true)
            × ((t : ℕ)
                → KnownActivity name eff reachable s t
                → t + (eff.idle_timeout + eff.hibernation_delay) < now))

below : (a b d now : ℕ) → ltb (b + d) now ≡ true → a ≤ b → a + d < now
below a b d now past le = ground arith

-- as evaluate_phase
abbrev evaluate_at : ℕ → Effective → Bool → ℕ → AgentStatus → AgentPhase → AgentStatus × Requeue
evaluate_at now eff synthetic last s p = elim p [
  | running ↦ evaluate_running now eff last s
  | idle ↦ evaluate_idle now eff synthetic last s
  | _ ↦ (s, later activity_cache_window)
]

module _ (now : ℕ) (eff : Effective) where
  floored-le :
      (last : ℕ) (stamp : Option ℕ) (t : ℕ) → (last ≡ t) ⊎ (stamp ≡ some t) → t ≤ floored last stamp
  unfolding floored
  floored-le last none t h = ground arith
  floored-le last (some x) t h = ground arith

  running_case :
      (last : ℕ) (s : AgentStatus)
      → s.phase ≡ running
      → ((evaluate_running now eff last s).0.phase ≡ running)
        ⊎ (((evaluate_running now eff last s).0.phase ≡ idle)
            × ((t : ℕ) → (last ≡ t) ⊎ (s.last_activity ≡ some t) → t + eff.idle_timeout < now))
  unfolding evaluate_running
  running_case last s at =
      elim (Bool-cases (ltb (floored last s.last_activity + eff.idle_timeout) now)) [
        | inl past ↦ inr (
          rw (past) (set_phase_phase now idle s),
          λ t h.
              below t (floored last s.last_activity) eff.idle_timeout now past
                (floored-le last s.last_activity t h),
        )
        | inr recent ↦ inl (rw (recent) at)
      ]

  silence-le :
      (synthetic : Bool) (last : ℕ) (stamp : Option ℕ) (t : ℕ)
      → ((synthetic ≡ false) × (last ≡ t)) ⊎ (stamp ≡ some t)
      → t ≤ silence_start synthetic last stamp
  unfolding silence_start floored
  silence-le true last none t h = ground arith
  silence-le false last none t h = ground arith
  silence-le true last (some x) t h = ground arith
  silence-le false last (some x) t h = ground arith

  idle_case :
      (synthetic : Bool) (last : ℕ) (s : AgentStatus)
      → s.phase ≡ idle
      → ((evaluate_idle now eff synthetic last s).0.phase ≡ idle)
        ⊎ ((evaluate_idle now eff synthetic last s).0.phase ≡ running)
        ⊎ (((evaluate_idle now eff synthetic last s).0.phase ≡ hibernating)
            × (eff.hibernation_enabled ≡ true)
            × ((t : ℕ)
                → ((synthetic ≡ false) × (last ≡ t)) ⊎ (s.last_activity ≡ some t)
                → t + (eff.idle_timeout + eff.hibernation_delay) < now))
  unfolding evaluate_idle
  idle_case synthetic last s at =
      elim (Bool-cases (fresh_activity synthetic last s.last_activity)) [
        | inl fresh ↦ inr (inl (rw (fresh) (set_phase_phase now running s)))
        | inr stale ↦
            elim (Bool-cases (
              eff.hibernation_enabled
              && ltb
                  (silence_start synthetic last s.last_activity
                    + (eff.idle_timeout + eff.hibernation_delay))
                  now)) [
                    | inl due ↦ inr (
                        inr (
                          rw (stale, due) (set_phase_phase now hibernating s),
                          ground arith,
                          λ t h.
                              below t (silence_start synthetic last s.last_activity)
                                (eff.idle_timeout + eff.hibernation_delay) now (ground arith)
                                (silence-le synthetic last s.last_activity t h),
                        ))
                    | inr early ↦ inl (rw (stale, early) at)
                  ]
      ]

  at_phase :
      (synthetic : Bool) (last : ℕ) (s : AgentStatus) (p : AgentPhase)
      → s.phase ≡ p
      → evaluate_phase now eff synthetic last s ≡ evaluate_at now eff synthetic last s p
  unfolding evaluate_phase
  at_phase synthetic last s p at = ap (evaluate_at now eff synthetic last s) at

  pub phase-Rests :
      (name : String) (reachable : List Replica) (synthetic : Bool) (last : ℕ) (s : AgentStatus)
      → ((t : ℕ)
          → KnownActivity name eff reachable s t
          → ((synthetic ≡ false) × (last ≡ t)) ⊎ (s.last_activity ≡ some t))
      → Rests now name eff reachable s (evaluate_phase now eff synthetic last s).0
  phase-Rests name reachable synthetic last s known = record {
    idles = λ at.
        subst
          (λ (r : AgentStatus × Requeue).
            (r.0.phase ≡ running)
            ⊎ ((r.0.phase ≡ idle)
                × ((t : ℕ) → KnownActivity name eff reachable s t → t + eff.idle_timeout < now)))
          (sym (at_phase synthetic last s running at)) (ran _ (running_case last s at));
    sleeps = λ at.
        subst
          (λ (r : AgentStatus × Requeue).
            (r.0.phase ≡ idle)
            ⊎ (r.0.phase ≡ running)
            ⊎ ((r.0.phase ≡ hibernating)
                × (eff.hibernation_enabled ≡ true)
                × ((t : ℕ)
                    → KnownActivity name eff reachable s t
                    → t + (eff.idle_timeout + eff.hibernation_delay) < now)))
          (sym (at_phase synthetic last s idle at)) (slept _ (idle_case synthetic last s at));
  }
    where
      weaker :
          {t : ℕ}
          → ((synthetic ≡ false) × (last ≡ t)) ⊎ (s.last_activity ≡ some t)
          → (last ≡ t) ⊎ (s.last_activity ≡ some t)
      weaker (inl (_, q)) = inl q
      weaker (inr q) = inr q

      ran :
          (p : AgentPhase)
          → (p ≡ running)
            ⊎ ((p ≡ idle)
                × ((t : ℕ) → (last ≡ t) ⊎ (s.last_activity ≡ some t) → t + eff.idle_timeout < now))
          → (p ≡ running)
            ⊎ ((p ≡ idle)
                × ((t : ℕ) → KnownActivity name eff reachable s t → t + eff.idle_timeout < now))
      ran p (inl q) = inl q
      ran p (inr (q, f)) = inr (q, λ t k. f t (weaker (known t k)))

      slept :
          (p : AgentPhase)
          → (p ≡ idle)
            ⊎ (p ≡ running)
            ⊎ ((p ≡ hibernating)
                × (eff.hibernation_enabled ≡ true)
                × ((t : ℕ)
                    → ((synthetic ≡ false) × (last ≡ t)) ⊎ (s.last_activity ≡ some t)
                    → t + (eff.idle_timeout + eff.hibernation_delay) < now))
          → (p ≡ idle)
            ⊎ (p ≡ running)
            ⊎ ((p ≡ hibernating)
                × (eff.hibernation_enabled ≡ true)
                × ((t : ℕ)
                    → KnownActivity name eff reachable s t
                    → t + (eff.idle_timeout + eff.hibernation_delay) < now))
      slept p (inl q) = inl q
      slept p (inr (inl q)) = inr (inl q)
      slept p (inr (inr (q, on, f))) = inr (inr (q, on, λ t k. f t (known t k)))
