-- ===== src/Agent/Wake.antt =====
-- The wake annotation over failures of the API: handleWake of
-- internal/controller/agent_controller.go.
use kubeclaw.Prelude.{
  if_true, if_false, ℕ, true, false, not, none, some, ◌≡◌, refl, subst, ap, sym, ◌∙◌,
}
use kubeclaw.Api.{World, ◌>>◌, pure, read_all-Keeps, write_then-Keeps}
use kubeclaw.AgentTask.{Requeue, again}
use kubeclaw.Agent.{
  hibernated, resuming, AgentStatus, Agent, AgentCluster, AgentEnv, stored, set_phase, same_phase,
}
use kubeclaw.Agent.{to_seconds}
use kubeclaw.Agent.Phases.{set_phase_phase}
use kubeclaw.Agent.Converge.{A, put_status}
use kubeclaw.Agent.Pass.{
  woken, remove_wake, handle_wake, reconcile_agent_status, observed_agent, reconcile_agent_object,
  reconcile_agent,
}

-- the wake of the agent with status `s` is still to come, or done
pub data Waking (now : ℕ) (s : AgentStatus) (c : AgentCluster) : Type 0 where
  asked : c.wake ≡ true → c.status ≡ s → Waking now s c
  awake :
      c.status.phase ≡ resuming
      → c.status.last_activity ≡ some (to_seconds now)
      → c.status.hibernated_at ≡ none
      → Waking now s c

wake-Waking :
    (now : ℕ) (s u : AgentStatus) (w : World AgentCluster)
    → w.state.wake ≡ true
    → w.state.status ≡ s
    → same_phase u.phase hibernated ≡ true
    → Waking now s (handle_wake now u w).0.state
unfolding handle_wake put_status woken
wake-Waking now s u w wake same asleep =
    let up : (set_phase now resuming u).phase ≡ resuming = set_phase_phase now resuming u in
    subst (λ (m : A Requeue). Waking now s (m w).0.state)
      (sym (if_true _ _ (remove_wake >> pure again) asleep))
      (write_then-Keeps (Waking now s) (λ c. record c { status = stored (woken now u) })
        (remove_wake >> pure again) w (Waking.asked wake same)
        (λ faults.
          write_then-Keeps (Waking now s) (λ c. record c { wake = false }) (pure again) _
            (Waking.awake up refl refl) (λ faults. Waking.awake up refl refl)))

wakes :
    (e : AgentEnv) (a : Agent) (c : AgentCluster)
    → c.exists ≡ true
    → c.deleting ≡ false
    → c.finalizer ≡ true
    → c.wake ≡ true
    → reconcile_agent_object e a c
      ≡ handle_wake e.shared.now (observed_agent e.shared.now a c.status)
unfolding reconcile_agent_object reconcile_agent_status
wakes e a c present kept marked wake =
    if_false (not c.exists) _ _ (ap not present)
    ∙ if_false c.deleting _ _ kept
    ∙ if_true c.finalizer _ _ marked
    ∙ if_true c.wake _ _ wake

sleeps :
    (now : ℕ) (a : Agent) (s : AgentStatus)
    → s.phase ≡ hibernated
    → same_phase (observed_agent now a s).phase hibernated ≡ true
unfolding observed_agent same_phase
sleeps now a s asleep = rw (asleep) refl

-- While a hibernated agent that is not being deleted and has its finalizer has the wake annotation,
-- every pass either leaves the annotation and the status or puts the agent into Resuming with the
-- moment of the wake as its last activity, whichever API calls fail.
pub reconcile_agent-Waking :
    (e : AgentEnv) (a : Agent) (w : World AgentCluster)
    → w.state.exists ≡ true
    → w.state.deleting ≡ false
    → w.state.finalizer ≡ true
    → w.state.wake ≡ true
    → w.state.status.phase ≡ hibernated
    → Waking e.shared.now w.state.status (reconcile_agent e a w).0.state
unfolding reconcile_agent
reconcile_agent-Waking e a w present kept marked wake asleep =
    let s = w.state.status in
    read_all-Keeps (Waking e.shared.now s) (reconcile_agent_object e a) w (Waking.asked wake refl)
      (λ faults.
        subst
          (λ (m : A Requeue).
            Waking e.shared.now s (m (record { state = w.state; faults = faults })).0.state)
          (sym (wakes e a w.state present kept marked wake))
          (wake-Waking e.shared.now s (observed_agent e.shared.now a s) _ wake refl
            (sleeps e.shared.now a s asleep)))
