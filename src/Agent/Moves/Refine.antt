-- ===== src/Agent/Moves/Refine.antt =====
-- A whole pass of internal/controller/agent_controller.go against the moves of an agent.
use kubeclaw.Prelude.{
  ℕ, Bool, true, false, not, is_some, List, if◌then◌else◌, ◌≡◌, refl, ap, inl, inr, Bool-cases,
  arith,
}
use kubeclaw.Api.{World, Outcome, ok, ◌>>◌, pure, write, read_all-Keeps}
use kubeclaw.Api.Yields.{Yields, Any, Ends, pure-Yields, if-Yields, write-Yields, then-Yields}
use kubeclaw.AgentTask.{finish, again}
use kubeclaw.Agent.{
  AgentPhase, unset, pending, terminating, AgentStatus, Agent, AgentCluster, AgentEnv, same_phase,
  set_phase,
}
use kubeclaw.Agent.Converge.{A}
use kubeclaw.Agent.Pass.{
  reconcile_agent_status, observed_agent, delete_agent, reconcile_agent_object, reconcile_agent,
}
use kubeclaw.Agent.Phases.{same_phase_eq, set_phase_phase, set_phase_pre}
use kubeclaw.Agent.Moves.{Move, Moved, IsSound, is_unset}
use kubeclaw.Agent.Moves.Steps.{P}
use kubeclaw.Agent.Moves.Phases.{Origin, is_unset_eq, Origin-at}
use kubeclaw.Agent.Moves.Object.{status-Yields, delete_agent-Yields}

unset_same : same_phase unset unset ≡ true
unfolding same_phase
unset_same = refl

other_unset : (p : AgentPhase) → same_phase p unset ≡ false → is_unset p ≡ false
other_unset p q = elim (Bool-cases (is_unset p)) [
  | inl at ↦ absurd (ground (arith, q, ap (λ r. same_phase r unset) (is_unset_eq p at), unset_same))
  | inr other ↦ other
]

observed-Origin : (now : ℕ) (a : Agent) (s : AgentStatus) → Origin s (observed_agent now a s)
unfolding observed_agent
observed-Origin now a s = by_test (same_phase s.phase unset) refl
  where
    s₁ : AgentStatus
    s₁ = record s { observed_generation = a.generation }

    by_test :
        (b : Bool)
        → same_phase s.phase unset ≡ b
        → Origin s (if b then set_phase now pending s₁ else s₁)
    by_test true q =
        let at = set_phase_phase now pending s₁ in
        record {
          from = inr (same_phase_eq s.phase unset q, at);
          same_pre = set_phase_pre now pending s₁;
          named = ap is_unset at;
        }
    by_test false q = record { from = inl refl; same_pre = refl; named = other_unset s.phase q }

Ends-state :
    {X : Type 0} (heard : Bool) (s : AgentStatus) (r : World AgentCluster × Outcome X)
    → Ends (P heard s) Any r
    → P heard s r.0.state
Ends-state heard s (w, ok a) h = h.0
Ends-state heard s (w, Outcome.failed) h = h

object-Yields :
    (e : AgentEnv) (a : Agent) (c : AgentCluster)
    → IsSound c.status
    → (c.status.phase ≡ terminating → c.deleting ≡ true)
    → Yields (P (is_some e.activity) c.status) Any (reconcile_agent_object e a c)
unfolding reconcile_agent_object
object-Yields e a c v₀ ends =
    if-Yields (P heard s) Any (not c.exists) (pure finish) _ (pure-Yields (P heard s) Any finish tt)
      (by_deleting c.deleting refl)
  where
    heard : Bool
    heard = is_some e.activity

    s : AgentStatus
    s = c.status

    u : AgentStatus
    u = observed_agent e.shared.now a s

    o : Origin s u
    o = observed-Origin e.shared.now a s

    mark : A (Unit {0})
    mark = write (λ (c' : AgentCluster). record c' { finalizer = true })

    living : c.deleting ≡ false → same_phase u.phase terminating ≡ false
    living q = elim (Bool-cases (same_phase u.phase terminating)) [
      | inl over ↦
          let at =
            Origin-at heard s v₀ u terminating o (same_phase_eq u.phase terminating over)
              (λ h. ground arith) in
          absurd (ground (arith, q, ends at))
      | inr other ↦ other
    ]

    by_deleting :
        (b : Bool)
        → c.deleting ≡ b
        → Yields (P heard s) Any (
            if b
            then delete_agent e a c
            else (if c.finalizer
                then reconcile_agent_status e a c.wake u
                else (mark >> pure again)))
    by_deleting true q = delete_agent-Yields heard s v₀ e a c
    by_deleting false q =
        if-Yields (P heard s) Any c.finalizer (reconcile_agent_status e a c.wake u)
          (mark >> pure again) (status-Yields heard s v₀ e a c.wake u refl o (living q))
          (then-Yields (P heard s) Any mark (pure again) (write-Yields (P heard s) _ (λ c' h. h))
            (pure-Yields (P heard s) Any again tt))

-- One pass over a sound agent, deleted if it is Terminating, makes at most one move, whichever API
-- calls fail, but that an agent that becomes Running may go idle at once: by a row of the table of
-- transitions, those between Running and Idle and to Hibernating only if the gateways are asked for
-- activity, or by one of three kinds that the table lacks, from Resuming to Provisioning, from
-- Pending to Running, and from Failed to Provisioning or Running. It leaves the agent sound: a
-- degraded agent, and no other, keeps a phase to go back to.
pub reconcile_agent-Moved :
    (e : AgentEnv) (a : Agent) (w : World AgentCluster)
    → IsSound w.state.status
    → (w.state.status.phase ≡ terminating → w.state.deleting ≡ true)
    → Moved (is_some e.activity) w.state.status (reconcile_agent e a w).0.state.status
unfolding reconcile_agent
reconcile_agent-Moved e a w v₀ ends =
    let s = w.state.status in
    let heard = is_some e.activity in
    let at : List Bool → World AgentCluster =
      λ faults. record { state = w.state; faults = faults } in
    read_all-Keeps (P heard s) (reconcile_agent_object e a) w (Move.stays refl, v₀)
      (λ faults.
        Ends-state heard s (reconcile_agent_object e a w.state (at faults))
          (object-Yields e a w.state v₀ ends (at faults) (Move.stays refl, v₀)))
