-- ===== src/Agent/Moves/Object.antt =====
-- The moves of the rest of a pass of internal/controller/agent_controller.go: Degraded, the wake and
-- the deletion.
use kubeclaw.Prelude.{
  ℕ, String, Bool, true, false, not, str_eq, Option, none, some, is_some, List, [], ◌∷◌,
  if◌then◌else◌, ◌≡◌, refl, ap, sym, ◌∙◌, inl, inr, Bool-cases, arith,
}
use kubeclaw.Api.{◌>>◌, pure, raise, read, write}
use kubeclaw.Api.Yields.{
  Yields, Any, pure-Yields, raise-Yields, if-Yields, bind-Yields, read-Yields, write-Yields,
  then-Yields,
}
use kubeclaw.AgentTask.{Requeue, finish, again, Got, got, not_found, get_error}
use kubeclaw.Agent.{
  AgentPhase, unset, hibernated, resuming, degraded, terminating, AgentStatus, Agent, AgentClass,
  AgentPod, AgentCluster, AgentEnv, same_phase, set_phase, set_ready,
}
use kubeclaw.Agent.Checks.{
  Effective, derive_effective_spec, degraded_reasons, reconcile_budget_condition,
}
use kubeclaw.Agent.Converge.{A, put_status, own_pod, delete_agent_pod}
use kubeclaw.Agent.Pass.{
  put_then, woken, remove_wake, handle_wake, delete_unless_deleting, degrade, restored_phase,
  recover, reconcile_phase, reconcile_agent_class, reconcile_agent_status, release_pvc,
  release_finalizer, retains, owns, released, end_agent, ending, delete_agent,
}
use kubeclaw.Agent.Phases.{same_phase_eq, set_phase_phase, set_phase_pre}
use kubeclaw.Agent.Moves.{Move, Step, Moved, IsSound, sound, is_degraded, entered}
use kubeclaw.Agent.Moves.Steps.{P, put-Yields, put_then-Yields, own_pod-Yields, delete-Yields}
use kubeclaw.Agent.Moves.Whole.{sound_of}
use kubeclaw.Agent.Moves.Phases.{
  Origin, is_degraded_eq, restored-plain, kept_pre, Origin-Moved, Origin-clear, Origin-at,
  phase-Yields,
}

degraded_same : same_phase degraded degraded ≡ true
unfolding same_phase
degraded_same = refl

other_phase : (p : AgentPhase) → same_phase p degraded ≡ false → is_degraded p ≡ false
other_phase p q = elim (Bool-cases (is_degraded p)) [
  | inl at ↦
      absurd
        (ground (arith, q, ap (λ r. same_phase r degraded) (is_degraded_eq p at), degraded_same))
  | inr other ↦ other
]

module _ (heard : Bool) (s : AgentStatus) (v₀ : IsSound s) where
  degrade-Moved :
      (now : ℕ) (reason : String) (u : AgentStatus)
      → Origin s u
      → Moved heard s (degrade now reason u)
  unfolding degrade
  degrade-Moved now reason u o = by_test (same_phase u.phase degraded) refl
    where
      left : AgentStatus
      left = record u { pre_degraded = u.phase }

      by_test :
          (b : Bool)
          → same_phase u.phase degraded ≡ b
          → Moved heard s (set_ready false reason (if b then u else set_phase now degraded left))
      by_test true q =
          let at = same_phase_eq u.phase degraded q in
          (Move.steps (Step.degrades at), (Origin-Moved heard s v₀ u o).1)
      by_test false q =
          let at = set_phase_phase now degraded left in
          (
            Move.steps (Step.degrades at),
            ap (λ p. sound p (set_phase now degraded left).pre_degraded) at
                ∙ ap (sound degraded) (set_phase_pre now degraded left)
                ∙ kept_pre u.phase (other_phase u.phase q) o.named,
          )

  recover-Moved :
      (now : ℕ) (u : AgentStatus) → Origin s u → u.phase ≡ degraded → Moved heard s (recover now u)
  unfolding recover
  recover-Moved now u o at =
      let q = set_phase_phase now (restored_phase u.pre_degraded) u in
      let sound_pre = ap (λ p. sound p u.pre_degraded) (sym at) ∙ (Origin-Moved heard s v₀ u o).1 in
      (
        Move.recovers (Origin-at heard s v₀ u degraded o at (λ h. ground arith))
            (q ∙ ap entered o.same_pre),
        sound_of _ unset (ap is_degraded q ∙ restored-plain u.pre_degraded sound_pre) refl,
      )

  class-Yields :
      (e : AgentEnv) (a : Agent) (c : AgentClass) (u : AgentStatus)
      → is_some e.activity ≡ heard
      → Origin s u
      → same_phase u.phase terminating ≡ false
      → Yields (P heard s) Any (reconcile_agent_class e a c u)
  unfolding reconcile_agent_class reconcile_budget_condition
  class-Yields e a c u sense o living = by_reasons (degraded_reasons e a c eff)
    where
      eff : Effective
      eff = derive_effective_spec a c

      checked : AgentStatus
      checked = reconcile_budget_condition e a u

      by_phase :
          (b : Bool)
          → same_phase u.phase degraded ≡ b
          → Yields (P heard s) Any (
              if b
              then put_then (recover e.shared.now u) again
              else reconcile_phase e a c eff checked)
      by_phase true q =
          put_then-Yields heard s (recover e.shared.now u) again
            (recover-Moved e.shared.now u o (same_phase_eq u.phase degraded q))
      by_phase false q =
          phase-Yields heard s v₀ e a c eff checked sense
            (record { from = o.from; same_pre = o.same_pre; named = o.named })
            (other_phase u.phase q) living

      by_reasons :
          (rs : List String)
          → Yields (P heard s) Any (elim rs as (λ _. A Requeue) [
            | reason ∷ _ ↦ put_then (degrade e.shared.now reason u) finish
            | [] ↦
                if same_phase u.phase degraded
                then put_then (recover e.shared.now u) again
                else reconcile_phase e a c eff checked
          ])
      by_reasons [] = by_phase (same_phase u.phase degraded) refl
      by_reasons (reason ∷ rs) =
          put_then-Yields heard s (degrade e.shared.now reason u) finish
            (degrade-Moved e.shared.now reason u o)

  wake-Yields :
      (now : ℕ) (u : AgentStatus) → Origin s u → Yields (P heard s) Any (handle_wake now u)
  unfolding handle_wake woken
  wake-Yields now u o = by_test (same_phase u.phase hibernated) refl
    where
      removed : Yields (P heard s) Any (remove_wake >> pure again)
      removed =
          then-Yields (P heard s) Any remove_wake (pure again)
            (write-Yields (P heard s) (λ c. record c { wake = false }) (λ c h. h))
            (pure-Yields (P heard s) Any again tt)

      by_test :
          (b : Bool)
          → same_phase u.phase hibernated ≡ b
          → Yields (P heard s) Any (
              if b
              then (put_status (woken now u) >> (remove_wake >> pure again))
              else (remove_wake >> pure again))
      by_test true q =
          let at = same_phase_eq u.phase hibernated q in
          let up = set_phase_phase now resuming u in
          then-Yields (P heard s) Any (put_status (woken now u)) (remove_wake >> pure again)
            (put-Yields heard s (woken now u) (
              Move.steps (
                  Step.wakes
                    (ap entered (Origin-at heard s v₀ u hibernated o at (λ h. ground arith))) up),
              sound_of _ _ (ap is_degraded up)
                  (set_phase_pre now resuming u ∙ Origin-clear heard s v₀ u o (ap is_degraded at)),
            ))
            removed
      by_test false q = removed

  pub status-Yields :
      (e : AgentEnv) (a : Agent) (wake : Bool) (u : AgentStatus)
      → is_some e.activity ≡ heard
      → Origin s u
      → same_phase u.phase terminating ≡ false
      → Yields (P heard s) Any (reconcile_agent_status e a wake u)
  unfolding reconcile_agent_status
  status-Yields e a wake u sense o living =
      if-Yields (P heard s) Any wake (handle_wake e.shared.now u) _ (wake-Yields e.shared.now u o) (
        if-Yields (P heard s) Any (str_eq a.namespace e.shared.operator_namespace) _ _
          (put_then-Yields heard s (set_ready false "SystemNamespaceForbidden" u) finish
            (Origin-Moved heard s v₀ u o))
          (by_class (e.agent_class a.class_ref)))
    where
      by_class :
          (r : Got AgentClass)
          → Yields (P heard s) Any (elim r as (λ _. A Requeue) [
            | not_found ↦ put_then (set_ready false "InvalidReference" u) finish
            | get_error ↦ raise
            | got c ↦ reconcile_agent_class e a c u
          ])
      by_class not_found =
          put_then-Yields heard s (set_ready false "InvalidReference" u) finish
            (Origin-Moved heard s v₀ u o)
      by_class get_error = raise-Yields {A = Requeue} (P heard s) Any
      by_class (got c) = class-Yields e a c u sense o living

  finalizer-Yields : Yields (P heard s) Any release_finalizer
  finalizer-Yields =
      then-Yields (P heard s) Any (write (λ c. record c { finalizer = false; exists = false }))
        (pure finish)
        (write-Yields (P heard s) (λ c. record c { finalizer = false; exists = false }) (λ c h. h))
        (pure-Yields (P heard s) Any finish tt)

  pvc_release-Yields : (a : Agent) → Yields (P heard s) Any (release_pvc a)
  unfolding release_pvc
  pvc_release-Yields a =
      bind-Yields (P heard s) Any Any (read (λ c. owns a.uid c.pvc)) _
        (read-Yields (P heard s) (λ c. owns a.uid c.pvc))
        (λ owned _.
          if-Yields (P heard s) Any owned (write (λ c. record c { pvc = released a.uid c.pvc }))
            (pure tt)
            (write-Yields (P heard s) (λ c. record c { pvc = released a.uid c.pvc }) (λ c h. h))
            (pure-Yields (P heard s) Any tt tt))

  end-Yields : (e : AgentEnv) (a : Agent) → Yields (P heard s) Any (end_agent e a)
  unfolding end_agent
  end-Yields e a =
      bind-Yields (P heard s) Any Any own_pod _ (own_pod-Yields heard s) (λ pod _. by_pod pod)
    where
      by_pod :
          (x : Option AgentPod)
          → Yields (P heard s) Any (elim x as (λ _. A Requeue) [
            | some p ↦ delete_unless_deleting p >> pure finish
            | none ↦
                if retains (e.agent_class a.class_ref)
                then (release_pvc a >> release_finalizer)
                else release_finalizer
          ])
      by_pod (some p) =
          then-Yields (P heard s) Any (delete_unless_deleting p) (pure finish)
            (if-Yields (P heard s) Any p.deleting (pure tt) (delete_agent_pod p)
              (pure-Yields (P heard s) Any tt tt) (delete-Yields heard s p))
            (pure-Yields (P heard s) Any finish tt)
      by_pod none =
          if-Yields (P heard s) Any (retains (e.agent_class a.class_ref))
            (release_pvc a >> release_finalizer) release_finalizer
            (then-Yields (P heard s) Any (release_pvc a) release_finalizer (pvc_release-Yields a)
              finalizer-Yields)
            finalizer-Yields

  pub delete_agent-Yields :
      (e : AgentEnv) (a : Agent) (c : AgentCluster) → Yields (P heard s) Any (delete_agent e a c)
  unfolding delete_agent ending
  delete_agent-Yields e a c =
      let cleared = record c.status { pre_degraded = unset } in
      let q = set_phase_phase e.shared.now terminating cleared in
      if-Yields (P heard s) Any (not c.finalizer) (pure finish) _
        (pure-Yields (P heard s) Any finish tt)
        (if-Yields (P heard s) Any (same_phase c.status.phase terminating) (end_agent e a) _
          (end-Yields e a)
          (then-Yields (P heard s) Any (put_status (ending e.shared.now c.status)) (end_agent e a)
            (put-Yields heard s (ending e.shared.now c.status) (
              Move.steps (Step.ends q),
              sound_of _ _ (ap is_degraded q) (set_phase_pre e.shared.now terminating cleared),
            ))
            (end-Yields e a)))
