-- ===== src/Agent/Moves/Steps.antt =====
-- The moves of the steps of a pass of internal/controller/agent_controller.go.
use kubeclaw.Prelude.{
  str_eq, ℕ, suc, ◌++◌, String, true, false, not, ◌&&◌, Option, none, some, [], ◌∷◌, if◌then◌else◌,
  Bool, ◌⊎◌, ◌≡◌, refl, ap, ◌∙◌, inl, inr, Bool-cases, arith,
}
use kubeclaw.Api.{◌>>◌, pure, write}
use kubeclaw.Api.Yields.{
  Yields, Any, pure-Yields, if-Yields, bind-Yields, read-Yields, write-Yields, then-Yields,
}
use kubeclaw.AgentTask.{Requeue}
use kubeclaw.Agent.{
  agent_pvc_name, unset, provisioning, running, idle, failed, AgentStatus, Agent, AgentClass,
  AgentPod, AgentCluster, AgentEnv, AgentChild, stored, same_phase, set_phase, set_ready,
}
use kubeclaw.Agent.Checks.{Effective, agent_pod_ready, crash_loop}
use kubeclaw.Agent.Converge.{
  desired_agent_pod, A, put_status, own_pod, delete_agent_pod, ensure_child, ensure_service,
  ensure_pvc, ensure_network_policy, ensure_agent_children, provisioning_for, is_over, settle_pod,
  converge_live, converge_pod,
}
use kubeclaw.Agent.Pass.{put_then}
use kubeclaw.Agent.Phases.{same_phase_eq, set_phase_phase, set_phase_pre}
use kubeclaw.Agent.Moves.{Moved, is_awake}

-- `v` has the phase and the former phase of `u`
abbrev pub Alike : AgentStatus → AgentStatus → Type 0
Alike u v = (v.phase ≡ u.phase) × (v.pre_degraded ≡ u.pre_degraded)

idle_same : same_phase idle idle ≡ true
unfolding same_phase
idle_same = refl

module _ (heard : Bool) (s : AgentStatus) where
  abbrev pub P : AgentCluster → Type 0
  P c = Moved heard s c.status

  -- what convergePod makes of an agent that was awake
  pub record Converged (u : AgentStatus) : Type 0 where
    pub outcome :
        (u.phase ≡ provisioning)
        ⊎ (u.phase ≡ failed)
        ⊎ ((u.phase ≡ running) × (s.phase ≡ idle → ⊥))
        ⊎ ((u.phase ≡ idle) × (s.phase ≡ idle))
    pub clear : u.pre_degraded ≡ unset

  -- an agent that is awake, before that
  pub record Started (u : AgentStatus) : Type 0 where
    pub awake : is_awake u.phase ≡ true
    pub was_idle : u.phase ≡ idle → s.phase ≡ idle
    pub still_idle : s.phase ≡ idle → u.phase ≡ idle
    pub clear : u.pre_degraded ≡ unset
    pub moved : Moved heard s u

  pub put-Yields : (u : AgentStatus) → Moved heard s u → Yields P Any (put_status u)
  unfolding put_status
  put-Yields u m = write-Yields P (λ c. record c { status = stored u }) (λ c h. m)

  pub put_then-Yields :
      (u : AgentStatus) (r : Requeue) → Moved heard s u → Yields P Any (put_then u r)
  put_then-Yields u r m =
      then-Yields P Any (put_status u) (pure r) (put-Yields u m) (pure-Yields P Any r tt)

  pub own_pod-Yields : Yields P Any own_pod
  unfolding own_pod
  own_pod-Yields = read-Yields P _

  pub delete-Yields : (p : AgentPod) → Yields P Any (delete_agent_pod p)
  unfolding delete_agent_pod
  delete-Yields p = write-Yields P _ (λ c h. h)

  child-Yields : (k : AgentChild) → Yields P Any (ensure_child k)
  unfolding ensure_child
  child-Yields k = write-Yields P _ (λ c h. h)

  service-Yields :
      (a : Agent) (eff : Effective) (u : AgentStatus) → Yields P (Alike u) (ensure_service a eff u)
  unfolding ensure_service
  service-Yields a eff u = bind-Yields P Any (Alike u) _ _ (read-Yields P _) (λ right _.
      if-Yields P (Alike u) right _ _
        (pure-Yields P (Alike u)
          (record u { endpoint = some (a.name, a.namespace, eff.service_port) }) (refl, refl))
        (then-Yields P (Alike u) _ _ (write-Yields P _ (λ c h. h)) (
          pure-Yields P (Alike u)
            (record u { endpoint = some (a.name, a.namespace, eff.service_port) }) (refl, refl))))

  pvc-Yields : (a : Agent) (u : AgentStatus) → Yields P (Alike u) (ensure_pvc a u)
  unfolding ensure_pvc
  pvc-Yields a u =
      then-Yields P (Alike u) _ _ (write-Yields P _ (λ c h. h))
        (pure-Yields P (Alike u) (record u { pvc_name = agent_pvc_name a.name }) (refl, refl))

  policy-Yields : Yields P Any ensure_network_policy
  unfolding ensure_network_policy
  policy-Yields =
      bind-Yields P Any Any _ _ (read-Yields P _) (λ _ _. child-Yields AgentChild.network_policy)

  pub children-Yields :
      (a : Agent) (eff : Effective) (u : AgentStatus)
      → Yields P (Alike u) (ensure_agent_children a eff u)
  unfolding ensure_agent_children
  children-Yields a eff u = then-Yields P (Alike u) _ _ (child-Yields AgentChild.service_account) (
      bind-Yields P (Alike u) (Alike u) _ _
        (if-Yields P (Alike u) eff.service_enabled _ _ (service-Yields a eff u)
          (pure-Yields P (Alike u) u (refl, refl)))
        (λ u₁ like.
          bind-Yields P (Alike u₁) (Alike u) _ _
            (if-Yields P (Alike u₁) (eff.persistence_on && _) _ _ (pvc-Yields a u₁)
              (pure-Yields P (Alike u₁) u₁ (refl, refl)))
            (λ u₂ like₂.
              then-Yields P (Alike u) _ _ policy-Yields
                (pure-Yields P (Alike u) u₂ (like₂.0 ∙ like.0, like₂.1 ∙ like.1)))))

  waits-Converged :
      (now : ℕ) (u v : AgentStatus)
      → u.pre_degraded ≡ unset
      → Alike (set_phase now provisioning u) v
      → Converged v
  waits-Converged now u v clear like = record {
    outcome = inl (like.0 ∙ set_phase_phase now provisioning u);
    clear = like.1 ∙ set_phase_pre now provisioning u ∙ clear;
  }

  settle-Converged :
      (now : ℕ) (p : AgentPod) (u : AgentStatus) → Started u → Converged (settle_pod now p u)
  unfolding settle_pod
  settle-Converged now p u st = elim (Bool-cases (agent_pod_ready p)) [
    | inl ready ↦ elim (Bool-cases (same_phase u.phase idle)) [
      | inl is_idle ↦
          let at : u.phase ≡ idle = same_phase_eq u.phase idle is_idle in
          rw (ready, is_idle)
            (record { outcome = inr (inr (inr (at, st.was_idle at))); clear = st.clear })
      | inr other ↦
          rw (ready, other)
            (record {
              outcome = inr (inr (inl (set_phase_phase now running u, awoken other)));
              clear = set_phase_pre now running u ∙ st.clear;
            })
    ]
    | inr unready ↦ rw (unready) (
        waits-Converged now u (set_ready false "PodNotReady" (set_phase now provisioning u))
          st.clear (refl, refl))
  ]
    where
      awoken : same_phase u.phase idle ≡ false → s.phase ≡ idle → ⊥
      awoken other at =
          ground (arith, other, ap (λ q. same_phase q idle) (st.still_idle at), idle_same)

  provisioning-Converged :
      (now : ℕ) (reason : String) (u : AgentStatus)
      → Started u
      → Converged (provisioning_for now reason u)
  provisioning-Converged now reason u st =
      waits-Converged now u (provisioning_for now reason u) st.clear (refl, refl)

  live-Yields :
      (e : AgentEnv) (a : Agent) (c : AgentClass) (p : AgentPod) (u : AgentStatus)
      → Started u
      → Yields P Converged (converge_live e a c p u)
  unfolding converge_live
  live-Yields e a c p u st =
      if-Yields P Converged (is_over p.phase) _ _ (replace "PodDisrupted")
        (by_crash (crash_loop p.containers))
    where
      now : ℕ
      now = e.shared.now

      replace :
          (reason : String)
          → Yields P Converged (delete_agent_pod p >> pure (provisioning_for now reason u))
      replace reason =
          then-Yields P Converged (delete_agent_pod p) (pure (provisioning_for now reason u))
            (delete-Yields p)
            (pure-Yields P Converged (provisioning_for now reason u)
              (provisioning-Converged now reason u st))

      named : AgentStatus
      named = record u { pod_name = a.name }

      by_crash :
          (o : Option String)
          → Yields P Converged (elim o as (λ _. A AgentStatus) [
            | some reason ↦ pure (set_ready false reason (set_phase now failed u))
            | none ↦
                if not (str_eq p.spec_hash (e.pod_spec_hash a c))
                then (delete_agent_pod p >> pure (provisioning_for now "SpecDrift" u))
                else pure (settle_pod now p named)
          ])
      by_crash (some reason) =
          pure-Yields P Converged (set_ready false reason (set_phase now failed u)) (record {
            outcome = inr (inl (set_phase_phase now failed u));
            clear = set_phase_pre now failed u ∙ st.clear;
          })
      by_crash none =
          if-Yields P Converged (not (str_eq p.spec_hash (e.pod_spec_hash a c))) _ _
            (replace "SpecDrift")
            (pure-Yields P Converged (settle_pod now p named) (
              settle-Converged now p named (record {
                awake = st.awake;
                was_idle = st.was_idle;
                still_idle = st.still_idle;
                clear = st.clear;
                moved = st.moved;
              })))

  pub converge-Yields :
      (e : AgentEnv) (a : Agent) (c : AgentClass) (u : AgentStatus)
      → Started u
      → Yields P Converged (converge_pod e a c u)
  unfolding converge_pod
  converge-Yields e a c u st =
      bind-Yields P Any Converged own_pod _ own_pod-Yields (λ pod _. by_pod pod)
    where
      waiting : AgentStatus
      waiting = provisioning_for e.shared.now "PodProvisioning" u

      made : Converged (record waiting { pod_name = a.name })
      made =
          waits-Converged e.shared.now u (record waiting { pod_name = a.name }) st.clear
            (refl, refl)

      create : AgentCluster → AgentCluster
      create k = record k {
        pods = k.pods ++ desired_agent_pod e a c k.fresh ∷ [];
        fresh = suc k.fresh;
      }

      by_pod :
          (o : Option AgentPod)
          → Yields P Converged (elim o as (λ _. A AgentStatus) [
            | none ↦ write create >> pure (record waiting { pod_name = a.name })
            | some p ↦ if p.deleting then pure waiting else converge_live e a c p u
          ])
      by_pod none =
          then-Yields P Converged (write create) (pure (record waiting { pod_name = a.name }))
            (write-Yields P create (λ k h. h)) (pure-Yields P Converged _ made)
      by_pod (some p) =
          if-Yields P Converged p.deleting (pure waiting) (converge_live e a c p u)
            (pure-Yields P Converged waiting
              (provisioning-Converged e.shared.now "PodProvisioning" u st))
            (live-Yields e a c p u st)
