-- ===== src/Agent/Converge.antt =====
-- The children and the Pod of an agent: ensureCertificate, ensureChildren and convergePod of
-- internal/controller/agent_controller.go.
use kubeclaw.Prelude.{
  ℕ, suc, String, Bool, true, false, not, ◌&&◌, Option, none, some, List, [], ◌∷◌, ◌++◌, map,
  str_eq, ◌==◌, if◌then◌else◌,
}
use kubeclaw.Api.{M, ◌>>=◌, ◌>>◌, pure, read, write}
use kubeclaw.AgentTask.{PodPhase, pod_pending, pod_succeeded, pod_failed}
use kubeclaw.Agent.{
  agent_pvc_name, provisioning, running, idle, failed, AgentStatus, Agent, AgentClass, AgentPod,
  AgentChild, service_account, network_policy, AgentCluster, AgentEnv, stored, set_phase, set_ready,
  same_phase,
}
use kubeclaw.Agent.Checks.{
  Effective, owned_agent_pod, agent_pod_ready, crash_loop, default_health_port,
}

abbrev pub A : Type 0 → Type 0
A = M AgentCluster

-- r.Status().Update(ctx, agent)
unfoldable pub put_status : AgentStatus → A (Unit {0})
put_status s = write (λ c. record c { status = stored s })

-- ownedPod
unfoldable pub own_pod : A (Option AgentPod)
unfolding owned_agent_pod
own_pod = read (λ c. owned_agent_pod none c.pods)

abbrev pub deleted_pod : ℕ → AgentPod → AgentPod
deleted_pod uid p = if p.uid == uid then record p { deleting = true } else p

unfoldable pub delete_agent_pod : AgentPod → A (Unit {0})
delete_agent_pod p = write (λ c. record c { pods = map (deleted_pod p.uid) c.pods })

-- ensureCertificate
unfoldable pub agent_certificate : A Bool
agent_certificate = read (λ c. c.certificate) >>= λ (cert : Option Bool). elim cert [
  | none ↦ write (λ c. record c { certificate = some false }) >> pure false
  | some ready ↦ pure ready
]

unfoldable pub ensure_child : AgentChild → A (Unit {0})
ensure_child k = write (λ c. record c { children = k ∷ c.children })

abbrev pub ports_match : ℕ → Option (List (ℕ × ℕ)) → Bool
ports_match port (some ((p, target) ∷ [])) = p == port && target == default_health_port
ports_match port _ = false

-- ensureService: a Get, and a Create or an Update unless the one port is right
unfoldable pub ensure_service : Agent → Effective → AgentStatus → A AgentStatus
ensure_service a eff s = do
  right ← read (λ c. ports_match eff.service_port c.service)
  if right
      then pure (record s { endpoint = some (a.name, a.namespace, eff.service_port) })
      else (write (λ c. record c { service = some ((eff.service_port, default_health_port) ∷ []) })
          >> pure (record s { endpoint = some (a.name, a.namespace, eff.service_port) }))

abbrev pub claimed : ℕ → Option (List ℕ) → Option (List ℕ)
claimed uid none = some (uid ∷ [])
claimed uid (some owners) = some owners

-- ensurePVC
unfoldable pub ensure_pvc : Agent → AgentStatus → A AgentStatus
ensure_pvc a s =
    write (λ c. record c { pvc = claimed a.uid c.pvc })
    >> pure (record s { pvc_name = agent_pvc_name a.name })

-- ensureNetworkPolicy: a Get, and a Create or an Update
unfoldable pub ensure_network_policy : A (Unit {0})
unfolding ensure_child
ensure_network_policy = read (λ c. tt) >>= λ (_ : Unit {0}). ensure_child network_policy

-- ensureChildren
unfoldable pub ensure_agent_children : Agent → Effective → AgentStatus → A AgentStatus
unfolding ensure_child ensure_service ensure_pvc ensure_network_policy
ensure_agent_children a eff s = do
  ensure_child service_account
  s₁ ← if eff.service_enabled then ensure_service a eff s else pure s
  s₂ ← if eff.persistence_on && str_eq eff.existing_claim "" then ensure_pvc a s₁ else pure s₁
  ensure_network_policy
  pure s₂

abbrev pub desired_agent_pod : AgentEnv → Agent → AgentClass → ℕ → AgentPod
desired_agent_pod e a c uid = record {
  uid = uid;
  controlled = true;
  deleting = false;
  phase = pod_pending;
  conditions = [];
  containers = [];
  spec_hash = e.pod_spec_hash a c;
}

-- a Pod to wait for: the phase and the reason
abbrev pub provisioning_for : ℕ → String → AgentStatus → AgentStatus
provisioning_for now reason s = set_ready false reason (set_phase now provisioning s)

abbrev pub is_over : PodPhase → Bool
is_over pod_succeeded = true
is_over pod_failed = true
is_over _ = false

-- the phase of an agent whose Pod is as it should be
unfoldable pub settle_pod : ℕ → AgentPod → AgentStatus → AgentStatus
unfolding agent_pod_ready set_phase
settle_pod now p s =
    if agent_pod_ready p
    then set_ready true "PodRunning"
        (if same_phase s.phase idle then s else set_phase now running s)
    else set_ready false "PodNotReady" (set_phase now provisioning s)

unfoldable pub converge_live :
    AgentEnv → Agent → AgentClass → AgentPod → AgentStatus → A AgentStatus
unfolding crash_loop settle_pod delete_agent_pod
converge_live e a c p s =
    let now = e.shared.now in
    if is_over p.phase
    then (delete_agent_pod p >> pure (provisioning_for now "PodDisrupted" s))
    else elim (crash_loop p.containers) [
      | some reason ↦ pure (set_ready false reason (set_phase now failed s))
      | none ↦
          if not (str_eq p.spec_hash (e.pod_spec_hash a c))
          then (delete_agent_pod p >> pure (provisioning_for now "SpecDrift" s))
          else pure (settle_pod now p (record s { pod_name = a.name }))
    ]

-- convergePod
unfoldable pub converge_pod : AgentEnv → Agent → AgentClass → AgentStatus → A AgentStatus
unfolding own_pod converge_live
converge_pod e a c s = own_pod >>= λ (pod : Option AgentPod). elim pod [
  | none ↦
      write (λ k. record k {
        pods = k.pods ++ desired_agent_pod e a c k.fresh ∷ [];
        fresh = suc k.fresh;
      })
      >> pure (record (provisioning_for e.shared.now "PodProvisioning" s) { pod_name = a.name })
  | some p ↦
      if p.deleting
      then pure (provisioning_for e.shared.now "PodProvisioning" s)
      else converge_live e a c p s
]
