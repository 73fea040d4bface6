-- ===== src/Agent/Pass.antt =====
-- One pass: Reconcile, handleWake, driveHibernating, reconcileDegraded, readyGates and
-- reconcileDelete of internal/controller/agent_controller.go.
use kubeclaw.Prelude.{
  ℕ, String, Bool, true, false, not, ◌&&◌, ◌||◌, Option, none, some, List, [], ◌∷◌, str_eq, ltb,
  ◌==◌, if◌then◌else◌,
}
use kubeclaw.Api.{◌>>=◌, ◌>>◌, pure, raise, read, write}
use kubeclaw.AgentTask.{Got, got, not_found, get_error, Requeue, finish, again, later}
use kubeclaw.AgentTask.Drive.{cert_wait_requeue}
use kubeclaw.AgentTask.Reconcile.{gate_requeue}
use kubeclaw.Agent.{
  AgentPhase, unset, pending, provisioning, running, idle, hibernating, hibernated, resuming,
  degraded, terminating, AgentStatus, Agent, AgentClass, AgentPod, AgentCluster, AgentEnv,
  set_phase, set_ready, same_phase,
}
use kubeclaw.Agent.Checks.{
  Effective, derive_effective_spec, degraded_reasons, reconcile_budget_condition,
}
use kubeclaw.Agent.Idle.{evaluate_activity}
use kubeclaw.Agent.Converge.{
  A, put_status, own_pod, delete_agent_pod, agent_certificate, ensure_agent_children, converge_pod,
}

abbrev pub put_then : AgentStatus → Requeue → A Requeue
put_then s r = put_status s >> pure r

-- the status that a wake of a hibernated agent writes
unfoldable pub woken : ℕ → AgentStatus → AgentStatus
unfolding set_phase
woken now s =
    set_ready false "Woken"
      (record (set_phase now resuming s) { hibernated_at = none; last_activity = some now })

abbrev pub remove_wake : A (Unit {0})
remove_wake = write (λ c. record c { wake = false })

-- handleWake
unfoldable pub handle_wake : ℕ → AgentStatus → A Requeue
unfolding put_status woken
handle_wake now s =
    if same_phase s.phase hibernated
    then (put_status (woken now s) >> (remove_wake >> pure again))
    else (remove_wake >> pure again)

-- the status once the Pod is gone
unfoldable pub asleep : ℕ → AgentStatus → AgentStatus
unfolding set_phase
asleep now s =
    set_ready false "Hibernated"
      (record (set_phase now hibernated s) { hibernated_at = some now; pod_name = "" })

abbrev pub delete_unless_deleting : AgentPod → A (Unit {0})
delete_unless_deleting p = if p.deleting then pure tt else delete_agent_pod p

-- driveHibernating
unfoldable pub drive_hibernating : ℕ → AgentStatus → A Requeue
unfolding own_pod asleep put_status delete_agent_pod
drive_hibernating now s = own_pod >>= λ (pod : Option AgentPod). elim pod [
  | none ↦ put_then (asleep now s) finish
  | some p ↦ delete_unless_deleting p >> put_then s finish
]

-- enterOrStayDegraded, with the first of the reasons
unfoldable pub degrade : ℕ → String → AgentStatus → AgentStatus
unfolding set_phase
degrade now reason s = set_ready false reason (
    if same_phase s.phase degraded
    then s
    else set_phase now degraded (record s { pre_degraded = s.phase }))

abbrev pub restored_phase : AgentPhase → AgentPhase
restored_phase unset = pending
restored_phase p = p

unfoldable pub recover : ℕ → AgentStatus → AgentStatus
unfolding set_phase
recover now s = record (set_phase now (restored_phase s.pre_degraded) s) { pre_degraded = unset }

-- a Get that a gate makes, and the reason where it finds nothing
abbrev pub gate_on : Got (Unit {0}) → String → AgentStatus → A Requeue → A Requeue
gate_on (got _) reason s next = next
gate_on not_found reason s next = put_then (set_ready false reason s) (later gate_requeue)
gate_on get_error reason s next = raise

unfoldable pub secrets_gate : AgentEnv → AgentStatus → List String → A Requeue → A Requeue
secrets_gate e s [] next = next
secrets_gate e s (name ∷ names) next =
    let rest = secrets_gate e s names next in
    gate_on (e.shared.secret name) "ImagePullSecretMissing" s rest

-- readyGates, and the return of its caller where it gates
unfoldable pub ready_gates : AgentEnv → Effective → AgentStatus → A Requeue → A Requeue
unfolding put_status secrets_gate
ready_gates e eff s next =
    let handler =
      if str_eq eff.handler_config_map ""
      then next
      else gate_on (e.config_map eff.handler_config_map) "HandlerConfigMapNotFound" s next in
    let secrets = secrets_gate e s eff.pull_secrets handler in
    if str_eq eff.image ""
    then put_then (set_ready false "InvalidReference" s) finish
    else if eff.persistence_on && not (str_eq eff.existing_claim "")
    then gate_on (e.claim eff.existing_claim) "ExistingClaimNotFound" s secrets
    else secrets

unfoldable pub await_certificate : ℕ → AgentStatus → A Requeue
unfolding put_status set_phase
await_certificate now s =
    put_then
      (set_ready false "CertificateNotReady"
        (if same_phase s.phase pending then set_phase now provisioning s else s))
      (later cert_wait_requeue)

-- step 8, in memory
unfoldable pub evaluated : AgentEnv → Agent → Effective → AgentStatus → AgentStatus × Requeue
unfolding evaluate_activity
evaluated e a eff s = elim e.activity [
  | none ↦ (s, finish)
  | some answer ↦
      if (same_phase s.phase running || same_phase s.phase idle) && ltb 0 eff.idle_timeout
      then evaluate_activity e.shared.now a.name eff answer s
      else (s, finish)
]

-- from the Certificate on
unfoldable pub provision_agent : AgentEnv → Agent → AgentClass → Effective → AgentStatus → A Requeue
unfolding agent_certificate await_certificate ensure_agent_children converge_pod evaluated
    put_status
provision_agent e a c eff s = do
  ready ← agent_certificate
  if not ready
      then await_certificate e.shared.now s
      else (ensure_agent_children a eff s >>= λ s₁.
          converge_pod e a c s₁ >>= λ s₂. let r = evaluated e a eff s₂ in put_then r.0 r.1)

-- the phases after the cross-checks
unfoldable pub reconcile_phase : AgentEnv → Agent → AgentClass → Effective → AgentStatus → A Requeue
unfolding drive_hibernating ready_gates provision_agent put_status
reconcile_phase e a c eff s = elim s.phase [
  | hibernating ↦ drive_hibernating e.shared.now s
  | hibernated ↦ put_then s finish
  | _ ↦ ready_gates e eff s (provision_agent e a c eff s)
]

-- Reconcile from the class on, with reconcileDegraded
unfoldable pub reconcile_agent_class : AgentEnv → Agent → AgentClass → AgentStatus → A Requeue
unfolding derive_effective_spec degraded_reasons degrade recover reconcile_budget_condition
    reconcile_phase put_status
reconcile_agent_class e a c s =
    let eff = derive_effective_spec a c in
    elim (degraded_reasons e a c eff) [
      | reason ∷ _ ↦ put_then (degrade e.shared.now reason s) finish
      | [] ↦
          if same_phase s.phase degraded
          then put_then (recover e.shared.now s) again
          else reconcile_phase e a c eff (reconcile_budget_condition e a s)
    ]

-- Reconcile from the wake annotation on
unfoldable pub reconcile_agent_status : AgentEnv → Agent → Bool → AgentStatus → A Requeue
unfolding handle_wake reconcile_agent_class put_status
reconcile_agent_status e a wake s =
    if wake
    then handle_wake e.shared.now s
    else if str_eq a.namespace e.shared.operator_namespace
    then put_then (set_ready false "SystemNamespaceForbidden" s) finish
    else elim (e.agent_class a.class_ref) [
      | not_found ↦ put_then (set_ready false "InvalidReference" s) finish
      | get_error ↦ raise
      | got c ↦ reconcile_agent_class e a c s
    ]

unfoldable pub observed_agent : ℕ → Agent → AgentStatus → AgentStatus
unfolding set_phase
observed_agent now a s =
    let s₁ = record s { observed_generation = a.generation } in
    if same_phase s.phase unset then set_phase now pending s₁ else s₁

abbrev pub without_owner : ℕ → List ℕ → List ℕ
without_owner uid [] = []
without_owner uid (o ∷ os) = let rest = without_owner uid os in if o == uid then rest else o ∷ rest

abbrev pub owns : ℕ → Option (List ℕ) → Bool
owns uid none = false
owns uid (some []) = false
owns uid (some (o ∷ os)) = let rest = owns uid (some os) in if o == uid then true else rest

abbrev pub released : ℕ → Option (List ℕ) → Option (List ℕ)
released uid none = none
released uid (some owners) = some (without_owner uid owners)

abbrev pub retains : Got AgentClass → Bool
retains (got c) = str_eq c.pvc_retention "Retain"
retains _ = false

-- pvcRetention: the PVC loses its owner before the finalizer goes
unfoldable pub release_pvc : Agent → A (Unit {0})
release_pvc a = do
  owned ← read (λ c. owns a.uid c.pvc)
  if owned then write (λ c. record c { pvc = released a.uid c.pvc }) else pure tt

abbrev pub release_finalizer : A Requeue
release_finalizer = write (λ c. record c { finalizer = false; exists = false }) >> pure finish

unfoldable pub end_agent : AgentEnv → Agent → A Requeue
unfolding own_pod delete_agent_pod release_pvc
end_agent e a = own_pod >>= λ (pod : Option AgentPod). elim pod [
  | some p ↦ delete_unless_deleting p >> pure finish
  | none ↦
      if retains (e.agent_class a.class_ref)
      then (release_pvc a >> release_finalizer)
      else release_finalizer
]

unfoldable pub ending : ℕ → AgentStatus → AgentStatus
unfolding set_phase
ending now s = set_phase now terminating (record s { pre_degraded = unset })

-- reconcileDelete
unfoldable pub delete_agent : AgentEnv → Agent → AgentCluster → A Requeue
unfolding ending put_status end_agent
delete_agent e a c =
    if not c.finalizer
    then pure finish
    else if same_phase c.status.phase terminating
    then end_agent e a
    else (put_status (ending e.shared.now c.status) >> end_agent e a)

unfoldable pub reconcile_agent_object : AgentEnv → Agent → AgentCluster → A Requeue
unfolding delete_agent reconcile_agent_status observed_agent
reconcile_agent_object e a c =
    if not c.exists
    then pure finish
    else if c.deleting
    then delete_agent e a c
    else if c.finalizer
    then reconcile_agent_status e a c.wake (observed_agent e.shared.now a c.status)
    else (write (λ c'. record c' { finalizer = true }) >> pure again)

-- Reconcile
unfoldable pub reconcile_agent : AgentEnv → Agent → A Requeue
unfolding reconcile_agent_object
reconcile_agent e a = read (λ c. c) >>= λ c. reconcile_agent_object e a c
