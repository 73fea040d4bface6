-- ===== src/AgentTask/Reconcile.antt =====
-- One pass: Reconcile, handleTTL and reconcileDelete of
-- internal/controller/agenttask_controller.go.
use kubeclaw.Prelude.{
  ℕ, ◌+◌, ◌-◌, ◌*◌, String, Bool, true, false, not, ◌&&◌, Option, none, some, List, [], ◌∷◌, str_eq,
  ltb, is_some, if◌then◌else◌,
}
use kubeclaw.Api.{◌>>=◌, ◌>>◌, pure, raise, read, write}
use kubeclaw.AgentTask.{
  Task, Class, Pod, Env, TaskStatus, Cluster, Phase, unset, pending, provisioning, failed,
  terminating, Requeue, finish, again, later, got, not_found, get_error,
}
use kubeclaw.AgentTask.Checks.{is_terminal, task_violation, effective_image}
use kubeclaw.AgentTask.Drive.{
  K, second, update_status, with_phase, with_ready, owned_task_pod, delete_pod, delete_live, settle,
}
use kubeclaw.AgentTask.Provision.{await, drive}

-- gateRequeue
abbrev pub gate_requeue : ℕ
gate_requeue = 30 * second

abbrev pub gate : String → TaskStatus → K Requeue
gate reason s = update_status (with_ready false reason s) >> pure finish

-- handleTTL
unfoldable pub expire : TaskStatus → K Requeue
unfolding update_status
expire s = do
  update_status (with_phase terminating s)
  write (λ c. record c { deleting = true })
  pure finish

unfoldable pub handle_ttl : Env → Task → TaskStatus → K Requeue
unfolding expire
handle_ttl e t s = elim t.ttl_seconds [
  | none ↦ pure finish
  | some ttl ↦ elim s.completion_time [
    | none ↦ pure finish
    | some finished ↦
        if ltb e.now (finished + ttl * second)
        then pure (later (finished + ttl * second - e.now))
        else expire s
  ]
]

-- the imagePullSecrets, in their order
unfoldable pub pull_secrets_then : Env → TaskStatus → List String → K Requeue → K Requeue
pull_secrets_then e s [] next = next
pull_secrets_then e s (name ∷ names) next =
    let rest = pull_secrets_then e s names next in
    elim (e.secret name) [
      | got _ ↦ rest
      | not_found ↦ await gate_requeue (with_ready false "ImagePullSecretMissing" s)
      | get_error ↦ raise
    ]

abbrev pub starts : Phase → Bool
starts pending = true
starts provisioning = true
starts _ = false

-- the checks before a Pod is made
unfoldable pub validate_then : Env → Task → Class → TaskStatus → K Requeue → K Requeue
unfolding task_violation pull_secrets_then settle effective_image
validate_then e t c s next = elim (task_violation e t c) [
  | some reason ↦ settle e.now failed false reason s >> pure finish
  | none ↦
      pull_secrets_then e s c.pull_secrets
        (if str_eq (effective_image t c) "" then gate "InvalidReference" s else next)
]

-- Reconcile from the class on
unfoldable pub reconcile_class : Env → Task → Class → TaskStatus → K Requeue
unfolding owned_task_pod validate_then drive
reconcile_class e t c s = do
  pod ← owned_task_pod
  if not (is_some pod) && starts s.phase
      then validate_then e t c s (drive e t s pod)
      else drive e t s pod

unfoldable pub reconcile_live : Env → Task → TaskStatus → K Requeue
unfolding reconcile_class
reconcile_live e t s =
    if str_eq t.namespace e.operator_namespace
    then gate "SystemNamespaceForbidden" s
    else elim (e.class_of t.class_ref) [
      | not_found ↦ gate "InvalidReference" s
      | get_error ↦ raise
      | got c ↦ reconcile_class e t c s
    ]

abbrev pub is_failed : Phase → Bool
is_failed failed = true
is_failed _ = false

-- a retry that a crash or an error has interrupted
unfoldable pub resume : TaskStatus → K Requeue
unfolding update_status
resume s = update_status (with_phase provisioning s) >> pure again

unfoldable pub reconcile_status : Env → Task → TaskStatus → K Requeue
unfolding resume handle_ttl reconcile_live
reconcile_status e t s =
    if is_failed s.phase && not (is_some s.completion_time)
    then resume s
    else if is_terminal s.phase
    then handle_ttl e t s
    else reconcile_live e t s

-- the in-memory status that Reconcile starts from
unfoldable pub observed : Task → TaskStatus → TaskStatus
observed t s = record s {
  observed_generation = t.generation;
  phase = elim s.phase as (λ (_ : Phase). Phase) [ unset ↦ pending | p ↦ p ];
}

-- reconcileDelete
abbrev pub finish_delete : Option Pod → K Requeue
finish_delete none = write (λ c. record c { finalizer = false; exists = false }) >> pure finish
finish_delete (some p) = delete_live (some p) >> pure finish

unfoldable pub reconcile_delete : Bool → K Requeue
unfolding owned_task_pod delete_pod
reconcile_delete finalizer =
    if finalizer then (owned_task_pod >>= λ pod. finish_delete pod) else pure finish

unfoldable pub reconcile_object : Env → Task → Cluster → K Requeue
unfolding reconcile_delete reconcile_status observed
reconcile_object e t c =
    if not c.exists
    then pure finish
    else if c.deleting
    then reconcile_delete c.finalizer
    else if c.finalizer
    then reconcile_status e t (observed t c.status)
    else (write (λ c'. record c' { finalizer = true }) >> pure again)

-- Reconcile
unfoldable pub reconcile : Env → Task → K Requeue
unfolding reconcile_object
reconcile e t = read (λ c. c) >>= λ c. reconcile_object e t c
