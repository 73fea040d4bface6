-- ===== src/AgentTask/Provision.antt =====
-- The start of a task: driveProvisioning and what it makes, and the dispatch of drive, of
-- internal/controller/agenttask_controller.go.
use kubeclaw.Prelude.{
  ℕ, suc, ◌+◌, String, Bool, true, false, not, ◌&&◌, ◌||◌, Option, none, some, List, [], ◌∷◌, ◌++◌,
  ◌==◌, ltb, if◌then◌else◌,
}
use kubeclaw.Prelude.Maps.{Map}
use kubeclaw.Api.{◌>>=◌, ◌>>◌, pure, read, write, request}
use kubeclaw.AgentTask.{
  Task, Pod, pod_succeeded, pod_failed, pod_pending, Env, TaskStatus, Child, service_account, pvc,
  network_policy, completion_role, completion_role_binding, pending, provisioning, running,
  completing, Requeue, finish, later, is_agent_reported,
}
use kubeclaw.AgentTask.Checks.{pod_ready, fatal_waiting}
use kubeclaw.AgentTask.Drive.{
  K, cert_wait_requeue, provisioning_deadline, update_status, with_phase, with_ready, when,
  in_phase, complete_now, fail_or_retry, then_finish, running_requeue, drive_running,
  drive_completing,
}

unfoldable pub request_certificate : K (Unit {0})
request_certificate = write (λ c. record c { certificate = some false })

unfoldable pub certificate_from : Option Bool → K Bool
unfolding request_certificate
certificate_from none = request_certificate >> pure false
certificate_from (some ready) = pure ready

-- ensureTaskCertificate
unfoldable pub ensure_certificate : K Bool
unfolding certificate_from
ensure_certificate = read (λ c. c.certificate) >>= λ cert. certificate_from cert

-- the creation of a child that may be there already
unfoldable pub create_child : Child → K (Unit {0})
create_child k = write (λ c. record c { children = k ∷ c.children })

unfoldable pub create_all : List Child → K (Unit {0})
unfolding create_child
create_all [] = pure tt
create_all (k ∷ ks) = create_child k >> create_all ks

abbrev pub made : Option (Map String) → Option (Map String)
made none = some []
made (some m) = some m

unfoldable pub create_mailbox : K (Unit {0})
create_mailbox = write (λ c. record c { mailbox = made c.mailbox })

abbrev pub own_children : Task → List Child
own_children t = service_account ∷ (if t.persistence then pvc ∷ [] else []) ++ network_policy ∷ []

abbrev pub completion_children : List Child
completion_children = completion_role ∷ completion_role_binding ∷ []

-- ensureTaskChildren
unfoldable pub ensure_children : Task → K (Unit {0})
unfolding create_all create_mailbox
ensure_children t =
    create_all (own_children t)
    >> when (is_agent_reported t) (create_mailbox >> create_all completion_children)

abbrev pub new_pod : Env → Task → ℕ → Pod
new_pod e t uid = record {
  uid = uid;
  name = t.name;
  controlled = true;
  deleting = false;
  phase = pod_pending;
  conditions = [];
  waiting = [];
  created = e.now;
}

-- the Pod of desiredTaskPod, and the UID that it gets
unfoldable pub create_pod : Env → Task → K ℕ
create_pod e t =
    request (λ c. c.fresh)
      (λ c. record c { pods = c.pods ++ new_pod e t c.fresh ∷ []; fresh = suc c.fresh })

unfoldable pub provisioned : Task → TaskStatus → ℕ → TaskStatus
provisioned t s uid = record s {
  phase = provisioning;
  ready = some (false, "PodProvisioning");
  pod_name = t.name;
  current_pod_uid = if is_agent_reported t then some uid else s.current_pod_uid;
}

unfoldable pub provision_pod : Env → Task → TaskStatus → K Requeue
unfolding ensure_children create_pod update_status provisioned
provision_pod e t s = do
  ensure_children t
  uid ← create_pod e t
  update_status (provisioned t s uid)
  pure finish

abbrev pub await : ℕ → TaskStatus → K Requeue
await wait s = update_status s >> pure (later wait)

-- driveProvisioning without a Pod
unfoldable pub provision : Env → Task → TaskStatus → K Requeue
unfolding ensure_certificate provision_pod update_status
provision e t s = do
  ready ← ensure_certificate
  if ready
      then provision_pod e t s
      else await cert_wait_requeue
          (with_ready false "CertificateNotReady" (with_phase provisioning s))

unfoldable pub stamped : Task → TaskStatus → Pod → Bool
stamped t s p =
    not (is_agent_reported t) || elim s.current_pod_uid [ none ↦ false | some uid ↦ uid == p.uid ]

abbrev pub stamp : TaskStatus → Pod → TaskStatus
stamp s p = record s { current_pod_uid = some p.uid; pod_name = p.name }

abbrev pub started : ℕ → TaskStatus → TaskStatus
started now s = record s {
  phase = running;
  start_time = some now;
  ready = some (true, "PodRunning");
}

-- driveProvisioning with a Pod, after the stamp
unfoldable pub watch_pod : Env → Task → TaskStatus → Pod → K Requeue
unfolding complete_now fail_or_retry update_status
watch_pod e t s p =
    if pod_ready p
    then (update_status (started e.now s) >> pure (running_requeue e.now t (started e.now s)))
    else if in_phase pod_succeeded (some p) || in_phase pod_failed (some p)
    then (if not (is_agent_reported t) && in_phase pod_succeeded (some p)
        then complete_now e t s (some p)
        else then_finish (fail_or_retry e t "PodStartFailed" s))
    else elim (fatal_waiting p.waiting) [
      | some reason ↦ then_finish (fail_or_retry e t reason s)
      | none ↦
          if ltb (p.created + provisioning_deadline) e.now
          then then_finish (fail_or_retry e t "ProvisioningDeadlineExceeded" s)
          else await cert_wait_requeue s
    ]

-- driveProvisioning
unfoldable pub drive_provisioning : Env → Task → TaskStatus → Option Pod → K Requeue
unfolding provision stamped watch_pod update_status
drive_provisioning e t s none = provision e t s
drive_provisioning e t s (some p) =
    if stamped t s p
    then watch_pod e t s p
    else (update_status (stamp s p) >> watch_pod e t (stamp s p) p)

-- drive
unfoldable pub drive : Env → Task → TaskStatus → Option Pod → K Requeue
unfolding drive_provisioning drive_running drive_completing
drive e t s pod = elim s.phase [
  | pending ↦ drive_provisioning e t s pod
  | provisioning ↦ drive_provisioning e t s pod
  | running ↦ drive_running e t s pod
  | completing ↦ then_finish (drive_completing e t s pod)
  | _ ↦ pure finish
]
