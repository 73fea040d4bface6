-- ===== src/AgentTask/Drive.antt =====
-- The state machine of a task: drive and what it calls, of
-- internal/controller/agenttask_controller.go. `s` is the status in memory, which a status update
-- writes; events and messages are left out.
use kubeclaw.Prelude.{
  ℕ, suc, ◌+◌, ◌-◌, ◌*◌, String, Bool, true, false, not, ◌&&◌, ◌||◌, Option, none, some, List, [],
  ◌∷◌, map, str_eq, ◌==◌, ltb, if◌then◌else◌, is_some,
}
use kubeclaw.Prelude.Maps.{Map}
use kubeclaw.Api.{M, ◌>>=◌, ◌>>◌, pure, read, write}
use kubeclaw.AgentTask.{
  Task, Pod, PodPhase, pod_succeeded, pod_failed, Env, TaskStatus, Cluster, Phase, provisioning,
  completing, succeeded, failed, timed_out, Requeue, finish, later, is_agent_reported,
}
use kubeclaw.AgentTask.Checks.{Payload, parse_completion, valid_artifacts, timed_out_at}

abbrev pub K : Type 0 → Type 0
K = M Cluster

abbrev pub second : ℕ
second = 1000000000

-- certWaitRequeue and provisioningDeadline
abbrev pub cert_wait_requeue : ℕ
cert_wait_requeue = 5 * second

abbrev pub provisioning_deadline : ℕ
provisioning_deadline = 300 * second

-- r.Status().Update(ctx, task)
unfoldable pub update_status : TaskStatus → K (Unit {0})
update_status s = write (λ c. record c { status = s })

abbrev pub with_phase : Phase → TaskStatus → TaskStatus
with_phase p s = record s { phase = p }

abbrev pub with_ready : Bool → String → TaskStatus → TaskStatus
with_ready ok reason s = record s { ready = some (ok, reason) }

-- the loop of ownedTaskPod: the first Pod that is not being deleted, else the last that is
unfoldable pub owned_pod : Option Pod → List Pod → Option Pod
owned_pod candidate [] = candidate
owned_pod candidate (p ∷ ps) =
    let other = owned_pod candidate ps in
    let deleted = owned_pod (some p) ps in
    if not p.controlled then other else if p.deleting then deleted else some p

unfoldable pub owned_task_pod : K (Option Pod)
unfolding owned_pod
owned_task_pod = read (λ c. owned_pod none c.pods)

-- r.Delete of a Pod, which is graceful
abbrev pub mark_deleting : ℕ → Pod → Pod
mark_deleting uid p = if p.uid == uid then record p { deleting = true } else p

unfoldable pub delete_pod : Pod → K (Unit {0})
delete_pod p = write (λ c. record c { pods = map (mark_deleting p.uid) c.pods })

abbrev pub no_payload : Payload
no_payload = record { status = ""; message = ""; artifacts = [] }

abbrev pub payload_of : Option (Map String) → Payload
payload_of none = no_payload
payload_of (some m) = parse_completion m

-- readMailbox
unfoldable pub read_mailbox : K Payload
read_mailbox = read (λ c. payload_of c.mailbox)

abbrev pub cleared : Option (Map String) → Option (Map String)
cleared none = none
cleared (some m) = some []

abbrev pub when : Bool → K (Unit {0}) → K (Unit {0})
when true m = m
when false m = pure tt

-- settle
unfoldable pub settled : ℕ → Phase → Bool → String → TaskStatus → TaskStatus
settled now phase success reason s = record s {
  phase = phase;
  completion_time = some now;
  completed = some (success, reason);
  ready = some (false, reason);
}

unfoldable pub settle : ℕ → Phase → Bool → String → TaskStatus → K (Unit {0})
unfolding settled update_status
settle now phase success reason s = update_status (settled now phase success reason s)

-- the first status write of retry
unfoldable pub retried : String → TaskStatus → TaskStatus
retried reason s = record s {
  retries = suc s.retries;
  current_pod_uid = none;
  start_time = none;
  artifact_values = [];
  reported_status = "";
  reported_message = "";
  phase = failed;
  ready = some (false, reason);
}

abbrev pub delete_live : Option Pod → K (Unit {0})
delete_live none = pure tt
delete_live (some p) = when (not p.deleting) (delete_pod p)

abbrev pub has_data : Option (Map String) → Bool
has_data none = false
has_data (some []) = false
has_data (some (_ ∷ _)) = true

-- step 4 of retry
unfoldable pub reset_mailbox : K (Unit {0})
reset_mailbox = do
  full ← read (λ c. has_data c.mailbox)
  when full (write (λ c. record c { mailbox = cleared c.mailbox }))

unfoldable pub retry : Task → String → TaskStatus → K (Unit {0})
unfolding retried update_status owned_task_pod delete_pod reset_mailbox
retry t reason s = do
  update_status (retried reason s)
  pod ← owned_task_pod
  delete_live pod
  when (is_agent_reported t) reset_mailbox
  update_status (with_phase provisioning (retried reason s))

unfoldable pub fail_or_retry : Env → Task → String → TaskStatus → K (Unit {0})
unfolding retry settle
fail_or_retry e t reason s =
    if ltb s.retries t.backoff_limit then retry t reason s else settle e.now failed false reason s

unfoldable pub settle_timeout : Env → Task → TaskStatus → K (Unit {0})
unfolding settle
settle_timeout e t s =
    if str_eq t.on_timeout "Succeed"
    then settle e.now succeeded true "TimeoutSucceeded" s
    else settle e.now timed_out false "TimeoutExceeded" s

abbrev pub with_report : Payload → TaskStatus → TaskStatus
with_report p s = record s {
  artifact_values = p.artifacts;
  reported_status = p.status;
  reported_message = p.message;
}

-- driveCompleting, from the payload on
unfoldable pub complete_reported : Env → Task → TaskStatus → Payload → K (Unit {0})
unfolding fail_or_retry settle settle_timeout
complete_reported e t s p =
    if not (str_eq p.status "")
    then (if not (valid_artifacts p t.artifacts)
        then fail_or_retry e t "TaskFailed" s
        else if str_eq p.status "success"
        then settle e.now succeeded true "TaskSucceeded" (with_report p s)
        else fail_or_retry e t "TaskFailed" (with_report p s))
    else if timed_out_at e.now t s
    then settle_timeout e t s
    else fail_or_retry e t "PodDisrupted" s

abbrev pub in_phase : PodPhase → Option Pod → Bool
in_phase q none = false
in_phase q (some p) = same q p.phase
  where
    same : PodPhase → PodPhase → Bool
    same pod_succeeded pod_succeeded = true
    same pod_failed pod_failed = true
    same _ _ = false

unfoldable pub complete_exited : Env → Task → TaskStatus → Option Pod → K (Unit {0})
unfolding fail_or_retry settle settle_timeout
complete_exited e t s pod =
    if in_phase pod_succeeded pod
    then settle e.now succeeded true "TaskSucceeded" s
    else if in_phase pod_failed pod
    then fail_or_retry e t "TaskFailed" s
    else if timed_out_at e.now t s
    then settle_timeout e t s
    else fail_or_retry e t "PodDisrupted" s

unfoldable pub drive_completing : Env → Task → TaskStatus → Option Pod → K (Unit {0})
unfolding complete_reported complete_exited read_mailbox
drive_completing e t s pod =
    if is_agent_reported t
    then (read_mailbox >>= λ p. complete_reported e t s p)
    else complete_exited e t s pod

abbrev pub then_finish : K (Unit {0}) → K Requeue
then_finish m = m >> pure finish

-- the move to Completing, settled in the same pass
unfoldable pub complete_now : Env → Task → TaskStatus → Option Pod → K Requeue
unfolding drive_completing update_status
complete_now e t s pod = do
  update_status (with_phase completing s)
  then_finish (drive_completing e t (with_phase completing s) pod)

-- runningRequeue
unfoldable pub running_requeue : ℕ → Task → TaskStatus → Requeue
running_requeue now t s = elim s.start_time [
  | none ↦ finish
  | some start ↦
      if t.timeout == 0
      then finish
      else if ltb (start + t.timeout - now) second
      then later second
      else later (start + t.timeout - now)
]

unfoldable pub watch_running : Env → Task → TaskStatus → Option Pod → K Requeue
unfolding complete_now fail_or_retry
watch_running e t s pod =
    if not (is_agent_reported t) && (in_phase pod_succeeded pod || in_phase pod_failed pod)
    then complete_now e t s pod
    else if timed_out_at e.now t s
    then complete_now e t s pod
    else if not (is_some pod) || (is_agent_reported t && in_phase pod_failed pod)
    then then_finish (fail_or_retry e t "PodDisrupted" s)
    else pure (running_requeue e.now t s)

-- driveRunning
unfoldable pub drive_running : Env → Task → TaskStatus → Option Pod → K Requeue
unfolding watch_running complete_now read_mailbox
drive_running e t s pod =
    if is_agent_reported t
    then (read_mailbox >>= λ p.
        if not (str_eq p.status "") then complete_now e t s pod else watch_running e t s pod)
    else watch_running e t s pod
