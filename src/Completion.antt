-- ===== src/Completion.antt =====
-- The report of a task: handleTaskComplete and ValidateCompletionArtifacts of
-- internal/gateway/completion.go, and the patch of KubeCompletionWriter in
-- internal/gateway/async.go. The body of the request is what the limited reader returns.
pub mod Mailbox
pub mod Guards
pub mod Accepted
pub mod Delivered
pub mod Settles
mod Samples
use Prim.Native.String.{◌++◌, len}
use kubeclaw.Prelude.{
  ℕ, ◌+◌, String, Bool, true, false, not, ◌&&◌, ◌||◌, Option, none, some, List, [], ◌∷◌, any,
  str_eq, ltb, ◌==◌, is_some, if◌then◌else◌,
}
use kubeclaw.Prelude.Maps.{Map, lookup, insert}
use kubeclaw.AgentTask.{Task, TaskStatus, Phase, succeeded, failed, timed_out}
use kubeclaw.AgentTask.Checks.{has}

-- taskCompleteRequest
pub record CompleteRequest : Type 0 where
  pub status : String
  pub message : String
  pub artifacts : Map String

-- what the handler reads: the cache of tasks and Pods, the live list of Pods, and JSON
pub record Reads : Type 0 where
  pub task_by_name : String → String → Option (Task × TaskStatus)
  pub pod_by_ip : String → Option ℕ  -- its UID
  pub pod_by_ip_live : String → String → Option ℕ
  pub decode : String → Option CompleteRequest
  pub disable_source_ip_check : Bool

pub record Caller : Type 0 where
  pub namespace : String
  pub task : String
  pub ip : String
  pub body : Option String  -- none where reading it fails
  pub patch_fails : Bool

-- an answer, and for the last one the data that PatchMailbox was given
pub data Answer : Type 0 where
  no_task not_agent_reported already_completed stale_pod : Answer
  unreadable bad_json bad_status bad_artifacts : Answer
  artifact_too_large payload_too_large unavailable : Answer
  accepted : Map String → Answer

unfoldable pub answer_status : Answer → ℕ
answer_status no_task = 403
answer_status not_agent_reported = 403
answer_status already_completed = 403
answer_status stale_pod = 403
answer_status unreadable = 400
answer_status bad_json = 400
answer_status bad_status = 400
answer_status bad_artifacts = 400
answer_status artifact_too_large = 413
answer_status payload_too_large = 413
answer_status unavailable = 503
answer_status (accepted _) = 200

-- ValidateCompletionArtifacts: whether it returns ""
unfoldable pub artifacts_valid : String → Map String → List String → Bool
unfolding lookup
artifacts_valid status artifacts declared =
    not (any (λ (a : String × String). not (has declared a.0)) artifacts)
    && (not (str_eq status "success")
        || not (any (λ (n : String). not (is_some (lookup n artifacts))) declared))

-- the phases of the switch (d)
unfoldable pub rejects_completion : Phase → Bool
rejects_completion succeeded = true
rejects_completion failed = true
rejects_completion timed_out = true
rejects_completion _ = false

abbrev pub or_live : Option ℕ → Option ℕ → Option ℕ
or_live none live = live
or_live (some uid) live = some uid

abbrev pub same_uid : Option ℕ → Option ℕ → Bool
same_uid (some a) (some b) = a == b
same_uid _ _ = false

-- the identity gate (c)
unfoldable pub current_pod : Reads → Caller → TaskStatus → Bool
current_pod r c s =
    r.disable_source_ip_check
    || same_uid (or_live (r.pod_by_ip c.ip) (r.pod_by_ip_live c.namespace c.ip)) s.current_pod_uid

abbrev pub max_artifact_bytes : ℕ
max_artifact_bytes = 4096

abbrev pub max_artifact_total_bytes : ℕ
max_artifact_total_bytes = 32768

unfoldable pub total_bytes : Map String → ℕ
total_bytes [] = 0
total_bytes ((k, v) ∷ m) = len v + total_bytes m

unfoldable pub artifact_data : Map String → Map String
artifact_data [] = []
artifact_data ((k, v) ∷ m) = ("artifact." ++ k, v) ∷ artifact_data m

-- the data of the patch
unfoldable pub mailbox_data : CompleteRequest → Map String
unfolding artifact_data
mailbox_data q =
    ("status", q.status)
    ∷ (if str_eq q.message ""
        then artifact_data q.artifacts
        else ("message", q.message) ∷ artifact_data q.artifacts)

-- the merge patch of the ConfigMap's data
unfoldable pub merge_patch : Map String → Map String → Map String
unfolding insert
merge_patch [] m = m
merge_patch ((k, v) ∷ d) m = insert k v (merge_patch d m)

-- the checks of the report itself, after JSON
unfoldable pub check_report : Bool → List String → CompleteRequest → Answer
unfolding artifacts_valid total_bytes mailbox_data
check_report patch_fails declared q =
    if not (str_eq q.status "success" || str_eq q.status "failure")
    then bad_status
    else if not (artifacts_valid q.status q.artifacts declared)
    then bad_artifacts
    else if any (λ (a : String × String). ltb max_artifact_bytes (len a.1)) q.artifacts
    then artifact_too_large
    else if ltb max_artifact_total_bytes (len q.message + total_bytes q.artifacts)
    then payload_too_large
    else if patch_fails
    then unavailable
    else accepted (mailbox_data q)

unfoldable pub handle_body : Reads → Caller → List String → Answer
unfolding check_report
handle_body r c declared = elim c.body [
  | none ↦ unreadable
  | some body ↦ elim (r.decode body) [
    | none ↦ bad_json
    | some q ↦ check_report c.patch_fails declared q
  ]
]

-- handleTaskComplete
unfoldable pub handle_task_complete : Reads → Caller → Answer
unfolding rejects_completion current_pod handle_body
handle_task_complete r c = elim (r.task_by_name c.namespace c.task) [
  | none ↦ no_task
  | some found ↦
      if str_eq found.0.condition "exitCode"
      then not_agent_reported
      else if rejects_completion found.1.phase
      then already_completed
      else if not (current_pod r c found.1)
      then stale_pod
      else handle_body r c found.0.artifacts
]
