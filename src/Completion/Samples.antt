-- ===== src/Completion/Samples.antt =====
-- A report of the sample task.
use kubeclaw.Prelude.{String, false, none, some, [], ◌∷◌, str_eq, if◌then◌else◌, ◌≡◌, refl, inl}
use kubeclaw.Prelude.Maps.{Map, get_or, lookup, insert}
use kubeclaw.AgentTask.{succeeded}
use kubeclaw.AgentTask.Checks.{parse_completion}
use kubeclaw.AgentTask.Reconcile.{reconcile}
use kubeclaw.AgentTask.Faultless.{calm}
use kubeclaw.AgentTask.Reported.{failing}
use kubeclaw.AgentTask.Samples.{report_task, env_at, reported_cluster, reported-Driven, ready_pod}
use kubeclaw.Completion.{
  CompleteRequest, Reads, Caller, accepted, handle_task_complete, handle_body, check_report,
  artifacts_valid, rejects_completion, current_pod, mailbox_data, artifact_data, merge_patch,
  total_bytes,
}
use kubeclaw.Completion.Accepted.{parse-merge_patch}
use kubeclaw.Completion.Settles.{accepted_settles}
use kubeclaw.Completion.Guards.{accepted_guarded, IsCurrent}
use kubeclaw.Completion.Mailbox.{or_else}

abbrev done_report : CompleteRequest
done_report = record { status = "success"; message = ""; artifacts = ("summary", "done") ∷ [] }

abbrev sample_reads : Reads
sample_reads = record {
  task_by_name = λ _ _. some (report_task, reported_cluster.status);
  pod_by_ip = λ _. some 7;
  pod_by_ip_live = λ _ _. none;
  decode = λ _. some done_report;
  disable_source_ip_check = false;
}

abbrev pod_caller : Caller
pod_caller = record {
  namespace = "team";
  task = "nightly";
  ip = "10.0.0.9";
  body = some "{}";
  patch_fails = false;
}

abbrev done_data : Map String
done_data = ("status", "success") ∷ ("artifact.summary", "done") ∷ []

done_answer : handle_task_complete sample_reads pod_caller ≡ accepted done_data
unfolding handle_task_complete handle_body check_report artifacts_valid rejects_completion
    current_pod mailbox_data artifact_data total_bytes lookup
done_answer = refl

done_mailbox : reported_cluster.mailbox ≡ some (merge_patch done_data [])
unfolding merge_patch insert
done_mailbox = refl

accepted_settles_example :
    (reconcile (env_at 200) report_task (calm reported_cluster)).0.state.status.phase ≡ (
      if str_eq (get_or "" "status" done_data) "success"
      then succeeded
      else failing report_task reported_cluster.status)
accepted_settles_example =
    accepted_settles sample_reads pod_caller (env_at 200) report_task reported_cluster.status
      reported_cluster (some (ready_pod false)) done_data refl done_answer done_mailbox
      reported-Driven (inl refl)

abbrev older_mailbox : Map String
older_mailbox = ("message", "boom") ∷ ("artifact.log", "l") ∷ []

parse-merge_patch_example :
    ((parse_completion (merge_patch (mailbox_data done_report) older_mailbox)).status ≡ "success")
    × ((parse_completion (merge_patch (mailbox_data done_report) older_mailbox)).message
        ≡ (if str_eq "" "" then (parse_completion older_mailbox).message else ""))
    × (lookup "log"
          (parse_completion (merge_patch (mailbox_data done_report) older_mailbox)).artifacts
        ≡ or_else
            (lookup "log" done_report.artifacts)
            (lookup "log" (parse_completion older_mailbox).artifacts))
parse-merge_patch_example = parse-merge_patch done_report older_mailbox "log"

accepted_guarded_example :
    (str_eq report_task.condition "exitCode" ≡ false)
    × (rejects_completion reported_cluster.status.phase ≡ false)
    × IsCurrent sample_reads pod_caller reported_cluster.status
accepted_guarded_example =
    accepted_guarded sample_reads pod_caller report_task reported_cluster.status done_data refl refl
      done_answer
