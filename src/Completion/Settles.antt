-- ===== src/Completion/Settles.antt =====
-- From the report to the phase: handleTaskComplete of internal/gateway/completion.go, its patch of
-- an empty mailbox, and a pass of internal/controller/agenttask_controller.go.
use kubeclaw.Prelude.{
  String, Bool, true, false, not, ◌&&◌, ◌||◌, Option, none, some, List, [], str_eq, str_eq_iff,
  if◌then◌else◌, ◌≡◌, ap, sym, ◌∙◌, Bool-cases, inl, inr, ◌⊎◌, arith,
}
use kubeclaw.Prelude.Maps.{Map, lookup, get_or, or_zero}
use kubeclaw.AgentTask.{
  Task, Pod, Env, TaskStatus, Cluster, running, completing, succeeded, is_agent_reported,
}
use kubeclaw.AgentTask.Checks.{parse_completion, Payload}
use kubeclaw.AgentTask.Drive.{payload_of}
use kubeclaw.AgentTask.Reconcile.{reconcile}
use kubeclaw.AgentTask.Faultless.{calm}
use kubeclaw.AgentTask.Outcomes.{Driven}
use kubeclaw.AgentTask.Reported.{reconcile_reported, verdict, failing}
use kubeclaw.Completion.{
  CompleteRequest, Reads, Caller, Answer, no_task, not_agent_reported, already_completed, stale_pod,
  accepted, rejects_completion, current_pod, mailbox_data, merge_patch, artifacts_valid,
  check_report, handle_body, handle_task_complete,
}
use kubeclaw.Completion.Accepted.{parse-merge_patch, data_status}
use kubeclaw.Completion.Delivered.{valid_artifacts-merge_patch}

-- the report behind an accepted call
pub record ReportOf (d : Map String) (declared : List String) : Type 0 where
  pub report : CompleteRequest
  pub sent : d ≡ mailbox_data report
  pub valid : artifacts_valid report.status report.artifacts declared ≡ true
  pub known : (str_eq report.status "success" || str_eq report.status "failure") ≡ true

reported_by :
    (fails : Bool) (declared : List String) (q : CompleteRequest) (d : Map String)
    → check_report fails declared q ≡ accepted d
    → ReportOf d declared
unfolding check_report
reported_by fails declared q d h = record {
  report = q;
  sent = ground arith;
  valid = ground arith;
  known = ground arith;
}

pub body_reported :
    (r : Reads) (c : Caller) (declared : List String) (d : Map String)
    → handle_body r c declared ≡ accepted d
    → ReportOf d declared
unfolding handle_body
body_reported r c declared d h = by_body c.body h
  where
    by_decoded :
        (o : Option CompleteRequest)
        → (elim o as (λ _. Answer) [
          | none ↦ Answer.bad_json
          | some q ↦ check_report c.patch_fails declared q
        ])
          ≡ accepted d
        → ReportOf d declared
    by_decoded none h = absurd (ground arith)
    by_decoded (some q) h = reported_by c.patch_fails declared q d h

    by_body :
        (b : Option String)
        → (elim b as (λ _. Answer) [
          | none ↦ Answer.unreadable
          | some body ↦ elim (r.decode body) as (λ _. Answer) [
            | none ↦ Answer.bad_json
            | some q ↦ check_report c.patch_fails declared q
          ]
        ])
          ≡ accepted d
        → ReportOf d declared
    by_body none h = absurd (ground arith)
    by_body (some body) h = by_decoded (r.decode body) h

-- what stands between a call and its body
pub record Admitted (r : Reads) (c : Caller) (t : Task) (s : TaskStatus) : Type 0 where
  pub reported : str_eq t.condition "exitCode" ≡ false
  pub working : rejects_completion s.phase ≡ false
  pub current : current_pod r c s ≡ true

pub handle_accepted :
    (r : Reads) (c : Caller) (t : Task) (s : TaskStatus) (d : Map String)
    → r.task_by_name c.namespace c.task ≡ some (t, s)
    → handle_task_complete r c ≡ accepted d
    → Admitted r c t s × (handle_body r c t.artifacts ≡ accepted d)
unfolding handle_task_complete
handle_accepted r c t s d found h = by_task (r.task_by_name c.namespace c.task) found h
  where
    answer : Task × TaskStatus → Answer
    answer x =
        if str_eq x.0.condition "exitCode"
        then not_agent_reported
        else if rejects_completion x.1.phase
        then already_completed
        else if not (current_pod r c x.1)
        then stale_pod
        else handle_body r c x.0.artifacts

    passed :
        answer (t, s) ≡ accepted d → Admitted r c t s × (handle_body r c t.artifacts ≡ accepted d)
    passed k = (
      record { reported = ground arith; working = ground arith; current = ground arith },
      ground arith,
    )

    same_pair : {x y : Task × TaskStatus} → some x ≡ some y → x ≡ y
    same_pair e = ground arith

    by_task :
        (o : Option (Task × TaskStatus))
        → o ≡ some (t, s)
        → (elim o as (λ _. Answer) [ none ↦ no_task | some x ↦ answer x ]) ≡ accepted d
        → Admitted r c t s × (handle_body r c t.artifacts ≡ accepted d)
    by_task none q k = absurd (ground arith)
    by_task (some x) q k = passed (sym (ap answer (same_pair q)) ∙ k)

not_blank : (x : String) → (str_eq x "success" || str_eq x "failure") ≡ true → str_eq x "" ≡ false
not_blank x h = elim (Bool-cases (str_eq x "success")) [
  | inl same ↦ ap (λ y. str_eq y "") ((str_eq_iff x "success").0 same)
  | inr other ↦ ap (λ y. str_eq y "") ((str_eq_iff x "failure").0 (ground arith))
]

reports : (t : Task) → str_eq t.condition "exitCode" ≡ false → is_agent_reported t ≡ true
unfolding is_agent_reported
reports t h = ap not h

-- A report that the gateway accepts into an empty mailbox decides the next pass over its Running
-- or Completing task that comes to the state machine without a failure: Succeeded if it reports
-- success, else a retry while one is left, else Failed.
pub accepted_settles :
    (r : Reads) (c : Caller) (e : Env) (t : Task) (s : TaskStatus) (k : Cluster) (pod : Option Pod)
    (d : Map String)
    → r.task_by_name c.namespace c.task ≡ some (t, s)
    → handle_task_complete r c ≡ accepted d
    → k.mailbox ≡ some (merge_patch d [])
    → Driven e t k pod
    → (k.status.phase ≡ running) ⊎ (k.status.phase ≡ completing)
    → (reconcile e t (calm k)).0.state.status.phase
      ≡ (if str_eq (get_or "" "status" d) "success" then succeeded else failing t k.status)
accepted_settles r c e t s k pod d found answered delivered driven at =
    let (admitted, body) = handle_accepted r c t s d found answered in
    let o = body_reported r c t.artifacts d body in
    let q = o.report in
    let p = parse_completion (merge_patch (mailbox_data q) []) in
    let status = (parse-merge_patch q [] "").0 in
    let pay : payload_of k.mailbox ≡ p =
      ap payload_of delivered ∙ ap (λ x. parse_completion (merge_patch x [])) o.sent in
    let full =
      ap (λ (x : Payload). str_eq x.status "") pay
      ∙ ap (λ x. str_eq x "") status
      ∙ not_blank q.status o.known in
    reconcile_reported e t k pod driven at (reports t admitted.reported) full
    ∙ ap (verdict t k.status) pay
    ∙ ap (λ b. if b && str_eq p.status "success" then succeeded else failing t k.status)
        (valid_artifacts-merge_patch t.artifacts q ∙ o.valid)
    ∙ ap (λ x. if str_eq x "success" then succeeded else failing t k.status)
        (status ∙ sym (ap (λ x. or_zero "" x) (ap (lookup "status") o.sent ∙ data_status q)))
