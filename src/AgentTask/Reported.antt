-- ===== src/AgentTask/Reported.antt =====
-- What a pass of internal/controller/agenttask_controller.go makes of the report of a task, when
-- no API call fails.
use kubeclaw.Prelude.{
  if_true, ℕ, String, Bool, true, false, not, ◌&&◌, Option, ltb, str_eq, if◌then◌else◌, ◌≡◌, ◌⊎◌,
  Bool-cases, inl, inr, refl, ap, ◌∙◌, arith,
}
use kubeclaw.Api.{World, Outcome, ok, after, pure, read, write, request}
use kubeclaw.AgentTask.{
  Task, Pod, Env, TaskStatus, Cluster, Phase, provisioning, running, completing, succeeded, failed,
  is_agent_reported, Requeue, finish,
}
use kubeclaw.AgentTask.Checks.{Payload, valid_artifacts}
use kubeclaw.AgentTask.Drive.{
  fail_or_retry, then_finish, K, update_status, payload_of, read_mailbox, settled, settle,
  with_phase, with_report, drive_running, watch_running, complete_now, drive_completing,
  complete_reported,
}
use kubeclaw.AgentTask.Provision.{drive}
use kubeclaw.AgentTask.Reconcile.{observed, reconcile}
use kubeclaw.AgentTask.Faultless.{calm, retry-calm}
use kubeclaw.AgentTask.Outcomes.{Driven, reconcile_drives, drive_at}

abbrev pub phase_after : {A : Type 0} → World Cluster × Outcome A → Phase
phase_after r = r.0.state.status.phase

-- the phase that a failure leads to
abbrev pub failing : Task → TaskStatus → Phase
failing t s = if ltb s.retries t.backoff_limit then provisioning else failed

-- the phase that a report of the agent leads to
abbrev pub verdict : Task → TaskStatus → Payload → Phase
verdict t s p =
    if valid_artifacts p t.artifacts && str_eq p.status "success" then succeeded else failing t s

settle_phase :
    (now : ℕ) (phase : Phase) (success : Bool) (reason : String) (s : TaskStatus) (c : Cluster)
    → phase_after (settle now phase success reason s (calm c)) ≡ phase
unfolding settle settled update_status write request
settle_phase now phase success reason s c = refl

fail_phase :
    (e : Env) (t : Task) (reason : String) (s : TaskStatus) (c : Cluster)
    → phase_after (fail_or_retry e t reason s (calm c)) ≡ failing t s
unfolding fail_or_retry
fail_phase e t reason s c = elim (Bool-cases (ltb s.retries t.backoff_limit)) [
  | inl below ↦ rw (below, retry-calm) refl
  | inr spent ↦ rw (spent) (settle_phase e.now failed false reason s c)
]

reported_phase :
    (e : Env) (t : Task) (s : TaskStatus) (p : Payload) (c : Cluster)
    → str_eq p.status "" ≡ false
    → phase_after (complete_reported e t s p (calm c)) ≡ verdict t s p
unfolding complete_reported
reported_phase e t s p c full = elim (Bool-cases (valid_artifacts p t.artifacts)) [
  | inl valid ↦ elim (Bool-cases (str_eq p.status "success")) [
    | inl success ↦
        rw (full, valid, success)
          (settle_phase e.now succeeded true "TaskSucceeded" (with_report p s) c)
    | inr failure ↦ rw (full, valid, failure) (fail_phase e t "TaskFailed" (with_report p s) c)
  ]
  | inr invalid ↦ rw (full, invalid) (fail_phase e t "TaskFailed" s c)
]

then_finish_phase :
    (m : K (Unit {0})) (w : World Cluster) → phase_after (then_finish m w) ≡ phase_after (m w)
then_finish_phase m w = by_result (m w)
  where
    by_result :
        (r : World Cluster × Outcome (Unit {0}))
        → phase_after (after {B = Requeue} r (λ _. pure finish)) ≡ phase_after r
    by_result (w', ok x) = refl
    by_result (w', Outcome.failed) = refl

completing_reported :
    (e : Env) (t : Task) (s : TaskStatus) (pod : Option Pod) (c : Cluster)
    → is_agent_reported t ≡ true
    → str_eq (payload_of c.mailbox).status "" ≡ false
    → phase_after (drive_completing e t s pod (calm c)) ≡ verdict t s (payload_of c.mailbox)
unfolding drive_completing read_mailbox read request
completing_reported e t s pod c reported full =
    ap (λ (k : K (Unit {0})). phase_after (k (calm c))) (if_true (is_agent_reported t) _ _ reported)
    ∙ reported_phase e t s (payload_of c.mailbox) c full

now_reported :
    (e : Env) (t : Task) (s : TaskStatus) (pod : Option Pod) (c : Cluster)
    → is_agent_reported t ≡ true
    → str_eq (payload_of c.mailbox).status "" ≡ false
    → phase_after (complete_now e t s pod (calm c)) ≡ verdict t s (payload_of c.mailbox)
unfolding complete_now update_status write request
now_reported e t s pod c reported full =
    let u = with_phase completing s in
    let c₁ = record c { status = u } in
    then_finish_phase (drive_completing e t u pod) (calm c₁)
    ∙ completing_reported e t u pod c₁ reported full

running_reported :
    (e : Env) (t : Task) (s : TaskStatus) (pod : Option Pod) (c : Cluster)
    → is_agent_reported t ≡ true
    → str_eq (payload_of c.mailbox).status "" ≡ false
    → phase_after (drive_running e t s pod (calm c)) ≡ verdict t s (payload_of c.mailbox)
unfolding drive_running read_mailbox read request
running_reported e t s pod c reported full =
    ap (λ (k : K Requeue). phase_after (k (calm c))) (if_true (is_agent_reported t) _ _ reported)
    ∙ ap (λ (k : K Requeue). phase_after (k (calm c)))
        (if_true _ _ (watch_running e t s pod) (ap not full))
    ∙ now_reported e t s pod c reported full

drive_reported :
    (e : Env) (t : Task) (s : TaskStatus) (pod : Option Pod) (c : Cluster)
    → (s.phase ≡ running) ⊎ (s.phase ≡ completing)
    → is_agent_reported t ≡ true
    → str_eq (payload_of c.mailbox).status "" ≡ false
    → phase_after (drive e t s pod (calm c)) ≡ verdict t s (payload_of c.mailbox)
unfolding drive
drive_reported e t s pod c (inl q) reported full =
    ap (λ (k : K Requeue). phase_after (k (calm c))) (drive_at e t s pod _ q)
    ∙ running_reported e t s pod c reported full
drive_reported e t s pod c (inr q) reported full =
    ap (λ (k : K Requeue). phase_after (k (calm c))) (drive_at e t s pod _ q)
    ∙ then_finish_phase (drive_completing e t s pod) (calm c)
    ∙ completing_reported e t s pod c reported full

-- A pass over a Running or Completing task whose agent has reported ends as the report says,
-- whatever became of its Pod and of its time: Succeeded if it reports success with exactly the
-- declared artifacts, else a retry while one is left, else Failed.
pub reconcile_reported :
    (e : Env) (t : Task) (c : Cluster) (pod : Option Pod)
    → Driven e t c pod
    → (c.status.phase ≡ running) ⊎ (c.status.phase ≡ completing)
    → is_agent_reported t ≡ true
    → str_eq (payload_of c.mailbox).status "" ≡ false
    → (reconcile e t (calm c)).0.state.status.phase ≡ verdict t c.status (payload_of c.mailbox)
unfolding observed
reconcile_reported e t c pod d at reported full =
    ap phase_after (reconcile_drives e t c pod d)
    ∙ drive_reported e t (observed t c.status) pod c (ground arith) reported full
