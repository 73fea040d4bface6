-- ===== src/AgentTask/Stale.antt =====
-- The Pod that a retry of internal/controller/agenttask_controller.go leaves behind.
use kubeclaw.Prelude.{
  inl, str_eq, if_true, if_false, true, false, not, ◌&&◌, none, some, is_some, ◌≡◌, refl, ap, ◌∙◌,
  arith,
}
use kubeclaw.Api.{World, Outcome, read, write, request}
use kubeclaw.AgentTask.{
  Requeue, Task, Class, got, Pod, Env, TaskStatus, Cluster, provisioning, running, failed,
  is_agent_reported,
}
use kubeclaw.AgentTask.Checks.{pod_ready}
use kubeclaw.AgentTask.Drive.{K, update_status, owned_pod, payload_of}
use kubeclaw.AgentTask.Provision.{drive_provisioning, watch_pod, stamped, stamp, started}
use kubeclaw.AgentTask.Reconcile.{is_failed, observed, reconcile, reconcile_status, resume}
use kubeclaw.AgentTask.Faultless.{calm}
use kubeclaw.AgentTask.Lifecycle.{is_live}
use kubeclaw.AgentTask.Reported.{verdict, reconcile_reported}
use kubeclaw.AgentTask.Outcomes.{Driven, reconcile_drives, object_drives, drive_at}

abbrev pub state_after : {A : Type 0} → World Cluster × Outcome A → Cluster
state_after r = r.0.state

unstamped :
    (t : Task) (s : TaskStatus) (p : Pod)
    → s.current_pod_uid ≡ none
    → is_agent_reported t ≡ true
    → stamped t s p ≡ false
unfolding stamped
unstamped t s p cleared reported = rw (cleared, reported) refl

stale_state :
    (e : Env) (t : Task) (s : TaskStatus) (p : Pod) (c : Cluster)
    → s.current_pod_uid ≡ none
    → is_agent_reported t ≡ true
    → pod_ready p ≡ true
    → state_after (drive_provisioning e t s (some p) (calm c))
      ≡ record c { status = started e.now (stamp s p) }
unfolding drive_provisioning watch_pod update_status write request
stale_state e t s p c cleared reported ready =
    let c₁ = record c { status = stamp s p } in
    ap (λ (k : K Requeue). state_after (k (calm c)))
      (if_false (stamped t s p) _ _ (unstamped t s p cleared reported))
    ∙ ap (λ (k : K Requeue). state_after (k (calm c₁))) (if_true (pod_ready p) _ _ ready)

-- a pass over a provisioning task with no UID and a ready Pod
starts_state :
    (e : Env) (t : Task) (c : Cluster) (p : Pod)
    → Driven e t c (some p)
    → c.status.phase ≡ provisioning
    → c.status.current_pod_uid ≡ none
    → is_agent_reported t ≡ true
    → pod_ready p ≡ true
    → (reconcile e t (calm c)).0.state
      ≡ record c { status = started e.now (stamp (observed t c.status) p) }
unfolding observed
starts_state e t c p d at cleared reported ready =
    let s = observed t c.status in
    ap state_after (reconcile_drives e t c (some p) d)
    ∙ ap (λ (k : K Requeue). state_after (k (calm c)))
        (drive_at e t s (some p) provisioning (ground arith))
    ∙ stale_state e t s p c cleared reported ready

-- A Pod that a retry has just deleted and that is still ready is taken as the Pod of the retry: if
-- the task, agentReported and with no UID, is not being deleted, the next pass without failures
-- stamps the UID of that Pod again and moves the task to Running.
pub reconcile_stale :
    (e : Env) (t : Task) (c : Cluster) (p : Pod)
    → Driven e t c (some p)
    → c.status.phase ≡ provisioning
    → c.status.current_pod_uid ≡ none
    → is_agent_reported t ≡ true
    → p.deleting ≡ true
    → pod_ready p ≡ true
    → ((reconcile e t (calm c)).0.state.status.current_pod_uid ≡ some p.uid)
      × ((reconcile e t (calm c)).0.state.status.phase ≡ running)
unfolding observed
reconcile_stale e t c p d at cleared reported deleting ready =
    let same = starts_state e t c p d at cleared reported ready in
    (ap (λ (k : Cluster). k.status.current_pod_uid) same, ap (λ (k : Cluster). k.status.phase) same)

-- a pass over a task whose retry stopped after its first status write
interrupted_state :
    (e : Env) (t : Task) (c : Cluster)
    → c.exists ≡ true
    → c.deleting ≡ false
    → c.finalizer ≡ true
    → c.status.phase ≡ failed
    → c.status.completion_time ≡ none
    → (reconcile e t (calm c)).0.state ≡ record c {
      status = record c.status { observed_generation = t.generation; phase = provisioning };
    }
unfolding reconcile reconcile_status resume observed update_status read write request
interrupted_state e t c present kept marked at open_ended =
    let s = observed t c.status in
    ap (λ m. (m (calm c)).0.state) (object_drives e t c present kept marked)
    ∙ ap (λ m. (m (calm c)).0.state)
        (if_true (is_failed s.phase && not (is_some s.completion_time)) (resume s) _ (ground arith))

-- what lets the passes come to the state machine, apart from the task
pub record Admits (e : Env) (t : Task) : Type 0 where
  pub class : Class
  pub foreign : str_eq t.namespace e.operator_namespace ≡ false
  pub classed : e.class_of t.class_ref ≡ got class

-- the cluster after one pass that no failure interrupts
abbrev pub after_calm : Env → Task → Cluster → Cluster
after_calm e t c = state_after (reconcile e t (calm c))

-- After a retry of an agentReported task that is not being deleted has stopped behind its first
-- status write, with the old Pod still owned and ready and a report in the mailbox, three passes
-- without failures end as the report of the failed try says: Succeeded, another retry or Failed.
pub reconcile_interrupted :
    (e₁ e₂ e₃ : Env) (t : Task) (c : Cluster) (p : Pod)
    → c.exists ≡ true
    → c.deleting ≡ false
    → c.finalizer ≡ true
    → c.status.phase ≡ failed
    → c.status.completion_time ≡ none
    → c.status.current_pod_uid ≡ none
    → Admits e₂ t
    → Admits e₃ t
    → owned_pod none c.pods ≡ some p
    → pod_ready p ≡ true
    → is_agent_reported t ≡ true
    → str_eq (payload_of c.mailbox).status "" ≡ false
    → (after_calm e₃ t (after_calm e₂ t (after_calm e₁ t c))).status.phase
      ≡ verdict t c.status (payload_of c.mailbox)
unfolding observed
reconcile_interrupted e₁ e₂ e₃ t c p present kept marked at open_ended cleared a₂ a₃ owned ready
      reported full =
    ap (λ (k : Cluster). (after_calm e₃ t (after_calm e₂ t k)).status.phase)
      (interrupted_state e₁ t c present kept marked at open_ended)
    ∙ ap (λ (k : Cluster). (after_calm e₃ t k).status.phase)
        (starts_state e₂ t c₁ p (driven e₂ c₁.status a₂ refl) refl cleared reported ready)
    ∙ reconcile_reported e₃ t c₂ (some p) (driven e₃ c₂.status a₃ refl) (inl refl) reported full
  where
    c₁ : Cluster
    c₁ = record c {
      status = record c.status { observed_generation = t.generation; phase = provisioning };
    }

    c₂ : Cluster
    c₂ = record c₁ { status = started e₂.now (stamp (observed t c₁.status) p) }

    in_place : (u : TaskStatus) → Cluster
    in_place u = record c { status = u }

    driven :
        (e : Env) (u : TaskStatus)
        → Admits e t
        → is_live u.phase ≡ true
        → Driven e t (in_place u) (some p)
    driven e u a alive = record {
      class = a.class;
      present = present;
      kept = kept;
      marked = marked;
      alive = alive;
      foreign = a.foreign;
      classed = a.classed;
      owned = owned;
      past = refl;
    }
