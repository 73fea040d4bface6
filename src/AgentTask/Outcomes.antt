-- ===== src/AgentTask/Outcomes.antt =====
-- How a pass of internal/controller/agenttask_controller.go comes to its state machine when no API
-- call fails.
use kubeclaw.Prelude.{
  true, false, not, ◌&&◌, Option, none, is_some, str_eq, ◌≡◌, refl, ap, ◌∙◌, arith,
}
use kubeclaw.Api.{pure, read, request}
use kubeclaw.AgentTask.{
  Task, Class, Pod, Env, TaskStatus, Cluster, Phase, pending, provisioning, running, completing,
  Requeue, finish, got,
}
use kubeclaw.AgentTask.Checks.{is_terminal}
use kubeclaw.AgentTask.Drive.{
  then_finish, K, owned_pod, owned_task_pod, drive_running, drive_completing,
}
use kubeclaw.AgentTask.Provision.{drive, drive_provisioning}
use kubeclaw.AgentTask.Reconcile.{
  starts, is_failed, observed, reconcile, reconcile_object, reconcile_status, reconcile_live,
  reconcile_class,
}
use kubeclaw.AgentTask.Lifecycle.{is_live}
use kubeclaw.AgentTask.Faultless.{calm}

-- what lets a pass come to the state machine
pub record Driven (e : Env) (t : Task) (c : Cluster) (pod : Option Pod) : Type 0 where
  pub class : Class
  pub present : c.exists ≡ true
  pub kept : c.deleting ≡ false
  pub marked : c.finalizer ≡ true
  pub alive : is_live c.status.phase ≡ true
  pub foreign : str_eq t.namespace e.operator_namespace ≡ false
  pub classed : e.class_of t.class_ref ≡ got class
  pub owned : owned_pod none c.pods ≡ pod
  pub past : (not (is_some pod) && starts c.status.phase) ≡ false

live-observed :
    (t : Task) (s : TaskStatus) → is_live s.phase ≡ true → (observed t s).phase ≡ s.phase
unfolding observed
live-observed t s h = ground arith

not_failed : (p : Phase) → is_live p ≡ true → is_failed p ≡ false
not_failed p h = ground arith

not_over : (p : Phase) → is_live p ≡ true → is_terminal p ≡ false
unfolding is_terminal
not_over p h = ground arith

class_drives :
    (e : Env) (t : Task) (k : Class) (s : TaskStatus) (c : Cluster) (pod : Option Pod)
    → owned_pod none c.pods ≡ pod
    → (not (is_some pod) && starts s.phase) ≡ false
    → reconcile_class e t k s (calm c) ≡ drive e t s pod (calm c)
unfolding reconcile_class owned_task_pod read request
class_drives e t k s c pod owned past = rw (owned, past) refl

live_drives :
    (e : Env) (t : Task) (k : Class) (s : TaskStatus)
    → str_eq t.namespace e.operator_namespace ≡ false
    → e.class_of t.class_ref ≡ got k
    → reconcile_live e t s ≡ reconcile_class e t k s
unfolding reconcile_live
live_drives e t k s foreign classed = rw (foreign, classed) refl

status_drives :
    (e : Env) (t : Task) (s : TaskStatus)
    → is_live s.phase ≡ true
    → reconcile_status e t s ≡ reconcile_live e t s
unfolding reconcile_status
status_drives e t s alive = rw (not_failed s.phase alive, not_over s.phase alive) refl

pub object_drives :
    (e : Env) (t : Task) (c : Cluster)
    → c.exists ≡ true
    → c.deleting ≡ false
    → c.finalizer ≡ true
    → reconcile_object e t c ≡ reconcile_status e t (observed t c.status)
unfolding reconcile_object
object_drives e t c present kept marked = rw (present, kept, marked) refl

pub reconcile_drives :
    (e : Env) (t : Task) (c : Cluster) (pod : Option Pod)
    → Driven e t c pod
    → reconcile e t (calm c) ≡ drive e t (observed t c.status) pod (calm c)
unfolding reconcile read request
reconcile_drives e t c pod d =
    let s = observed t c.status in
    let phase = live-observed t c.status d.alive in
    ap (λ m. m (calm c)) (object_drives e t c d.present d.kept d.marked)
    ∙ ap (λ m. m (calm c)) (status_drives e t s (ap is_live phase ∙ d.alive))
    ∙ ap (λ m. m (calm c)) (live_drives e t d.class s d.foreign d.classed)
    ∙ class_drives e t d.class s c pod d.owned
        (ap (λ p. not (is_some pod) && starts p) phase ∙ d.past)

abbrev pub dispatch : Env → Task → TaskStatus → Option Pod → Phase → K Requeue
dispatch e t s pod p = elim p as (λ _. K Requeue) [
  | pending ↦ drive_provisioning e t s pod
  | provisioning ↦ drive_provisioning e t s pod
  | running ↦ drive_running e t s pod
  | completing ↦ then_finish (drive_completing e t s pod)
  | _ ↦ pure finish
]

pub drive_at :
    (e : Env) (t : Task) (s : TaskStatus) (pod : Option Pod) (p : Phase)
    → s.phase ≡ p
    → drive e t s pod ≡ dispatch e t s pod p
unfolding drive
drive_at e t s pod p q = ap (λ p. dispatch e t s pod p) q
