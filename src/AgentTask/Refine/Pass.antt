-- ===== src/AgentTask/Refine/Pass.antt =====
-- The same for a whole pass, Reconcile of internal/controller/agenttask_controller.go.
use kubeclaw.Prelude.{
  ℕ, String, Bool, true, false, not, ◌&&◌, Option, none, some, List, [], ◌∷◌, is_some, str_eq,
  if◌then◌else◌, ◌≡◌, refl, ap, arith,
}
use kubeclaw.Api.{Keeps, ◌>>◌, pure, raise, bind-Keeps}
use kubeclaw.AgentTask.{
  Task, Class, Pod, Env, TaskStatus, Phase, unset, pending, provisioning, running, completing,
  succeeded, failed, timed_out, terminating, Requeue, finish, Got, got, not_found, get_error,
}
use kubeclaw.AgentTask.Checks.{task_violation, effective_image}
use kubeclaw.AgentTask.Drive.{
  K, update_status, with_ready, owned_task_pod, settle, settled, drive_completing, then_finish,
  drive_running,
}
use kubeclaw.AgentTask.Provision.{await, drive, drive_provisioning}
use kubeclaw.AgentTask.Reconcile.{
  gate, gate_requeue, pull_secrets_then, starts, validate_then, reconcile_class, reconcile_live,
  is_failed,
}
use kubeclaw.AgentTask.Lifecycle.{Write, Writes, next, is_live, is_early, IsValid, Writes-IsValid}
use kubeclaw.AgentTask.Refine.{
  Along, Live, if-Keeps, choose-Keeps, then-Keeps, update-Keeps, owned-Keeps, settle-Keeps,
}
use kubeclaw.AgentTask.Refine.Completion.{
  drive_completing-Keeps, drive_running-Keeps, drive_provisioning-Keeps, finish-Keeps, await-Keeps,
}

early-starts : (pod : Bool) (p : Phase) → (not pod && starts p) ≡ true → is_early p ≡ true
early-starts pod p h = ground arith

pub interrupted :
    (s : TaskStatus)
    → (is_failed s.phase && not (is_some s.completion_time)) ≡ true
    → (s.phase ≡ failed) × (s.completion_time ≡ none)
interrupted s h = ground arith

module _ (t : Task) (s₀ : TaskStatus) (e : Env) (v₀ : IsValid t s₀) where
  pub live : (s : TaskStatus) → Writes t s₀ s → is_live s.phase ≡ true → Live t s₀ s
  live s path alive =
      let v = Writes-IsValid path v₀ in
      record { path = path; alive = alive; open_ended = ground arith }

  drive-Keeps :
      (s : TaskStatus) (pod : Option Pod) → Writes t s₀ s → Keeps (Along t s₀) (drive e t s pod)
  unfolding drive
  drive-Keeps s pod path = by_phase s.phase refl
    where
      by_phase :
          (p : Phase)
          → s.phase ≡ p
          → Keeps (Along t s₀) (elim p as (λ _. K Requeue) [
            | pending ↦ drive_provisioning e t s pod
            | provisioning ↦ drive_provisioning e t s pod
            | running ↦ drive_running e t s pod
            | completing ↦ then_finish (drive_completing e t s pod)
            | _ ↦ pure finish
          ])
      by_phase pending q =
          drive_provisioning-Keeps t s₀ e s pod (live s path (ap is_live q)) (ap is_early q)
      by_phase provisioning q =
          drive_provisioning-Keeps t s₀ e s pod (live s path (ap is_live q)) (ap is_early q)
      by_phase running q = drive_running-Keeps t s₀ e s pod (live s path (ap is_live q)) q
      by_phase completing q =
          finish-Keeps t s₀ e (drive_completing e t s pod)
            (drive_completing-Keeps t s₀ e s pod (live s path (ap is_live q)) q)
      by_phase unset q = λ w h. h
      by_phase succeeded q = λ w h. h
      by_phase failed q = λ w h. h
      by_phase timed_out q = λ w h. h
      by_phase terminating q = λ w h. h

  pub gate-Keeps :
      (reason : String) (s : TaskStatus) → Writes t s₀ s → Keeps (Along t s₀) (gate reason s)
  gate-Keeps reason s path =
      let u = with_ready false reason s in
      then-Keeps t s₀ (update_status u) (pure finish)
        (update-Keeps t s₀ u (next path (Write.noted refl refl refl refl))) (λ w h. h)

  secrets-Keeps :
      (s : TaskStatus) (names : List String) (k : K Requeue)
      → Writes t s₀ s
      → Keeps (Along t s₀) k
      → Keeps (Along t s₀) (pull_secrets_then e s names k)
  unfolding pull_secrets_then
  secrets-Keeps s [] k path kk = kk
  secrets-Keeps s (name ∷ names) k path kk =
      by_secret (secrets-Keeps s names k path kk) (e.secret name)
    where
      by_secret :
          Keeps (Along t s₀) (pull_secrets_then e s names k)
          → (r : Got (Unit {0}))
          → Keeps (Along t s₀) (elim r as (λ _. K Requeue) [
            | got _ ↦ pull_secrets_then e s names k
            | not_found ↦ await gate_requeue (with_ready false "ImagePullSecretMissing" s)
            | get_error ↦ raise
          ])
      by_secret kn (got _) = kn
      by_secret kn not_found =
          await-Keeps t s₀ e gate_requeue (with_ready false "ImagePullSecretMissing" s)
            (next path (Write.noted refl refl refl refl))
      by_secret kn get_error = λ w h. h

  rejected-Write :
      (now : ℕ) (reason : String) (s : TaskStatus)
      → is_early s.phase ≡ true
      → Write t s (settled now failed false reason s)
  unfolding settled
  rejected-Write now reason s early = Write.rejected early refl refl refl

  validate-Keeps :
      (c : Class) (s : TaskStatus) (k : K Requeue)
      → Writes t s₀ s
      → is_early s.phase ≡ true
      → Keeps (Along t s₀) k
      → Keeps (Along t s₀) (validate_then e t c s k)
  unfolding validate_then
  validate-Keeps c s k path early kk = by_verdict (task_violation e t c)
    where
      made : K Requeue
      made = if str_eq (effective_image t c) "" then gate "InvalidReference" s else k

      by_verdict :
          (verdict : Option String)
          → Keeps (Along t s₀) (elim verdict as (λ _. K Requeue) [
            | some reason ↦ settle e.now failed false reason s >> pure finish
            | none ↦ pull_secrets_then e s c.pull_secrets made
          ])
      by_verdict (some reason) =
          finish-Keeps t s₀ e (settle e.now failed false reason s) (
            settle-Keeps t s₀ e.now failed false reason s path
              (rejected-Write e.now reason s early))
      by_verdict none = secrets-Keeps s c.pull_secrets made path (
          if-Keeps t s₀ (str_eq (effective_image t c) "") (gate "InvalidReference" s) k
            (gate-Keeps "InvalidReference" s path) kk)

  class-Keeps :
      (c : Class) (s : TaskStatus) → Writes t s₀ s → Keeps (Along t s₀) (reconcile_class e t c s)
  unfolding reconcile_class
  class-Keeps c s path = bind-Keeps (Along t s₀) owned_task_pod _ (owned-Keeps t s₀) (λ pod.
      choose-Keeps t s₀ (not (is_some pod) && starts s.phase)
        (validate_then e t c s (drive e t s pod)) (drive e t s pod)
        (λ h.
          validate-Keeps c s (drive e t s pod) path (early-starts (is_some pod) s.phase h)
            (drive-Keeps s pod path))
        (λ _. drive-Keeps s pod path))

  pub live-Keeps : (s : TaskStatus) → Writes t s₀ s → Keeps (Along t s₀) (reconcile_live e t s)
  unfolding reconcile_live
  live-Keeps s path =
      if-Keeps t s₀ (str_eq t.namespace e.operator_namespace) _ _
        (gate-Keeps "SystemNamespaceForbidden" s path) (by_class (e.class_of t.class_ref))
    where
      by_class :
          (r : Got Class)
          → Keeps (Along t s₀) (elim r as (λ _. K Requeue) [
            | not_found ↦ gate "InvalidReference" s
            | get_error ↦ raise
            | got c ↦ reconcile_class e t c s
          ])
      by_class not_found = gate-Keeps "InvalidReference" s path
      by_class get_error = λ w h. h
      by_class (got c) = class-Keeps c s path
