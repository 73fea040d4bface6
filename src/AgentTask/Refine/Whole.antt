-- ===== src/AgentTask/Refine/Whole.antt =====
-- The same for the whole of Reconcile of internal/controller/agenttask_controller.go, over any
-- failures of its API calls.
use kubeclaw.Prelude.{
  ℕ, Bool, true, false, not, ◌&&◌, Option, none, some, is_some, ltb, if◌then◌else◌, ◌≡◌, refl, ap,
  sym, arith, inl, inr, ◌⊎◌, ◌+◌, ◌*◌, ◌-◌,
}
use kubeclaw.Api.{World, Keeps, pure, write, write-Keeps, bind-Keeps, read_all-Keeps}
use kubeclaw.AgentTask.{
  Task, Pod, Env, TaskStatus, Cluster, Phase, unset, pending, provisioning, failed, terminating,
  Requeue, finish, again, later,
}
use kubeclaw.AgentTask.Checks.{is_terminal}
use kubeclaw.AgentTask.Drive.{K, second, update_status, with_phase, owned_task_pod, delete_live}
use kubeclaw.AgentTask.Reconcile.{
  expire, handle_ttl, is_failed, resume, reconcile_status, observed, finish_delete,
  reconcile_delete, reconcile_object, reconcile,
}
use kubeclaw.AgentTask.Lifecycle.{Write, Writes, here, next, is_outcome, IsValid}
use kubeclaw.AgentTask.Refine.{
  Along, choose-Keeps, then-Keeps, update-Keeps, owned-Keeps, delete_live-Keeps,
}
use kubeclaw.AgentTask.Refine.Completion.{finish-Keeps}
use kubeclaw.AgentTask.Refine.Pass.{live-Keeps, interrupted}

known : Phase → Phase
known p = elim p as (λ (_ : Phase). Phase) [ unset ↦ pending | q ↦ q ]

observed-Write : (t : Task) (s : TaskStatus) → Write t s (observed t s)
unfolding observed
observed-Write t s = by_phase s.phase refl
  where
    by_phase : (p : Phase) → s.phase ≡ p → Write t s (observed t s)
    by_phase unset q = Write.opened q (ground arith) refl refl
    by_phase p q = Write.noted (ground arith) refl refl refl

over_cases : (p : Phase) → is_terminal p ≡ true → (is_outcome p ≡ true) ⊎ (p ≡ terminating)
unfolding is_terminal
over_cases p h = ground arith

module _ (t : Task) (s₀ : TaskStatus) (e : Env) (v₀ : IsValid t s₀) where
  expire-Write :
      (s : TaskStatus)
      → is_terminal s.phase ≡ true
      → is_some s.completion_time ≡ true
      → Write t s (with_phase terminating s)
  expire-Write s over dated = elim (over_cases s.phase over) [
    | inl outcome ↦ Write.expired outcome dated refl refl refl
    | inr ending ↦ Write.noted (sym ending) refl refl refl
  ]

  expire-Keeps :
      (s : TaskStatus)
      → Writes t s₀ s
      → is_terminal s.phase ≡ true
      → is_some s.completion_time ≡ true
      → Keeps (Along t s₀) (expire s)
  unfolding expire
  expire-Keeps s path over dated =
      then-Keeps t s₀ (update_status (with_phase terminating s)) _
        (update-Keeps t s₀ _ (next path (expire-Write s over dated)))
        (finish-Keeps t s₀ e (write (λ c. record c { deleting = true }))
          (write-Keeps (Along t s₀) (λ c. record c { deleting = true }) (λ c h. h)))

  ttl-Keeps :
      (s : TaskStatus)
      → Writes t s₀ s
      → is_terminal s.phase ≡ true
      → Keeps (Along t s₀) (handle_ttl e t s)
  unfolding handle_ttl
  ttl-Keeps s path over = by_ttl t.ttl_seconds s.completion_time refl
    where
      by_ttl :
          (limit finished : Option ℕ)
          → s.completion_time ≡ finished
          → Keeps (Along t s₀) (elim limit as (λ _. K Requeue) [
            | none ↦ pure finish
            | some ttl ↦ elim finished [
              | none ↦ pure finish
              | some at ↦
                  if ltb e.now (at + ttl * second)
                  then pure (later (at + ttl * second - e.now))
                  else expire s
            ]
          ])
      by_ttl none finished q = λ w h. h
      by_ttl (some ttl) none q = λ w h. h
      by_ttl (some ttl) (some at) q =
          choose-Keeps t s₀ (ltb e.now (at + ttl * second)) _ (expire s) (λ _ w h. h)
            (λ _. expire-Keeps s path over (ap is_some q))

  resume-Keeps :
      (s : TaskStatus)
      → Writes t s₀ s
      → (s.phase ≡ failed) × (s.completion_time ≡ none)
      → Keeps (Along t s₀) (resume s)
  unfolding resume
  resume-Keeps s path (p, q) =
      then-Keeps t s₀ (update_status (with_phase provisioning s)) (pure again)
        (update-Keeps t s₀ _ (next path (Write.resumed p q refl q refl))) (λ w h. h)

  status-Keeps : (s : TaskStatus) → Writes t s₀ s → Keeps (Along t s₀) (reconcile_status e t s)
  unfolding reconcile_status
  status-Keeps s path =
      choose-Keeps t s₀ (is_failed s.phase && not (is_some s.completion_time)) _ _
        (λ h. resume-Keeps s path (interrupted s h))
        (λ _.
          choose-Keeps t s₀ (is_terminal s.phase) _ _ (ttl-Keeps s path)
            (λ _. live-Keeps t s₀ e v₀ s path))

  delete-Keeps : (finalizer : Bool) → Keeps (Along t s₀) (reconcile_delete finalizer)
  unfolding reconcile_delete
  delete-Keeps false = λ w h. h
  delete-Keeps true = bind-Keeps (Along t s₀) owned_task_pod _ (owned-Keeps t s₀) by_pod
    where
      by_pod : (pod : Option Pod) → Keeps (Along t s₀) (finish_delete pod)
      by_pod none =
          finish-Keeps t s₀ e (write (λ c. record c { finalizer = false; exists = false })) (
            write-Keeps (Along t s₀) (λ c. record c { finalizer = false; exists = false })
              (λ c h. h))
      by_pod (some p) = finish-Keeps t s₀ e (delete_live (some p)) (delete_live-Keeps t s₀ (some p))

  object-Keeps :
      (c : Cluster)
      → Writes t s₀ (observed t c.status)
      → Keeps (Along t s₀) (reconcile_object e t c)
  unfolding reconcile_object
  object-Keeps c path =
      let mark = write (λ (c' : Cluster). record c' { finalizer = true }) in
      choose-Keeps t s₀ (not c.exists) _ _ (λ _ w h. h)
        (λ _.
          choose-Keeps t s₀ c.deleting _ _ (λ _. delete-Keeps c.finalizer)
            (λ _.
              choose-Keeps t s₀ c.finalizer _ _ (λ _. status-Keeps (observed t c.status) path)
                (λ _.
                  then-Keeps t s₀ mark (pure again) (write-Keeps (Along t s₀) _ (λ c' h. h))
                    (λ w h. h))))

pub reconcile-Writes :
    (t : Task) (e : Env) (w : World Cluster)
    → IsValid t w.state.status
    → Writes t w.state.status (reconcile e t w).0.state.status
unfolding reconcile
reconcile-Writes t e w v =
    let s = w.state.status in
    read_all-Keeps (Along t s) (reconcile_object e t) w here
      (λ faults. object-Keeps t s e v w.state (next here (observed-Write t s)) _ here)
