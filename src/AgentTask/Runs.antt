-- ===== src/AgentTask/Runs.antt =====
-- A task over its whole life: passes of internal/controller/agenttask_controller.go with any clock
-- and any failures, between changes of the rest of the cluster by others.
use kubeclaw.Prelude.{Bool, true, List, is_some, ◌≡◌, sym, subst, inl}
use kubeclaw.AgentTask.{Task, Env, TaskStatus, Cluster}
use kubeclaw.AgentTask.Reconcile.{reconcile}
use kubeclaw.AgentTask.Lifecycle.{
  Writes, here, next, is_outcome, IsValid, Writes-IsValid, Writes-Stays, Stays,
}
use kubeclaw.AgentTask.Refine.Whole.{reconcile-Writes}

-- only the controller writes the status
pub data Run (t : Task) (c : Cluster) : Cluster → Type 0 where
  start : Run t c c
  pass :
      {d : Cluster} (e : Env) (faults : List Bool)
      → Run t c d
      → Run t c (reconcile e t (record { state = d; faults = faults })).0.state
  change : {d f : Cluster} → Run t c d → f.status ≡ d.status → Run t c f

append : {t : Task} {s u v : TaskStatus} → Writes t s u → Writes t u v → Writes t s v
append a here = a
append a (next b w) = next (append a b) w

-- However passes with any failures alternate with changes of the rest of the cluster, the stored
-- status of a valid task stays on the life of the task.
pub Run-Writes :
    {t : Task} {c d : Cluster} → IsValid t c.status → Run t c d → Writes t c.status d.status
Run-Writes v start = here
Run-Writes {t} v (pass {d} e faults r) =
    let path = Run-Writes v r in
    append path
      (reconcile-Writes t e (record { state = d; faults = faults }) (Writes-IsValid path v))
Run-Writes {t} {c} v (change r q) = subst (λ s. Writes t c.status s) (sym q) (Run-Writes v r)

-- At every moment of such a run a task that started valid has at most backoffLimit retries, has a
-- completion time only with an outcome or at its end, and is never Succeeded, TimedOut or
-- Terminating without one.
pub Run-IsValid : (t : Task) (c d : Cluster) → IsValid t c.status → Run t c d → IsValid t d.status
Run-IsValid t c d v r = Writes-IsValid (Run-Writes v r) v

-- A task with an outcome and its completion time keeps both for ever, with its count of retries,
-- and moves to Terminating at most.
pub Run-Stays :
    (t : Task) (c d : Cluster)
    → IsValid t c.status
    → is_outcome c.status.phase ≡ true
    → is_some c.status.completion_time ≡ true
    → Run t c d
    → Stays c.status d.status
Run-Stays t c d v outcome dated r = Writes-Stays dated (inl outcome) (Run-Writes v r)
