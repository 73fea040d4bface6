-- ===== src/Completion/Guards.antt =====
-- The gates of handleTaskComplete of internal/gateway/completion.go.
use kubeclaw.Prelude.{ℕ, String, true, false, Option, none, some, str_eq, ◌≡◌, refl, arith}
use kubeclaw.Prelude.Maps.{Map}
use kubeclaw.AgentTask.{Task, TaskStatus}
use kubeclaw.Completion.{
  Reads, Caller, accepted, handle_task_complete, current_pod, rejects_completion, or_live, same_uid,
}
use kubeclaw.Completion.Settles.{handle_accepted}

-- the Pod at the caller's address is the one whose UID the task has
pub IsCurrent : Reads → Caller → TaskStatus → Type 0
IsCurrent r c s =
    (uid : ℕ) × (s.current_pod_uid ≡ some uid)
    × (or_live (r.pod_by_ip c.ip) (r.pod_by_ip_live c.namespace c.ip) ≡ some uid)

same_uids : (a b : Option ℕ) → same_uid a b ≡ true → (uid : ℕ) × (b ≡ some uid) × (a ≡ some uid)
same_uids (some x) (some y) h = (y, refl, ground arith)
same_uids (some x) none h = absurd (ground arith)
same_uids none (some y) h = absurd (ground arith)
same_uids none none h = absurd (ground arith)

-- A report is accepted only for a task that reports by itself and has not settled, and, while the
-- check of the source address is on, only from the Pod whose UID the task has at that moment.
pub accepted_guarded :
    (r : Reads) (c : Caller) (t : Task) (s : TaskStatus) (d : Map String)
    → r.disable_source_ip_check ≡ false
    → r.task_by_name c.namespace c.task ≡ some (t, s)
    → handle_task_complete r c ≡ accepted d
    → (str_eq t.condition "exitCode" ≡ false)
      × (rejects_completion s.phase ≡ false)
      × IsCurrent r c s
unfolding current_pod IsCurrent
accepted_guarded r c t s d checked found answered =
    let (a, body) = handle_accepted r c t s d found answered in
    (a.reported, a.working, same_uids _ s.current_pod_uid (ground (arith, a.current)))
