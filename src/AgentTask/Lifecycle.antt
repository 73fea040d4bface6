-- ===== src/AgentTask/Lifecycle.antt =====
-- The life of a task as a relation between statuses: what one status write may do, by the table of
-- docs/src/controller/task-lifecycle.md and the retry mechanics there, with the moves of the code
-- that the table does not have.
use kubeclaw.Prelude.{
  suc, ◌≤◌, ◌<◌, Bool, true, false, none, is_some, str_eq, ◌⊎◌, inl, ◌≡◌, refl, arith,
}
use kubeclaw.AgentTask.{
  Task, TaskStatus, Phase, unset, pending, provisioning, running, completing, succeeded, failed,
  timed_out, terminating, is_agent_reported,
}

-- the phases in which a task still works
abbrev pub is_live : Phase → Bool
is_live pending = true
is_live provisioning = true
is_live running = true
is_live completing = true
is_live _ = false

-- the phases before a Pod is ready
abbrev pub is_early : Phase → Bool
is_early pending = true
is_early provisioning = true
is_early _ = false

-- the outcomes
abbrev pub is_outcome : Phase → Bool
is_outcome succeeded = true
is_outcome failed = true
is_outcome timed_out = true
is_outcome _ = false

-- the phases that a task has only with a completion time
abbrev pub is_final : Phase → Bool
is_final succeeded = true
is_final timed_out = true
is_final terminating = true
is_final _ = false

-- One status write, from `s` to `u`. The table has no row for `begun_pending`, where an earlier pass
-- made the Pod and could not write the status, nor for `exited_early`, of a task in exitCode mode
-- whose Pod ends before a pass has seen it ready; it has Pending to Failed for a rejected task only.
pub data Write (t : Task) (s u : TaskStatus) : Type 0 where
  noted :
      u.phase ≡ s.phase
      → u.start_time ≡ s.start_time
      → u.completion_time ≡ s.completion_time
      → u.retries ≡ s.retries
      → Write t s u
  opened :
      s.phase ≡ unset
      → u.phase ≡ pending
      → u.completion_time ≡ s.completion_time
      → u.retries ≡ s.retries
      → Write t s u
  provisioned :
      is_early s.phase ≡ true
      → u.phase ≡ provisioning
      → u.completion_time ≡ s.completion_time
      → u.retries ≡ s.retries
      → Write t s u
  begun :
      s.phase ≡ provisioning
      → u.phase ≡ running
      → is_some u.start_time ≡ true
      → u.completion_time ≡ s.completion_time
      → u.retries ≡ s.retries
      → Write t s u
  begun_pending :
      s.phase ≡ pending
      → u.phase ≡ running
      → is_some u.start_time ≡ true
      → u.completion_time ≡ s.completion_time
      → u.retries ≡ s.retries
      → Write t s u
  completed :
      s.phase ≡ running
      → u.phase ≡ completing
      → u.completion_time ≡ s.completion_time
      → u.retries ≡ s.retries
      → Write t s u
  exited_early :
      is_early s.phase ≡ true
      → is_agent_reported t ≡ false
      → u.phase ≡ completing
      → u.completion_time ≡ s.completion_time
      → u.retries ≡ s.retries
      → Write t s u
  succeeds :
      s.phase ≡ completing
      → u.phase ≡ succeeded
      → is_some u.completion_time ≡ true
      → u.retries ≡ s.retries
      → Write t s u
  times_out :
      s.phase ≡ completing
      → str_eq t.on_timeout "Succeed" ≡ false
      → u.phase ≡ timed_out
      → is_some u.completion_time ≡ true
      → u.retries ≡ s.retries
      → Write t s u
  gives_up :
      is_live s.phase ≡ true
      → t.backoff_limit ≤ s.retries
      → u.phase ≡ failed
      → is_some u.completion_time ≡ true
      → u.retries ≡ s.retries
      → Write t s u
  rejected :
      is_early s.phase ≡ true
      → u.phase ≡ failed
      → is_some u.completion_time ≡ true
      → u.retries ≡ s.retries
      → Write t s u
  retried :
      is_live s.phase ≡ true
      → s.retries < t.backoff_limit
      → u.phase ≡ failed
      → u.retries ≡ suc s.retries
      → u.current_pod_uid ≡ none
      → u.completion_time ≡ s.completion_time
      → Write t s u
  resumed :
      s.phase ≡ failed
      → s.completion_time ≡ none
      → u.phase ≡ provisioning
      → u.completion_time ≡ none
      → u.retries ≡ s.retries
      → Write t s u
  expired :
      is_outcome s.phase ≡ true
      → is_some s.completion_time ≡ true
      → u.phase ≡ terminating
      → u.completion_time ≡ s.completion_time
      → u.retries ≡ s.retries
      → Write t s u

pub data Writes (t : Task) (s : TaskStatus) : TaskStatus → Type 0 where
  here : Writes t s s
  next : {u v : TaskStatus} → Writes t s u → Write t u v → Writes t s v

-- What every status of a task satisfies: the retries are within the limit, a completion time
-- stands beside an outcome or the end, and a final phase has one.
pub record IsValid (t : Task) (s : TaskStatus) : Type 0 where
  pub bounded : s.retries ≤ t.backoff_limit
  pub ended :
      (is_some s.completion_time ≡ false) ⊎ (is_outcome s.phase ≡ true) ⊎ (s.phase ≡ terminating)
  pub dated : (is_final s.phase ≡ false) ⊎ (is_some s.completion_time ≡ true)

pub Write-IsValid : {t : Task} {s u : TaskStatus} → Write t s u → IsValid t s → IsValid t u
Write-IsValid (noted p a c r) v = ground arith
Write-IsValid (opened p q c r) v = ground arith
Write-IsValid (provisioned p q c r) v = ground arith
Write-IsValid (begun p q a c r) v = ground arith
Write-IsValid (begun_pending p q a c r) v = ground arith
Write-IsValid (completed p q c r) v = ground arith
Write-IsValid (exited_early p b q c r) v = ground arith
Write-IsValid (succeeds p q c r) v = ground arith
Write-IsValid (times_out p b q c r) v = ground arith
Write-IsValid (gives_up p b q c r) v = ground arith
Write-IsValid (rejected p q c r) v = ground arith
Write-IsValid (retried p l q r a c) v = ground arith
Write-IsValid (resumed p c q d r) v = ground arith
Write-IsValid (expired p c q d r) v = ground arith

pub Writes-IsValid : {t : Task} {s u : TaskStatus} → Writes t s u → IsValid t s → IsValid t u
Writes-IsValid here v = v
Writes-IsValid (next w a) v = Write-IsValid a (Writes-IsValid w v)

-- A settled task is out of reach of every write but the one that ends it.
pub record Stays (s u : TaskStatus) : Type 0 where
  pub same_completion : u.completion_time ≡ s.completion_time
  pub same_retries : u.retries ≡ s.retries
  pub same_phase : (u.phase ≡ s.phase) ⊎ (u.phase ≡ terminating)

Write-Stays :
    {t : Task} {s u v : TaskStatus}
    → is_some s.completion_time ≡ true
    → (is_outcome s.phase ≡ true) ⊎ (s.phase ≡ terminating)
    → Stays s u
    → Write t u v
    → Stays s v
Write-Stays some_time over k (noted p a c r) = ground arith
Write-Stays some_time over k (opened p q c r) = ground arith
Write-Stays some_time over k (provisioned p q c r) = ground arith
Write-Stays some_time over k (begun p q a c r) = ground arith
Write-Stays some_time over k (begun_pending p q a c r) = ground arith
Write-Stays some_time over k (completed p q c r) = ground arith
Write-Stays some_time over k (exited_early p b q c r) = ground arith
Write-Stays some_time over k (succeeds p q c r) = ground arith
Write-Stays some_time over k (times_out p b q c r) = ground arith
Write-Stays some_time over k (gives_up p b q c r) = ground arith
Write-Stays some_time over k (rejected p q c r) = ground arith
Write-Stays some_time over k (retried p l q r a c) = ground arith
Write-Stays some_time over k (resumed p c q d r) = ground arith
Write-Stays some_time over k (expired p c q d r) = ground arith

pub Writes-Stays :
    {t : Task} {s u : TaskStatus}
    → is_some s.completion_time ≡ true
    → (is_outcome s.phase ≡ true) ⊎ (s.phase ≡ terminating)
    → Writes t s u
    → Stays s u
Writes-Stays some_time over here = record {
  same_completion = refl;
  same_retries = refl;
  same_phase = inl refl;
}
Writes-Stays some_time over (next w a) =
    Write-Stays some_time over (Writes-Stays some_time over w) a
