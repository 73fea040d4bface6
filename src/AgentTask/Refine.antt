-- ===== src/AgentTask/Refine.antt =====
-- A pass of the controller moves the stored status along the life of a task, whichever of its API
-- calls fail.
pub mod Completion
pub mod Pass
pub mod Whole
use kubeclaw.Prelude.{
  ℕ, suc, ◌+◌, ◌<◌, String, Bool, true, false, not, ◌&&◌, ◌||◌, Option, none, some, List, [], ◌∷◌,
  is_some, ltb, str_eq, if◌then◌else◌, ◌≡◌, refl, arith, Bool-cases, ◌⊎◌, inl, inr,
}
use kubeclaw.Api.{
  M, Keeps, World, ◌>>=◌, ◌>>◌, pure, raise, read, write, read-Keeps, write-Keeps, pure-Keeps,
  bind-Keeps,
}
use kubeclaw.AgentTask.{
  Task, Class, Pod, Env, TaskStatus, Cluster, Phase, unset, pending, provisioning, running,
  completing, succeeded, failed, timed_out, terminating, Requeue, finish, again, later, Got, got,
  not_found, get_error, is_agent_reported,
}
use kubeclaw.AgentTask.Drive.{
  K, update_status, with_phase, with_ready, owned_task_pod, delete_pod, delete_live, when, has_data,
  reset_mailbox, settle, settled, retry, retried, fail_or_retry, settle_timeout,
}
use kubeclaw.AgentTask.Lifecycle.{Write, Writes, here, next, is_live, is_early, is_outcome, IsValid}

module _ (t : Task) (s₀ : TaskStatus) where
  -- the stored status has come from `s₀` along the life of a task
  abbrev pub Along : Cluster → Type 0
  Along c = Writes t s₀ c.status

  -- a status in memory of a task that still works
  pub record Live (s : TaskStatus) : Type 0 where
    pub path : Writes t s₀ s
    pub alive : is_live s.phase ≡ true
    pub open_ended : s.completion_time ≡ none

  pub if-Keeps :
      {A : Type 0} (b : Bool) (m n : K A)
      → Keeps Along m
      → Keeps Along n
      → Keeps Along (if b then m else n)
  if-Keeps true m n km kn = km
  if-Keeps false m n km kn = kn

  pub choose-Keeps :
      {A : Type 0} (b : Bool) (m n : K A)
      → (b ≡ true → Keeps Along m)
      → (b ≡ false → Keeps Along n)
      → Keeps Along (if b then m else n)
  choose-Keeps true m n km kn = km refl
  choose-Keeps false m n km kn = kn refl

  pub then-Keeps :
      {B : Type 0} (m : K (Unit {0})) (k : K B)
      → Keeps Along m
      → Keeps Along k
      → Keeps Along (m >> k)
  then-Keeps m k km kk = bind-Keeps Along m (λ _. k) km (λ _. kk)

  pub when-Keeps : (b : Bool) (m : K (Unit {0})) → Keeps Along m → Keeps Along (when b m)
  when-Keeps true m km = km
  when-Keeps false m km = pure-Keeps Along tt

  pub update-Keeps : (u : TaskStatus) → Writes t s₀ u → Keeps Along (update_status u)
  unfolding update_status
  update-Keeps u path = write-Keeps Along (λ c. record c { status = u }) (λ c h. path)

  pub owned-Keeps : Keeps Along owned_task_pod
  unfolding owned_task_pod
  owned-Keeps = read-Keeps Along _

  pub delete_live-Keeps : (pod : Option Pod) → Keeps Along (delete_live pod)
  unfolding delete_pod
  delete_live-Keeps none = pure-Keeps Along tt
  delete_live-Keeps (some p) =
      when-Keeps (not p.deleting) (delete_pod p) (write-Keeps Along _ (λ c h. h))

  reset-Keeps : Keeps Along reset_mailbox
  unfolding reset_mailbox
  reset-Keeps =
      bind-Keeps Along _ _ (read-Keeps Along _)
        (λ full. when-Keeps full _ (write-Keeps Along _ (λ c h. h)))

  pub settle-Keeps :
      (now : ℕ) (phase : Phase) (success : Bool) (reason : String) (s : TaskStatus)
      → Writes t s₀ s
      → Write t s (settled now phase success reason s)
      → Keeps Along (settle now phase success reason s)
  unfolding settle
  settle-Keeps now phase success reason s path step =
      update-Keeps (settled now phase success reason s) (next path step)

  gives_up-Write :
      (now : ℕ) (reason : String) (s : TaskStatus)
      → Live s
      → ltb s.retries t.backoff_limit ≡ false
      → Write t s (settled now failed false reason s)
  unfolding settled
  gives_up-Write now reason s v spent = Write.gives_up v.alive (ground arith) refl refl refl

  pub succeeds-Write :
      (now : ℕ) (reason : String) (s : TaskStatus)
      → s.phase ≡ completing
      → Write t s (settled now succeeded true reason s)
  unfolding settled
  succeeds-Write now reason s at = Write.succeeds at refl refl refl

  times_out-Write :
      (now : ℕ) (s : TaskStatus)
      → s.phase ≡ completing
      → str_eq t.on_timeout "Succeed" ≡ false
      → Write t s (settled now timed_out false "TimeoutExceeded" s)
  unfolding settled
  times_out-Write now s at fails = Write.times_out at fails refl refl refl

  retry-Keeps :
      (reason : String) (s : TaskStatus)
      → Live s
      → s.retries < t.backoff_limit
      → Keeps Along (retry t reason s)
  unfolding retry retried
  retry-Keeps reason s v below =
      let failed_path : Writes t s₀ (retried reason s) =
        next v.path (Write.retried v.alive below refl refl refl refl) in
      let again_path : Writes t s₀ (with_phase provisioning (retried reason s)) =
        next failed_path (Write.resumed refl v.open_ended refl v.open_ended refl) in
      then-Keeps (update_status (retried reason s)) _ (update-Keeps (retried reason s) failed_path)
        (bind-Keeps Along owned_task_pod _ owned-Keeps (λ pod.
          then-Keeps (delete_live pod) _ (delete_live-Keeps pod) (
            then-Keeps (when (is_agent_reported t) reset_mailbox) _
              (when-Keeps (is_agent_reported t) reset_mailbox reset-Keeps)
              (update-Keeps (with_phase provisioning (retried reason s)) again_path))))

  pub fail_or_retry-Keeps :
      (e : Env) (reason : String) (s : TaskStatus)
      → Live s
      → Keeps Along (fail_or_retry e t reason s)
  unfolding fail_or_retry
  fail_or_retry-Keeps e reason s v = elim (Bool-cases (ltb s.retries t.backoff_limit)) [
    | inl below ↦ rw (below, fail_or_retry) (retry-Keeps reason s v (ground arith))
    | inr spent ↦
        rw (spent, fail_or_retry)
          (settle-Keeps e.now failed false reason s v.path (gives_up-Write e.now reason s v spent))
  ]

  pub settle_timeout-Keeps :
      (e : Env) (s : TaskStatus)
      → Writes t s₀ s
      → s.phase ≡ completing
      → Keeps Along (settle_timeout e t s)
  unfolding settle_timeout
  settle_timeout-Keeps e s path at =
      choose-Keeps (str_eq t.on_timeout "Succeed") _ _
        (λ _.
          settle-Keeps e.now succeeded true "TimeoutSucceeded" s path
            (succeeds-Write e.now "TimeoutSucceeded" s at))
        (λ fails.
          settle-Keeps e.now timed_out false "TimeoutExceeded" s path
            (times_out-Write e.now s at fails))
