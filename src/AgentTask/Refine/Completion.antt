-- ===== src/AgentTask/Refine/Completion.antt =====
-- The same for driveRunning, driveCompleting and driveProvisioning.
use kubeclaw.Prelude.{
  ℕ, String, Bool, true, false, not, ◌&&◌, ◌||◌, Option, none, some, List, [], ◌∷◌, is_some, ltb,
  str_eq, if◌then◌else◌, ◌≡◌, refl, ◌+◌, arith,
}
use kubeclaw.Api.{Keeps, ◌>>◌, pure, read, read-Keeps, write-Keeps, bind-Keeps, request-Keeps}
use kubeclaw.AgentTask.{
  Task, Pod, pod_succeeded, pod_failed, Env, TaskStatus, Phase, unset, pending, provisioning,
  running, completing, succeeded, failed, timed_out, terminating, Child, Requeue, finish,
  is_agent_reported,
}
use kubeclaw.AgentTask.Checks.{Payload, valid_artifacts, timed_out_at, pod_ready, fatal_waiting}
use kubeclaw.AgentTask.Drive.{
  K, update_status, with_phase, with_ready, with_report, when, fail_or_retry, complete_reported,
  complete_exited, drive_completing, read_mailbox, complete_now, then_finish, in_phase,
  watch_running, drive_running, cert_wait_requeue, provisioning_deadline,
}
use kubeclaw.AgentTask.Provision.{
  request_certificate, certificate_from, ensure_certificate, ensure_children, create_child,
  create_all, create_mailbox, made, own_children, completion_children, create_pod, provision,
  provision_pod, provisioned, await, stamp, stamped, started, watch_pod, drive_provisioning,
}
use kubeclaw.AgentTask.Lifecycle.{Write, Writes, next, is_early}
use kubeclaw.AgentTask.Refine.{
  Along, Live, if-Keeps, choose-Keeps, succeeds-Write, then-Keeps, when-Keeps, update-Keeps,
  settle-Keeps, fail_or_retry-Keeps, settle_timeout-Keeps,
}

module _ (t : Task) (s₀ : TaskStatus) (e : Env) where
  report-Live : (p : Payload) (s : TaskStatus) → Live t s₀ s → Live t s₀ (with_report p s)
  report-Live p s v = record {
    path = next v.path (Write.noted refl refl refl refl);
    alive = v.alive;
    open_ended = v.open_ended;
  }

  complete_reported-Keeps :
      (s : TaskStatus) (p : Payload)
      → Live t s₀ s
      → s.phase ≡ completing
      → Keeps (Along t s₀) (complete_reported e t s p)
  unfolding complete_reported
  complete_reported-Keeps s p v at =
      if-Keeps t s₀ (not (str_eq p.status "")) _ _
        (if-Keeps t s₀ (not (valid_artifacts p t.artifacts)) _ _
          (fail_or_retry-Keeps t s₀ e "TaskFailed" s v)
          (if-Keeps t s₀ (str_eq p.status "success") _ _
            (settle-Keeps t s₀ e.now succeeded true "TaskSucceeded" (with_report p s)
              (report-Live p s v).path
              (succeeds-Write t s₀ e.now "TaskSucceeded" (with_report p s) at))
            (fail_or_retry-Keeps t s₀ e "TaskFailed" (with_report p s) (report-Live p s v))))
        (if-Keeps t s₀ (timed_out_at e.now t s) _ _ (settle_timeout-Keeps t s₀ e s v.path at)
          (fail_or_retry-Keeps t s₀ e "PodDisrupted" s v))

  complete_exited-Keeps :
      (s : TaskStatus) (pod : Option Pod)
      → Live t s₀ s
      → s.phase ≡ completing
      → Keeps (Along t s₀) (complete_exited e t s pod)
  unfolding complete_exited
  complete_exited-Keeps s pod v at =
      if-Keeps t s₀ (in_phase pod_succeeded pod) _ _
        (settle-Keeps t s₀ e.now succeeded true "TaskSucceeded" s v.path
          (succeeds-Write t s₀ e.now "TaskSucceeded" s at))
        (if-Keeps t s₀ (in_phase pod_failed pod) _ _ (fail_or_retry-Keeps t s₀ e "TaskFailed" s v) (
          if-Keeps t s₀ (timed_out_at e.now t s) _ _ (settle_timeout-Keeps t s₀ e s v.path at)
            (fail_or_retry-Keeps t s₀ e "PodDisrupted" s v)))

  mailbox-Keeps : Keeps (Along t s₀) read_mailbox
  unfolding read_mailbox
  mailbox-Keeps = read-Keeps (Along t s₀) _

  pub drive_completing-Keeps :
      (s : TaskStatus) (pod : Option Pod)
      → Live t s₀ s
      → s.phase ≡ completing
      → Keeps (Along t s₀) (drive_completing e t s pod)
  unfolding drive_completing
  drive_completing-Keeps s pod v at =
      if-Keeps t s₀ (is_agent_reported t) _ _
        (bind-Keeps (Along t s₀) read_mailbox _ mailbox-Keeps
          (λ p. complete_reported-Keeps s p v at))
        (complete_exited-Keeps s pod v at)

  pub finish-Keeps : (m : K (Unit {0})) → Keeps (Along t s₀) m → Keeps (Along t s₀) (then_finish m)
  finish-Keeps m km = then-Keeps t s₀ m (pure finish) km (λ w h. h)

  complete_now-Keeps :
      (s : TaskStatus) (pod : Option Pod)
      → Live t s₀ s
      → Write t s (with_phase completing s)
      → Keeps (Along t s₀) (complete_now e t s pod)
  unfolding complete_now
  complete_now-Keeps s pod v step =
      let u = with_phase completing s in
      let live : Live t s₀ u = record {
        path = next v.path step;
        alive = refl;
        open_ended = v.open_ended;
      } in
      then-Keeps t s₀ (update_status u) _ (update-Keeps t s₀ u live.path)
        (finish-Keeps (drive_completing e t u pod) (drive_completing-Keeps u pod live refl))

  watch_running-Keeps :
      (s : TaskStatus) (pod : Option Pod)
      → Live t s₀ s
      → s.phase ≡ running
      → Keeps (Along t s₀) (watch_running e t s pod)
  unfolding watch_running
  watch_running-Keeps s pod v at =
      let step : Write t s (with_phase completing s) = Write.completed at refl refl refl in
      if-Keeps t s₀
        (not (is_agent_reported t) && (in_phase pod_succeeded pod || in_phase pod_failed pod)) _ _
        (complete_now-Keeps s pod v step)
        (if-Keeps t s₀ (timed_out_at e.now t s) _ _ (complete_now-Keeps s pod v step) (
          if-Keeps t s₀ (not (is_some pod) || (is_agent_reported t && in_phase pod_failed pod)) _ _
            (finish-Keeps _ (fail_or_retry-Keeps t s₀ e "PodDisrupted" s v)) (λ w h. h)))

  pub drive_running-Keeps :
      (s : TaskStatus) (pod : Option Pod)
      → Live t s₀ s
      → s.phase ≡ running
      → Keeps (Along t s₀) (drive_running e t s pod)
  unfolding drive_running
  drive_running-Keeps s pod v at =
      if-Keeps t s₀ (is_agent_reported t) _ _
        (bind-Keeps (Along t s₀) read_mailbox _ mailbox-Keeps (λ p.
          if-Keeps t s₀ (not (str_eq p.status "")) _ _
            (complete_now-Keeps s pod v (Write.completed at refl refl refl))
            (watch_running-Keeps s pod v at)))
        (watch_running-Keeps s pod v at)

  pub await-Keeps : (wait : ℕ) (u : TaskStatus) → Writes t s₀ u → Keeps (Along t s₀) (await wait u)
  await-Keeps wait u path =
      then-Keeps t s₀ (update_status u) _ (update-Keeps t s₀ u path) (λ w h. h)

  from-Keeps : (cert : Option Bool) → Keeps (Along t s₀) (certificate_from cert)
  unfolding certificate_from request_certificate
  from-Keeps none =
      then-Keeps t s₀ request_certificate (pure false)
        (write-Keeps (Along t s₀) (λ c. record c { certificate = some false }) (λ c h. h))
        (λ w h. h)
  from-Keeps (some ready) = λ w h. h

  certificate-Keeps : Keeps (Along t s₀) ensure_certificate
  unfolding ensure_certificate
  certificate-Keeps =
      bind-Keeps (Along t s₀) (read (λ c. c.certificate)) certificate_from
        (read-Keeps (Along t s₀) (λ c. c.certificate)) from-Keeps

  create_all-Keeps : (ks : List Child) → Keeps (Along t s₀) (create_all ks)
  unfolding create_all create_child
  create_all-Keeps [] = λ w h. h
  create_all-Keeps (k ∷ ks) =
      then-Keeps t s₀ (create_child k) (create_all ks)
        (write-Keeps (Along t s₀) (λ c. record c { children = k ∷ c.children }) (λ c h. h))
        (create_all-Keeps ks)

  mailbox_made-Keeps : Keeps (Along t s₀) create_mailbox
  unfolding create_mailbox
  mailbox_made-Keeps =
      write-Keeps (Along t s₀) (λ c. record c { mailbox = made c.mailbox }) (λ c h. h)

  children-Keeps : Keeps (Along t s₀) (ensure_children t)
  unfolding ensure_children
  children-Keeps =
      let completion = create_mailbox >> create_all completion_children in
      then-Keeps t s₀ (create_all (own_children t)) (when (is_agent_reported t) completion)
        (create_all-Keeps (own_children t))
        (when-Keeps t s₀ (is_agent_reported t) completion (
          then-Keeps t s₀ create_mailbox (create_all completion_children) mailbox_made-Keeps
            (create_all-Keeps completion_children)))

  create_pod-Keeps : Keeps (Along t s₀) (create_pod e t)
  unfolding create_pod
  create_pod-Keeps = request-Keeps (Along t s₀) _ _ (λ c h. h)

  provision_pod-Keeps :
      (s : TaskStatus)
      → Live t s₀ s
      → is_early s.phase ≡ true
      → Keeps (Along t s₀) (provision_pod e t s)
  unfolding provision_pod provisioned
  provision_pod-Keeps s v early = then-Keeps t s₀ (ensure_children t) _ children-Keeps (
      bind-Keeps (Along t s₀) (create_pod e t) _ create_pod-Keeps (λ uid.
        then-Keeps t s₀ (update_status (provisioned t s uid)) (pure finish)
          (update-Keeps t s₀ (provisioned t s uid)
            (next v.path (Write.provisioned early refl refl refl)))
          (λ w h. h)))

  provision-Keeps :
      (s : TaskStatus)
      → Live t s₀ s
      → is_early s.phase ≡ true
      → Keeps (Along t s₀) (provision e t s)
  unfolding provision
  provision-Keeps s v early =
      let waiting = with_ready false "CertificateNotReady" (with_phase provisioning s) in
      bind-Keeps (Along t s₀) ensure_certificate
        (λ ready. if ready then provision_pod e t s else await cert_wait_requeue waiting)
        certificate-Keeps
        (λ ready.
          if-Keeps t s₀ ready (provision_pod e t s) (await cert_wait_requeue waiting)
            (provision_pod-Keeps s v early)
            (await-Keeps cert_wait_requeue waiting
              (next v.path (Write.provisioned early refl refl refl))))

  begun-Write : (s : TaskStatus) → is_early s.phase ≡ true → Write t s (started e.now s)
  begun-Write s early = by_phase s.phase refl early
    where
      by_phase : (p : Phase) → s.phase ≡ p → is_early p ≡ true → Write t s (started e.now s)
      by_phase provisioning q h = Write.begun q refl refl refl refl
      by_phase pending q h = Write.begun_pending q refl refl refl refl
      by_phase unset q h = absurd (ground arith)
      by_phase running q h = absurd (ground arith)
      by_phase completing q h = absurd (ground arith)
      by_phase succeeded q h = absurd (ground arith)
      by_phase failed q h = absurd (ground arith)
      by_phase timed_out q h = absurd (ground arith)
      by_phase terminating q h = absurd (ground arith)

  watch_pod-Keeps :
      (s : TaskStatus) (p : Pod)
      → Live t s₀ s
      → is_early s.phase ≡ true
      → Keeps (Along t s₀) (watch_pod e t s p)
  unfolding watch_pod
  watch_pod-Keeps s p v early =
      if-Keeps t s₀ (pod_ready p) _ _
        (then-Keeps t s₀ (update_status (started e.now s)) _
          (update-Keeps t s₀ (started e.now s) (next v.path (begun-Write s early))) (λ w h. h))
        (if-Keeps t s₀ (in_phase pod_succeeded (some p) || in_phase pod_failed (some p)) _ _
          (choose-Keeps t s₀ (not (is_agent_reported t) && in_phase pod_succeeded (some p)) _ _
            (λ h.
              complete_now-Keeps s (some p) v
                (Write.exited_early early (exited (is_agent_reported t) _ h) refl refl refl))
            (λ _. finish-Keeps _ (fail_or_retry-Keeps t s₀ e "PodStartFailed" s v)))
          (fatal (fatal_waiting p.waiting)))
    where
      exited : (b c : Bool) → (not b && c) ≡ true → b ≡ false
      exited b c h = ground arith

      fatal :
          (reason : Option String)
          → Keeps (Along t s₀) (elim reason as (λ _. K Requeue) [
            | some reason ↦ then_finish (fail_or_retry e t reason s)
            | none ↦
                if ltb (p.created + provisioning_deadline) e.now
                then then_finish (fail_or_retry e t "ProvisioningDeadlineExceeded" s)
                else await cert_wait_requeue s
          ])
      fatal (some reason) = finish-Keeps _ (fail_or_retry-Keeps t s₀ e reason s v)
      fatal none =
          if-Keeps t s₀ (ltb (p.created + provisioning_deadline) e.now) _ _
            (finish-Keeps _ (fail_or_retry-Keeps t s₀ e "ProvisioningDeadlineExceeded" s v))
            (await-Keeps cert_wait_requeue s v.path)

  pub drive_provisioning-Keeps :
      (s : TaskStatus) (pod : Option Pod)
      → Live t s₀ s
      → is_early s.phase ≡ true
      → Keeps (Along t s₀) (drive_provisioning e t s pod)
  unfolding drive_provisioning
  drive_provisioning-Keeps s none v early = provision-Keeps s v early
  drive_provisioning-Keeps s (some p) v early =
      let live : Live t s₀ (stamp s p) = record {
        path = next v.path (Write.noted refl refl refl refl);
        alive = v.alive;
        open_ended = v.open_ended;
      } in
      if-Keeps t s₀ (stamped t s p) _ _ (watch_pod-Keeps s p v early) (
        then-Keeps t s₀ (update_status (stamp s p)) (watch_pod e t (stamp s p) p)
          (update-Keeps t s₀ (stamp s p) live.path) (watch_pod-Keeps (stamp s p) p live early))
