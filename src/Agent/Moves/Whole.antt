-- ===== src/Agent/Moves/Whole.antt =====
-- The moves of a whole pass, Reconcile of internal/controller/agent_controller.go.
use kubeclaw.Prelude.{
  if_true, if_false, ℕ, String, Bool, true, false, not, ◌&&◌, ◌||◌, ltb, Option, none, some,
  is_some, List, if◌then◌else◌, ◌≡◌, refl, ap, sym, subst, ◌∙◌, ◌⊎◌, inl, inr, Bool-cases, arith,
}
use kubeclaw.AgentTask.{Requeue, finish}
use kubeclaw.Agent.{
  AgentPhase, unset, pending, provisioning, running, idle, hibernating, hibernated, resuming,
  degraded, failed, terminating, AgentStatus, Agent, AgentEnv, Replica, same_phase,
}
use kubeclaw.Agent.Checks.{Effective}
use kubeclaw.Agent.Idle.{evaluate_activity}
use kubeclaw.Agent.Rests.{evaluate_activity-Rests, answering}
use kubeclaw.Agent.Silence.{Rests}
use kubeclaw.Agent.Pass.{evaluated}
use kubeclaw.Agent.Phases.{same_phase_eq}
use kubeclaw.Agent.Moves.{
  Move, Moved, sound, is_degraded, is_unset, is_awake, is_starting, entered, Step, Extra,
}
use kubeclaw.Agent.Moves.Kept.{activity_pre}
use kubeclaw.Agent.Moves.Steps.{Converged}

pub sound_of : (q pre : AgentPhase) → is_degraded q ≡ false → pre ≡ unset → sound q pre ≡ true
sound_of q pre plain clear =
    if_false (is_degraded q) (not (is_degraded pre) && not (is_unset pre)) (is_unset pre) plain
    ∙ ap is_unset clear

module _ (heard : Bool) (s : AgentStatus) where
  -- an awake agent moves on to wait for its Pod
  pub to_provisioning :
      (p : AgentPhase) → s.phase ≡ p → is_awake p ≡ true → Move heard s provisioning
  to_provisioning unset at h = Move.steps (Step.provisions (ap entered at) refl)
  to_provisioning pending at h = Move.steps (Step.provisions (ap entered at) refl)
  to_provisioning provisioning at h = Move.stays (sym at)
  to_provisioning running at h = Move.steps (Step.replaces (inl (ap entered at)) refl)
  to_provisioning idle at h = Move.steps (Step.replaces (inr (ap entered at)) refl)
  to_provisioning resuming at h = Move.departs (Extra.resumes_slowly (ap entered at) refl)
  to_provisioning failed at h = Move.departs (Extra.heals (ap entered at) (inl refl))
  to_provisioning hibernating at h = absurd (ground arith)
  to_provisioning hibernated at h = absurd (ground arith)
  to_provisioning degraded at h = absurd (ground arith)
  to_provisioning terminating at h = absurd (ground arith)

  -- and, unless it was idle, to run
  to_running :
      (p : AgentPhase)
      → s.phase ≡ p
      → is_awake p ≡ true
      → (s.phase ≡ idle → ⊥)
      → Move heard s running
  to_running unset at h other = Move.departs (Extra.begins_pending (ap entered at) refl)
  to_running pending at h other = Move.departs (Extra.begins_pending (ap entered at) refl)
  to_running provisioning at h other = Move.steps (Step.begins (ap entered at) refl)
  to_running running at h other = Move.stays (sym at)
  to_running idle at h other = absurd (other at)
  to_running resuming at h other = Move.steps (Step.resumes (ap entered at) refl)
  to_running failed at h other = Move.departs (Extra.heals (ap entered at) (inr refl))
  to_running hibernating at h other = absurd (ground arith)
  to_running hibernated at h other = absurd (ground arith)
  to_running degraded at h other = absurd (ground arith)
  to_running terminating at h other = absurd (ground arith)

  starting_idles : is_starting (entered s.phase) ≡ true → heard ≡ true → Move heard s idle
  starting_idles h asked = Move.idles_at_once asked h refl

  -- or, silent for long, to idle
  to_idle :
      (p : AgentPhase)
      → s.phase ≡ p
      → is_awake p ≡ true
      → heard ≡ true
      → (s.phase ≡ idle → ⊥)
      → Move heard s idle
  to_idle running at h asked other = Move.steps (Step.idles asked (ap entered at) refl)
  to_idle idle at h asked other = absurd (other at)
  to_idle unset at h asked other = starting_idles (ap (λ x. is_starting (entered x)) at) asked
  to_idle pending at h asked other = starting_idles (ap (λ x. is_starting (entered x)) at) asked
  to_idle provisioning at h asked other =
      starting_idles (ap (λ x. is_starting (entered x)) at) asked
  to_idle resuming at h asked other = starting_idles (ap (λ x. is_starting (entered x)) at) asked
  to_idle failed at h asked other = starting_idles (ap (λ x. is_starting (entered x)) at) asked
  to_idle hibernating at h asked other = absurd (ground arith)
  to_idle hibernated at h asked other = absurd (ground arith)
  to_idle degraded at h asked other = absurd (ground arith)
  to_idle terminating at h asked other = absurd (ground arith)

  reached :
      (q : AgentPhase) (v : AgentStatus)
      → v.phase ≡ q
      → v.pre_degraded ≡ unset
      → is_degraded q ≡ false
      → Move heard s q
      → Moved heard s v
  reached q v at clear plain m = (
    subst (λ x. Move heard s x) (sym at) m,
    sound_of v.phase v.pre_degraded (ap is_degraded at ∙ plain) clear,
  )

  pub failed-Move : is_awake s.phase ≡ true → Move heard s failed
  failed-Move awake = Move.steps (Step.fails (entered_awake s.phase awake) refl)
    where
      entered_awake : (p : AgentPhase) → is_awake p ≡ true → is_awake (entered p) ≡ true
      entered_awake p h = ground arith

  settled_move : (u : AgentStatus) → is_awake s.phase ≡ true → Converged heard s u → Moved heard s u
  settled_move u awake con = elim con.outcome [
    | inl at ↦ reached provisioning u at con.clear refl (to_provisioning s.phase refl awake)
    | inr more ↦ elim more [
      | inl at ↦ reached failed u at con.clear refl (failed-Move awake)
      | inr most ↦ elim most [
        | inl runs ↦ reached running u runs.0 con.clear refl (to_running s.phase refl awake runs.1)
        | inr rests ↦ reached idle u rests.0 con.clear refl (Move.stays (sym rests.1))
      ]
    ]
  ]

  runs_anew : (u : AgentStatus) → Converged heard s u → u.phase ≡ running → s.phase ≡ idle → ⊥
  runs_anew u con at idles = ground (arith, con.outcome, at, idles)

  was_idle : (u : AgentStatus) → Converged heard s u → u.phase ≡ idle → s.phase ≡ idle
  was_idle u con at = ground (arith, con.outcome, at)

  activity-Moved :
      (now : ℕ) (name : String) (eff : Effective) (answer : Option (List Replica × ℕ))
      (u : AgentStatus)
      → heard ≡ true
      → is_awake s.phase ≡ true
      → Converged heard s u
      → (u.phase ≡ running) ⊎ (u.phase ≡ idle)
      → Moved heard s (evaluate_activity now name eff answer u).0
  activity-Moved now name eff answer u asked awake con at = by_rest at
    where
      v : AgentStatus
      v = (evaluate_activity now name eff answer u).0

      rest : Rests now name eff (answering answer) u v
      rest = evaluate_activity-Rests now name eff answer u

      clear : v.pre_degraded ≡ unset
      clear = activity_pre now eff name answer u ∙ con.clear

      by_rest : (u.phase ≡ running) ⊎ (u.phase ≡ idle) → Moved heard s v
      by_rest (inl h) =
          let anew = runs_anew u con h in
          elim (rest.idles h) [
            | inl q ↦ reached running v q clear refl (to_running s.phase refl awake anew)
            | inr q ↦ reached idle v q.0 clear refl (to_idle s.phase refl awake asked anew)
          ]
      by_rest (inr h) =
          let from : entered s.phase ≡ idle = ap entered (was_idle u con h) in
          elim (rest.sleeps h) [
            | inl q ↦ reached idle v q clear refl (Move.stays (sym (was_idle u con h)))
            | inr more ↦ elim more [
              | inl q ↦ reached running v q clear refl (Move.steps (Step.stirs asked from refl))
              | inr q ↦
                  reached hibernating v q.0 clear refl (Move.steps (Step.rests asked from refl))
            ]
          ]

  pub evaluated-Moved :
      (e : AgentEnv) (a : Agent) (eff : Effective) (u : AgentStatus)
      → is_some e.activity ≡ heard
      → is_awake s.phase ≡ true
      → Converged heard s u
      → Moved heard s (evaluated e a eff u).0
  unfolding evaluated
  evaluated-Moved e a eff u sense awake con = by_client e.activity sense
    where
      same : Moved heard s u
      same = settled_move u awake con

      phases :
          (b c d : Bool)
          → ((b || c) && d) ≡ true
          → (b ≡ true → u.phase ≡ running)
          → (c ≡ true → u.phase ≡ idle)
          → (u.phase ≡ running) ⊎ (u.phase ≡ idle)
      phases true c d h f g = inl (f refl)
      phases false true d h f g = inr (g refl)
      phases false false d h f g = absurd (ground arith)

      by_client :
          (o : Option (Option (List Replica × ℕ)))
          → is_some o ≡ heard
          → Moved heard s
              (elim o as (λ _. AgentStatus × Requeue) [
                | none ↦ (u, finish)
                | some answer ↦
                    if (same_phase u.phase running || same_phase u.phase idle)
                      && ltb 0 eff.idle_timeout
                    then evaluate_activity e.shared.now a.name eff answer u
                    else (u, finish)
              ]).0
      by_client none asked = same
      by_client (some answer) asked =
          elim (Bool-cases
            ((same_phase u.phase running || same_phase u.phase idle) && ltb 0 eff.idle_timeout)) [
              | inl asks ↦
                  subst (λ (r : AgentStatus × Requeue). Moved heard s r.0)
                    (sym (if_true _ _ (u, finish) asks))
                    (activity-Moved e.shared.now a.name eff answer u (sym asked) awake con (
                      phases _ _ _ asks (same_phase_eq u.phase running)
                        (same_phase_eq u.phase idle)))
              | inr quiet ↦
                  subst (λ (r : AgentStatus × Requeue). Moved heard s r.0)
                    (sym (
                      if_false _ (evaluate_activity e.shared.now a.name eff answer u) (u, finish)
                        quiet))
                    same
            ]
