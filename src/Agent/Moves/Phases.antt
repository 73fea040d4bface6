-- ===== src/Agent/Moves/Phases.antt =====
-- The moves from an observed status: the phases of Reconcile of
-- internal/controller/agent_controller.go.
use kubeclaw.Prelude.{
  if_false, ℕ, Bool, is_some, true, false, not, ◌&&◌, Option, none, some, ◌≡◌, refl, ap, sym, ◌∙◌,
  ◌⊎◌, inl, inr, arith,
}
use kubeclaw.Api.{failed, ◌>>◌, pure}
use kubeclaw.Api.Yields.{Yields, Any, pure-Yields, if-Yields, bind-Yields, then-Yields}
use kubeclaw.AgentTask.{Requeue, finish}
use kubeclaw.Agent.{
  AgentPhase, unset, pending, provisioning, running, idle, hibernating, hibernated, resuming,
  degraded, failed, terminating, AgentStatus, Agent, AgentClass, AgentPod, AgentEnv, same_phase,
}
use kubeclaw.Agent.Checks.{Effective}
use kubeclaw.Agent.Converge.{A, own_pod, delete_agent_pod}
use kubeclaw.Agent.Pass.{
  put_then, asleep, delete_unless_deleting, drive_hibernating, restored_phase, ready_gates,
  provision_agent, reconcile_phase,
}
use kubeclaw.Agent.Phases.{set_phase_phase, set_phase_pre}
use kubeclaw.Agent.Moves.{
  Move, Moved, IsSound, sound, is_degraded, is_unset, is_awake, entered, Step,
}
use kubeclaw.Agent.Moves.Steps.{P, Started, put_then-Yields, own_pod-Yields, delete-Yields}
use kubeclaw.Agent.Moves.Whole.{sound_of}
use kubeclaw.Agent.Moves.Pass.{provision-Yields, gates-Yields}

-- An observed status: that of the object, or Pending where it had no phase.
pub record Origin (s u : AgentStatus) : Type 0 where
  pub from : (u.phase ≡ s.phase) ⊎ ((s.phase ≡ unset) × (u.phase ≡ pending))
  pub same_pre : u.pre_degraded ≡ s.pre_degraded
  pub named : is_unset u.phase ≡ false

pub is_unset_eq : (p : AgentPhase) → is_unset p ≡ true → p ≡ unset
is_unset_eq p h = ground arith

pub is_degraded_eq : (p : AgentPhase) → is_degraded p ≡ true → p ≡ degraded
is_degraded_eq p h = ground arith

pub plain_pre : (p pre : AgentPhase) → is_degraded p ≡ false → sound p pre ≡ true → pre ≡ unset
plain_pre p pre plain h = is_unset_eq pre (
    sym
      (if_false (is_degraded p) (not (is_degraded pre) && not (is_unset pre)) (is_unset pre) plain)
    ∙ h)

pub restored-plain :
    (pre : AgentPhase) → sound degraded pre ≡ true → is_degraded (restored_phase pre) ≡ false
restored-plain pre h = ground arith

pub kept_pre :
    (p : AgentPhase) → is_degraded p ≡ false → is_unset p ≡ false → sound degraded p ≡ true
kept_pre p plain named = ground arith

pub terminating_same : same_phase terminating terminating ≡ true
unfolding same_phase
terminating_same = refl

module _ (heard : Bool) (s : AgentStatus) (v₀ : IsSound s) where
  pub Origin-Moved : (u : AgentStatus) → Origin s u → Moved heard s u
  Origin-Moved u o = elim o.from [
    | inl same ↦ (
      Move.stays same,
      ap (λ p. sound p u.pre_degraded) same ∙ ap (sound s.phase) o.same_pre ∙ v₀,
    )
    | inr opened ↦ (
      Move.opens opened.0 opened.1,
      sound_of u.phase u.pre_degraded (ap is_degraded opened.1)
          (o.same_pre ∙ plain_pre s.phase s.pre_degraded (ap is_degraded opened.0) v₀),
    )
  ]

  pub Origin-clear :
      (u : AgentStatus) → Origin s u → is_degraded u.phase ≡ false → u.pre_degraded ≡ unset
  Origin-clear u o plain = plain_pre u.phase u.pre_degraded plain (Origin-Moved u o).1

  Origin-Started :
      (u : AgentStatus)
      → Origin s u
      → is_awake u.phase ≡ true
      → is_degraded u.phase ≡ false
      → Started heard s u
  Origin-Started u o awake plain = record {
    awake = awake;
    was_idle = λ h. elim o.from [
      | inl same ↦ sym same ∙ h
      | inr opened ↦ absurd (ground (arith, h, opened.1))
    ];
    still_idle = λ h. elim o.from [
      | inl same ↦ same ∙ h
      | inr opened ↦ absurd (ground (arith, h, opened.0))
    ];
    clear = Origin-clear u o plain;
    moved = Origin-Moved u o;
  }

  Origin-awake : (u : AgentStatus) → Origin s u → is_awake u.phase ≡ true → is_awake s.phase ≡ true
  Origin-awake u o awake = elim o.from [
    | inl same ↦ ap is_awake (sym same) ∙ awake
    | inr opened ↦ ap is_awake opened.0
  ]

  pub Origin-at :
      (u : AgentStatus) (q : AgentPhase)
      → Origin s u
      → u.phase ≡ q
      → (q ≡ pending → ⊥)
      → s.phase ≡ q
  Origin-at u q o h not_pending = elim o.from [
    | inl same ↦ sym same ∙ h
    | inr opened ↦ absurd (not_pending (sym h ∙ opened.1))
  ]

  hibernating-Yields :
      (now : ℕ) (u : AgentStatus)
      → Origin s u
      → u.phase ≡ hibernating
      → Yields (P heard s) Any (drive_hibernating now u)
  unfolding drive_hibernating asleep
  hibernating-Yields now u o at =
      bind-Yields (P heard s) Any Any own_pod _ (own_pod-Yields heard s) (λ pod _. by_pod pod)
    where
      by_pod :
          (x : Option AgentPod)
          → Yields (P heard s) Any (elim x as (λ _. A Requeue) [
            | none ↦ put_then (asleep now u) finish
            | some p ↦ delete_unless_deleting p >> put_then u finish
          ])
      by_pod none =
          let q = set_phase_phase now hibernated u in
          put_then-Yields heard s (asleep now u) finish (
            Move.steps
                (Step.sleeps (ap entered (Origin-at u hibernating o at (λ h. ground arith))) q),
            sound_of _ _ (ap is_degraded q)
                (set_phase_pre now hibernated u ∙ Origin-clear u o (ap is_degraded at)),
          )
      by_pod (some p) =
          then-Yields (P heard s) Any (delete_unless_deleting p) (put_then u finish)
            (if-Yields (P heard s) Any p.deleting (pure tt) (delete_agent_pod p)
              (pure-Yields (P heard s) Any tt tt) (delete-Yields heard s p))
            (put_then-Yields heard s u finish (Origin-Moved u o))

  pub phase-Yields :
      (e : AgentEnv) (a : Agent) (c : AgentClass) (eff : Effective) (u : AgentStatus)
      → is_some e.activity ≡ heard
      → Origin s u
      → is_degraded u.phase ≡ false
      → same_phase u.phase terminating ≡ false
      → Yields (P heard s) Any (reconcile_phase e a c eff u)
  unfolding reconcile_phase
  phase-Yields e a c eff u sense o plain living = by_phase u.phase refl
    where
      works :
          is_awake u.phase ≡ true
          → Yields (P heard s) Any (ready_gates e eff u (provision_agent e a c eff u))
      works awake = gates-Yields heard s e eff u (provision_agent e a c eff u) (Origin-Moved u o) (
          provision-Yields heard s e a c eff u sense (Origin-Started u o awake plain)
            (Origin-awake u o awake))

      by_phase :
          (p : AgentPhase)
          → u.phase ≡ p
          → Yields (P heard s) Any (elim p as (λ _. A Requeue) [
            | hibernating ↦ drive_hibernating e.shared.now u
            | hibernated ↦ put_then u finish
            | _ ↦ ready_gates e eff u (provision_agent e a c eff u)
          ])
      by_phase hibernating q = hibernating-Yields e.shared.now u o q
      by_phase hibernated q = put_then-Yields heard s u finish (Origin-Moved u o)
      by_phase degraded q = absurd (ground (arith, plain, q))
      by_phase terminating q =
          absurd (ground (arith, living, ap (λ p. same_phase p terminating) q, terminating_same))
      by_phase unset q = works (ap is_awake q)
      by_phase pending q = works (ap is_awake q)
      by_phase provisioning q = works (ap is_awake q)
      by_phase running q = works (ap is_awake q)
      by_phase idle q = works (ap is_awake q)
      by_phase resuming q = works (ap is_awake q)
      by_phase failed q = works (ap is_awake q)
