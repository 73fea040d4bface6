-- ===== src/Agent/Phases.antt =====
-- Lemmas on setPhase of internal/controller/agent_controller.go.
use kubeclaw.Prelude.{
  ℕ, true, ◌==◌, ◌≡◌, refl, ap, sym, ◌∙◌, Bool-cases, inl, inr, arith, if◌then◌else◌,
}
use kubeclaw.Agent.{
  AgentPhase, unset, pending, provisioning, running, idle, hibernating, hibernated, resuming,
  degraded, failed, terminating, AgentStatus, phase_index, same_phase, set_phase,
}

phase_at : ℕ → AgentPhase
phase_at n =
    if n == 0
    then unset
    else if n == 1
    then pending
    else if n == 2
    then provisioning
    else if n == 3
    then running
    else if n == 4
    then idle
    else if n == 5
    then hibernating
    else if n == 6
    then hibernated
    else if n == 7
    then resuming
    else if n == 8
    then degraded
    else if n == 9
    then failed
    else terminating

phase_at-index : (p : AgentPhase) → phase_at (phase_index p) ≡ p
unfolding phase_at
phase_at-index unset = refl
phase_at-index pending = refl
phase_at-index provisioning = refl
phase_at-index running = refl
phase_at-index idle = refl
phase_at-index hibernating = refl
phase_at-index hibernated = refl
phase_at-index resuming = refl
phase_at-index degraded = refl
phase_at-index failed = refl
phase_at-index terminating = refl

index_eq : (m n : ℕ) → (m == n) ≡ true → m ≡ n
index_eq m n h = ground arith

pub same_phase_eq : (p q : AgentPhase) → same_phase p q ≡ true → p ≡ q
unfolding same_phase
same_phase_eq p q h = sym (phase_at-index p) ∙ ap phase_at (index_eq _ _ h) ∙ phase_at-index q

pub set_phase_phase : (now : ℕ) (p : AgentPhase) (s : AgentStatus) → (set_phase now p s).phase ≡ p
unfolding set_phase
set_phase_phase now p s = elim (Bool-cases (same_phase s.phase p)) [
  | inl same ↦ rw (same) (same_phase_eq s.phase p same)
  | inr other ↦ rw (other) refl
]

pub set_phase_pre :
    (now : ℕ) (p : AgentPhase) (s : AgentStatus) → (set_phase now p s).pre_degraded ≡ s.pre_degraded
unfolding set_phase
set_phase_pre now p s = elim (Bool-cases (same_phase s.phase p)) [
  | inl same ↦ rw (same) refl
  | inr other ↦ rw (other) refl
]
