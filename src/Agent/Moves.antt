-- ===== src/Agent/Moves.antt =====
-- What one pass may do to the phase of an agent: the rows of the table of
-- docs/src/controller/agent-lifecycle.md, and the moves that the table lacks.
pub mod Steps
pub mod Kept
pub mod Whole
pub mod Pass
pub mod Phases
pub mod Object
pub mod Refine
use kubeclaw.Prelude.{
  ℕ, Bool, true, false, not, ◌&&◌, ◌||◌, Option, none, some, if◌then◌else◌, ◌≡◌, refl, ap, sym, ◌∙◌,
  ◌⊎◌, inl, inr, arith,
}
use kubeclaw.Agent.{
  AgentPhase, unset, pending, provisioning, running, idle, hibernating, hibernated, resuming,
  degraded, failed, terminating, AgentStatus, AgentCluster, same_phase,
}

-- the phases in which the controller makes and watches the Pod
abbrev pub is_awake : AgentPhase → Bool
is_awake unset = true
is_awake pending = true
is_awake provisioning = true
is_awake running = true
is_awake idle = true
is_awake resuming = true
is_awake failed = true
is_awake _ = false

-- the phases that wait for a ready Pod
abbrev pub is_starting : AgentPhase → Bool
is_starting pending = true
is_starting provisioning = true
is_starting resuming = true
is_starting failed = true
is_starting _ = false

abbrev pub entered : AgentPhase → AgentPhase
entered unset = pending
entered p = p

-- One row of the table of docs/src/controller/agent-lifecycle.md, from phase `p` to `q`; `heard` is
-- whether the gateways are asked for activity.
pub data Step (heard : Bool) (p q : AgentPhase) : Type 0 where
  provisions : p ≡ pending → q ≡ provisioning → Step heard p q
  begins : p ≡ provisioning → q ≡ running → Step heard p q
  idles : heard ≡ true → p ≡ running → q ≡ idle → Step heard p q
  stirs : heard ≡ true → p ≡ idle → q ≡ running → Step heard p q
  rests : heard ≡ true → p ≡ idle → q ≡ hibernating → Step heard p q
  sleeps : p ≡ hibernating → q ≡ hibernated → Step heard p q
  wakes : p ≡ hibernated → q ≡ resuming → Step heard p q
  resumes : p ≡ resuming → q ≡ running → Step heard p q
  replaces : (p ≡ running) ⊎ (p ≡ idle) → q ≡ provisioning → Step heard p q
  degrades : q ≡ degraded → Step heard p q
  fails : is_awake p ≡ true → q ≡ failed → Step heard p q
  ends : q ≡ terminating → Step heard p q

-- The moves of the code that have no row: a Pod that is ready in Pending, where an earlier pass could
-- not write its status; a woken agent whose Pod is not ready yet; and a failed agent whose Pod no
-- longer crashes.
pub data Extra (p q : AgentPhase) : Type 0 where
  begins_pending : p ≡ pending → q ≡ running → Extra p q
  resumes_slowly : p ≡ resuming → q ≡ provisioning → Extra p q
  heals : p ≡ failed → (q ≡ provisioning) ⊎ (q ≡ running) → Extra p q

-- What one pass makes of status `s`: phase `q` by one move at most, but for an agent that becomes
-- Running and, long silent, goes idle at once.
pub data Move (heard : Bool) (s : AgentStatus) (q : AgentPhase) : Type 0 where
  stays : q ≡ s.phase → Move heard s q
  opens : s.phase ≡ unset → q ≡ pending → Move heard s q
  steps : Step heard (entered s.phase) q → Move heard s q
  departs : Extra (entered s.phase) q → Move heard s q
  recovers : s.phase ≡ degraded → q ≡ entered s.pre_degraded → Move heard s q
  idles_at_once : heard ≡ true → is_starting (entered s.phase) ≡ true → q ≡ idle → Move heard s q

abbrev pub is_degraded : AgentPhase → Bool
is_degraded degraded = true
is_degraded _ = false

abbrev pub is_unset : AgentPhase → Bool
is_unset unset = true
is_unset _ = false

-- A degraded agent keeps a phase to go back to, and no other agent does.
abbrev pub sound : AgentPhase → AgentPhase → Bool
sound p pre = if is_degraded p then not (is_degraded pre) && not (is_unset pre) else is_unset pre

abbrev pub IsSound : AgentStatus → Type 0
IsSound s = sound s.phase s.pre_degraded ≡ true

abbrev pub Moved : Bool → AgentStatus → AgentStatus → Type 0
Moved heard s u = Move heard s u.phase × IsSound u
