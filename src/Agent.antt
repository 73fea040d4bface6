-- ===== src/Agent.antt =====
-- The Agent controller: the objects that the passes of internal/controller/agent_controller.go read
-- and write, of api/v1beta1/agent_types.go. A time and a duration are numbers of nanoseconds.
pub mod Checks
pub mod Idle
pub mod Converge
pub mod Pass
mod Phases
pub mod Wake
pub mod Silence
pub mod Rests
pub mod Moves
mod Samples
use Prim.Native.String.{◌++◌}
use kubeclaw.Prelude.{
  ℕ, ◌*◌, ◌/◌, String, Bool, true, false, Option, none, some, List, [], ◌∷◌, ◌==◌, if◌then◌else◌,
}
use kubeclaw.Prelude.Maps.{Map}
use kubeclaw.Activity.{AgentActivity, Source}
use kubeclaw.AgentTask.{Class, Env, ToolGrant, PodPhase, Got}

pub data AgentPhase : Type 0 where
  unset pending provisioning running idle hibernating hibernated resuming : AgentPhase
  degraded failed terminating : AgentPhase

-- AgentStatus; a condition is its status and its reason, ConditionDegraded the blocking providers
pub record AgentStatus : Type 0 where
  pub observed_generation : ℕ
  pub phase : AgentPhase
  pub ready : Option (Bool × String)
  pub budget_exhausted : List String
  pub gateway_reachable : Option Bool
  pub endpoint : Option (String × String × ℕ)  -- the name, the namespace and the port in the URL
  pub pod_name : String
  pub pvc_name : String
  pub last_activity : Option ℕ
  pub phase_transition : Option ℕ
  pub hibernated_at : Option ℕ
  pub pre_degraded : AgentPhase

-- the name and the spec of an Agent
pub record Agent : Type 0 where
  pub name : String
  pub namespace : String
  pub uid : ℕ
  pub generation : ℕ
  pub class_ref : String
  pub image : String
  pub providers : List String
  pub tools : List ToolGrant
  pub persistence : Bool
  pub existing_claim : String
  pub handler : Option String
  pub service : Option (Bool × ℕ)
  pub idle_timeout : ℕ
  pub hibernation_delay : ℕ
  pub hibernation_enabled : Bool
  pub activity_source : Source

-- an AgentClass, `common` what a task reads of it too
pub record AgentClass : Type 0 where
  pub common : Class
  pub hibernation_allowed : Bool
  pub allow_handler_mounts : Bool
  pub default_idle_timeout : ℕ
  pub max_idle_timeout : ℕ
  pub default_hibernation_delay : ℕ
  pub max_hibernation_delay : ℕ
  pub pvc_retention : String

pub record Container : Type 0 where
  pub waiting : Option String
  pub restarts : ℕ

pub record AgentPod : Type 0 where
  pub uid : ℕ
  pub controlled : Bool  -- IsControlledBy(p, agent)
  pub deleting : Bool
  pub phase : PodPhase
  pub conditions : List (String × Bool)
  pub containers : List Container
  pub spec_hash : String

pub data AgentChild : Type 0 where
  service_account network_policy : AgentChild

-- The agent's objects in the cluster. A Certificate is whether it is ready, a Service its ports with
-- their targets, the PVC the UIDs of its owners.
pub record AgentCluster : Type 0 where
  pub status : AgentStatus
  pub exists : Bool
  pub deleting : Bool
  pub finalizer : Bool
  pub wake : Bool  -- the annotation
  pub pods : List AgentPod
  pub certificate : Option Bool
  pub service : Option (List (ℕ × ℕ))
  pub pvc : Option (List ℕ)
  pub children : List AgentChild
  pub fresh : ℕ

pub record Replica : Type 0 where
  pub started_at : ℕ
  pub agents : Map AgentActivity

-- the clock, the other objects that a pass reads, the activity that the gateways report (none for
-- an error) and podSpecHash; `shared` is what the pass of a task reads too
pub record AgentEnv : Type 0 where
  pub shared : Env
  pub agent_class : String → Got AgentClass
  pub blocked_namespaces : String → List String
  pub claim : String → Got (Unit {0})
  pub config_map : String → Got (Unit {0})
  pub activity : Option (Option (List Replica × ℕ))
  pub pod_spec_hash : Agent → AgentClass → String

-- what the API server keeps of a time
abbrev pub to_seconds : ℕ → ℕ
to_seconds t = t / 1000000000 * 1000000000

abbrev pub kept_time : Option ℕ → Option ℕ
kept_time none = none
kept_time (some t) = some (to_seconds t)

abbrev pub stored : AgentStatus → AgentStatus
stored s = record s {
  last_activity = kept_time s.last_activity;
  phase_transition = kept_time s.phase_transition;
  hibernated_at = kept_time s.hibernated_at;
}

abbrev pub phase_index : AgentPhase → ℕ
phase_index unset = 0
phase_index pending = 1
phase_index provisioning = 2
phase_index running = 3
phase_index idle = 4
phase_index hibernating = 5
phase_index hibernated = 6
phase_index resuming = 7
phase_index degraded = 8
phase_index failed = 9
phase_index terminating = 10

unfoldable pub same_phase : AgentPhase → AgentPhase → Bool
same_phase p q = phase_index p == phase_index q

-- agentPVCName
abbrev pub agent_pvc_name : String → String
agent_pvc_name name = name ++ "-memory"

-- setPhase
unfoldable pub set_phase : ℕ → AgentPhase → AgentStatus → AgentStatus
unfolding same_phase
set_phase now p s =
    if same_phase s.phase p then s else record s { phase = p; phase_transition = some now }

-- setReady
abbrev pub set_ready : Bool → String → AgentStatus → AgentStatus
set_ready ok reason s = record s { ready = some (ok, reason) }
