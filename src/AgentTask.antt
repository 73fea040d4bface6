-- ===== src/AgentTask.antt =====
-- The AgentTask controller: the objects of api/v1beta1/agenttask_types.go that it reads and writes,
-- as a state that the passes of internal/controller/agenttask_controller.go change.
pub mod Checks
pub mod Drive
pub mod Provision
pub mod Reconcile
pub mod Lifecycle
pub mod Refine
pub mod Runs
pub mod Faultless
pub mod Outcomes
pub mod Reported
pub mod Stale
pub mod Samples
use kubeclaw.Prelude.{ℕ, String, Bool, true, false, Option, none, some, List, [], ◌∷◌, str_eq, not}
use kubeclaw.Prelude.Maps.{Map}

pub data Phase : Type 0 where
  unset pending provisioning running completing succeeded failed timed_out terminating : Phase

-- AgentTaskStatus; a condition is its status and its reason
pub record TaskStatus : Type 0 where
  pub observed_generation : ℕ
  pub phase : Phase
  pub ready : Option (Bool × String)
  pub completed : Option (Bool × String)
  pub start_time : Option ℕ
  pub completion_time : Option ℕ
  pub pod_name : String
  pub current_pod_uid : Option ℕ  -- none for ""
  pub retries : ℕ
  pub artifact_values : Map String
  pub reported_status : String
  pub reported_message : String

pub record ToolGrant : Type 0 where
  pub provider : String
  pub tools : List String

-- the name and the spec of an AgentTask; a duration is a number of nanoseconds
pub record Task : Type 0 where
  pub name : String
  pub namespace : String
  pub generation : ℕ
  pub class_ref : String
  pub image : String
  pub providers : List String
  pub tools : List ToolGrant
  pub persistence : Bool
  pub condition : String
  pub timeout : ℕ
  pub on_timeout : String
  pub backoff_limit : ℕ
  pub artifacts : List String
  pub ttl_seconds : Option ℕ

-- what the controller reads of an AgentClass
pub record Class : Type 0 where
  pub allowed_images : List String
  pub default_image : String
  pub pull_secrets : List String
  pub allowed_providers : List String
  pub allowed_tool_providers : List String
  pub persistence : Bool

pub data PodPhase : Type 0 where
  pod_pending pod_running pod_succeeded pod_failed : PodPhase

pub record Pod : Type 0 where
  pub uid : ℕ
  pub name : String
  pub controlled : Bool  -- IsControlledBy(p, task)
  pub deleting : Bool  -- a deletion timestamp is set
  pub phase : PodPhase
  pub conditions : List (String × Bool)
  pub waiting : List (Option String)  -- of each container
  pub created : ℕ

pub data Child : Type 0 where
  service_account pvc network_policy completion_role completion_role_binding : Child

-- The task's objects in the cluster. The mailbox is the data of its ConfigMap; a Certificate is
-- whether it is ready; a Pod that is created gets the UID `fresh`.
pub record Cluster : Type 0 where
  pub status : TaskStatus
  pub exists : Bool
  pub deleting : Bool
  pub finalizer : Bool
  pub pods : List Pod
  pub mailbox : Option (Map String)
  pub certificate : Option Bool
  pub children : List Child
  pub fresh : ℕ

-- the answer of a Get: the object, NotFound, or another error
pub data Got (A : Type 0) : Type 0 where
  got : A → Got A
  not_found get_error : Got A

pub record ToolProvider : Type 0 where
  pub allowed_namespaces : List String
  pub catalog : List String

-- the clock, path.Match, and the other objects that a pass reads
pub record Env : Type 0 where
  pub now : ℕ
  pub operator_namespace : String
  pub glob : String → String → Option Bool
  pub class_of : String → Got Class
  pub provider_namespaces : String → Got (List String)
  pub tool_provider : String → Got ToolProvider
  pub secret : String → Got (Unit {0})

pub data Requeue : Type 0 where
  finish again : Requeue
  later : ℕ → Requeue

unfoldable pub is_agent_reported : Task → Bool
is_agent_reported t = not (str_eq t.condition "exitCode")
