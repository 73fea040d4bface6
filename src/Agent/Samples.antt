-- ===== src/Agent/Samples.antt =====
-- A concrete agent, and passes of the Agent controller on it.
use kubeclaw.Prelude.{ℕ, true, false, none, some, List, [], ◌∷◌, refl}
use kubeclaw.Api.{World}
use kubeclaw.Activity.{gateway_only}
use kubeclaw.AgentTask.{not_found}
use kubeclaw.AgentTask.Samples.{env_at}
use kubeclaw.Agent.{
  AgentPhase, unset, idle, hibernated, AgentStatus, Agent, AgentCluster, AgentEnv, Replica,
}
use kubeclaw.Agent.Checks.{Effective}
use kubeclaw.Agent.Idle.{evaluate_activity}
use kubeclaw.Agent.Pass.{reconcile_agent}
use kubeclaw.Agent.Silence.{Rests}
use kubeclaw.Agent.Rests.{evaluate_activity-Rests}
use kubeclaw.Agent.Moves.{Moved}
use kubeclaw.Agent.Moves.Refine.{reconcile_agent-Moved}
use kubeclaw.Prelude.{arith}
use kubeclaw.Agent.Wake.{Waking, reconcile_agent-Waking}

abbrev helper : Agent
helper = record {
  name = "helper";
  namespace = "team";
  uid = 3;
  generation = 1;
  class_ref = "small";
  image = "agent:1";
  providers = [];
  tools = [];
  persistence = true;
  existing_claim = "";
  handler = none;
  service = none;
  idle_timeout = 600;
  hibernation_delay = 60;
  hibernation_enabled = true;
  activity_source = gateway_only;
}

abbrev status_of : AgentPhase → AgentStatus
status_of phase = record {
  observed_generation = 1;
  phase = phase;
  ready = none;
  budget_exhausted = [];
  gateway_reachable = none;
  endpoint = none;
  pod_name = "";
  pvc_name = "helper-memory";
  last_activity = some 5000000000;
  phase_transition = some 6000000000;
  hibernated_at = none;
  pre_degraded = unset;
}

abbrev sleeping_cluster : AgentCluster
sleeping_cluster = record {
  status = status_of hibernated;
  exists = true;
  deleting = false;
  finalizer = true;
  wake = true;
  pods = [];
  certificate = some true;
  service = none;
  pvc = some (3 ∷ []);
  children = [];
  fresh = 1;
}

abbrev agent_env : ℕ → AgentEnv
agent_env now = record {
  shared = env_at now;
  agent_class = λ _. not_found;
  blocked_namespaces = λ _. [];
  claim = λ _. not_found;
  config_map = λ _. not_found;
  activity = none;
  pod_spec_hash = λ _ _. "h";
}

-- the second call, which writes the status, succeeds, and the third fails
abbrev waking_world : World AgentCluster
waking_world = record { state = sleeping_cluster; faults = false ∷ false ∷ true ∷ [] }

reconcile_agent-Waking_example :
    Waking 9000000000 sleeping_cluster.status
      (reconcile_agent (agent_env 9000000000) helper waking_world).0.state
reconcile_agent-Waking_example =
    reconcile_agent-Waking (agent_env 9000000000) helper waking_world refl refl refl refl refl

abbrev helper_spec : Effective
helper_spec = record {
  image = "agent:1";
  pull_secrets = [];
  persistence_on = true;
  existing_claim = "";
  handler_config_map = "";
  service_enabled = true;
  service_port = 8080;
  idle_timeout = 600;
  hibernation_delay = 60;
  hibernation_enabled = true;
  activity_source = gateway_only;
}

abbrev one_replica : List Replica
one_replica = record { started_at = 0; agents = [] } ∷ []

evaluate_activity-Rests_example :
    Rests 9000000000 "helper" helper_spec one_replica
      (status_of idle)
      (evaluate_activity 9000000000 "helper" helper_spec (some (one_replica, 1)) (status_of idle)).0
evaluate_activity-Rests_example =
    evaluate_activity-Rests 9000000000 "helper" helper_spec (some (one_replica, 1)) (status_of idle)

reconcile_agent-Moved_example :
    Moved false sleeping_cluster.status
      (reconcile_agent (agent_env 9000000000) helper waking_world).0.state.status
reconcile_agent-Moved_example =
    reconcile_agent-Moved (agent_env 9000000000) helper waking_world refl (λ h. ground arith)
