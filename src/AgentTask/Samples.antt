-- ===== src/AgentTask/Samples.antt =====
-- A concrete task with its cluster, and runs of the AgentTask controller on it.
use kubeclaw.Prelude.{
  ℕ, String, Bool, true, false, Option, none, some, List, [], ◌∷◌, ◌≡◌, refl, inl, inr, arith,
}
use kubeclaw.Prelude.Maps.{Map, lookup}
use kubeclaw.AgentTask.{
  Task, Class, Pod, pod_running, Env, TaskStatus, Cluster, Phase, provisioning, running, succeeded,
  failed, got, not_found, is_agent_reported,
}
use kubeclaw.AgentTask.Checks.{pod_ready, parse_completion}
use kubeclaw.AgentTask.Drive.{owned_pod, payload_of}
use kubeclaw.AgentTask.Reconcile.{reconcile}
use kubeclaw.AgentTask.Lifecycle.{IsValid, Stays}
use kubeclaw.AgentTask.Runs.{Run, Run-IsValid, Run-Stays}
use kubeclaw.AgentTask.Faultless.{calm}
use kubeclaw.AgentTask.Outcomes.{Driven}
use kubeclaw.AgentTask.Reported.{reconcile_reported, verdict}
use kubeclaw.AgentTask.Stale.{Admits, after_calm, reconcile_stale, reconcile_interrupted}

abbrev pub report_task : Task
report_task = record {
  name = "nightly";
  namespace = "team";
  generation = 1;
  class_ref = "small";
  image = "agent:1";
  providers = [];
  tools = [];
  persistence = false;
  condition = "agentReported";
  timeout = 60000000000;
  on_timeout = "Fail";
  backoff_limit = 2;
  artifacts = "summary" ∷ [];
  ttl_seconds = some 60;
}

abbrev small : Class
small = record {
  allowed_images = [];
  default_image = "";
  pull_secrets = [];
  allowed_providers = [];
  allowed_tool_providers = [];
  persistence = false;
}

abbrev pub env_at : ℕ → Env
env_at now = record {
  now = now;
  operator_namespace = "kaalm-system";
  glob = λ _ _. some true;
  class_of = λ _. got small;
  provider_namespaces = λ _. not_found;
  tool_provider = λ _. not_found;
  secret = λ _. not_found;
}

abbrev status_in : Phase → ℕ → Option ℕ → Option ℕ → TaskStatus
status_in phase retries uid finished = record {
  observed_generation = 1;
  phase = phase;
  ready = none;
  completed = none;
  start_time = some 100;
  completion_time = finished;
  pod_name = "nightly";
  current_pod_uid = uid;
  retries = retries;
  artifact_values = [];
  reported_status = "";
  reported_message = "";
}

abbrev pub ready_pod : Bool → Pod
ready_pod deleting = record {
  uid = 7;
  name = "nightly";
  controlled = true;
  deleting = deleting;
  phase = pod_running;
  conditions = ("Ready", true) ∷ [];
  waiting = [];
  created = 50;
}

abbrev success_report : Map String
success_report = ("artifact.summary", "done") ∷ ("status", "success") ∷ []

abbrev cluster_in : TaskStatus → List Pod → Option (Map String) → Cluster
cluster_in s pods mailbox = record {
  status = s;
  exists = true;
  deleting = false;
  finalizer = true;
  pods = pods;
  mailbox = mailbox;
  certificate = some true;
  children = [];
  fresh = 8;
}

running_status-IsValid : IsValid report_task (status_in running 0 (some 7) none)
running_status-IsValid = record { bounded = omega arith; ended = inl refl; dated = inl refl }

done_status-IsValid : IsValid report_task (status_in succeeded 1 (some 7) (some 900))
done_status-IsValid = record { bounded = omega arith; ended = inr (inl refl); dated = inr refl }

abbrev pub reported_cluster : Cluster
reported_cluster =
    cluster_in (status_in running 0 (some 7) none) (ready_pod false ∷ []) (some success_report)

abbrev after_pass : Cluster
after_pass =
    (reconcile (env_at 200) report_task (record { state = reported_cluster; faults = [] })).0.state

Run-IsValid_example : IsValid report_task after_pass.status
Run-IsValid_example =
    Run-IsValid report_task reported_cluster after_pass running_status-IsValid
      (Run.pass (env_at 200) [] Run.start)

abbrev done_cluster : Cluster
done_cluster = cluster_in (status_in succeeded 1 (some 7) (some 900)) [] (some success_report)

abbrev expired_cluster : Cluster
expired_cluster =
    (reconcile (env_at 90000000000) report_task
      (record { state = done_cluster; faults = [] })).0.state

Run-Stays_example : Stays done_cluster.status expired_cluster.status
Run-Stays_example =
    Run-Stays report_task done_cluster expired_cluster done_status-IsValid refl refl
      (Run.pass (env_at 90000000000) [] Run.start)

pub reported-Driven : Driven (env_at 200) report_task reported_cluster (some (ready_pod false))
unfolding owned_pod
reported-Driven = record {
  class = small;
  present = refl;
  kept = refl;
  marked = refl;
  alive = refl;
  foreign = refl;
  classed = refl;
  owned = refl;
  past = refl;
}

reconcile_reported_example :
    (reconcile (env_at 200) report_task (calm reported_cluster)).0.state.status.phase
    ≡ verdict report_task reported_cluster.status (payload_of reported_cluster.mailbox)
unfolding is_agent_reported parse_completion lookup
reconcile_reported_example =
    reconcile_reported (env_at 200) report_task reported_cluster (some (ready_pod false))
      reported-Driven (inl refl) refl refl

abbrev retried_cluster : Cluster
retried_cluster = cluster_in (status_in provisioning 1 none none) (ready_pod true ∷ []) (some [])

retried-Driven : Driven (env_at 200) report_task retried_cluster (some (ready_pod true))
unfolding owned_pod
retried-Driven = record {
  class = small;
  present = refl;
  kept = refl;
  marked = refl;
  alive = refl;
  foreign = refl;
  classed = refl;
  owned = refl;
  past = refl;
}

reconcile_stale_example :
    ((reconcile (env_at 200) report_task (calm retried_cluster)).0.state.status.current_pod_uid
      ≡ some 7)
    × ((reconcile (env_at 200) report_task (calm retried_cluster)).0.state.status.phase ≡ running)
unfolding is_agent_reported pod_ready
reconcile_stale_example =
    reconcile_stale (env_at 200) report_task retried_cluster (ready_pod true) retried-Driven refl
      refl refl refl refl

abbrev interrupted_cluster : Cluster
interrupted_cluster =
    cluster_in (status_in failed 1 none none) (ready_pod false ∷ []) (some success_report)

admitted : (now : ℕ) → Admits (env_at now) report_task
admitted now = record { class = small; foreign = refl; classed = refl }

reconcile_interrupted_example :
    (after_calm (env_at 202) report_task (
      after_calm
        (env_at 201)
        report_task
        (after_calm (env_at 200) report_task interrupted_cluster))).status.phase
    ≡ verdict report_task interrupted_cluster.status (payload_of interrupted_cluster.mailbox)
unfolding is_agent_reported parse_completion lookup owned_pod pod_ready
reconcile_interrupted_example =
    reconcile_interrupted (env_at 200) (env_at 201) (env_at 202) report_task interrupted_cluster
      (ready_pod false) refl refl refl refl refl refl (admitted 201) (admitted 202) refl refl refl
      refl
