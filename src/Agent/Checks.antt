-- ===== src/Agent/Checks.antt =====
-- deriveEffectiveSpec of internal/controller/agent_desired.go, and degradedReasons,
-- reconcileBudgetCondition and the loops over Pods of internal/controller/agent_controller.go.
use kubeclaw.Prelude.{
  ℕ, String, Bool, true, not, ◌&&◌, ◌||◌, Option, none, some, List, [], ◌∷◌, ◌++◌, str_eq, ltb, leb,
  ◌==◌, is_some, if◌then◌else◌,
}
use kubeclaw.Activity.{Source}
use kubeclaw.AgentTask.{Class, Env}
use kubeclaw.AgentTask.Checks.{
  image_allowed, has, provider_violation, tool_grant_violations, is_ready_in,
}
use kubeclaw.Agent.{Agent, AgentClass, AgentPod, Container, AgentEnv, AgentStatus}

abbrev pub default_health_port : ℕ
default_health_port = 8080

-- effectiveAgentSpec, as far as the state machine reads it
pub record Effective : Type 0 where
  pub image : String
  pub pull_secrets : List String
  pub persistence_on : Bool
  pub existing_claim : String
  pub handler_config_map : String
  pub service_enabled : Bool
  pub service_port : ℕ
  pub idle_timeout : ℕ
  pub hibernation_delay : ℕ
  pub hibernation_enabled : Bool
  pub activity_source : Source

-- an agent's value, defaulted from the class and capped by it
unfoldable pub pick : ℕ → ℕ → ℕ → ℕ
pick v default max =
    let v₁ = if v == 0 then default else v in if ltb 0 max && ltb max v₁ then max else v₁

abbrev pub or_blank : Option String → String
or_blank none = ""
or_blank (some s) = s

abbrev pub service_of : Option (Bool × ℕ) → Bool × ℕ
service_of none = (true, 0)
service_of (some s) = s

unfoldable pub derive_effective_spec : Agent → AgentClass → Effective
unfolding pick
derive_effective_spec a c = record {
  image = if str_eq a.image "" then c.common.default_image else a.image;
  pull_secrets = c.common.pull_secrets;
  persistence_on = a.persistence;
  existing_claim = a.existing_claim;
  handler_config_map = or_blank a.handler;
  service_enabled = (service_of a.service).0;
  service_port =
      if (service_of a.service).1 == 0 then default_health_port else (service_of a.service).1;
  idle_timeout = pick a.idle_timeout c.default_idle_timeout c.max_idle_timeout;
  hibernation_delay = pick a.hibernation_delay c.default_hibernation_delay c.max_hibernation_delay;
  hibernation_enabled = a.hibernation_enabled;
  activity_source = a.activity_source;
}

abbrev pub reason_if : Bool → String → List String
reason_if bad reason = if bad then reason ∷ [] else []

-- rules 4 and 5
unfoldable pub provider_reasons : Env → String → Class → List String → List String
unfolding provider_violation
provider_reasons e ns c [] = []
provider_reasons e ns c (name ∷ names) =
    let rest = provider_reasons e ns c names in
    elim (provider_violation e ns c name) [ none ↦ rest | some reason ↦ reason ∷ rest ]

-- degradedReasons
unfoldable pub degraded_reasons : AgentEnv → Agent → AgentClass → Effective → List String
unfolding image_allowed provider_reasons tool_grant_violations
degraded_reasons e a c eff =
    reason_if
      (not (str_eq eff.image "")
        && not (image_allowed e.shared.glob eff.image c.common.allowed_images))
      "ClassConstraintViolation"
    ++ provider_reasons e.shared a.namespace c.common a.providers
    ++ tool_grant_violations e.shared a.namespace c.common a.tools
    ++ reason_if (a.persistence && not c.common.persistence) "PersistenceNotAllowed"
    ++ reason_if (a.hibernation_enabled && not c.hibernation_allowed) "HibernationNotAllowed"
    ++ reason_if (a.hibernation_enabled && not a.persistence) "HibernationRequiresPersistence"
    ++ reason_if (is_some a.handler && not c.allow_handler_mounts) "HandlerMountNotAllowed"

-- the providers on which the budget of the namespace is exhausted
unfoldable pub blocking : AgentEnv → String → List String → List String
blocking e ns [] = []
blocking e ns (p ∷ ps) =
    let rest = blocking e ns ps in if has (e.blocked_namespaces p) ns then p ∷ rest else rest

-- reconcileBudgetCondition
unfoldable pub reconcile_budget_condition : AgentEnv → Agent → AgentStatus → AgentStatus
unfolding blocking
reconcile_budget_condition e a s = record s {
  budget_exhausted = blocking e a.namespace a.providers;
}

-- the loop of ownedPod: the first Pod that is not being deleted, else the last that is
unfoldable pub owned_agent_pod : Option AgentPod → List AgentPod → Option AgentPod
owned_agent_pod candidate [] = candidate
owned_agent_pod candidate (p ∷ ps) =
    let other = owned_agent_pod candidate ps in
    let deleted = owned_agent_pod (some p) ps in
    if not p.controlled then other else if p.deleting then deleted else some p

unfoldable pub agent_pod_ready : AgentPod → Bool
unfolding is_ready_in
agent_pod_ready p = is_ready_in p.conditions

abbrev pub crash_loop_threshold : ℕ
crash_loop_threshold = 5

-- the first container in a persistent crash loop, by its reason
unfoldable pub crash_loop : List Container → Option String
crash_loop [] = none
crash_loop (k ∷ ks) =
    let rest = crash_loop ks in
    elim k.waiting [
      | none ↦ rest
      | some reason ↦
          if str_eq reason "CrashLoopBackOff" && leb crash_loop_threshold k.restarts
            || str_eq reason "ImagePullBackOff"
          then some reason
          else rest
    ]
