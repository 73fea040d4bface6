-- ===== src/Tenancy/Routing.antt =====
-- The tenancy chain of a request: authorizeRoute, workloadProviders and containsProviderRef of
-- internal/gateway/routing.go. The informer cache's lookups are a record of functions.
use kubeclaw.Prelude.{
  ℕ, String, ◌≡◌, Bool, true, false, not, ◌&&◌, Option, none, some, List, ◌↔◌, any, str_eq,
  str_eq_refl, if◌then◌else◌, arith,
}
use kubeclaw.Budget.Config.{Provider, ModelPrice}
use kubeclaw.Tenancy.{Glob, namespace_allowed}

pub data WorkloadKind : Type 0 where
  agent agent_task : WorkloadKind

pub record Workload : Type 0 where
  pub kind : WorkloadKind
  pub name : String

pub record Caller : Type 0 where
  pub namespace : String
  pub workload : Option Workload  -- none for a gateway-only caller

-- what the chain reads of an Agent or an AgentTask
pub record WorkloadSpec : Type 0 where
  pub providers : List String
  pub class_ref : String

pub record Store : Type 0 where
  pub agent_by_name : String → String → Option WorkloadSpec
  pub task_by_name : String → String → Option WorkloadSpec
  pub class_by_name : String → Option (List String)  -- its allowedProviders
  pub provider_by_name : String → Option Provider

-- routeDenial, by its message
pub data RouteDenial : Type 0 where
  workload_not_found provider_not_in_spec class_not_found : RouteDenial
  provider_not_in_class unknown_provider namespace_denied model_not_offered : RouteDenial

unfoldable pub denial_status : RouteDenial → ℕ
denial_status unknown_provider = 400
denial_status model_not_offered = 400
denial_status _ = 403

unfoldable pub contains_provider_ref : List String → String → Bool
contains_provider_ref refs name = any (λ (r : String). str_eq r name) refs

unfoldable pub workload_providers : Store → String → Workload → Option WorkloadSpec
workload_providers s ns w = elim w.kind [
  | agent ↦ s.agent_by_name ns w.name
  | agent_task ↦ s.task_by_name ns w.name
]

-- the gates of a caller with a workload, none if they pass
unfoldable pub workload_gates : Store → String → Workload → String → Option RouteDenial
unfolding workload_providers contains_provider_ref
workload_gates s ns w name = elim (workload_providers s ns w) [
  | none ↦ some workload_not_found
  | some spec ↦
      if not (contains_provider_ref spec.providers name)
      then some provider_not_in_spec
      else elim (s.class_by_name spec.class_ref) [
        | none ↦ some class_not_found
        | some allowed ↦
            if contains_provider_ref allowed name then none else some provider_not_in_class
      ]
]

pub data Route : Type 0 where
  granted : Provider → Route
  denied : RouteDenial → Route

-- the provider's own checks, the namespace's before the model's
unfoldable pub provider_gates : Store → Glob → String → String → String → Route
provider_gates s glob ns name model = elim (s.provider_by_name name) [
  | none ↦ denied unknown_provider
  | some p ↦
      if not (namespace_allowed glob ns p.allowed_namespaces)
      then denied namespace_denied
      else if any (λ (m : ModelPrice). str_eq m.id model) p.models
      then granted p
      else denied model_not_offered
]

unfoldable pub authorize_route : Store → Glob → Caller → String → String → Route
unfolding workload_gates provider_gates
authorize_route s glob c name model =
    let gates : Option RouteDenial = elim c.workload [
      | none ↦ none
      | some w ↦ workload_gates s c.namespace w name
    ] in
    elim gates [ some d ↦ denied d | none ↦ provider_gates s glob c.namespace name model ]

-- The whole permission, as one condition: the workload lists the provider, its class allows it,
-- the provider allows the namespace and offers the model.
abbrev pub spec_permits : Store → String → Option WorkloadSpec → Bool
spec_permits s name none = false
spec_permits s name (some spec) =
    any (λ (r : String). str_eq r name) spec.providers && elim (s.class_by_name spec.class_ref) [
      | none ↦ false
      | some allowed ↦ any (λ (r : String). str_eq r name) allowed
    ]

abbrev pub workload_permits : Store → Caller → String → Bool
workload_permits s c name = elim c.workload [
  | none ↦ true
  | some w ↦ spec_permits s name (elim w.kind [
    | agent ↦ s.agent_by_name c.namespace w.name
    | agent_task ↦ s.task_by_name c.namespace w.name
  ])
]

abbrev pub permits : Store → Glob → Caller → String → String → Provider → Bool
permits s glob c name model p =
    workload_permits s c name
    && (namespace_allowed glob c.namespace p.allowed_namespaces
        && any (λ (m : ModelPrice). str_eq m.id model) p.models)

-- A request for a provider that exists is granted, with that provider, exactly if the workload,
-- its class, the provider's namespaces and its models all permit it.
pub authorize_route_grants :
    (s : Store) (glob : Glob) (c : Caller) (name model : String) (p : Provider)
    → s.provider_by_name name ≡ some p
    → (authorize_route s glob c name model ≡ granted p) ↔ (permits s glob c name model p ≡ true)
unfolding authorize_route workload_gates workload_providers contains_provider_ref provider_gates
authorize_route_grants s glob c name model p found = ground (arith, found)

-- A namespace that a provider does not allow gets the same answer whatever models the provider
-- has and whichever of them it asks for.
pub authorize_route_conceals :
    (s : Store) (glob : Glob) (c : Caller) (name model other_model : String) (p : Provider)
    (models : List ModelPrice)
    → s.provider_by_name name ≡ some p
    → namespace_allowed glob c.namespace p.allowed_namespaces ≡ false
    → let changed : Store = record s {
      provider_by_name =
          λ n. if str_eq n name then some (record p { models = models }) else s.provider_by_name n;
    } in
      authorize_route changed glob c name other_model ≡ authorize_route s glob c name model
unfolding authorize_route workload_gates workload_providers contains_provider_ref provider_gates
authorize_route_conceals s glob c name model other_model p models found refused =
    ground (arith, found, refused, str_eq_refl name)
