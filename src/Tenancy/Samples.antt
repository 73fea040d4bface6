-- ===== src/Tenancy/Samples.antt =====
-- A store with one agent and one provider, and names in bytes: the theorems at inputs that meet
-- their hypotheses.
use kubeclaw.Prelude.{
  ℕ, List, ◌≡◌, ◌↔◌, refl, String, true, false, none, some, [], ◌∷◌, str_eq, if◌then◌else◌,
}
use kubeclaw.Budget.Config.{Provider}
use kubeclaw.Budget.Samples.{provider}
use kubeclaw.Tenancy.{Glob, namespace_allowed}
use kubeclaw.Tenancy.Qualified.{split_qualified_model, index_of_slash, cut}
use kubeclaw.Tenancy.Routing.{
  Caller, Store, granted, agent, authorize_route, permits, authorize_route_grants,
  authorize_route_conceals,
}

abbrev name_a : List ℕ
name_a = 97 ∷ []

abbrev name_b : List ℕ
name_b = 98 ∷ []

abbrev qualified : List ℕ
qualified = 97 ∷ 47 ∷ 98 ∷ []

split_two : split_qualified_model qualified ≡ some (name_a, name_b)
unfolding split_qualified_model index_of_slash cut
split_two = refl

-- exact names alone
abbrev exact : Glob
exact pattern name = some (str_eq pattern name)

abbrev team_provider : Provider
team_provider = record provider { allowed_namespaces = "team" ∷ [] }

abbrev store : Store
store = record {
  agent_by_name = λ ns name.
      if str_eq name "a"
      then some (record { providers = "acme" ∷ []; class_ref = "std" })
      else none;
  task_by_name = λ ns name. none;
  class_by_name = λ name. some ("acme" ∷ []);
  provider_by_name = λ name. if str_eq name "acme" then some team_provider else none;
}

abbrev caller_in : String → Caller
caller_in ns = record { namespace = ns; workload = some (record { kind = agent; name = "a" }) }

authorize_route_grants_example :
    (authorize_route store exact (caller_in "team") "acme" "m" ≡ granted team_provider)
    ↔ (permits store exact (caller_in "team") "acme" "m" team_provider ≡ true)
authorize_route_grants_example =
    authorize_route_grants store exact (caller_in "team") "acme" "m" team_provider refl

other_refused : namespace_allowed exact "other" ("team" ∷ []) ≡ false
unfolding namespace_allowed
other_refused = refl

authorize_route_conceals_example :
    let changed : Store = record store {
      provider_by_name = λ n.
          if str_eq n "acme"
          then some (record team_provider { models = [] })
          else store.provider_by_name n;
    } in
    authorize_route changed exact (caller_in "other") "acme" "x"
    ≡ authorize_route store exact (caller_in "other") "acme" "m"
authorize_route_conceals_example =
    authorize_route_conceals store exact (caller_in "other") "acme" "m" "x" team_provider [] refl
      other_refused
