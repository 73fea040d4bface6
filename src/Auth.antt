-- ===== src/Auth.antt =====
-- Who calls the gateway: internal/gateway/identity.go, tokenauth.go and auth.go. A DNS name, a
-- token and a username are the lists of their parts at the dots and colons; times are nanoseconds.
pub mod Cache
pub mod Modes
mod Samples
use kubeclaw.Prelude.{
  ℕ, ◌+◌, ◌-◌, ◌*◌, String, Bool, true, false, not, ◌&&◌, ◌||◌, Option, none, some, List, [], ◌∷◌,
  str_eq, ltb, ◌==◌, if◌then◌else◌,
}
use kubeclaw.Prelude.Maps.{Map, lookup, insert}
use kubeclaw.Tenancy.Routing.{WorkloadKind, agent, agent_task}

pub record Identity : Type 0 where
  pub namespace : String
  pub name : String
  pub kind : WorkloadKind

unfoldable pub same_labels : List String → List String → Bool
same_labels [] [] = true
same_labels (a ∷ ls) (b ∷ ms) = let rest = same_labels ls ms in if str_eq a b then rest else false
same_labels _ _ = false

-- strings.HasSuffix(san, "."+suffix)
unfoldable pub under_suffix : List String → List String → Bool
unfolding same_labels
under_suffix suffix [] = false
under_suffix suffix (l ∷ ls) =
    let rest = under_suffix suffix ls in if same_labels suffix ls then true else rest

abbrev pub agent_suffix : List String
agent_suffix = "svc" ∷ "cluster" ∷ "local" ∷ []

abbrev pub task_suffix : List String
task_suffix = "task" ∷ "kaalm" ∷ "io" ∷ []

-- a recognized name with five labels
unfoldable pub five_labels : WorkloadKind → List String → Option Identity
five_labels k (name ∷ ns ∷ _ ∷ _ ∷ _ ∷ []) = some (record { namespace = ns; name = name; kind = k })
five_labels k _ = none

pub data San : Type 0 where
  ignored bad_count : San
  matched : Identity → San

abbrev pub counted : Option Identity → San
counted none = bad_count
counted (some i) = matched i

-- the switch on one name
unfoldable pub recognize : List String → San
unfolding under_suffix five_labels
recognize san =
    if under_suffix agent_suffix san
    then counted (five_labels agent san)
    else if under_suffix task_suffix san
    then counted (five_labels agent_task san)
    else ignored

-- the loop over the names: those that match, and whether one has a bad count
unfoldable pub scan : List (List String) → List Identity × Bool
unfolding recognize
scan [] = ([], false)
scan (san ∷ sans) =
    let (found, bad) = scan sans in
    elim (recognize san) [
      | ignored ↦ (found, bad)
      | bad_count ↦ (found, true)
      | matched i ↦ (i ∷ found, bad)
    ]

-- ParseWorkloadSAN, none for an error
unfoldable pub parse_workload_san : List (List String) → Option Identity
unfolding scan
parse_workload_san sans = elim (scan sans).0 [
  | [] ↦ none
  | i ∷ more ↦ elim more [ [] ↦ some i | _ ∷ _ ↦ none ]
]

abbrev pub second : ℕ
second = 1000000000

abbrev pub token_cache_max_ttl : ℕ
token_cache_max_ttl = 300 * second

abbrev pub token_cache_safety_margin : ℕ
token_cache_safety_margin = 60 * second

-- jwtExpiry; `claim` is base64 and JSON, the exp claim of a payload, not negative
unfoldable pub jwt_expiry : (String → Option ℕ) → List String → Option ℕ
jwt_expiry claim (header ∷ payload ∷ signature ∷ []) = elim (claim payload) [
  | none ↦ none
  | some exp ↦ if exp == 0 then none else some (exp * second)
]
jwt_expiry claim _ = none

-- cacheTTL; a negative remainder is 0
unfoldable pub cache_ttl : Option ℕ → ℕ → ℕ
cache_ttl none now = token_cache_max_ttl
cache_ttl (some exp) now =
    let ttl = exp - now - token_cache_safety_margin in
    if ltb token_cache_max_ttl ttl then token_cache_max_ttl else ttl

-- namespaceFromUsername
unfoldable pub namespace_from_username : List String → Option String
namespace_from_username (a ∷ b ∷ ns ∷ name ∷ []) =
    if str_eq a "system" && str_eq b "serviceaccount" && not (str_eq ns "") then some ns else none
namespace_from_username _ = none

pub record CacheEntry : Type 0 where
  pub namespace : String
  pub expires : ℕ

-- the answer of a TokenReview: an error, no, or the username
pub data Reviewed : Type 0 where
  review_error unauthenticated : Reviewed
  username : List String → Reviewed

pub data TokenAnswer : Type 0 where
  unreachable rejected : TokenAnswer
  namespace_is : String → TokenAnswer

-- what Authenticate uses: SHA-256, the payload of a JWT, and the TokenReview
pub record Tokens : Type 0 where
  pub digest : List String → String
  pub claim : String → Option ℕ
  pub review : List String → Reviewed

unfoldable pub fresh_entry : ℕ → Option CacheEntry → Option String
fresh_entry now none = none
fresh_entry now (some x) = if ltb now x.expires then some x.namespace else none

-- Authenticate after a miss; `now` is the clock at the store
unfoldable pub review_token :
    Tokens → ℕ → List String → Map CacheEntry → TokenAnswer × Map CacheEntry
unfolding jwt_expiry cache_ttl namespace_from_username
review_token k now token cache = elim (k.review token) [
  | review_error ↦ (unreachable, cache)
  | unauthenticated ↦ (rejected, cache)
  | username parts ↦ elim (namespace_from_username parts) [
    | none ↦ (rejected, cache)
    | some ns ↦ (
      namespace_is ns,
      insert (k.digest token)
          (record { namespace = ns; expires = now + cache_ttl (jwt_expiry k.claim token) now })
          cache,
    )
  ]
]

-- Authenticate, with the clock at the lookup and at the store
unfoldable pub authenticate :
    Tokens → ℕ → ℕ → List String → Map CacheEntry → TokenAnswer × Map CacheEntry
unfolding fresh_entry review_token
authenticate k before now token cache = elim (fresh_entry before (lookup (k.digest token) cache)) [
  | some ns ↦ (namespace_is ns, cache)
  | none ↦ review_token k now token cache
]

-- the Pod at an address: its namespace and isKaalmManagedPod
pub record PodAt : Type 0 where
  pub namespace : String
  pub managed : Bool

-- one request: the names of its client certificate, its bearer token, and the Pod at its address
-- in the cache, the same at each look
pub record Inbound : Type 0 where
  pub peer : Option (List (List String))
  pub bearer : Option (List String)
  pub pod : Option PodAt
  pub disable_source_ip_check : Bool

pub data AuthAnswer : Type 0 where
  caller : String → Option Identity → AuthAnswer
  unauthorized forbidden token_review_unavailable : AuthAnswer

abbrev pub in_namespace : Option PodAt → String → Bool
in_namespace none ns = false
in_namespace (some p) ns = str_eq p.namespace ns

-- crossCheck
unfoldable pub cross_check : Inbound → String → Bool
cross_check r ns = r.disable_source_ip_check || in_namespace r.pod ns

abbrev pub is_managed : Option PodAt → Bool
is_managed none = false
is_managed (some p) = p.managed

unfoldable pub with_certificate : Inbound → List (List String) → AuthAnswer
unfolding parse_workload_san cross_check
with_certificate r sans = elim (parse_workload_san sans) [
  | none ↦ forbidden
  | some i ↦ if cross_check r i.namespace then caller i.namespace (some i) else unauthorized
]

unfoldable pub with_token : Inbound → TokenAnswer → AuthAnswer
unfolding cross_check
with_token r answer = elim answer [
  | unreachable ↦ token_review_unavailable
  | rejected ↦ unauthorized
  | namespace_is ns ↦ if cross_check r ns then caller ns none else unauthorized
]

-- DualModePaths
unfoldable pub dual_mode : (List String → TokenAnswer) → Inbound → AuthAnswer
unfolding with_certificate with_token
dual_mode answer r = elim r.peer [
  | some sans ↦ with_certificate r sans
  | none ↦ elim r.bearer [
    | none ↦ unauthorized
    | some token ↦
        if not r.disable_source_ip_check && is_managed r.pod
        then unauthorized
        else with_token r (answer token)
  ]
]
