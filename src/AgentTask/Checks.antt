-- ===== src/AgentTask/Checks.antt =====
-- What is checked before a Pod is made and when a task completes: taskViolation, timedOut and the
-- readers of the mailbox of internal/controller/agenttask_controller.go and agenttask_desired.go,
-- imageAllowed and namespaceAllowed of agent_desired.go, and toolgrants.go.
use Prim.Native.String.{slice, len}
use text.Mathlib.Text.{starts_with}
use kubeclaw.Prelude.{
  ℕ, ◌+◌, String, Bool, true, false, not, ◌&&◌, ◌||◌, Option, none, some, List, [], ◌∷◌, any,
  str_eq, if◌then◌else◌, ltb, is_some,
}
use kubeclaw.Prelude.Maps.{Map, lookup, get_or}
use kubeclaw.Tenancy.{globs, namespace_allowed}
use kubeclaw.AgentTask.{
  Task, Class, Pod, Env, TaskStatus, ToolGrant, got, not_found, get_error, Phase, succeeded, failed,
  timed_out, terminating,
}

-- An empty list allows every image.
unfoldable pub image_allowed : (String → String → Option Bool) → String → List String → Bool
image_allowed glob image [] = true
image_allowed glob image (pattern ∷ allowed) =
    any (λ (p : String). globs (glob p image)) (pattern ∷ allowed)

abbrev pub has : List String → String → Bool
has names name = any (λ (n : String). str_eq n name) names

-- the verdict on one grant, none if it passes
unfoldable pub grant_violation : Env → String → Class → ToolGrant → Option String
unfolding namespace_allowed
grant_violation e ns c g =
    if not (has c.allowed_tool_providers g.provider)
    then some "ClassConstraintViolation"
    else elim (e.tool_provider g.provider) [
      | not_found ↦ some "ClassConstraintViolation"
      | get_error ↦ none
      | got tp ↦
          if not (namespace_allowed e.glob ns tp.allowed_namespaces)
          then some "ClassConstraintViolation"
          else elim tp.catalog [
            | [] ↦ none
            | _ ∷ _ ↦
                if any (λ (t : String). not (has tp.catalog t)) g.tools
                then some "ToolNotInCatalog"
                else none
          ]
    ]

-- toolGrantViolations, by their reasons
unfoldable pub tool_grant_violations : Env → String → Class → List ToolGrant → List String
unfolding grant_violation
tool_grant_violations e ns c [] = []
tool_grant_violations e ns c (g ∷ gs) =
    let rest = tool_grant_violations e ns c gs in
    elim (grant_violation e ns c g) [ none ↦ rest | some reason ↦ reason ∷ rest ]

unfoldable pub provider_violation : Env → String → Class → String → Option String
unfolding namespace_allowed
provider_violation e ns c name =
    if not (has c.allowed_providers name)
    then some "ClassConstraintViolation"
    else elim (e.provider_namespaces name) [
      | not_found ↦ some "ClassConstraintViolation"
      | get_error ↦ none
      | got allowed ↦
          if not (namespace_allowed e.glob ns allowed)
          then some "ClassConstraintViolation"
          else none
    ]

-- the loop over spec.providers
unfoldable pub provider_violations : Env → String → Class → List String → Option String
unfolding provider_violation
provider_violations e ns c [] = none
provider_violations e ns c (name ∷ names) =
    let rest = provider_violations e ns c names in
    elim (provider_violation e ns c name) [ none ↦ rest | some reason ↦ some reason ]

abbrev pub first : List String → Option String
first [] = none
first (r ∷ _) = some r

abbrev pub or_check : Option String → Option String → Option String
or_check none next = next
or_check (some reason) next = some reason

-- deriveEffectiveTaskSpec, the image
unfoldable pub effective_image : Task → Class → String
effective_image t c = if str_eq t.image "" then c.default_image else t.image

-- taskViolation
unfoldable pub task_violation : Env → Task → Class → Option String
unfolding effective_image image_allowed provider_violations tool_grant_violations
task_violation e t c =
    let image = effective_image t c in
    or_check
      (if not (str_eq image "") && not (image_allowed e.glob image c.allowed_images)
        then some "ClassConstraintViolation"
        else none)
      (or_check (provider_violations e t.namespace c t.providers) (
        or_check (first (tool_grant_violations e t.namespace c t.tools))
          (if t.persistence && not c.persistence then some "PersistenceNotAllowed" else none)))

unfoldable pub is_ready_in : List (String × Bool) → Bool
is_ready_in [] = false
is_ready_in (c ∷ cs) = let rest = is_ready_in cs in if str_eq c.0 "Ready" then c.1 else rest

unfoldable pub pod_ready : Pod → Bool
unfolding is_ready_in
pod_ready p = is_ready_in p.conditions

-- the first container that waits for a reason that is fatal at once
unfoldable pub fatal_waiting : List (Option String) → Option String
fatal_waiting [] = none
fatal_waiting (w ∷ ws) =
    let rest = fatal_waiting ws in
    elim w [
      | none ↦ rest
      | some reason ↦
          if str_eq reason "InvalidImageName" || str_eq reason "ErrImageNeverPull"
          then some reason
          else rest
    ]

unfoldable pub timed_out_at : ℕ → Task → TaskStatus → Bool
timed_out_at now t s = elim s.start_time [
  | none ↦ false
  | some start ↦ ltb 0 t.timeout && ltb (start + t.timeout) now
]

unfoldable pub is_terminal : Phase → Bool
is_terminal succeeded = true
is_terminal failed = true
is_terminal timed_out = true
is_terminal terminating = true
is_terminal _ = false

pub record Payload : Type 0 where
  pub status : String
  pub message : String
  pub artifacts : Map String

-- strings.CutPrefix(k, "artifact.")
unfoldable pub artifact_name : String → Option String
artifact_name k = if starts_with k "artifact." then some (slice k 9 (len k)) else none

unfoldable pub artifacts_in : Map String → Map String
unfolding artifact_name
artifacts_in [] = []
artifacts_in ((k, v) ∷ m) =
    let rest = artifacts_in m in
    elim (artifact_name k) [ none ↦ rest | some name ↦ (name, v) ∷ rest ]

unfoldable pub parse_completion : Map String → Payload
unfolding artifacts_in
parse_completion m = record {
  status = get_or "" "status" m;
  message = get_or "" "message" m;
  artifacts = artifacts_in m;
}

-- validateArtifactNames: whether it returns ""
unfoldable pub valid_artifacts : Payload → List String → Bool
valid_artifacts p declared =
    not (any (λ (a : String × String). not (has declared a.0)) p.artifacts)
    && (not (str_eq p.status "success")
        || not (any (λ (n : String). not (is_some (lookup n p.artifacts))) declared))
