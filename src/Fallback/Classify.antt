-- ===== src/Fallback/Classify.antt =====
-- Failure classes and what a request's caller is told: internal/gateway/fallback.go, and the
-- wire formats of api/v1beta1/fallback.go.
use kubeclaw.Prelude.{
  ℕ, String, Bool, true, false, Option, none, some, List, [], ◌∷◌, leb, ◌==◌, ◌&&◌, ◌||◌, not,
  str_eq, if◌then◌else◌, any, length,
}

pub data FailClass : Type 0 where
  no_failure connect timeout upstream budget not_fallbackable budget_unavailable : FailClass

abbrev pub class_name : FailClass → String
class_name connect = "connect_error"
class_name timeout = "timeout"
class_name budget = "budget_blocked"
class_name budget_unavailable = "budget_unavailable"
class_name upstream = "upstream_error"
class_name _ = "other"

abbrev pub between : ℕ → ℕ → ℕ → Bool
between lo hi n = leb lo n && leb n hi

-- isFallbackable, the cases of its switch in order
unfoldable pub is_fallbackable : ℕ → Bool × FailClass
is_fallbackable status =
    if between 200 299 status
    then (false, no_failure)
    else if status == 429 || between 500 599 status
    then (true, upstream)
    else if status == 401 || status == 403
    then (true, upstream)
    else if status == 400 || status == 422
    then (false, not_fallbackable)
    else if between 400 499 status
    then (false, not_fallbackable)
    else (true, upstream)

abbrev pub class_code : FailClass → String
class_code no_failure = "none"
class_code connect = "connect"
class_code timeout = "timeout"
class_code upstream = "upstream"
class_code budget = "budget"
class_code not_fallbackable = "not_fallbackable"
class_code budget_unavailable = "budget_unavailable"

abbrev pub same_class : FailClass → FailClass → Bool
same_class a b = str_eq (class_code a) (class_code b)

abbrev pub has_class : FailClass → List FailClass → Bool
has_class c = any (same_class c)

-- observed[c] = true
unfoldable pub observe : FailClass → List FailClass → List FailClass
observe c cs = if has_class c cs then cs else c ∷ cs

pub data ErrorType : Type 0 where
  budget_state_unavailable budget_exhausted provider_unavailable provider_timeout : ErrorType
  provider_error : ErrorType

-- the status, the type of the error and the Retry-After of exhaustionError
pub record Exhaustion : Type 0 where
  pub status : ℕ
  pub error_type : ErrorType
  pub retryable : Bool
  pub retry_after : ℕ

abbrev pub is_budget_class : FailClass → Bool
is_budget_class budget = true
is_budget_class budget_unavailable = true
is_budget_class _ = false

unfoldable pub budget_only : List FailClass → Bool
budget_only [] = false
budget_only (c ∷ cs) = not (any (λ d. not (is_budget_class d)) (c ∷ cs))

unfoldable pub exhaustion_error : List FailClass → ℕ → Exhaustion
unfolding budget_only
exhaustion_error observed max_retry_after =
    if budget_only observed && has_class budget_unavailable observed
    then record {
      status = 503;
      error_type = budget_state_unavailable;
      retryable = true;
      retry_after = 1;
    }
    else if budget_only observed
    then record {
      status = 429;
      error_type = budget_exhausted;
      retryable = true;
      retry_after = max_retry_after;
    }
    else if length observed == 1 && has_class connect observed
    then record {
      status = 503;
      error_type = provider_unavailable;
      retryable = false;
      retry_after = 0;
    }
    else if length observed == 1 && has_class timeout observed
    then record { status = 504; error_type = provider_timeout; retryable = false; retry_after = 0 }
    else record { status = 502; error_type = provider_error; retryable = false; retry_after = 0 }

-- ProviderFormat
unfoldable pub provider_format : String → String
provider_format kind = if str_eq kind "openai-compatible" then "openai" else kind

unfoldable pub translatable_format : String → Bool
translatable_format kind =
    str_eq kind "anthropic" || str_eq kind "openai" || str_eq kind "openai-compatible"

-- rule 12
unfoldable pub format_compatible : String → String → Bool
unfolding translatable_format
format_compatible parent child =
    if str_eq parent child then true else translatable_format parent && translatable_format child

unfoldable pub crosses_format : String → String → Bool
unfolding provider_format
crosses_format parent child = not (str_eq (provider_format parent) (provider_format child))

pub data Format : Type 0 where
  anthropic openai : Format

-- formatForType, none for a type the translator does not speak
unfoldable pub format_for_type : String → Option Format
unfolding provider_format
format_for_type kind =
    if str_eq (provider_format kind) "anthropic"
    then some anthropic
    else if str_eq (provider_format kind) "openai"
    then some openai
    else none

abbrev pub same_format : Format → Format → Bool
same_format anthropic anthropic = true
same_format openai openai = true
same_format _ _ = false
