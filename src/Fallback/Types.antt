-- ===== src/Fallback/Types.antt =====
-- What a fallback walk is given and what it leaves: forwardResult and forwardOnce, and the parts of
-- walkState that do not change, of internal/gateway/fallback.go and proxy.go.
use kubeclaw.Prelude.{ℕ, String, Bool, true, false, Option, none, some, if◌then◌else◌}
use kubeclaw.Budget.Config.{Provider}
use kubeclaw.Budget.Policy.{Env}
use kubeclaw.Budget.Hard.{Grant}
use kubeclaw.Tenancy.{Glob}
use kubeclaw.Fallback.Classify.{FailClass, connect, timeout, is_fallbackable, Format}

-- What became of one upstream call: no credential, an error of the transport, a reply whose body
-- could not be read, or a reply.
pub data Reply : Type 0 where
  no_credential : Reply
  transport_failed : Bool → Reply  -- whether the deadline was exceeded
  body_failed : ℕ → Reply
  replied : ℕ → Reply

-- forwardResult, as forwardOnce classifies it
pub record Outcome : Type 0 where
  pub status : Option ℕ  -- of resp
  pub fallbackable : Bool
  pub class : FailClass
  pub transport_error : Bool

abbrev pub failed_attempt : FailClass → Outcome
failed_attempt c = record { status = none; fallbackable = true; class = c; transport_error = true }

unfoldable pub forward_once : Reply → Outcome
forward_once no_credential = failed_attempt connect
forward_once (transport_failed late) = failed_attempt (if late then timeout else connect)
forward_once (body_failed status) = failed_attempt connect
forward_once (replied status) =
    let (fallbackable, class) = is_fallbackable status in
    record {
      status = some status;
      fallbackable = fallbackable;
      class = class;
      transport_error = false;
    }

-- What happens on the way, oldest last.
pub data Event : Type 0 where
  called : String → Event
  granted settled : Grant → Event
  skipped : String → Event  -- an event on the primary
  rejected : String → Event  -- an event on the candidate for its credentials

-- What the walk is given.
pub record Request : Type 0 where
  pub primary : Provider
  pub namespace : String
  pub workload : String
  pub model_id : String
  pub max_depth : ℕ
  pub primary_settle : Option Grant
  pub inbound_format : Option Format
  pub has_body : Bool  -- st.parsed != nil
  pub translates : Provider → String → Bool  -- llmtranslate.Request without an error
  pub find : String → Option Provider  -- Store.ProviderByName
  pub glob : Glob
  pub clock : ℕ → Env  -- at the given number of attempts
  pub reply : ℕ → Provider → String → Reply  -- of the upstream, to the given attempt

-- The result of a walk: a zero forwardResult is `outcome = none`.
pub record Result : Type 0 where
  pub ok : Bool
  pub outcome : Option (String × Outcome)
  pub settle : Option Grant

abbrev pub no_result : Result
no_result = record { ok = false; outcome = none; settle = none }
