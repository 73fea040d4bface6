-- ===== src/Fallback/Samples.antt =====
-- A walk from a provider that has no credential to its fallback: the theorems at inputs that meet
-- their hypotheses.
use kubeclaw.Prelude.{
  ◌≡◌, refl, true, false, none, some, [], ◌∷◌, ◌+◌, ◌==◌, arith, str_eq, if◌then◌else◌,
}
use kubeclaw.Prelude.Floats.{fixed}
use kubeclaw.Budget.Config.{Provider}
use kubeclaw.Budget.Ledger.{new_budget_ledger}
use kubeclaw.Budget.Samples.{provider, at_noon, grant}
use kubeclaw.Fallback.Classify.{anthropic, connect, timeout, exhaustion_error}
use kubeclaw.Fallback.Exhaustion.{observed_of, status_for, exhaustion_error-status}
use kubeclaw.Fallback.Types.{Request, no_credential, replied}
use kubeclaw.Fallback.Walk.{Walk, try_with_fallbacks}
use kubeclaw.Fallback.Walk.Sound.{Ends}
use kubeclaw.Fallback.Walk.Ends.{try_with_fallbacks-Ends}

abbrev acme : Provider
acme = record provider {
  models = record { id = "m"; cost_per_1m_input = "1"; cost_per_1m_output = "1" } ∷ [];
  fallback = record { name = "beta"; model_map = [] } ∷ [];
}

abbrev beta : Provider
beta = record acme { name = "beta"; fallback = record { name = "acme"; model_map = [] } ∷ [] }

abbrev request : Request
request = record {
  primary = acme;
  namespace = "team";
  workload = "agent/a";
  model_id = "m";
  max_depth = 3;
  primary_settle = some grant;
  inbound_format = some anthropic;
  has_body = false;
  translates = λ p m. true;
  find = λ name. if str_eq name "beta" then some beta else none;
  glob = λ pattern name. some true;
  clock = λ n. at_noon;
  reply = λ n p model. if n == 1 then no_credential else replied 200;
}

abbrev start : Walk fixed
start = record {
  attempt_count = 0;
  visited = [];
  observed = [];
  max_retry_after = 0;
  model_for = [];
  translated = [];
  ledger = new_budget_ledger fixed;
  events = [];
}

try_with_fallbacks-Ends_example :
    Ends fixed request start (try_with_fallbacks fixed (3 + 1) request acme start)
try_with_fallbacks-Ends_example =
    try_with_fallbacks-Ends fixed request acme start refl
      (record { enough = omega arith; room = omega arith; none_open = refl })

exhaustion_error-status_example :
    let e = exhaustion_error (observed_of (connect ∷ timeout ∷ connect ∷ [])) 7 in
    e.status ≡ status_for (connect ∷ timeout ∷ connect ∷ [])
exhaustion_error-status_example = exhaustion_error-status (connect ∷ timeout ∷ connect ∷ []) 7
