-- ===== src/Auth/Samples.antt =====
-- A token that is approved and revoked, and a caller with a certificate.
use kubeclaw.Prelude.{String, true, false, none, some, List, [], ◌∷◌, ◌≡◌, refl, arith}
use kubeclaw.Prelude.Maps.{lookup, insert}
use kubeclaw.Auth.{
  Identity, Tokens, Reviewed, username, unauthenticated, rejected, jwt_expiry,
  namespace_from_username, authenticate, review_token, fresh_entry, cache_ttl, Inbound, caller,
  dual_mode, with_certificate, parse_workload_san, scan, recognize, under_suffix, same_labels,
  five_labels, cross_check,
}
use kubeclaw.Tenancy.Routing.{agent}
use kubeclaw.Auth.Cache.{Within, authenticate_revoked}
use kubeclaw.Auth.Modes.{Passed, dual_mode_attested}

abbrev tokens_with : Reviewed → Tokens
tokens_with answer = record { digest = λ _. "d"; claim = λ _. some 1000; review = λ _. answer }

abbrev team_name : List String
team_name = "system" ∷ "serviceaccount" ∷ "team" ∷ "bot" ∷ []

abbrev jwt : List String
jwt = "h" ∷ "p" ∷ "s" ∷ []

authenticate_revoked_example : Within (tokens_with (username team_name)) jwt 0 1000000000
unfolding authenticate review_token fresh_entry lookup insert cache_ttl jwt_expiry
    namespace_from_username
authenticate_revoked_example =
    authenticate_revoked (tokens_with (username team_name)) (tokens_with unauthenticated) 0
      1000000000 2000000000 jwt team_name "team" "team" [] refl refl refl refl (omega arith) refl

abbrev helper_request : Inbound
helper_request = record {
  peer = some (("helper" ∷ "team" ∷ "svc" ∷ "cluster" ∷ "local" ∷ []) ∷ []);
  bearer = none;
  pod = some (record { namespace = "team"; managed = true });
  disable_source_ip_check = false;
}

abbrev helper_identity : Identity
helper_identity = record { namespace = "team"; name = "helper"; kind = agent }

helper_answer : dual_mode (λ _. rejected) helper_request ≡ caller "team" (some helper_identity)
unfolding dual_mode with_certificate parse_workload_san scan recognize under_suffix same_labels
    five_labels cross_check
helper_answer = refl

dual_mode_attested_example :
    Passed (λ _. rejected) helper_request "team" (some helper_identity) refl
dual_mode_attested_example =
    dual_mode_attested (λ _. rejected) helper_request "team" (some helper_identity) refl
      helper_answer
