-- ===== src/Completion/Accepted.antt =====
-- A report that the gateway accepts, as the controller reads it: internal/gateway/completion.go
-- against validateArtifactNames of internal/controller/agenttask_desired.go.
use Prim.Native.String.{◌++◌}
use kubeclaw.Prelude.{
  String, none, some, [], ◌∷◌, str_eq, str_eq_iff, if◌then◌else◌, ◌≡◌, refl, ap, sym, ◌∙◌, arith,
}
use kubeclaw.Prelude.Maps.{Map, lookup}
use kubeclaw.AgentTask.Checks.{artifact_name, parse_completion}
use kubeclaw.Completion.{CompleteRequest, artifact_data, mailbox_data, merge_patch}
use kubeclaw.Completion.Mailbox.{
  or_else, lookup-merge_patch, lookup-artifacts_in, same_name, not_artifact,
}

lookup-artifact_data :
    (n : String) (m : Map String) → lookup ("artifact." ++ n) (artifact_data m) ≡ lookup n m
unfolding lookup artifact_data
lookup-artifact_data n [] = refl
lookup-artifact_data n ((k, v) ∷ m) = ground (arith, same_name k n, lookup-artifact_data n m)

other-artifact_data :
    (x : String) (m : Map String) → artifact_name x ≡ none → lookup x (artifact_data m) ≡ none
unfolding lookup artifact_data
other-artifact_data x [] h = refl
other-artifact_data x ((k, v) ∷ m) h = ground (arith, not_artifact x k h, other-artifact_data x m h)

no_status : artifact_name "status" ≡ none
unfolding artifact_name
no_status = refl

no_message : artifact_name "message" ≡ none
unfolding artifact_name
no_message = refl

pub data_status : (q : CompleteRequest) → lookup "status" (mailbox_data q) ≡ some q.status
unfolding lookup mailbox_data
data_status q = refl

data_artifacts :
    (q : CompleteRequest) (n : String)
    → lookup ("artifact." ++ n) (mailbox_data q) ≡ lookup n q.artifacts
unfolding lookup mailbox_data
data_artifacts q n =
    let status = not_artifact "status" n no_status in
    let message = not_artifact "message" n no_message in
    ground (
      arith,
      lookup-artifact_data n q.artifacts,
      str_eq_iff ("artifact." ++ n) "status",
      str_eq_iff "status" ("artifact." ++ n),
      str_eq_iff ("artifact." ++ n) "message",
      str_eq_iff "message" ("artifact." ++ n),
    )

data_message :
    (q : CompleteRequest)
    → lookup "message" (mailbox_data q) ≡ (if str_eq q.message "" then none else some q.message)
unfolding lookup mailbox_data
data_message q = ground (arith, other-artifact_data "message" q.artifacts no_message)

-- After the patch of a report the controller reads its status, its message unless that is empty,
-- its artifacts, and of what was there before only the rest.
pub parse-merge_patch :
    (q : CompleteRequest) (m : Map String) (n : String)
    → ((parse_completion (merge_patch (mailbox_data q) m)).status ≡ q.status)
      × ((parse_completion (merge_patch (mailbox_data q) m)).message
          ≡ (if str_eq q.message "" then (parse_completion m).message else q.message))
      × (lookup n (parse_completion (merge_patch (mailbox_data q) m)).artifacts
          ≡ or_else (lookup n q.artifacts) (lookup n (parse_completion m).artifacts))
unfolding parse_completion
parse-merge_patch q m n =
    let d = mailbox_data q in
    let status = lookup-merge_patch "status" d m in
    let message = lookup-merge_patch "message" d m in
    (
      ground (arith, data_status q),
      ground (arith, data_message q),
      lookup-artifacts_in n (merge_patch d m)
          ∙ lookup-merge_patch ("artifact." ++ n) d m
          ∙ ap (λ o. or_else o (lookup ("artifact." ++ n) m)) (data_artifacts q n)
          ∙ ap (or_else (lookup n q.artifacts)) (sym (lookup-artifacts_in n m)),
    )
