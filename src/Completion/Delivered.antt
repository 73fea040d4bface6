-- ===== src/Completion/Delivered.antt =====
-- What the gateway accepts, ValidateCompletionArtifacts of internal/gateway/completion.go, the
-- controller finds valid, validateArtifactNames of internal/controller/agenttask_desired.go.
use kubeclaw.Prelude.{
  String, Bool, true, false, not, ◌&&◌, ◌||◌, Option, none, some, List, [], ◌∷◌, any, str_eq,
  str_eq_iff, is_some, if◌then◌else◌, ◌≡◌, refl, ap, ◌∙◌, Bool-cases, inl, inr, arith,
}
use kubeclaw.Prelude.Maps.{Map, lookup, insert}
use kubeclaw.AgentTask.Checks.{has, artifact_name, artifacts_in, parse_completion, valid_artifacts}
use kubeclaw.Completion.{CompleteRequest, artifact_data, mailbox_data, merge_patch, artifacts_valid}
use kubeclaw.Completion.Mailbox.{or_else, artifact_name-append}
use kubeclaw.Completion.Accepted.{parse-merge_patch}

-- some key of the map is one of those that `f` picks
abbrev any_key : (String → Bool) → Map String → Bool
any_key f m = any (λ (e : String × String). f e.0) m

module _ (f : String → Bool) where
  any_key-insert : (k v : String) (m : Map String) → any_key f (insert k v m) ≡ (f k || any_key f m)
  unfolding insert
  any_key-insert k v [] = ground arith
  any_key-insert k v ((j, u) ∷ m) = elim (Bool-cases (str_eq j k)) [
    | inl same ↦ rw (same, (str_eq_iff j k).0 same) (ground arith)
    | inr other ↦ rw (other) (ground (arith, any_key-insert k v m))
  ]

  any_key-merge_patch :
      (d m : Map String) → any_key f (merge_patch d m) ≡ (any_key f d || any_key f m)
  unfolding merge_patch
  any_key-merge_patch [] m = refl
  any_key-merge_patch ((k, v) ∷ d) m =
      any_key-insert k v (merge_patch d m) ∙ ground (arith, any_key-merge_patch d m)

any-same :
    (p q : String → Bool) (ns : List String) → ((n : String) → p n ≡ q n) → any p ns ≡ any q ns
any-same p q [] h = refl
any-same p q (n ∷ ns) h = ground (arith, h n, any-same p q ns h)

or_false : (b : Bool) → (b || false) ≡ b
or_false b = ground arith

nothing_else : (o : Option String) → or_else o none ≡ o
nothing_else none = refl
nothing_else (some v) = refl

module _ (declared : List String) where
  undeclared : String → Bool
  undeclared n = not (has declared n)

  stray_in : Option String → Bool
  stray_in none = false
  stray_in (some n) = undeclared n

  stray : String → Bool
  stray k = stray_in (artifact_name k)

  any_key-artifacts_in : (m : Map String) → any_key undeclared (artifacts_in m) ≡ any_key stray m
  unfolding artifacts_in stray stray_in
  any_key-artifacts_in [] = refl
  any_key-artifacts_in ((k, v) ∷ m) = by_name (artifact_name k) (any_key-artifacts_in m)
    where
      by_name :
          (r : Option String)
          → any_key undeclared (artifacts_in m) ≡ any_key stray m
          → any_key undeclared (elim r as (λ _. Map String) [
            | none ↦ artifacts_in m
            | some name ↦ (name, v) ∷ artifacts_in m
          ])
            ≡ (if stray_in r then true else any_key stray m)
      by_name none h = h
      by_name (some name) h = ground (arith, h)

  any_key-artifact_data : (m : Map String) → any_key stray (artifact_data m) ≡ any_key undeclared m
  unfolding artifact_data stray stray_in
  any_key-artifact_data [] = refl
  any_key-artifact_data ((k, v) ∷ m) = rw (artifact_name-append k, any_key-artifact_data m) refl

  any_key-mailbox_data :
      (q : CompleteRequest) → any_key stray (mailbox_data q) ≡ any_key undeclared q.artifacts
  unfolding mailbox_data stray stray_in artifact_name
  any_key-mailbox_data q = ground (arith, any_key-artifact_data q.artifacts)

  -- The controller finds the artifacts of a report valid exactly if the gateway does.
  pub valid_artifacts-merge_patch :
      (q : CompleteRequest)
      → valid_artifacts (parse_completion (merge_patch (mailbox_data q) [])) declared
        ≡ artifacts_valid q.status q.artifacts declared
  unfolding valid_artifacts artifacts_valid parse_completion undeclared
  valid_artifacts-merge_patch q =
      let d = mailbox_data q in
      let m = merge_patch d [] in
      let p = parse_completion m in
      let strays : any_key undeclared (artifacts_in m) ≡ any_key undeclared q.artifacts =
        any_key-artifacts_in m
        ∙ any_key-merge_patch stray d []
        ∙ or_false (any_key stray d)
        ∙ any_key-mailbox_data q in
      let missing =
        any-same (λ n. not (is_some (lookup n p.artifacts)))
          (λ n. not (is_some (lookup n q.artifacts))) declared
          (λ n.
            ap (λ o. not (is_some o))
              ((parse-merge_patch q [] n).2 ∙ nothing_else (lookup n q.artifacts))) in
      ap
        (λ a.
          not a
          && (not (str_eq p.status "success")
              || not (any (λ n. not (is_some (lookup n p.artifacts))) declared)))
        strays
      ∙ ap
          (λ b.
            not (any_key undeclared q.artifacts)
            && (not (str_eq b "success")
                || not (any (λ n. not (is_some (lookup n p.artifacts))) declared)))
          (parse-merge_patch q [] "").0
      ∙ ap (λ b. not (any_key undeclared q.artifacts) && (not (str_eq q.status "success") || not b))
          missing
