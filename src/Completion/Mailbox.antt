-- ===== src/Completion/Mailbox.antt =====
-- What the controller reads of a mailbox that the gateway has patched: parseCompletion of
-- internal/controller/agenttask_desired.go after the patch of internal/gateway/completion.go.
use Prim.Native.String.{◌++◌, slice}
use text.Mathlib.Text.{starts_with}
use text.Mathlib.TextPositions.{starts_with-append, slice-append_right, len-append}
use text.Mathlib.TextEquality.{starts_with_iff}
use text.Mathlib.TextLemmas.{append_cancel_left}
use kubeclaw.Prelude.{
  String, false, Option, none, some, [], ◌∷◌, str_eq, str_eq_iff, if◌then◌else◌, ◌≡◌, refl, ap, sym,
  ◌∙◌, Bool-cases, inl, inr, arith,
}
use kubeclaw.Prelude.Maps.{Map, lookup, lookup-insert}
use kubeclaw.AgentTask.Checks.{artifact_name, artifacts_in}
use kubeclaw.Completion.{merge_patch}

abbrev pub or_else : Option String → Option String → Option String
or_else none o = o
or_else (some v) o = some v

pub lookup-merge_patch :
    (x : String) (d m : Map String) → lookup x (merge_patch d m) ≡ or_else (lookup x d) (lookup x m)
unfolding merge_patch lookup
lookup-merge_patch x [] m = refl
lookup-merge_patch x ((k, v) ∷ d) m =
    lookup-insert k x v (merge_patch d m) ∙ ground (arith, lookup-merge_patch x d m)

pub artifact_name-append : (k : String) → artifact_name ("artifact." ++ k) ≡ some k
unfolding artifact_name
artifact_name-append k = rw (starts_with-append "artifact." k) (
    ap (λ n. some (slice ("artifact." ++ k) 9 n)) (len-append "artifact." k)
    ∙ ap some (slice-append_right "artifact." k))

pub not_artifact : (x k : String) → artifact_name x ≡ none → str_eq ("artifact." ++ k) x ≡ false
not_artifact x k h = elim (Bool-cases (str_eq ("artifact." ++ k) x)) [
  | inl same ↦
      let clash : some k ≡ none =
        sym (artifact_name-append k) ∙ ap artifact_name ((str_eq_iff _ _).0 same) ∙ h in
      absurd (ground arith)
  | inr other ↦ other
]

named : (x j : String) → artifact_name x ≡ some j → x ≡ "artifact." ++ j
unfolding artifact_name
named x j h = elim (Bool-cases (starts_with x "artifact.")) [
  | inl starts ↦ from_prefix ((starts_with_iff x "artifact.").0 starts)
  | inr other ↦ absurd (ground arith)
]
  where
    same_tail : {a b : String} → some a ≡ some b → a ≡ b
    same_tail e = ground arith

    from_prefix : (r : String) × ("artifact." ++ r ≡ x) → x ≡ "artifact." ++ j
    from_prefix (r, q) =
        sym q
        ∙ ap (λ u. "artifact." ++ u)
            (same_tail (sym (artifact_name-append r) ∙ ap artifact_name q ∙ h))

pub same_name : (j n : String) → str_eq ("artifact." ++ j) ("artifact." ++ n) ≡ str_eq j n
same_name j n =
    let to = append_cancel_left "artifact." j n in
    ground (arith, to, str_eq_iff j n, str_eq_iff ("artifact." ++ j) ("artifact." ++ n))

str_eq_comm : (a b : String) → str_eq a b ≡ str_eq b a
str_eq_comm a b = ground (arith, str_eq_iff a b, str_eq_iff b a)

pub lookup-artifacts_in :
    (n : String) (m : Map String) → lookup n (artifacts_in m) ≡ lookup ("artifact." ++ n) m
unfolding artifacts_in lookup
lookup-artifacts_in n [] = refl
lookup-artifacts_in n ((k, v) ∷ m) = by_name (artifact_name k) refl (lookup-artifacts_in n m)
  where
    by_name :
        (r : Option String)
        → artifact_name k ≡ r
        → lookup n (artifacts_in m) ≡ lookup ("artifact." ++ n) m
        → lookup n (elim r as (λ _. Map String) [
          | none ↦ artifacts_in m
          | some name ↦ (name, v) ∷ artifacts_in m
        ])
          ≡ (if str_eq k ("artifact." ++ n) then some v else lookup ("artifact." ++ n) m)
    by_name none q rest = rw (str_eq_comm k ("artifact." ++ n), not_artifact k n q) rest
    by_name (some j) q rest =
        rw (ap (λ x. str_eq x ("artifact." ++ n)) (named k j q), same_name j n, rest) refl
