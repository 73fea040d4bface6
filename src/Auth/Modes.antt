-- ===== src/Auth/Modes.antt =====
-- What DualModePaths of internal/gateway/auth.go has seen of a caller that it lets through.
use kubeclaw.Prelude.{
  String, Bool, true, false, not, ◌&&◌, Option, none, some, List, if◌then◌else◌, ◌≡◌, refl, ap,
  subst, sym, ◌∙◌, arith,
}
use kubeclaw.Auth.{
  Identity, TokenAnswer, namespace_is, unreachable, rejected, parse_workload_san, Inbound,
  AuthAnswer, caller, unauthorized, forbidden, cross_check, is_managed, in_namespace,
  with_certificate, with_token, dual_mode,
}

-- by its certificate, or by its token from a Pod that is not one of ours
pub data Attested (answer : List String → TokenAnswer) (r : Inbound) (ns : String)
    : Option Identity → Type 0 where
  by_certificate :
      (sans : List (List String)) (i : Identity)
      → r.peer ≡ some sans
      → parse_workload_san sans ≡ some i
      → i.namespace ≡ ns
      → Attested answer r ns (some i)
  by_token :
      (token : List String)
      → r.peer ≡ none
      → r.bearer ≡ some token
      → is_managed r.pod ≡ false
      → answer token ≡ namespace_is ns
      → Attested answer r ns none

module _ (answer : List String → TokenAnswer) (r : Inbound) (ns : String) (who : Option Identity)
    (checked : r.disable_source_ip_check ≡ false) where
  abbrev pub Passed : Type 0
  Passed = Attested answer r ns who × (in_namespace r.pod ns ≡ true)

  let_through :
      (b : Bool) (m : String) (w : Option Identity)
      → (if b then caller m w else unauthorized) ≡ caller ns who
      → (b ≡ true) × (m ≡ ns) × (w ≡ who)
  let_through true m w h = (refl, ground arith, ground arith)
  let_through false m w h = absurd (ground arith)

  at_home : (m : String) → cross_check r m ≡ true → m ≡ ns → in_namespace r.pod ns ≡ true
  unfolding cross_check
  at_home m crossed same =
      ap (in_namespace r.pod) (sym same) ∙ right_of (ground (arith, crossed, checked))
    where
      right_of : in_namespace r.pod m ≡ true → in_namespace r.pod m ≡ true
      right_of q = q

  certificate_case :
      (sans : List (List String)) (o : Option Identity)
      → r.peer ≡ some sans
      → parse_workload_san sans ≡ o
      → (elim o as (λ _. AuthAnswer) [
        | none ↦ forbidden
        | some i ↦ if cross_check r i.namespace then caller i.namespace (some i) else unauthorized
      ])
        ≡ caller ns who
      → Passed
  certificate_case sans none peer parsed h = absurd (ground arith)
  certificate_case sans (some i) peer parsed h =
      let (crossed, same, is_who) =
        let_through (cross_check r i.namespace) i.namespace (some i) h in
      (
        subst (Attested answer r ns) is_who (Attested.by_certificate sans i peer parsed same),
        at_home i.namespace crossed same,
      )

  token_case :
      (token : List String) (a : TokenAnswer)
      → r.peer ≡ none
      → r.bearer ≡ some token
      → is_managed r.pod ≡ false
      → answer token ≡ a
      → with_token r a ≡ caller ns who
      → Passed
  unfolding with_token
  token_case token unreachable peer bearer ours q h = absurd (ground arith)
  token_case token rejected peer bearer ours q h = absurd (ground arith)
  token_case token (namespace_is m) peer bearer ours q h =
      let (crossed, same, is_who) = let_through (cross_check r m) m none h in
      (
        subst (Attested answer r ns) is_who
            (Attested.by_token token peer bearer ours (q ∙ ap namespace_is same)),
        at_home m crossed same,
      )

  managed_case :
      (token : List String) (b : Bool)
      → r.peer ≡ none
      → r.bearer ≡ some token
      → (not r.disable_source_ip_check && is_managed r.pod) ≡ b
      → (if b then unauthorized else with_token r (answer token)) ≡ caller ns who
      → Passed
  managed_case token true peer bearer q h = absurd (ground arith)
  managed_case token false peer bearer q h =
      token_case token (answer token) peer bearer (ground (arith, q, checked)) refl h

  bearer_case :
      (o : Option (List String))
      → r.peer ≡ none
      → r.bearer ≡ o
      → (elim o as (λ _. AuthAnswer) [
        | none ↦ unauthorized
        | some token ↦
            if not r.disable_source_ip_check && is_managed r.pod
            then unauthorized
            else with_token r (answer token)
      ])
        ≡ caller ns who
      → Passed
  bearer_case none peer bearer h = absurd (ground arith)
  bearer_case (some token) peer bearer h =
      managed_case token (not r.disable_source_ip_check && is_managed r.pod) peer bearer refl h

  -- While the check of the source address is on, a caller that is let through is at an address of
  -- the namespace that it gets, and has either a certificate with one recognized name, which is its
  -- workload, or no certificate, a token of that namespace, and no workload and no managed Pod.
  pub dual_mode_attested : dual_mode answer r ≡ caller ns who → Passed
  unfolding dual_mode with_certificate
  dual_mode_attested h = by_peer r.peer refl h
    where
      by_peer :
          (o : Option (List (List String)))
          → r.peer ≡ o
          → (elim o as (λ _. AuthAnswer) [
            | some sans ↦ with_certificate r sans
            | none ↦ elim r.bearer as (λ _. AuthAnswer) [
              | none ↦ unauthorized
              | some token ↦
                  if not r.disable_source_ip_check && is_managed r.pod
                  then unauthorized
                  else with_token r (answer token)
            ]
          ])
            ≡ caller ns who
          → Passed
      by_peer (some sans) peer h = certificate_case sans (parse_workload_san sans) peer refl h
      by_peer none peer h = bearer_case r.bearer peer refl h
