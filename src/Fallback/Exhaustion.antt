-- ===== src/Fallback/Exhaustion.antt =====
-- What the caller is told when every provider failed: exhaustionError over the set of observed
-- failures of internal/gateway/fallback.go.
use kubeclaw.Prelude.{
  ℕ, String, ◌≡◌, sym, ap, ◌∙◌, refl, Bool, true, false, not, List, [], ◌∷◌, arith, ◌==◌, ◌&&◌,
  ◌||◌, str_eq, str_eq_iff, str_eq_refl, if◌then◌else◌, any, length, Bool-cases, inl, inr,
}
use kubeclaw.Fallback.Classify.{
  no_failure, upstream, not_fallbackable, FailClass, connect, timeout, budget, budget_unavailable,
  same_class, class_code, has_class, observe, is_budget_class, budget_only, exhaustion_error,
}

-- the set after the failures, the last one first
abbrev pub observed_of : List FailClass → List FailClass
observed_of [] = []
observed_of (c ∷ cs) = observe c (observed_of cs)

abbrev pub every : (FailClass → Bool) → List FailClass → Bool
every P [] = true
every P (c ∷ cs) = P c && every P cs

abbrev null : List FailClass → Bool
null [] = true
null (_ ∷ _) = false

-- the failures there were, and all of them of a kind
abbrev pub only : (FailClass → Bool) → List FailClass → Bool
only P [] = false
only P (c ∷ cs) = P c && every P cs

-- the status that the failures call for, read off them all
abbrev pub status_for : List FailClass → ℕ
status_for cs =
    if only is_budget_class cs
    then (if any (same_class budget_unavailable) cs then 503 else 429)
    else if only (same_class connect) cs
    then 503
    else if only (same_class timeout) cs
    then 504
    else 502

-- the class of a code
abbrev class_of : String → FailClass
class_of code =
    if str_eq code "connect"
    then connect
    else if str_eq code "timeout"
    then timeout
    else if str_eq code "upstream"
    then upstream
    else if str_eq code "budget"
    then budget
    else if str_eq code "not_fallbackable"
    then not_fallbackable
    else if str_eq code "budget_unavailable"
    then budget_unavailable
    else no_failure

class_of-class_code : (c : FailClass) → class_of (class_code c) ≡ c
class_of-class_code no_failure = refl
class_of-class_code connect = refl
class_of-class_code timeout = refl
class_of-class_code upstream = refl
class_of-class_code budget = refl
class_of-class_code not_fallbackable = refl
class_of-class_code budget_unavailable = refl

same_class_eq : (a b : FailClass) → same_class a b ≡ true → a ≡ b
same_class_eq a b h =
    sym (class_of-class_code a)
    ∙ ap class_of ((str_eq_iff (class_code a) (class_code b)).0 h)
    ∙ class_of-class_code b

same_class_refl : (c : FailClass) → same_class c c ≡ true
same_class_refl c = str_eq_refl (class_code c)

same_class_both :
    (c d e : FailClass) → same_class c d ≡ true → same_class c e ≡ true → same_class d e ≡ true
same_class_both c d e h i = ap (λ x. same_class x e) (sym (same_class_eq c d h)) ∙ i

any-has :
    (P : FailClass → Bool) (c : FailClass) (cs : List FailClass)
    → any (same_class c) cs ≡ true
    → P c || any P cs ≡ any P cs
any-has P c [] h = ground (arith, h)
any-has P c (d ∷ cs) h = elim (Bool-cases (same_class c d)) [
  | inl same ↦ rw (same_class_eq c d same) ground arith
  | inr other ↦ ground (arith, any-has P c cs)
]

any-observe :
    (P : FailClass → Bool) (c : FailClass) (cs : List FailClass)
    → any P (observe c cs) ≡ P c || any P cs
unfolding observe
any-observe P c cs = ground (arith, any-has P c cs)

any-observed_of : (P : FailClass → Bool) (cs : List FailClass) → any P (observed_of cs) ≡ any P cs
any-observed_of P [] = refl
any-observed_of P (c ∷ cs) = ground (arith, any-observe P c (observed_of cs), any-observed_of P cs)

null-observe : (c : FailClass) (cs : List FailClass) → null (observe c cs) ≡ false
unfolding observe
null-observe c [] = refl
null-observe c (d ∷ cs) = ground arith

null-observed_of : (cs : List FailClass) → null (observed_of cs) ≡ null cs
null-observed_of [] = refl
null-observed_of (c ∷ cs) = null-observe c (observed_of cs)

every-any :
    (P : FailClass → Bool) (cs : List FailClass) → every P cs ≡ not (any (λ c. not (P c)) cs)
every-any P [] = refl
every-any P (c ∷ cs) = ground (arith, every-any P cs)

budget_only-any :
    (cs : List FailClass)
    → budget_only cs ≡ not (null cs) && not (any (λ c. not (is_budget_class c)) cs)
unfolding budget_only
budget_only-any [] = refl
budget_only-any (c ∷ cs) = refl

only-every : (P : FailClass → Bool) (cs : List FailClass) → only P cs ≡ not (null cs) && every P cs
only-every P [] = refl
only-every P (c ∷ cs) = refl

budget_only_lem : (cs : List FailClass) → budget_only (observed_of cs) ≡ only is_budget_class cs
unfolding budget_only
budget_only_lem cs =
    budget_only-any (observed_of cs)
    ∙ ap (λ b. not b && not (any (λ c. not (is_budget_class c)) (observed_of cs)))
        (null-observed_of cs)
    ∙ ap (λ b. not (null cs) && not b) (any-observed_of (λ c. not (is_budget_class c)) cs)
    ∙ ap (λ b. not (null cs) && b) (sym (every-any is_budget_class cs))
    ∙ sym (only-every is_budget_class cs)

-- the set is the class alone
abbrev alone : FailClass → List FailClass → Bool
alone c cs = length cs == 1 && has_class c cs

alone-observe :
    (c d : FailClass) (cs : List FailClass)
    → alone c (observe d cs) ≡ same_class c d && (null cs || alone c cs)
unfolding observe
alone-observe c d [] = ground arith
alone-observe c d (e ∷ []) = elim (Bool-cases (same_class d e)) [
  | inl same ↦ rw (same_class_eq d e same) ground (arith, same_class_refl e)
  | inr other ↦ ground (arith, same_class_both c d e)
]
alone-observe c d (e ∷ f ∷ cs) = ground arith

alone-observed_of :
    (c : FailClass) (cs : List FailClass) → alone c (observed_of cs) ≡ only (same_class c) cs
alone-observed_of c [] = refl
alone-observed_of c (d ∷ cs) =
    alone-observe c d (observed_of cs) ∙ rw (null-observed_of cs, alone-observed_of c cs) (rest cs)
  where
    rest :
        (cs : List FailClass)
        → same_class c d && (null cs || only (same_class c) cs)
          ≡ same_class c d && every (same_class c) cs
    rest [] = refl
    rest (e ∷ cs) = refl

-- exhaustionError on the set of the failures of a walk gives the status that the failures call
-- for, whatever their order and number: 503 or 429 if all were budget refusals, with 503 if one
-- of them could not be verified, 503 if all were failed connects, 504 if all were timeouts, and
-- 502 otherwise.
pub exhaustion_error-status :
    (cs : List FailClass) (retry_after : ℕ)
    → let e = exhaustion_error (observed_of cs) retry_after in e.status ≡ status_for cs
unfolding exhaustion_error
exhaustion_error-status cs retry_after =
    rw
      (
        budget_only_lem cs,
        any-observed_of (same_class budget_unavailable) cs,
        alone-observed_of connect cs,
        alone-observed_of timeout cs,
      )
      ground arith
