-- ===== src/Api/Yields.antt =====
-- Calls that keep a property of the state and whose results have one.
use kubeclaw.Prelude.{Bool, true, false, List, [], ◌∷◌, if◌then◌else◌}
use kubeclaw.Api.{
  Outcome, ok, failed, World, M, after, ◌>>=◌, ◌>>◌, pure, raise, request, read, write,
}

abbrev pub Ends : {S A : Type 0} → (S → Type 0) → (A → Type 0) → World S × Outcome A → Type 0
Ends P Q (w, ok a) = P w.state × Q a
Ends P Q (w, failed) = P w.state

-- `P` holds of the state throughout, and `Q` of the result if there is one.
abbrev pub Yields : {S A : Type 0} → (S → Type 0) → (A → Type 0) → M S A → Type 0
Yields {S} P Q m = (w : World S) → P w.state → Ends P Q (m w)

-- nothing is said of the result
abbrev pub Any : {A : Type 0} → A → Type 0
Any a = Unit {0}

module _ {S A : Type 0} (P : S → Type 0) (Q : A → Type 0) where
  pub pure-Yields : (a : A) → Q a → Yields P Q (pure {S = S} a)
  pure-Yields a q w h = (h, q)

  pub raise-Yields : Yields P Q (raise {S = S} {A = A})
  raise-Yields w h = h

  pub request-Yields :
      (result : S → A) (change : S → S)
      → ((s : S) → P s → P (change s))
      → ((s : S) → P s → Q (result s))
      → Yields P Q (request result change)
  unfolding request
  request-Yields result change keep good w h = by_faults w.faults
    where
      by_faults :
          (faults : List Bool)
          → Ends P Q (elim faults as (λ _. World S × Outcome A) [
            | [] ↦ (record { state = change w.state; faults = [] }, ok (result w.state))
            | fault ∷ faults ↦ elim fault [
              | true ↦ (record { state = w.state; faults = faults }, failed)
              | false ↦ (record { state = change w.state; faults = faults }, ok (result w.state))
            ]
          ])
      by_faults [] = (keep w.state h, good w.state h)
      by_faults (true ∷ faults) = h
      by_faults (false ∷ faults) = (keep w.state h, good w.state h)

  pub if-Yields :
      (b : Bool) (m n : M S A) → Yields P Q m → Yields P Q n → Yields P Q (if b then m else n)
  if-Yields true m n ym yn = ym
  if-Yields false m n ym yn = yn

module _ {S A B : Type 0} (P : S → Type 0) (Q : A → Type 0) (R : B → Type 0) where
  pub bind-Yields :
      (m : M S A) (f : A → M S B)
      → Yields P Q m
      → ((a : A) → Q a → Yields P R (f a))
      → Yields P R (m >>= f)
  bind-Yields m f ym yf w h = resume (m w) (ym w h)
    where
      resume : (r : World S × Outcome A) → Ends P Q r → Ends P R (after r f)
      resume (w', ok a) e = yf a e.1 w' e.0
      resume (w', failed) e = e

module _ {S : Type 0} (P : S → Type 0) where
  pub read-Yields : {A : Type 0} (result : S → A) → Yields P Any (read result)
  unfolding read
  read-Yields result = request-Yields P Any result (λ s. s) (λ s h. h) (λ s h. tt)

  pub write-Yields : (change : S → S) → ((s : S) → P s → P (change s)) → Yields P Any (write change)
  unfolding write
  write-Yields change keep = request-Yields P Any (λ s. tt) change keep (λ s h. tt)

  pub then-Yields :
      {B : Type 0} (R : B → Type 0) (m : M S (Unit {0})) (k : M S B)
      → Yields P Any m
      → Yields P R k
      → Yields P R (m >> k)
  then-Yields R m k ym yk = bind-Yields P Any R m (λ _. k) ym (λ _ _. yk)
