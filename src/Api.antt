-- ===== src/Api.antt =====
-- Calls of the Kubernetes API as a monad: the state that the calls read and change, and which of
-- the calls to come fail. An error returns early, as in `if err != nil { return err }`.
pub mod Yields
use kubeclaw.Prelude.{Bool, true, false, List, [], ◌∷◌}

pub data Outcome (A : Type 0) : Type 0 where
  ok : A → Outcome A
  failed : Outcome A

-- `faults` tells of the calls in their order whether they fail; after its end none does.
pub record World (S : Type 0) : Type 0 where
  pub state : S
  pub faults : List Bool

abbrev pub M : Type 0 → Type 0 → Type 0
M S A = World S → World S × Outcome A

abbrev pub after : {S A B : Type 0} → World S × Outcome A → (A → M S B) → World S × Outcome B
after (w, ok a) f = f a w
after (w, failed) f = (w, failed)

infixl 5 ◌>>=◌ ◌>>◌
abbrev pub ◌>>=◌ : {S A B : Type 0} → M S A → (A → M S B) → M S B
◌>>=◌ m f w = after (m w) f

abbrev pub ◌>>◌ : {S B : Type 0} → M S (Unit {0}) → M S B → M S B
m >> k = m >>= λ _. k

abbrev pub pure : {S A : Type 0} → A → M S A
pure a w = (w, ok a)

abbrev pub raise : {S A : Type 0} → M S A
raise w = (w, failed)

-- one call: its result and its change, unless it fails
unfoldable pub request : {S A : Type 0} → (S → A) → (S → S) → M S A
request result change w = elim w.faults [
  | [] ↦ (record { state = change w.state; faults = [] }, ok (result w.state))
  | fault ∷ faults ↦ elim fault [
    | true ↦ (record { state = w.state; faults = faults }, failed)
    | false ↦ (record { state = change w.state; faults = faults }, ok (result w.state))
  ]
]

unfoldable pub read : {S A : Type 0} → (S → A) → M S A
unfolding request
read result = request result (λ s. s)

unfoldable pub write : {S : Type 0} → (S → S) → M S (Unit {0})
unfolding request
write change = request (λ s. tt) change

-- `P` holds of the state after every call if it held before, whether the calls fail or not.
abbrev pub Keeps : {S A : Type 0} → (S → Type 0) → M S A → Type 0
Keeps {S} P m = (w : World S) → P w.state → P (m w).0.state

module _ {S A : Type 0} (P : S → Type 0) where
  pub request-Keeps :
      (result : S → A) (change : S → S)
      → ((s : S) → P s → P (change s))
      → Keeps P (request result change)
  unfolding request
  request-Keeps result change keep w h = by_faults w.faults
    where
      by_faults :
          (faults : List Bool)
          → P
              (elim faults as (λ _. World S × Outcome A) [
                | [] ↦ (record { state = change w.state; faults = [] }, ok (result w.state))
                | fault ∷ faults ↦ elim fault [
                  | true ↦ (record { state = w.state; faults = faults }, failed)
                  | false ↦
                      (record { state = change w.state; faults = faults }, ok (result w.state))
                ]
              ]).0.state
      by_faults [] = keep w.state h
      by_faults (true ∷ faults) = h
      by_faults (false ∷ faults) = keep w.state h

  pub read-Keeps : (result : S → A) → Keeps P (read result)
  unfolding read
  read-Keeps result = request-Keeps result (λ s. s) (λ s h. h)

module _ {S : Type 0} (P : S → Type 0) where
  pub write-Keeps : (change : S → S) → ((s : S) → P s → P (change s)) → Keeps P (write change)
  unfolding write
  write-Keeps change keep = request-Keeps P (λ s. tt) change keep

  pub pure-Keeps : {A : Type 0} (a : A) → Keeps P (pure {S = S} a)
  pure-Keeps a w h = h

  pub bind-Keeps :
      {A B : Type 0} (m : M S A) (f : A → M S B)
      → Keeps P m
      → ((a : A) → Keeps P (f a))
      → Keeps P (m >>= f)
  bind-Keeps {A} {B} m f km kf w h = resume (m w) (km w h)
    where
      resume : (r : World S × Outcome A) → P r.0.state → P (after r f).0.state
      resume (w', ok a) h' = kf a w' h'
      resume (w', failed) h' = h'

-- a read of the whole state, and what follows it
pub read_all-Keeps :
    {S A : Type 0} (P : S → Type 0) (f : S → M S A) (w : World S)
    → P w.state
    → ((faults : List Bool) → P (f w.state (record { state = w.state; faults = faults })).0.state)
    → P ((read (λ s. s) >>= f) w).0.state
unfolding read request
read_all-Keeps {S} {A} P f w h k = by_faults w.faults
  where
    by_faults :
        (faults : List Bool)
        → P
            (after {S = S} {A = S} {B = A}
              (elim faults as (λ _. World S × Outcome S) [
                | [] ↦ (record { state = w.state; faults = [] }, ok w.state)
                | fault ∷ faults ↦ elim fault [
                  | true ↦ (record { state = w.state; faults = faults }, failed)
                  | false ↦ (record { state = w.state; faults = faults }, ok w.state)
                ]
              ])
              f).0.state
    by_faults [] = k []
    by_faults (true ∷ faults) = h
    by_faults (false ∷ faults) = k faults

-- one write, and what follows it
pub write_then-Keeps :
    {S A : Type 0} (P : S → Type 0) (change : S → S) (k : M S A) (w : World S)
    → P w.state
    → ((faults : List Bool) → P (k (record { state = change w.state; faults = faults })).0.state)
    → P ((write change >> k) w).0.state
unfolding write request
write_then-Keeps {S} {A} P change k w h kk = by_faults w.faults
  where
    by_faults :
        (faults : List Bool)
        → P
            (after {S = S} {A = Unit {0}} {B = A}
              (elim faults as (λ _. World S × Outcome (Unit {0})) [
                | [] ↦ (record { state = change w.state; faults = [] }, ok tt)
                | fault ∷ faults ↦ elim fault [
                  | true ↦ (record { state = w.state; faults = faults }, failed)
                  | false ↦ (record { state = change w.state; faults = faults }, ok tt)
                ]
              ])
              (λ _. k)).0.state
    by_faults [] = kk []
    by_faults (true ∷ faults) = h
    by_faults (false ∷ faults) = kk faults
