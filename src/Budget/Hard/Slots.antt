-- ===== src/Budget/Hard/Slots.antt =====
-- What taking and freeing admission slots does to the slot map.
use kubeclaw.Prelude.{
  ℕ, String, Bool, ◌≡◌, ◌≢◌, refl, ◌∙◌, ◌⊎◌, inl, none, some, List, [], ◌∷◌, str_eq, if◌then◌else◌,
  any, str_eq_iff, All, arith,
}
use kubeclaw.Prelude.Maps.{Map, lookup, insert, erase, lookup-insert, lookup-erase}
use kubeclaw.Budget.Hard.{release, take_slots}

-- every key of the list is held by the token
abbrev pub Held : ℕ → List String → Map ℕ → Type 0
Held token keys adm = All (λ k. lookup k adm ≡ some token) keys

abbrev pub Free : List String → Map ℕ → Type 0
Free keys adm = All (λ k. lookup k adm ≡ none) keys

-- a slot that another token holds is not touched
pub release_other :
    (t u : ℕ) (j : String) (keys : List String) (adm : Map ℕ)
    → lookup j adm ≡ some u
    → u ≢ t
    → lookup j (release t keys adm) ≡ some u
unfolding release
release_other t u j [] adm h ne = h
release_other t u j (k ∷ keys) adm h ne = ground (
  arith,
  release_other t u j keys (erase k adm),
  release_other t u j keys adm h ne,
  lookup-erase k j adm,
  str_eq_iff k j,
)

-- a free slot stays free
pub release_free :
    (t : ℕ) (j : String) (keys : List String) (adm : Map ℕ)
    → lookup j adm ≡ none
    → lookup j (release t keys adm) ≡ none
unfolding release
release_free t j [] adm h = h
release_free t j (k ∷ keys) adm h =
    ground (
      arith,
      release_free t j keys (erase k adm),
      release_free t j keys adm h,
      lookup-erase k j adm,
    )

abbrev pub is_key : String → List String → Bool
is_key k keys = any (λ (j : String). str_eq j k) keys

-- each slot of the keys is held by the token or free
abbrev HeldOrFree : ℕ → List String → Map ℕ → Type 0
HeldOrFree t keys adm = All (λ j. (lookup j adm ≡ some t) ⊎ (lookup j adm ≡ none)) keys

erase-HeldOrFree :
    (t : ℕ) (k : String) (keys : List String) (adm : Map ℕ)
    → HeldOrFree t keys adm
    → HeldOrFree t keys (erase k adm)
erase-HeldOrFree t k [] adm h = tt
erase-HeldOrFree t k (j ∷ keys) adm h =
    (ground (arith, h.0, lookup-erase k j adm), erase-HeldOrFree t k keys adm h.1)

release-HeldOrFree :
    (t : ℕ) (k : String) (keys : List String) (adm : Map ℕ)
    → HeldOrFree t keys adm
    → lookup k (release t keys adm) ≡ (if is_key k keys then none else lookup k adm)
unfolding release
release-HeldOrFree t k [] adm h = refl
release-HeldOrFree t k (j ∷ keys) adm h = ground (
  arith,
  h.0,
  str_eq_iff j k,
  lookup-erase j k adm,
  release_free t k keys adm,
  release-HeldOrFree t k keys adm h.1,
  release-HeldOrFree t k keys (erase j adm) (erase-HeldOrFree t j keys adm h.1),
)

Held-HeldOrFree :
    (t : ℕ) (keys : List String) (adm : Map ℕ) → Held t keys adm → HeldOrFree t keys adm
Held-HeldOrFree t [] adm h = tt
Held-HeldOrFree t (k ∷ keys) adm h = (inl h.0, Held-HeldOrFree t keys adm h.1)

-- releasing the slots that a token holds frees these and no other
pub release-Held :
    (t : ℕ) (k : String) (keys : List String) (adm : Map ℕ)
    → Held t keys adm
    → lookup k (release t keys adm) ≡ (if is_key k keys then none else lookup k adm)
release-Held t k keys adm h = release-HeldOrFree t k keys adm (Held-HeldOrFree t keys adm h)

-- taking slots that were free does not touch a slot that was held
pub take_slots_other :
    (t u : ℕ) (j : String) (keys : List String) (adm : Map ℕ)
    → All (λ k. k ≢ j) keys
    → lookup j (take_slots t keys adm) ≡ lookup j adm
unfolding take_slots
take_slots_other t u j [] adm h = refl
take_slots_other t u j (k ∷ keys) adm h =
    take_slots_other t u j keys (insert k t adm) h.1
    ∙ ground (arith, h.0, lookup-insert k j t adm, str_eq_iff k j)

pub Free-ne :
    (u : ℕ) (j : String) (keys : List String) (adm : Map ℕ)
    → Free keys adm
    → lookup j adm ≡ some u
    → All (λ k. k ≢ j) keys
Free-ne u j [] adm h e = tt
Free-ne u j (k ∷ keys) adm h e = ((λ p. cc (h.0)), Free-ne u j keys adm h.1 e)

take_slots_kept :
    (t : ℕ) (j : String) (keys : List String) (adm : Map ℕ)
    → lookup j adm ≡ some t
    → lookup j (take_slots t keys adm) ≡ some t
unfolding take_slots
take_slots_kept t j [] adm h = h
take_slots_kept t j (k ∷ keys) adm h =
    take_slots_kept t j keys (insert k t adm) (ground (arith, lookup-insert k j t adm))

-- the token holds every slot that it took
pub take_slots-Held :
    (t : ℕ) (keys : List String) (adm : Map ℕ) → Held t keys (take_slots t keys adm)
unfolding take_slots
take_slots-Held t [] adm = tt
take_slots-Held t (k ∷ keys) adm = (
  take_slots_kept t k keys (insert k t adm)
      (ground (arith, lookup-insert k k t adm, str_eq_iff k k)),
  take_slots-Held t keys (insert k t adm),
)
