-- ===== src/Tenancy/Qualified.antt =====
-- The {provider}/{model} names of requests: splitQualifiedModel of internal/gateway/routing.go,
-- over the bytes of the name.
use kubeclaw.Prelude.{
  ℕ, zero, suc, ◌<◌, ◌+◌, ◌≡◌, ◌≢◌, refl, ap, sym, false, ◌||◌, Option, none, some, List, [], ◌∷◌,
  ◌++◌, arith, ◌==◌, length, length-append, if◌then◌else◌, All, Bool-cases, inl, inr,
}

abbrev pub slash : ℕ
slash = 47

-- strings.Index(s, "/"), `none` for -1
unfoldable pub index_of_slash : List ℕ → Option ℕ
index_of_slash [] = none
index_of_slash (c ∷ s) =
    let rest = index_of_slash s in
    if c == slash then some 0 else elim rest [ none ↦ none | some i ↦ some (suc i) ]

-- s[:n] and s[n:]
abbrev pub take : ℕ → List ℕ → List ℕ
take zero s = []
take (suc n) [] = []
take (suc n) (c ∷ s) = c ∷ take n s

abbrev pub drop : ℕ → List ℕ → List ℕ
drop zero s = s
drop (suc n) [] = []
drop (suc n) (c ∷ s) = drop n s

-- the test on the index, and the two parts
unfoldable pub cut : List ℕ → Option ℕ → Option (List ℕ × List ℕ)
cut s none = none
cut s (some i) = if i == 0 || suc i == length s then none else some (take i s, drop (suc i) s)

-- `none` where ok is false
unfoldable pub split_qualified_model : List ℕ → Option (List ℕ × List ℕ)
unfolding index_of_slash cut
split_qualified_model qualified = cut qualified (index_of_slash qualified)

abbrev pub NoSlash : List ℕ → Type 0
NoSlash = All (λ c. c ≢ slash)

index_of_slash-append :
    (p m : List ℕ) → NoSlash p → index_of_slash (p ++ slash ∷ m) ≡ some (length p)
unfolding index_of_slash
index_of_slash-append [] m clean = ground arith
index_of_slash-append (c ∷ p) m clean = ground (arith, clean.0, index_of_slash-append p m clean.1)

take-length : (p s : List ℕ) → take (length p) (p ++ s) ≡ p
take-length [] s = refl
take-length (c ∷ p) s = ap (λ t. c ∷ t) (take-length p s)

drop-length : (p : List ℕ) (c : ℕ) (s : List ℕ) → drop (suc (length p)) (p ++ c ∷ s) ≡ s
drop-length [] c s = refl
drop-length (b ∷ p) c s = drop-length p c s

-- A provider's name without a slash and a model's, both not empty, joined by a slash are split
-- where they were joined, whatever slashes the model's name has.
pub split_qualified_model-append :
    (c : ℕ) (p : List ℕ) (d : ℕ) (m : List ℕ)
    → NoSlash (c ∷ p)
    → split_qualified_model (c ∷ p ++ slash ∷ d ∷ m) ≡ some (c ∷ p, d ∷ m)
unfolding split_qualified_model
split_qualified_model-append c p d m clean =
    rw
      (
        split_qualified_model,
        cut,
        index_of_slash-append (c ∷ p) (d ∷ m) clean,
        length-append (c ∷ p) (slash ∷ d ∷ m),
        take-length (c ∷ p) (slash ∷ d ∷ m),
        drop-length (c ∷ p) slash (d ∷ m),
      )
      ground arith

-- what an index stands for
record Found (s : List ℕ) (i : ℕ) : Type 0 where
  inside : i < length s
  around : s ≡ take i s ++ slash ∷ drop (suc i) s
  first : NoSlash (take i s)
  before : length (take i s) ≡ i
  after : length (drop (suc i) s) + suc i ≡ length s

abbrev Indexed : List ℕ → Option ℕ → Type 0
Indexed s none = Unit
Indexed s (some i) = Found s i

here : (c : ℕ) (s : List ℕ) → c ≡ slash → Found (c ∷ s) 0
here c s e = record {
  inside = omega arith;
  around = ap (λ b. b ∷ s) e;
  first = tt;
  before = refl;
  after = omega arith;
}

later : (c : ℕ) (s : List ℕ) (i : ℕ) → c ≢ slash → Found s i → Found (c ∷ s) (suc i)
later c s i other f = record {
  inside = omega (arith, f.inside);
  around = ap (λ t. c ∷ t) f.around;
  first = (other, f.first);
  before = ap suc f.before;
  after = omega (arith, f.after);
}

not_slash : (c : ℕ) → (c == slash) ≡ false → c ≢ slash
not_slash c h e = ground arith

shift :
    (c : ℕ) (s : List ℕ)
    → c ≢ slash
    → (o : Option ℕ) → Indexed s o
    → Indexed (c ∷ s) (elim o [ none ↦ none | some i ↦ some (suc i) ])
shift c s other none f = tt
shift c s other (some i) f = later c s i other f

index_of_slash-Indexed : (s : List ℕ) → Indexed s (index_of_slash s)
unfolding index_of_slash
index_of_slash-Indexed [] = tt
index_of_slash-Indexed (c ∷ s) = elim (Bool-cases (c == slash)) [
  | inl slashed ↦ rw slashed (here c s (ground arith))
  | inr other ↦
      rw other (shift c s (not_slash c other) (index_of_slash s) (index_of_slash-Indexed s))
]

not_empty : (s : List ℕ) → length s ≢ 0 → s ≢ []
not_empty s h e = h (ap length e)

cut_sound :
    (q : List ℕ) (o : Option ℕ) (p m : List ℕ)
    → Indexed q o
    → cut q o ≡ some (p, m)
    → (q ≡ p ++ slash ∷ m) × NoSlash p × (p ≢ []) × (m ≢ [])
unfolding cut
cut_sound q none p m f h = ground arith
cut_sound q (some i) p m f h =
    let first : take i q ≡ p = ground arith in
    let second : drop (suc i) q ≡ m = ground arith in
    rw (sym first, sym second)
      (
        f.around,
        f.first,
        not_empty (take i q) (λ e. ground (arith, f.before, e)),
        not_empty (drop (suc i) q) (λ e. ground (arith, f.after, e)),
      )

-- What is split was the two parts with a slash between them, the first without a slash and
-- neither of them empty.
pub split_qualified_model_sound :
    (q p m : List ℕ)
    → split_qualified_model q ≡ some (p, m)
    → (q ≡ p ++ slash ∷ m) × NoSlash p × (p ≢ []) × (m ≢ [])
unfolding split_qualified_model
split_qualified_model_sound q p m h =
    cut_sound q (index_of_slash q) p m (index_of_slash-Indexed q) h
