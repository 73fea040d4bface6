-- ===== src/Prelude/Maps.antt =====
-- Go's map[string]V as an association list. A loop over the map reads it in list order, one of
-- the orders that Go may take; a missing key reads as `none`, or as a zero value by `get_or`.
use Prim.Native.String.{String}
use mathlib.Core.Path.{◌≡◌, refl}
use mathlib.Core.Option.{Option, none, some}
use mathlib.Core.List.{List, [], ◌∷◌}
use text.Mathlib.Text.{◌==◌ as str_eq}
use text.Mathlib.TextEquality.{eq_iff}
use native.Mathlib.Omega.{arith}
use kubeclaw.Prelude.Tests.{if◌then◌else◌}

abbrev pub Map {ℓ} : Type ℓ → Type ℓ
Map V = List (String × V)

module _ {ℓ} {V : Type ℓ} where
  -- v, ok := m[name]
  unfoldable pub lookup : String → Map V → Option V
  lookup name [] = none
  lookup name (e ∷ rest) = if str_eq e.0 name then some e.1 else lookup name rest

  -- m[name] = value, in place where the name stands already
  unfoldable pub insert : String → V → Map V → Map V
  insert name value [] = (name, value) ∷ []
  insert name value (e ∷ rest) =
      if str_eq e.0 name then (name, value) ∷ rest else e ∷ insert name value rest

  -- Go's delete(m, k)
  unfoldable pub erase : String → Map V → Map V
  erase k [] = []
  erase k ((j, v) ∷ m) = let rest = erase k m in if str_eq j k then rest else (j, v) ∷ rest

  abbrev pub or_zero : V → Option V → V
  or_zero d none = d
  or_zero d (some v) = v

  -- m[k] where the zero value of V is `d`
  abbrev pub get_or : V → String → Map V → V
  get_or d k m = or_zero d (lookup k m)

  pub lookup-insert :
      (key name : String) (value : V) (m : Map V)
      → lookup name (insert key value m) ≡ (if str_eq key name then some value else lookup name m)
  unfolding lookup insert
  lookup-insert key name value [] = refl
  lookup-insert key name value (e ∷ rest) =
      let same = eq_iff key name in
      let mine = eq_iff e.0 key in
      ground (arith, lookup-insert key name value rest, eq_iff e.0 name, mine, same)

  pub lookup-erase :
      (k j : String) (m : Map V) → lookup j (erase k m) ≡ (if str_eq k j then none else lookup j m)
  unfolding lookup erase
  lookup-erase k j [] = ground arith
  lookup-erase k j ((i, w) ∷ m) =
      ground (arith, eq_iff k j, eq_iff i k, eq_iff i j, lookup-erase k j m)

  lookup_nil : (k : String) → lookup k [] ≡ none
  unfolding lookup
  lookup_nil k = refl

  -- no key stands twice, as in every Go map
  abbrev pub Unique : Map V → Type ℓ
  Unique [] = Unit
  Unique ((k, v) ∷ m) = (lookup k m ≡ none) × Unique m

  pub insert-Unique : (k : String) (v : V) (m : Map V) → Unique m → Unique (insert k v m)
  unfolding insert
  insert-Unique k v [] u = (lookup_nil k, tt)
  insert-Unique k v ((j, w) ∷ m) u =
      ground (arith, eq_iff j k, eq_iff k j, lookup-insert k j v m, insert-Unique k v m u.1)
