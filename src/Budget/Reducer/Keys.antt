-- ===== src/Budget/Reducer/Keys.antt =====
-- Which keys of the ConfigMap the reducer keeps.
use kubeclaw.Prelude.{
  String, ◌≡◌, refl, Bool, true, false, Option, none, some, [], ◌∷◌, str_eq, str_eq_iff,
  if◌then◌else◌, arith,
}
use kubeclaw.Prelude.Maps.{Map, lookup, erase, lookup-erase, Unique}
use kubeclaw.Prelude.Floats.{Floats}
use kubeclaw.Budget.Wire.{Parsed, parse_partial}
use kubeclaw.Budget.Exchange.{Json, canonical_key, retired_key}
use kubeclaw.Budget.Reducer.{start_fold, BudgetFold, reduce_key, reduce_from, fold_budget_keys}

module _ (F : Floats) where
  -- not a partial of another period
  abbrev pub not_past : String → Option (Parsed F) → Bool
  not_past current none = true
  not_past current (some p) = str_eq p.period current

  -- _canonical stays, a dead replica's key goes, and any other stays until its period is over
  abbrev pub keeps : (String → Bool) → String → String → Option (Parsed F) → Bool
  keeps live current k parsed =
      if str_eq k canonical_key
      then true
      else if str_eq k retired_key
      then not_past current parsed
      else if live k
      then not_past current parsed
      else false

  reduce_key_entries :
      (live : String → Bool) (current k : String) (parsed : Option (Parsed F)) (f : BudgetFold F)
      → (reduce_key F live current k parsed f).entries
        ≡ (if keeps live current k parsed then f.entries else erase k f.entries)
  unfolding reduce_key
  reduce_key_entries live current k parsed f = ground arith

  reduce_from_entries :
      (json : Json) (live : String → Bool) (current j : String) (m : Map String) (f : BudgetFold F)
      → Unique m
      → lookup j (reduce_from F json live current m f).entries ≡ elim (lookup j m) [
        | none ↦ lookup j f.entries
        | some raw ↦
            if keeps live current j (parse_partial F json.decode raw)
            then lookup j f.entries
            else none
      ]
  unfolding reduce_from lookup
  reduce_from_entries json live current j [] f u = refl
  reduce_from_entries json live current j ((k, raw) ∷ m) f u =
      let parsed = parse_partial F json.decode raw in
      ground (
        arith,
        reduce_from_entries json live current j m (reduce_key F live current k parsed f) u.1,
        reduce_key_entries live current k parsed f,
        lookup-erase k j f.entries,
        str_eq_iff k j,
      )

  -- After the walk exactly the kept keys stand, with their values: the keys of live replicas and
  -- _retired that are not of another period, and _canonical.
  pub fold_budget_keys_kept :
      (json : Json) (live : String → Bool) (current k : String) (m : Map String)
      → Unique m
      → lookup k (fold_budget_keys F json live current m).entries ≡ elim (lookup k m) [
        | none ↦ none
        | some raw ↦
            if keeps live current k (parse_partial F json.decode raw) then some raw else none
      ]
  unfolding fold_budget_keys
  fold_budget_keys_kept json live current k m u =
      ground (arith, reduce_from_entries json live current k m (start_fold F m) u)
