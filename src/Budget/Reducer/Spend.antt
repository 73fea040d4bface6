-- ===== src/Budget/Reducer/Spend.antt =====
-- What the reducer sums: pruning a replica's key does not lose the spend it recorded.
use kubeclaw.Prelude.{
  String, ◌≡◌, refl, ap, ◌∙◌, Bool, true, false, Option, none, some, [], ◌∷◌, not, ◌&&◌, ◌||◌,
  str_eq, if◌then◌else◌, arith, Bool-cases, inl, inr, sym,
}
use kubeclaw.Prelude.Maps.{Map, lookup, get_or, Unique}
use kubeclaw.Prelude.Floats.{Floats}
use kubeclaw.Budget.Ledger.{zero_usd}
use kubeclaw.Budget.Wire.{Parsed, parse_partial, sum_into}
use kubeclaw.Budget.Exchange.{Json, canonical_key, retired_key}
use kubeclaw.Budget.Exchange.Fold.{
  add_found, get_or-sum_into, parse_partial-Unique, worth, cons_some, contributions, total,
  total-cons_some,
}
use kubeclaw.Budget.Reducer.{BudgetFold, start_fold, reduce_key, reduce_from, fold_budget_keys}

-- the keys that are summed as live partials
abbrev pub is_current : (String → Bool) → String → Bool
is_current live k =
    if str_eq k canonical_key then false else if str_eq k retired_key then false else live k

-- the keys that are summed as retired: _retired itself and the pruned replicas'
abbrev pub is_retired : (String → Bool) → String → Bool
is_retired live k =
    if str_eq k canonical_key then false else if str_eq k retired_key then true else not (live k)

module _ (F : Floats) where
  -- a map after a partial has been summed into it
  abbrev summed : String → Option (Parsed F) → Bool → Map F.Float → Map F.Float
  summed current none takes dst = dst
  summed current (some p) takes dst =
      if takes then (if str_eq p.period current then sum_into F p.spend dst else dst) else dst

  reduce_key_sums :
      (live : String → Bool) (current k : String) (parsed : Option (Parsed F)) (f : BudgetFold F)
      → let f' = reduce_key F live current k parsed f in
        (f'.current ≡ summed current parsed (is_current live k) f.current)
        × (f'.retired ≡ summed current parsed (is_retired live k) f.retired)
  unfolding reduce_key
  reduce_key_sums live current k parsed f = ground arith

  summed-worth :
      (current ns : String) (o : Option (Parsed F)) (takes : Bool) (dst : Map F.Float)
      → ((p : Parsed F) → o ≡ some p → Unique p.spend)
      → get_or (zero_usd F) ns (summed current o takes dst)
        ≡ add_found F (get_or (zero_usd F) ns dst) (if takes then worth F current ns o else none)
  summed-worth current ns none takes dst u = ground arith
  summed-worth current ns (some p) false dst u = refl
  summed-worth current ns (some p) true dst u = elim (Bool-cases (str_eq p.period current)) [
    | inl now ↦ rw now (get_or-sum_into F ns p.spend dst (u p refl))
    | inr past ↦ rw past
  ]

  contributions-cons :
      (json : Json) (selects : String → Bool) (current ns k raw : String) (m : Map String)
      → contributions F json selects current ns ((k, raw) ∷ m)
        ≡ cons_some F
            (if selects k then worth F current ns (parse_partial F json.decode raw) else none)
            (contributions F json selects current ns m)
  contributions-cons json selects current ns k raw m = elim (Bool-cases (selects k)) [
    | inl e ↦ rw e
    | inr e ↦ rw e
  ]

  -- a fold that sums the selected keys into one map
  module _ (json : Json) (live : String → Bool) (current ns : String) where
    sums_to : (String → Bool) → Map String → Map F.Float → F.Float
    sums_to selects m dst =
        total F (get_or (zero_usd F) ns dst) (contributions F json selects current ns m)

    sums_to-cons :
        (selects : String → Bool) (k raw : String) (m : Map String) (dst : Map F.Float)
        → sums_to selects m (summed current (parse_partial F json.decode raw) (selects k) dst)
          ≡ sums_to selects ((k, raw) ∷ m) dst
    unfolding sums_to
    sums_to-cons selects k raw m dst =
        let parsed = parse_partial F json.decode raw in
        let rest = contributions F json selects current ns m in
        ap (λ (x : F.Float). total F x rest)
          (summed-worth current ns parsed (selects k) dst (parse_partial-Unique F json.decode raw))
        ∙ total-cons_some F (get_or (zero_usd F) ns dst)
            (if selects k then worth F current ns parsed else none) rest
        ∙ ap (total F (get_or (zero_usd F) ns dst))
            (sym (contributions-cons json selects current ns k raw m))

    reduce_from_sums :
        (m : Map String) (f : BudgetFold F)
        → let f' = reduce_from F json live current m f in
          (get_or (zero_usd F) ns f'.current ≡ sums_to (is_current live) m f.current)
          × (get_or (zero_usd F) ns f'.retired ≡ sums_to (is_retired live) m f.retired)
    unfolding reduce_from sums_to
    reduce_from_sums [] f = (refl, refl)
    reduce_from_sums ((k, raw) ∷ m) f =
        let parsed = parse_partial F json.decode raw in
        let f' = reduce_key F live current k parsed f in
        let ih = reduce_from_sums m f' in
        let sums = reduce_key_sums live current k parsed f in
        (
          ih.0
              ∙ ap (sums_to (is_current live) m) sums.0
              ∙ sums_to-cons (is_current live) k raw m f.current,
          ih.1
              ∙ ap (sums_to (is_retired live) m) sums.1
              ∙ sums_to-cons (is_retired live) k raw m f.retired,
        )

    -- The current view of a namespace is the sum over the live replicas' partials of the current
    -- period, and the retired view the sum over _retired and every pruned replica's: each partial
    -- of the current period is in exactly one of the two.
    pub fold_budget_keys_sums :
        (m : Map String)
        → let f = fold_budget_keys F json live current m in
          (get_or (zero_usd F) ns f.current
            ≡ total F (zero_usd F) (contributions F json (is_current live) current ns m))
          × (get_or (zero_usd F) ns f.retired
              ≡ total F (zero_usd F) (contributions F json (is_retired live) current ns m))
          × ((k : String)
              → (is_current live k && is_retired live k ≡ false)
                × (is_current live k || is_retired live k ≡ not (str_eq k canonical_key)))
    unfolding fold_budget_keys sums_to lookup
    fold_budget_keys_sums m =
        let both = reduce_from_sums m (start_fold F m) in
        (both.0, both.1, λ k. (ground arith, ground arith))
