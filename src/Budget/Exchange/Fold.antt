-- ===== src/Budget/Exchange/Fold.antt =====
-- The peer view as a sum: what a replica folds for each namespace.
use kubeclaw.Prelude.{
  Option-cases, subst, String, ◌≡◌, refl, ap, ◌∙◌, Bool, true, false, not, ◌||◌, Option, none, some,
  List, [], ◌∷◌, str_eq, str_eq_iff, if◌then◌else◌, arith, Bool-cases, inl, inr,
}
use kubeclaw.Prelude.Maps.{Map, lookup, get_or, lookup-insert, Unique, insert-Unique}
use kubeclaw.Prelude.Floats.{Floats}
use kubeclaw.Budget.Ledger.{bump, zero_usd}
use kubeclaw.Budget.Wire.{
  Parsed, nothing_parsed, parse_field, parse_fields, parse_partial, sum_into,
}
use kubeclaw.Budget.Exchange.{Json, counts_for, add_partial, fold_from, fold_partials}

-- the key of another replica
abbrev pub is_peer : String → String → Bool
is_peer own_pod key = if str_eq key own_pod then false else not (str_eq key "_canonical")

module _ (F : Floats) where
  abbrev pub add_found : F.Float → Option F.Float → F.Float
  add_found x none = x
  add_found x (some v) = F.add x v

  -- summing a map in adds its amount at each key, and nothing elsewhere
  pub get_or-sum_into :
      (ns : String) (src dst : Map F.Float)
      → Unique src
      → get_or (zero_usd F) ns (sum_into F src dst)
        ≡ add_found (get_or (zero_usd F) ns dst) (lookup ns src)
  unfolding sum_into bump lookup
  get_or-sum_into ns [] dst u = refl
  get_or-sum_into ns ((k, v) ∷ src) dst u = ground (
    arith,
    get_or-sum_into ns src (bump F k v dst) u.1,
    lookup-insert k ns (F.add (get_or (zero_usd F) k dst) v) dst,
    str_eq_iff k ns,
  )

  parse_field-Unique :
      (k v : String) (acc : Parsed F) → Unique acc.spend → Unique (parse_field F k v acc).spend
  unfolding parse_field
  parse_field-Unique k v acc u = elim (Option-cases (F.parse v)) [
    | inl bad ↦ ground arith
    | inr (f, good) ↦ ground (arith, insert-Unique k f acc.spend u)
  ]

  parse_fields-Unique :
      (flat : Map String) (acc : Parsed F)
      → Unique acc.spend
      → Unique (parse_fields F flat acc).spend
  unfolding parse_fields
  parse_fields-Unique [] acc u = u
  parse_fields-Unique ((k, v) ∷ flat) acc u =
      parse_fields-Unique flat (parse_field F k v acc) (parse_field-Unique k v acc u)

  pub parse_partial-Unique :
      (decode : String → Option (Map String)) (raw : String) (p : Parsed F)
      → parse_partial F decode raw ≡ some p
      → Unique p.spend
  unfolding parse_partial
  parse_partial-Unique decode raw p e = elim (Option-cases (decode raw)) [
    | inl bad ↦ cc
    | inr (flat, good) ↦
        subst (λ (q : Parsed F). Unique q.spend) {x = parse_fields F flat (nothing_parsed F)}
          {y = p} (ground arith) (parse_fields-Unique flat (nothing_parsed F) tt)
  ]

  -- What one partial is worth to namespace `ns` in the current period.
  abbrev pub worth : String → String → Option (Parsed F) → Option F.Float
  worth current ns none = none
  worth current ns (some p) = if str_eq p.period current then lookup ns p.spend else none

  abbrev pub cons_some : Option F.Float → List F.Float → List F.Float
  cons_some none vs = vs
  cons_some (some v) vs = v ∷ vs

  -- The amounts for `ns` under the keys that are selected, in the order of the ConfigMap.
  abbrev pub contributions : Json → (String → Bool) → String → String → Map String → List F.Float
  contributions json selects current ns [] = []
  contributions json selects current ns ((key, raw) ∷ m) =
      let rest = contributions json selects current ns m in
      if selects key
      then cons_some (worth current ns (parse_partial F json.decode raw)) rest
      else rest

  abbrev pub total : F.Float → List F.Float → F.Float
  total acc [] = acc
  total acc (v ∷ vs) = total (F.add acc v) vs

  pub total-cons_some :
      (x : F.Float) (o : Option F.Float) (vs : List F.Float)
      → total (add_found x o) vs ≡ total x (cons_some o vs)
  total-cons_some x none vs = refl
  total-cons_some x (some v) vs = refl

  add_partial-worth :
      (current ns : String) (o : Option (Parsed F)) (peers : Map F.Float)
      → ((p : Parsed F) → o ≡ some p → Unique p.spend)
      → get_or (zero_usd F) ns (add_partial F current o peers)
        ≡ add_found (get_or (zero_usd F) ns peers) (worth current ns o)
  unfolding add_partial
  add_partial-worth current ns none peers u = refl
  add_partial-worth current ns (some p) peers u = elim (Bool-cases (str_eq p.period current)) [
    | inl now ↦ rw now (get_or-sum_into ns p.spend peers (u p refl))
    | inr past ↦ rw past
  ]

  fold_from-total :
      (json : Json) (own_pod current ns : String) (m : Map String) (peers : Map F.Float)
      → get_or (zero_usd F) ns (fold_from F json own_pod current m peers)
        ≡ total
            (get_or (zero_usd F) ns peers)
            (contributions json (counts_for F own_pod) current ns m)
  unfolding fold_from
  fold_from-total json own_pod current ns [] peers = refl
  fold_from-total json own_pod current ns ((key, raw) ∷ m) peers =
      let parsed = parse_partial F json.decode raw in
      let rest = contributions json (counts_for F own_pod) current ns m in
      elim (Bool-cases (counts_for F own_pod key)) [
        | inl counts ↦ rw counts (
            fold_from-total json own_pod current ns m (add_partial F current parsed peers)
            ∙ ap (λ (x : F.Float). total x rest)
                (add_partial-worth current ns parsed peers (parse_partial-Unique json.decode raw))
            ∙ total-cons_some (get_or (zero_usd F) ns peers) (worth current ns parsed) rest)
        | inr skipped ↦ rw skipped (fold_from-total json own_pod current ns m peers)
      ]

  counts-is_peer : (own_pod key : String) → counts_for F own_pod key ≡ is_peer own_pod key
  unfolding counts_for
  counts-is_peer own_pod key = by_tests (str_eq key own_pod) (str_eq key "_canonical")
    where
      by_tests : (a b : Bool) → not (a || b) ≡ (if a then false else not b)
      by_tests true b = refl
      by_tests false b = refl

  contributions-is_peer :
      (json : Json) (own_pod current ns : String) (m : Map String)
      → contributions json (counts_for F own_pod) current ns m
        ≡ contributions json (is_peer own_pod) current ns m
  contributions-is_peer json own_pod current ns [] = refl
  contributions-is_peer json own_pod current ns ((key, raw) ∷ m) =
      rw (counts-is_peer own_pod key, contributions-is_peer json own_pod current ns m) refl

  -- The peer view of a namespace is the sum, in the order of the ConfigMap, of what every partial
  -- of the current period holds for it, but for the replica's own key and _canonical.
  pub fold_partials-total :
      (json : Json) (m : Map String) (own_pod current ns : String)
      → get_or (zero_usd F) ns (fold_partials F json m own_pod current)
        ≡ total (zero_usd F) (contributions json (is_peer own_pod) current ns m)
  unfolding fold_partials lookup
  fold_partials-total json m own_pod current ns =
      fold_from-total json own_pod current ns m []
      ∙ ap (total (zero_usd F)) (contributions-is_peer json own_pod current ns m)
