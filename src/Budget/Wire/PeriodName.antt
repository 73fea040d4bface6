-- ===== src/Budget/Wire/PeriodName.antt =====
-- A namespace whose name is "period": its amount takes the place of the period on the wire.
use kubeclaw.Prelude.{
  String, ◌≡◌, refl, ◌∙◌, none, some, [], ◌∷◌, str_eq, str_eq_iff, arith, Bool-cases, inl, inr,
}
use kubeclaw.Prelude.Maps.{Map, lookup, insert, lookup-insert, Unique, insert-Unique}
use kubeclaw.Prelude.Floats.{Floats}
use kubeclaw.Budget.Ledger.{Partial}
use kubeclaw.Budget.Wire.{
  margin_field, put_all, marshal, Parsed, nothing_parsed, parse_field, parse_fields,
}

-- what a write of all of `m` over `out` leaves at a key
lookup-put_all :
    (j : String) (m out : Map String)
    → Unique m
    → lookup j (put_all m out) ≡ elim (lookup j m) [ none ↦ lookup j out | some v ↦ some v ]
unfolding put_all lookup
lookup-put_all j [] out u = refl
lookup-put_all j ((k, v) ∷ m) out u =
    ground (arith, lookup-put_all j m (insert k v out) u.1, lookup-insert k j v out, str_eq_iff k j)

put_all-Unique : (m out : Map String) → Unique out → Unique (put_all m out)
unfolding put_all
put_all-Unique [] out u = u
put_all-Unique ((k, v) ∷ m) out u = put_all-Unique m (insert k v out) (insert-Unique k v out u)

module _ (F : Floats) where
  parse_fields_no_period :
      (flat : Map String) (acc : Parsed F)
      → lookup "period" flat ≡ none
      → (parse_fields F flat acc).period ≡ acc.period
  unfolding parse_fields parse_field lookup
  parse_fields_no_period [] acc h = refl
  parse_fields_no_period ((k, v) ∷ flat) acc h =
      parse_fields_no_period flat (parse_field F k v acc) (ground arith) ∙ ground arith

  -- the period that is read is the one field "period" of the object
  pub parse_fields_period :
      (flat : Map String) (acc : Parsed F) (v : String)
      → Unique flat
      → lookup "period" flat ≡ some v
      → (parse_fields F flat acc).period ≡ v
  unfolding parse_fields parse_field lookup
  parse_fields_period [] acc v u h = cc
  parse_fields_period ((k, w) ∷ flat) acc v u h = elim (Bool-cases (str_eq k "period")) [
    | inl this ↦
        parse_fields_no_period flat (parse_field F k w acc)
          (ground (arith, u.0, str_eq_iff k "period"))
        ∙ ground arith
    | inr other ↦ parse_fields_period flat (parse_field F k w acc) v u.1 (ground arith)
  ]

  marshal_period :
      (p : Partial F) (v : String)
      → Unique p.spend
      → lookup "period" p.spend ≡ some v
      → lookup "period" (marshal F p) ≡ some v
  unfolding marshal
  marshal_period p v u h =
      let out = put_all p.spend (("period", p.period) ∷ []) in
      ground (
        arith,
        lookup-put_all "period" p.spend (("period", p.period) ∷ []) u,
        lookup-insert margin_field "period" "true" out,
      )

  marshal-Unique : (p : Partial F) → Unique (marshal F p)
  unfolding marshal lookup
  marshal-Unique p =
      let out = put_all p.spend (("period", p.period) ∷ []) in
      let u : Unique out = put_all-Unique p.spend (("period", p.period) ∷ []) (refl, tt) in
      elim (Bool-cases p.margin_exceeded) [
        | inl on ↦ rw on (insert-Unique margin_field "true" out u)
        | inr off ↦ rw off u
      ]

  -- Where a namespace named "period" has spend, a peer reads that namespace's amount as the
  -- partial's period, whatever period the replica published.
  pub parse_period_namespace :
      (p : Partial F) (v : String)
      → Unique p.spend
      → lookup "period" p.spend ≡ some v
      → (parse_fields F (marshal F p) (nothing_parsed F)).period ≡ v
  parse_period_namespace p v u h =
      parse_fields_period (marshal F p) (nothing_parsed F) v (marshal-Unique p)
        (marshal_period p v u h)
