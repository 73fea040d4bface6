-- ===== src/Budget/Wire/Roundtrip.antt =====
-- Parsing what was marshalled, and the namespace name for which that fails.
use kubeclaw.Prelude.{
  String, ◌≡◌, ◌≢◌, refl, sym, ap, ◌∙◌, Bool, true, false, none, some, [], ◌∷◌, ◌++◌, str_eq_of_ne,
  str_eq_iff, if◌then◌else◌, arith, Bool-cases, inl, inr,
}
use kubeclaw.Prelude.Maps.{Map, lookup, insert}
use kubeclaw.Prelude.Floats.{Floats}
use kubeclaw.Budget.Ledger.{Partial}
use kubeclaw.Budget.Wire.{
  margin_field, put_all, marshal, Parsed, nothing_parsed, parse_field, parse_fields,
}
use mathlib.Core.Bool.{false≢true}
use mathlib.Core.List.{append-nil, append_assoc}
use text.Mathlib.Text.{starts_with}

-- a new key goes to the end
insert_new {ℓ} :
    {V : Type ℓ} (k : String) (v : V) (m : Map V)
    → lookup k m ≡ none
    → insert k v m ≡ m ++ (k, v) ∷ []
unfolding lookup insert
insert_new k v [] h = refl
insert_new k v ((j, w) ∷ m) h = ground (arith, insert_new k v m)

lookup-append_new {ℓ} :
    {V : Type ℓ} (k j : String) (v : V) (m : Map V)
    → k ≢ j
    → lookup j m ≡ none
    → lookup j (m ++ (k, v) ∷ []) ≡ none
unfolding lookup
lookup-append_new k j v [] ne h = rw (str_eq_of_ne k j ne)
lookup-append_new k j v ((i, w) ∷ m) ne h = ground (arith, lookup-append_new k j v m ne)

-- Names that no key of `m` has, and that differ from each other.
abbrev pub NewKeys : {V W : Type 0} → Map V → Map W → Type 0
NewKeys [] m = Unit
NewKeys ((k, v) ∷ r) m = (lookup k m ≡ none) × (lookup k r ≡ none) × NewKeys r m

NewKeys-append :
    {V W : Type 0} (r : Map V) (m : Map W) (k : String) (w : W)
    → lookup k r ≡ none
    → NewKeys r m
    → NewKeys r (m ++ (k, w) ∷ [])
unfolding lookup
NewKeys-append [] m k w h n = tt
NewKeys-append ((j, v) ∷ r) m k w h n = (
  lookup-append_new k j w m (λ e. ground (arith, str_eq_iff j k)) n.0,
  n.1,
  NewKeys-append r m k w (ground arith) n.2,
)

put_all_new : (m out : Map String) → NewKeys m out → put_all m out ≡ out ++ m
unfolding put_all
put_all_new [] out n = sym (append-nil out)
put_all_new ((k, v) ∷ m) out n = rw (insert_new k v out n.0) (
    put_all_new m (out ++ (k, v) ∷ []) (NewKeys-append m out k v n.1 n.2)
    ∙ append_assoc out ((k, v) ∷ []) m)

module _ (F : Floats) where
  -- A spend as OwnPartial writes it, and its amounts: namespace names that are not "period" and
  -- do not start with an underscore, each once, with amounts that parse.
  abbrev pub Reads : Map String → Map F.Float → Type 0
  Reads [] [] = Unit
  Reads [] (e ∷ values) = ⊥
  Reads (e ∷ m) [] = ⊥
  Reads ((k, v) ∷ m) ((j, f) ∷ values) =
      (j ≡ k)
      × (F.parse v ≡ some f)
      × (k ≢ "period")
      × (starts_with k "_" ≡ false)
      × (lookup k m ≡ none)
      × Reads m values

  Reads-period :
      (m : Map String) (values : Map F.Float) (period : String)
      → Reads m values
      → NewKeys m (("period", period) ∷ [])
  unfolding lookup
  Reads-period [] values period r = tt
  Reads-period (e ∷ m) [] period r = absurd r
  Reads-period ((k, v) ∷ m) ((j, f) ∷ values) period r =
      (rw (str_eq_of_ne "period" k (λ e. r.2 (sym e))) refl, r.4, Reads-period m values period r.5)

  Reads-empty :
      (m : Map String) (values : Map F.Float) → Reads m values → NewKeys {W = F.Float} m []
  unfolding lookup
  Reads-empty [] values r = tt
  Reads-empty (e ∷ m) [] r = absurd r
  Reads-empty ((k, v) ∷ m) ((j, f) ∷ values) r = (refl, r.4, Reads-empty m values r.5)

  -- a field for a namespace
  parse_field_amount :
      (k v : String) (f : F.Float) (acc : Parsed F)
      → F.parse v ≡ some f
      → k ≢ "period"
      → starts_with k "_" ≡ false
      → parse_field F k v acc ≡ record acc { spend = insert k f acc.spend }
  unfolding parse_field
  parse_field_amount k v f acc p ne plain = rw (str_eq_of_ne k "period" ne, plain, p)

  parse_fields_amounts :
      (m : Map String) (values : Map F.Float) (rest : Map String) (acc : Parsed F)
      → Reads m values
      → NewKeys m acc.spend
      → parse_fields F (m ++ rest) acc
        ≡ parse_fields F rest (record acc { spend = acc.spend ++ values })
  unfolding parse_fields
  parse_fields_amounts [] [] rest acc r n =
      ap (λ (s : Map F.Float). parse_fields F rest (record acc { spend = s }))
        (sym (append-nil acc.spend))
  parse_fields_amounts [] (e ∷ values) rest acc r n = absurd r
  parse_fields_amounts (e ∷ m) [] rest acc r n = absurd r
  parse_fields_amounts ((k, v) ∷ m) ((j, f) ∷ values) rest acc r n =
      ap (parse_fields F (m ++ rest)) (
        parse_field_amount k v f acc r.1 r.2 r.3
        ∙ ap (λ (s : Map F.Float). record acc { spend = s }) (insert_new k f acc.spend n.0))
      ∙ parse_fields_amounts m values rest (record acc { spend = acc.spend ++ (k, f) ∷ [] }) r.5
          (NewKeys-append m acc.spend k f n.1 n.2)
      ∙ ap (λ (s : Map F.Float). parse_fields F rest (record acc { spend = s }))
          (append_assoc acc.spend ((k, f) ∷ []) values
            ∙ ap (λ (i : String). acc.spend ++ (i, f) ∷ values) (sym r.0))

  Reads-not_margin :
      (m : Map String) (values : Map F.Float) → Reads m values → lookup margin_field m ≡ none
  unfolding lookup
  Reads-not_margin [] values r = refl
  Reads-not_margin (e ∷ m) [] r = absurd r
  Reads-not_margin ((k, v) ∷ m) ((j, f) ∷ values) r =
      rw
        (str_eq_of_ne k margin_field
          (λ e. false≢true (sym r.3 ∙ ap (λ (s : String). starts_with s "_") e)))
        (Reads-not_margin m values r.5)

  marshal_plain :
      (p : Partial F) (values : Map F.Float)
      → Reads p.spend values
      → marshal F p
        ≡ ("period", p.period)
          ∷ (p.spend ++ (if p.margin_exceeded then (margin_field, "true") ∷ [] else []))
  unfolding marshal lookup
  marshal_plain p values r =
      let out =
        put_all_new p.spend (("period", p.period) ∷ []) (Reads-period p.spend values p.period r) in
      elim (Bool-cases p.margin_exceeded) [
        | inl on ↦
            rw (on, out) (insert_new margin_field "true" _ (Reads-not_margin p.spend values r))
        | inr off ↦ rw (off, out) (ap (◌∷◌ ("period", p.period)) (sym (append-nil p.spend)))
      ]

  parse_flag :
      (on : Bool) (period : String) (values : Map F.Float)
      → parse_fields F
          (if on then (margin_field, "true") ∷ [] else [])
          (record { period = period; spend = values; margin_exceeded = false })
        ≡ record { period = period; spend = values; margin_exceeded = on }
  unfolding parse_fields parse_field
  parse_flag true period values = refl
  parse_flag false period values = refl

  -- A peer reads back what a replica published: the period, each namespace's amount in order, and
  -- the margin flag, if each namespace occurs once, is not named "period" and does not start with an
  -- underscore, and each amount is written as a number that parses.
  pub parse-marshal :
      (p : Partial F) (values : Map F.Float)
      → Reads p.spend values
      → parse_fields F (marshal F p) (nothing_parsed F)
        ≡ record { period = p.period; spend = values; margin_exceeded = p.margin_exceeded }
  unfolding parse_fields parse_field
  parse-marshal p values r =
      ap (λ (flat : Map String). parse_fields F flat (nothing_parsed F)) (marshal_plain p values r)
      ∙ parse_fields_amounts p.spend values _
          (record { period = p.period; spend = []; margin_exceeded = false }) r
          (Reads-empty p.spend values r)
      ∙ parse_flag p.margin_exceeded p.period values
