-- ===== src/Budget/Wire.antt =====
-- The JSON object under one replica's key of the budget ConfigMap: MarshalJSON and
-- ParseBudgetPartial of internal/gateway/budget.go. JSON itself is encoding/json's: an object of
-- strings is a map here, and `decode` is json.Unmarshal into one.
pub mod Roundtrip
pub mod PeriodName
use kubeclaw.Prelude.{
  String, Bool, true, false, Option, none, some, List, [], ◌∷◌, ◌&&◌, str_eq, if◌then◌else◌, map,
}
use kubeclaw.Prelude.Maps.{Map, lookup, insert}
use kubeclaw.Prelude.Floats.{Floats}
use kubeclaw.Budget.Ledger.{Partial, bump, zero_usd, formats}
use text.Mathlib.Text.{starts_with}

abbrev pub margin_field : String
margin_field = "_marginExceeded"

-- out[ns] = v for each entry of the spend
unfoldable pub put_all : Map String → Map String → Map String
put_all [] out = out
put_all ((ns, v) ∷ m) out = put_all m (insert ns v out)

module _ (F : Floats) where
  unfoldable pub marshal : Partial F → Map String
  unfolding put_all
  marshal p =
      let out = put_all p.spend (("period", p.period) ∷ []) in
      if p.margin_exceeded then insert margin_field "true" out else out

  -- What ParseBudgetPartial returns without an error.
  pub record Parsed : Type 0 where
    pub period : String
    pub spend : Map F.Float
    pub margin_exceeded : Bool

  abbrev pub nothing_parsed : Parsed
  nothing_parsed = record { period = ""; spend = []; margin_exceeded = false }

  -- one field of the object
  unfoldable pub parse_field : String → String → Parsed → Parsed
  parse_field k v acc =
      if str_eq k "period"
      then record acc { period = v }
      else if starts_with k "_"
      then (if str_eq k margin_field && str_eq v "true"
          then record acc { margin_exceeded = true }
          else acc)
      else elim (F.parse v) [ none ↦ acc | some f ↦ record acc { spend = insert k f acc.spend } ]

  unfoldable pub parse_fields : Map String → Parsed → Parsed
  parse_fields [] acc = acc
  parse_fields ((k, v) ∷ flat) acc = parse_fields flat (parse_field k v acc)

  unfoldable pub parse_partial : (String → Option (Map String)) → String → Option Parsed
  unfolding parse_fields parse_field
  parse_partial decode raw = elim (decode raw) [
    | none ↦ none
    | some flat ↦ some (parse_fields flat nothing_parsed)
  ]

  -- peers[ns] += v for each entry of a partial's spend
  unfoldable pub sum_into : Map F.Float → Map F.Float → Map F.Float
  sum_into [] dst = dst
  sum_into ((ns, v) ∷ src) dst = sum_into src (bump F ns v dst)

  -- RetiredPartial
  unfoldable pub retired_partial : String → Map F.Float → Partial F
  retired_partial period spend = record {
    period = period;
    spend = formats F spend;
    margin_exceeded = false;
  }
