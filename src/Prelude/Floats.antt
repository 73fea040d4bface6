-- ===== src/Prelude/Floats.antt =====
-- float64 and strconv: arithmetic that the program uses and does not define. Every definition
-- over amounts takes this record, and the theorems hold for whatever rounding it has.
use Prim.Native.Nat.{ℕ, ◌+◌, ◌*◌, ◌/◌, ◌-◌}
use Prim.Native.String.{String}
use Prim.Native.Char.{code}
use mathlib.Core.Bool.{Bool, ◌&&◌}
use mathlib.Core.Option
use mathlib.Core.Option.{Option, none, some}
use kubeclaw.Prelude.Tests.{ltb, leb, ◌==◌, if◌then◌else◌}

pub record Floats : Type 1 where
  pub Float : Type 0
  pub of_nat : ℕ → Float
  pub add : Float → Float → Float
  pub sub : Float → Float → Float
  pub mul : Float → Float → Float
  pub div : Float → Float → Float
  pub lt : Float → Float → Bool
  pub le : Float → Float → Bool
  pub eq : Float → Float → Bool
  -- time.Duration.Seconds of a number of nanoseconds
  pub seconds : ℕ → Float
  -- int(x), for an x that is not negative
  pub to_int : Float → ℕ
  -- strconv.ParseFloat(s, 64), `none` for an error
  pub parse : String → Option Float
  -- strconv.FormatFloat(x, 'f', 2, 64)
  pub format : Float → String

-- A decimal numeral, read from the left.
abbrev digits_from : ℕ → String → Option ℕ
digits_from acc String.[] = some acc
digits_from acc (String.◌∷◌ c s) =
    let rest = digits_from (acc * 10 + (code c - 48)) s in
    if leb 48 (code c) && leb (code c) 57 then rest else none

-- Ten-thousandths in place of floats, for concrete inputs.
abbrev pub fixed : Floats
fixed = record {
  Float = ℕ;
  of_nat = λ n. n * 10000;
  add = λ a b. a + b;
  sub = λ a b. a - b;
  mul = λ a b. a * b / 10000;
  div = λ a b. a * 10000 / b;
  lt = ltb;
  le = leb;
  eq = λ a b. a == b;
  seconds = λ n. n / 100000;
  to_int = λ n. n / 10000;
  parse = λ s. Option.map (λ n. n * 10000) (digits_from 0 s);
  format = λ n. "";
}
