-- ===== src/Float/Milli.antt =====
-- An instance of Float that evaluates, for the tests: thousandths, rounded down, with subtraction stopping
-- at 0.
use noxis_api_provider.Prelude.{ℕ, ◌+◌, ◌-◌, ◌*◌, ◌/◌, ltb}
use noxis_api_provider.Float.{Float}

abbrev pub Milli : Type 0
Milli = ℕ

instance abbrev pub milli_float : Float Milli
milli_float = record {
  ratio = λ m n. m * 1000 / n;
  add = λ a b. a + b;
  sub = λ a b. a - b;
  mul = λ a b. a * b / 1000;
  div = λ a b. a * 1000 / b;
  lt = ltb;
}
