-- ===== src/Base/Real.antt =====
-- Floats. Where the program only compares them, every finite non-negative double is a whole number
-- of units of 2 ^ -1074, so such a float is a natural number and 1.0 is `float_one`. Where it
-- computes with them, the type and its operations are a parameter, `FloatOps`: finite values, so
-- that `<=` is a total order; addition of what is not negative does not lose.
use Prim.Native.Nat.{ℕ, ◌^◌}
use mathlib.Core.Path.{◌≡◌}
use mathlib.Core.Bool.{Bool, true, false}

unfoldable pub float_one : ℕ
float_one = 2 ^ 1074

pub record FloatOps : Type 1 where
  pub Float : Type 0
  pub zero : Float
  pub add : Float → Float → Float
  pub mul : Float → Float → Float
  pub div : Float → Float → Float
  pub of_ℕ : ℕ → Float
  pub leb : Float → Float → Bool
  pub leb_total : (a b : Float) → leb a b ≡ false → leb b a ≡ true
  pub leb_trans : (a b c : Float) → leb a b ≡ true → leb b c ≡ true → leb a c ≡ true
  pub leb_add : (a b : Float) → leb zero b ≡ true → leb a (add a b) ≡ true
