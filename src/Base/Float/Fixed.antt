-- ===== src/Base/Float/Fixed.antt =====
-- A number type that meets the interface: whole millionths, with no NaN.
use falcon_plus.Base.Float.Defs.{Float64, IsOrdered}
use falcon_plus.Base.Int.{
  ℤ, pos, negsuc, ◌+ℤ◌, ◌-ℤ◌, ◌*ℤ◌, leb_ℤ, ltb_ℤ, eqb_ℤ, pos_part, neg_part, sub_ℕ,
}
use Prim.Native.Nat.{ℕ, ◌+◌, ◌*◌, ◌/◌}
use mathlib.Core.Bool.{true}
use native.Mathlib.Omega.{arith}

abbrev magnitude : ℤ → ℕ
magnitude a = pos_part a + neg_part a

-- The sign of a product or a quotient of `a` and `b`, on a magnitude.
abbrev with_sign : ℤ → ℤ → ℕ → ℤ
with_sign (pos _) (pos _) m = pos m
with_sign (pos _) (negsuc _) m = sub_ℕ 0 m
with_sign (negsuc _) (pos _) m = sub_ℕ 0 m
with_sign (negsuc _) (negsuc _) m = pos m

instance abbrev pub fixed_float : Float64 ℤ
fixed_float = record {
  add = ◌+ℤ◌;
  sub = ◌-ℤ◌;
  mul = λ a b. with_sign a b (magnitude a * magnitude b / 1000000);
  div = λ a b. with_sign a b (magnitude a * 1000000 / magnitude b);
  abs = λ a. pos (magnitude a);
  lt = ltb_ℤ;
  le = leb_ℤ;
  eq = eqb_ℤ;
  of_int = λ a. a *ℤ pos 1000000;
  tolerance = pos 100;
  min_float = pos 1;
  neg_min_float = negsuc 0;
  is_finite = λ _. true;
}

pub fixed_IsOrdered : IsOrdered ℤ
fixed_IsOrdered = record {
  lt_irrefl = λ x. ground arith;
  not-lt_trans = λ x y z _ h k. ground arith;
  lt_asymm = λ x y h. ground arith;
}
