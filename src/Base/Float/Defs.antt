-- ===== src/Base/Float/Defs.antt =====
-- float64: the operations that the source uses, as an interface, and the order laws of IEEE 754.
use falcon_plus.Base.Int.{ℤ}
use mathlib.Core.Path.{◌≡◌}
use mathlib.Core.Bool.{Bool, true, false}

pub record Float64 (F : Type 0) : Type 0 where
  pub add : F → F → F
  pub sub : F → F → F
  pub mul : F → F → F
  pub div : F → F → F
  pub abs : F → F
  pub lt : F → F → Bool
  pub le : F → F → Bool
  pub eq : F → F → Bool
  pub of_int : ℤ → F
  -- 0.0001, 0.000001 and -0.000001
  pub tolerance : F
  pub min_float : F
  pub neg_min_float : F
  -- neither NaN nor an infinity
  pub is_finite : F → Bool

-- NaN is the value that is not `<=` itself.
abbrev pub IsNumber : {F : Type 0} ⦃f : Float64 F⦄ → F → Type 0
IsNumber ⦃f⦄ x = f.le x x ≡ true

-- `<` is a strict order in which only NaN is not comparable.
pub record IsOrdered (F : Type 0) ⦃f : Float64 F⦄ : Type 0 where
  pub lt_irrefl : (x : F) → f.lt x x ≡ false
  pub not-lt_trans :
      (x y z : F) → IsNumber y → f.lt x y ≡ false → f.lt y z ≡ false → f.lt x z ≡ false
  pub lt_asymm : (x y : F) → f.lt x y ≡ true → f.lt y x ≡ false
