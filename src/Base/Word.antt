-- ===== src/Base/Word.antt =====
-- int64 and int (64 bits): arithmetic on ℤ that wraps around.
use falcon_plus.Base.Tests.{ltb, if◌then◌else◌}
use falcon_plus.Base.Int.{ℤ, pos, negsuc, pos_part, neg_part, ◌+ℤ◌, ◌-ℤ◌, ◌*ℤ◌, sub_ℕ}
use Prim.Native.Nat.{ℕ, suc, ◌+◌, ◌*◌, ◌-◌, ◌/◌, ◌%◌, ◌≤◌, ◌<◌}
use native.Mathlib.Nat.{add-zero}
use mathlib.Core.Path.{◌≡◌, ap}
use native.Mathlib.Omega.{arith}

abbrev pub two63 : ℕ
two63 = 9223372036854775808

abbrev pub two64 : ℕ
two64 = 18446744073709551616

-- The 64-bit pattern, read back in two's complement.
abbrev signed : ℕ → ℤ
signed r = if ltb r two63 then pos r else negsuc (two64 - 1 - r)

unfoldable pub int64 : ℤ → ℤ
int64 (pos n) = signed (n % two64)
int64 (negsuc n) = signed (two64 - 1 - n % two64)

abbrev pub InInt64 : ℤ → Type 0
InInt64 z = (pos_part z < two63) × (neg_part z ≤ two63)

-- No wrap-around within the range.
pub int64_exact : (z : ℤ) → InInt64 z → int64 z ≡ z
unfolding int64
int64_exact (pos n) h = ground arith
int64_exact (negsuc n) h = ground arith

pub int64-InInt64 : (z : ℤ) → InInt64 (int64 z)
unfolding int64
int64-InInt64 (pos n) = ground arith
int64-InInt64 (negsuc n) = ground arith

abbrev pub add64 : ℤ → ℤ → ℤ
add64 a b = int64 (a +ℤ b)

abbrev pub sub64 : ℤ → ℤ → ℤ
sub64 a b = int64 (a -ℤ b)

-- `a % b` of Go, for `b` other than 0: the remainder has the sign of `a`.
unfoldable pub rem_ℤ : ℤ → ℤ → ℤ
rem_ℤ (pos a) b = pos (a % (pos_part b + neg_part b))
rem_ℤ (negsuc a) b = sub_ℕ 0 (suc a % (pos_part b + neg_part b))

-- `a / b` of Go, for `b` other than 0 and a result in range: it is cut off towards 0.
unfoldable pub quot_ℤ : ℤ → ℤ → ℤ
quot_ℤ (pos a) (pos b) = pos (a / b)
quot_ℤ (pos a) (negsuc b) = sub_ℕ 0 (a / suc b)
quot_ℤ (negsuc a) (pos b) = sub_ℕ 0 (suc a / b)
quot_ℤ (negsuc a) (negsuc b) = pos (suc a / suc b)

pub rem_ℤ-pos : (a b : ℕ) → rem_ℤ (pos a) (pos b) ≡ pos (a % b)
unfolding rem_ℤ
rem_ℤ-pos a b = ap (λ n. pos (a % n)) (add-zero b)

abbrev pub mul64 : ℤ → ℤ → ℤ
mul64 a b = int64 (a *ℤ b)

-- On natural numbers in range the operations are those of ℕ.
pub sub64_pos : (a b : ℕ) → b ≤ a → a < two63 → sub64 (pos a) (pos b) ≡ pos (a - b)
unfolding ◌-ℤ◌
sub64_pos a b h k = ground (arith, int64_exact (pos (a - b)))

pub mul64_pos : (a b : ℕ) → a * b < two63 → mul64 (pos a) (pos b) ≡ pos (a * b)
unfolding ◌*ℤ◌
mul64_pos a b h = ground (arith, int64_exact (pos (a * b)))

pub add64_pos : (a b : ℕ) → a + b < two63 → add64 (pos a) (pos b) ≡ pos (a + b)
unfolding ◌+ℤ◌
add64_pos a b h = ground (arith, int64_exact (pos (a + b)))
