-- ===== src/Base/Number.antt =====
-- strconv.Itoa and strconv.Atoi, on lists of bytes.
use falcon_plus.Base.Tests.{leb, ltb, eqb, if◌then◌else◌}
use falcon_plus.Base.Text.{Text}
use falcon_plus.Base.Strings.{Without}
use falcon_plus.Base.Int.{ℤ, pos, negsuc}
use falcon_plus.Base.Word.{two63}
use Prim.Native.Nat.{ℕ, zero, suc, ◌+◌, ◌-◌, ◌*◌, ◌/◌, ◌%◌, ◌≤◌, ◌<◌}
use mathlib.Core.Path.{◌≡◌, refl}
use mathlib.Core.Logic.{◌≢◌, ◌⊎◌}
use mathlib.Core.Bool.{◌&&◌}
use mathlib.Core.Option.{Option, none, some}
use mathlib.Core.List.{[], ◌∷◌}
use native.Mathlib.Omega.{arith}

-- The decimal digits of `n` before `acc`; the fuel bounds their number.
unfoldable pub digits_from : ℕ → ℕ → Text → Text
digits_from zero n acc = acc
digits_from (suc fuel) n acc =
    let acc' = (b'0' + n % 10) ∷ acc in
    let rest = digits_from fuel (n / 10) acc' in if ltb n 10 then acc' else rest

unfoldable pub decimal : ℕ → Text
unfolding digits_from
decimal n = digits_from (suc n) n []

unfoldable pub itoa : ℤ → Text
unfolding decimal
itoa (pos n) = decimal n
itoa (negsuc n) = b'-' ∷ decimal (suc n)

-- The value of decimal digits after `acc`, or none at another byte.
unfoldable pub read_digits : ℕ → Text → Option ℕ
read_digits acc [] = some acc
read_digits acc (c ∷ s) =
    let rest = read_digits (10 * acc + (c - b'0')) s in
    if leb b'0' c && leb c b'9' then rest else none

abbrev pub unsigned : Text → Option ℕ
unsigned [] = none
unsigned (c ∷ s) = read_digits 0 (c ∷ s)

-- A value out of the range of int is an error.
abbrev pub positive : Option ℕ → Option ℤ
positive none = none
positive (some n) = if ltb n two63 then some (pos n) else none

abbrev pub negative : Option ℕ → Option ℤ
negative none = none
negative (some zero) = some (pos 0)
negative (some (suc n)) = if ltb n two63 then some (negsuc n) else none

unfoldable pub atoi : Text → Option ℤ
unfolding read_digits
atoi [] = none
atoi (c ∷ s) =
    if eqb c b'-'
    then negative (unsigned s)
    else if eqb c b'+'
    then positive (unsigned s)
    else positive (unsigned (c ∷ s))

read_digit :
    (acc d : ℕ) (s : Text)
    → d < 10
    → read_digits acc ((b'0' + d) ∷ s) ≡ read_digits (10 * acc + d) s
unfolding read_digits
read_digit acc d s h = ground (arith, value d)
  where
    value : (d : ℕ) → b'0' + d - b'0' ≡ d
    value d = omega arith

read_digits-digits_from :
    (fuel n : ℕ) (acc : Text)
    → n < fuel
    → read_digits 0 (digits_from fuel n acc) ≡ read_digits n acc
unfolding digits_from
read_digits-digits_from zero n acc h = elim h [ ]
read_digits-digits_from (suc fuel) n acc h = ground (
  arith,
  read_digits-digits_from fuel (n / 10) ((b'0' + n % 10) ∷ acc),
  read_digit (n / 10) (n % 10) acc,
  read_digit 0 (n % 10) acc,
)

-- Bytes that are all digits, and at least one.
abbrev pub Digits : Text → Type 0
Digits [] = Unit {0}
Digits (c ∷ s) = (b'0' ≤ c) × (c ≤ b'9') × Digits s

digits_from-Digits : (fuel n : ℕ) (acc : Text) → Digits acc → Digits (digits_from fuel n acc)
unfolding digits_from
digits_from-Digits zero n acc h = h
digits_from-Digits (suc fuel) n acc h =
    ground (
      arith,
      digits_from-Digits fuel (n / 10) ((b'0' + n % 10) ∷ acc) (omega arith, omega arith, h),
    )

digits_from_nonempty : (fuel n c : ℕ) (acc : Text) → digits_from fuel n (c ∷ acc) ≢ []
unfolding digits_from
digits_from_nonempty zero n c acc e = cc
digits_from_nonempty (suc fuel) n c acc e =
    ground (arith, digits_from_nonempty fuel (n / 10) (b'0' + n % 10) (c ∷ acc))

decimal_nonempty : (n : ℕ) → decimal n ≢ []
unfolding decimal
decimal_nonempty n e = ground (arith, digits_from_nonempty n (n / 10) (b'0' + n % 10) [])

pub decimal-Digits : (n : ℕ) → Digits (decimal n)
unfolding decimal
decimal-Digits n = digits_from-Digits (suc n) n [] tt

pub Digits-Without : (c : ℕ) (s : Text) → (c < b'0') ⊎ (b'9' < c) → Digits s → Without c s
Digits-Without c [] h d = tt
Digits-Without c (x ∷ s) h d = (λ e. ground arith, Digits-Without c s h d.2)

atoi-Digits :
    (n : ℕ) (s : Text)
    → n < two63
    → Digits s
    → s ≢ []
    → read_digits 0 s ≡ some n
    → atoi s ≡ some (pos n)
unfolding atoi
atoi-Digits n [] b d ne e = absurd (ne refl)
atoi-Digits n (c ∷ s) b d ne e = ground arith

read-decimal : (n : ℕ) → read_digits 0 (decimal n) ≡ some n
unfolding decimal read_digits
read-decimal n = read_digits-digits_from (suc n) n [] (omega arith)

-- Atoi reads back what Itoa prints of a natural number in the range of int.
pub atoi-decimal : (n : ℕ) → n < two63 → atoi (decimal n) ≡ some (pos n)
atoi-decimal n h =
    atoi-Digits n (decimal n) h (decimal-Digits n) (decimal_nonempty n) (read-decimal n)
