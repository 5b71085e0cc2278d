-- ===== src/Base/Strings.antt =====
-- Go's strings package and slices of strings, on lists of bytes.
use falcon_plus.Base.Tests.{leb, eqb, if◌then◌else◌, ◌>>=◌, Run}
use falcon_plus.Base.Lists.{take, drop, length, length-append}
use falcon_plus.Base.Text.{Text}
use Prim.Native.Nat.{ℕ, suc, ◌+◌, ◌-◌}
use mathlib.Core.Path.{◌≡◌, refl, ap}
use mathlib.Core.Logic.{◌≢◌}
use mathlib.Core.Bool.{◌&&◌}
use mathlib.Core.Option.{Option, none, some}
use mathlib.Core.List.{List, [], ◌∷◌, ◌++◌}
use native.Mathlib.Omega.{arith}

-- strings.IndexByte, with `none` for -1.
unfoldable pub index_byte : ℕ → Text → Option ℕ
index_byte c [] = none
index_byte c (x ∷ xs) =
    let rest = index_byte c xs in if eqb x c then some 0 else (rest >>= λ i. some (suc i))

-- s[from:to]; a bound out of order or past the end panics.
unfoldable pub slice : ℕ → ℕ → Text → Run Text
slice from to s =
    if leb from to && leb to (length s) then some (take (to - from) (drop from s)) else none

abbrev pub add_byte : ℕ → List Text → List Text
add_byte c [] = (c ∷ []) ∷ []
add_byte c (part ∷ parts) = (c ∷ part) ∷ parts

-- strings.Split by a one-byte separator: at least one part.
unfoldable pub split : ℕ → Text → List Text
split sep [] = [] ∷ []
split sep (x ∷ xs) = let rest = split sep xs in if eqb x sep then [] ∷ rest else add_byte x rest

-- strings.Split by a separator of two bytes.
unfoldable pub split_pair : ℕ → ℕ → Text → List Text
split_pair c d [] = [] ∷ []
split_pair c d (x ∷ []) = (x ∷ []) ∷ []
split_pair c d (x ∷ y ∷ s) =
    let after = split_pair c d s in
    let later = split_pair c d (y ∷ s) in
    if eqb x c && eqb y d then [] ∷ after else add_byte x later

-- strings.Join
unfoldable pub join : Text → List Text → Text
join sep [] = []
join sep (s ∷ []) = s
join sep (s ∷ t ∷ ts) = s ++ (sep ++ join sep (t ∷ ts))

-- The text holds no byte `c`.
abbrev pub Without : ℕ → Text → Type 0
Without c [] = Unit {0}
Without c (x ∷ xs) = (x ≢ c) × Without c xs

pub index_byte_first :
    (c : ℕ) (s rest : Text) → Without c s → index_byte c (s ++ c ∷ rest) ≡ some (length s)
unfolding index_byte
index_byte_first c [] rest h = ground arith
index_byte_first c (x ∷ s) rest h = ground (arith, index_byte_first c s rest h.1)

pub index_byte-none : (c : ℕ) (s : Text) → Without c s → index_byte c s ≡ none
unfolding index_byte
index_byte-none c [] h = refl
index_byte-none c (x ∷ s) h = ground (arith, index_byte-none c s h.1)

pub split-Without : (sep : ℕ) (s : Text) → Without sep s → split sep s ≡ s ∷ []
unfolding split
split-Without sep [] h = refl
split-Without sep (x ∷ s) h = ground (arith, split-Without sep s h.1)

pub split_first :
    (sep : ℕ) (s rest : Text) → Without sep s → split sep (s ++ sep ∷ rest) ≡ s ∷ split sep rest
unfolding split
split_first sep [] rest h = ground arith
split_first sep (x ∷ s) rest h = ground (arith, split_first sep s rest h.1)

pub drop-length : (s rest : Text) → drop (length s) (s ++ rest) ≡ rest
drop-length [] rest = refl
drop-length (x ∷ s) rest = drop-length s rest

pub take-length : (s rest : Text) → take (length s) (s ++ rest) ≡ s
take-length [] rest = refl
take-length (x ∷ s) rest = ap (◌∷◌ x) (take-length s rest)

-- The middle of a text.
pub slice_middle : (a b c : Text) → slice (length a) (length a + length b) (a ++ (b ++ c)) ≡ some b
unfolding slice
slice_middle a b c = ground (
  arith,
  length-append a (b ++ c),
  length-append b c,
  drop-length a (b ++ c),
  take-length b c,
  span (length a) (length b),
)
  where
    span : (m n : ℕ) → m + n - m ≡ n
    span m n = omega arith
