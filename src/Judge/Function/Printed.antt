-- ===== src/Judge/Function/Printed.antt =====
-- ParseFuncFromString on the texts that users write, such as all(#3) and lookup(#2,5).
use falcon_plus.Base.{
  ℕ, suc, ◌+◌, ◌<◌, ◌≡◌, refl, sym, inl, some, List, [], ◌∷◌, ◌++◌, length, length-append, arith,
}
use mathlib.Core.List.{append_assoc}
use falcon_plus.Base.Int.{ℤ, pos}
use falcon_plus.Base.Word.{two63}
use falcon_plus.Base.Text.{Text}
use falcon_plus.Base.Strings.{index_byte, slice, Without, split-Without, split_first, slice_middle}
use falcon_plus.Base.Number.{decimal, atoi-decimal, decimal-Digits, Digits-Without}
use falcon_plus.Judge.Function.Parse.{atois, function_of, parse_func_from_string}

-- name(#args)
abbrev pub call : Text → Text → Text
call name args = name ++ (b'(' ∷ b'#' ∷ (args ++ b')' ∷ []))

-- A function as the user writes it, with natural numbers for its arguments.
abbrev pub one : Text → ℕ → Text
one name n = call name (decimal n)

abbrev pub two : Text → ℕ → ℕ → Text
two name k n = call name (decimal k ++ b',' ∷ decimal n)

pub atois_one : (n : ℕ) → n < two63 → atois (decimal n) ≡ some (pos n ∷ [])
unfolding atois
atois_one n h =
    rw
      (
        split-Without b',' (decimal n)
            (Digits-Without b',' (decimal n) (inl (omega arith)) (decimal-Digits n)),
        atoi-decimal n h,
      )
      refl

pub atois_two :
    (k n : ℕ)
    → k < two63
    → n < two63
    → atois (decimal k ++ b',' ∷ decimal n) ≡ some (pos k ∷ pos n ∷ [])
unfolding atois
atois_two k n hk hn =
    rw
      (
        split_first b',' (decimal k) (decimal n)
            (Digits-Without b',' (decimal k) (inl (omega arith)) (decimal-Digits k)),
        split-Without b',' (decimal n)
            (Digits-Without b',' (decimal n) (inl (omega arith)) (decimal-Digits n)),
        atoi-decimal k hk,
        atoi-decimal n hn,
      )
      refl

index-call :
    (s args : Text) → Without b'#' s → index_byte b'#' (call s args) ≡ some (suc (length s))
unfolding index_byte
index-call [] args w = refl
index-call (x ∷ s) args w = ground (arith, index-call s args w.1)

call_open : (s args : Text) → call s args ≡ (s ++ b'(' ∷ b'#' ∷ []) ++ (args ++ b')' ∷ [])
call_open s args = sym (append_assoc s (b'(' ∷ b'#' ∷ []) (args ++ b')' ∷ []))

slice-inner :
    (s args : Text) (stop : ℕ)
    → suc stop ≡ length (call s args)
    → slice (suc (suc (length s))) stop (call s args) ≡ some args
slice-inner s args stop e =
    let opened = length-append s (b'(' ∷ b'#' ∷ []) in
    let start : suc (suc (length s)) ≡ length (s ++ b'(' ∷ b'#' ∷ []) = omega arith in
    let ends : stop ≡ length (s ++ b'(' ∷ b'#' ∷ []) + length args = omega (
      arith,
      length-append s (b'(' ∷ b'#' ∷ (args ++ b')' ∷ [])),
      length-append args (b')' ∷ []),
    ) in
    rw (call_open s args, start, ends) (slice_middle (s ++ b'(' ∷ b'#' ∷ []) args (b')' ∷ []))

slice-name : (s args : Text) → slice 0 (length s) (call s args) ≡ some s
slice-name s args =
    let ends : length s ≡ 0 + length s = omega arith in
    rw ends (slice_middle [] s (b'(' ∷ b'#' ∷ (args ++ b')' ∷ [])))

module _ {F : Type 0} (operator : Text) (right : F) where
  -- The parser splits name(#args) into its name and its arguments.
  pub parse-call :
      (c : ℕ) (name args : Text) {ns : List ℤ}
      → Without b'#' (c ∷ name)
      → atois args ≡ some ns
      → parse_func_from_string operator right (call (c ∷ name) args)
        ≡ function_of operator right (c ∷ name) ns
  unfolding parse_func_from_string
  parse-call c name args w e =
      rw
        (
          index-call (c ∷ name) args w,
          slice-inner (c ∷ name) args (length (name ++ b'(' ∷ b'#' ∷ (args ++ b')' ∷ []))) refl,
          e,
          slice-name (c ∷ name) args,
        )
        refl
