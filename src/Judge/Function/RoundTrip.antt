-- ===== src/Judge/Function/RoundTrip.antt =====
-- modules/judge/store/func.go: ParseFuncFromString on the texts of functions.
use falcon_plus.Base.{ℕ, ◌<◌, ◌≡◌, none, some, [], ◌∷◌, arith}
use falcon_plus.Base.Int.{ℤ, pos, negsuc, pos_part}
use falcon_plus.Base.Word.{two63}
use falcon_plus.Base.Text.{Text, codes, eq_text}
use falcon_plus.Base.Strings.{Without}
use falcon_plus.Base.Number.{decimal}
use falcon_plus.Judge.Function.Compute.{
  Function, max_function, min_function, all_function, lookup_function, sum_function, avg_function,
  diff_function, p_diff_function,
}
use falcon_plus.Judge.Function.Parse.{parsed, function_of, parse_func_from_string}
use falcon_plus.Judge.Function.Printed.{one, two, parse-call, atois_one, atois_two}

-- A natural number in the range of int.
abbrev pub IsCount : ℤ → Type 0
IsCount (pos n) = n < two63
IsCount (negsuc n) = ⊥

module _ {F : Type 0} where
  -- The text of a function, such as max(#3) and lookup(#2,5).
  abbrev pub printed : Function F → Text
  printed (max_function n _ _) = one (codes "max") (pos_part n)
  printed (min_function n _ _) = one (codes "min") (pos_part n)
  printed (all_function n _ _) = one (codes "all") (pos_part n)
  printed (sum_function n _ _) = one (codes "sum") (pos_part n)
  printed (avg_function n _ _) = one (codes "avg") (pos_part n)
  printed (diff_function n _ _) = one (codes "diff") (pos_part n)
  printed (p_diff_function n _ _) = one (codes "pdiff") (pos_part n)
  printed (lookup_function k n _ _) = two (codes "lookup") (pos_part k) (pos_part n)

  abbrev pub HasCounts : Function F → Type 0
  HasCounts (max_function n _ _) = IsCount n
  HasCounts (min_function n _ _) = IsCount n
  HasCounts (all_function n _ _) = IsCount n
  HasCounts (sum_function n _ _) = IsCount n
  HasCounts (avg_function n _ _) = IsCount n
  HasCounts (diff_function n _ _) = IsCount n
  HasCounts (p_diff_function n _ _) = IsCount n
  HasCounts (lookup_function k n _ _) = IsCount k × IsCount n

  abbrev pub operator_of : Function F → Text
  operator_of (max_function _ op _) = op
  operator_of (min_function _ op _) = op
  operator_of (all_function _ op _) = op
  operator_of (sum_function _ op _) = op
  operator_of (avg_function _ op _) = op
  operator_of (diff_function _ op _) = op
  operator_of (p_diff_function _ op _) = op
  operator_of (lookup_function _ _ op _) = op

  abbrev pub right_of : Function F → F
  right_of (max_function _ _ r) = r
  right_of (min_function _ _ r) = r
  right_of (all_function _ _ r) = r
  right_of (sum_function _ _ r) = r
  right_of (avg_function _ _ r) = r
  right_of (diff_function _ _ r) = r
  right_of (p_diff_function _ _ r) = r
  right_of (lookup_function _ _ _ r) = r

  -- A name of the switch holds no '#'.
  parse_one :
      (op : Text) (r : F) (c : ℕ) (name : Text) (n : ℕ)
      → Without b'#' (c ∷ name)
      → n < two63
      → parse_func_from_string op r (one (c ∷ name) n) ≡ function_of op r (c ∷ name) (pos n ∷ [])
  parse_one op r c name n w h = parse-call op r c name (decimal n) w (atois_one n h)

  -- Every function whose arguments are natural numbers in the range of int, written out as
  -- name(#n) or lookup(#k,n), is what ParseFuncFromString makes of its text, operator and
  -- threshold.
  pub parse-printed :
      (fn : Function F)
      → HasCounts fn
      → parse_func_from_string (operator_of fn) (right_of fn) (printed fn) ≡ some (parsed fn)
  unfolding function_of eq_text
  parse-printed (max_function (pos n) op r) h = parse_one op r b'm' (codes "ax") n (omega arith) h
  parse-printed (min_function (pos n) op r) h = parse_one op r b'm' (codes "in") n (omega arith) h
  parse-printed (all_function (pos n) op r) h = parse_one op r b'a' (codes "ll") n (omega arith) h
  parse-printed (sum_function (pos n) op r) h = parse_one op r b's' (codes "um") n (omega arith) h
  parse-printed (avg_function (pos n) op r) h = parse_one op r b'a' (codes "vg") n (omega arith) h
  parse-printed (diff_function (pos n) op r) h = parse_one op r b'd' (codes "iff") n (omega arith) h
  parse-printed (p_diff_function (pos n) op r) h =
      parse_one op r b'p' (codes "diff") n (omega arith) h
  parse-printed (lookup_function (pos k) (pos n) op r) h =
      parse-call op r b'l' (codes "ookup") _ (omega arith) (atois_two k n h.0 h.1)
  parse-printed (lookup_function (negsuc k) n op r) h = absurd h.0
  parse-printed (lookup_function (pos k) (negsuc n) op r) h = absurd h.1
  parse-printed (max_function (negsuc n) op r) h = absurd h
  parse-printed (min_function (negsuc n) op r) h = absurd h
  parse-printed (all_function (negsuc n) op r) h = absurd h
  parse-printed (sum_function (negsuc n) op r) h = absurd h
  parse-printed (avg_function (negsuc n) op r) h = absurd h
  parse-printed (diff_function (negsuc n) op r) h = absurd h
  parse-printed (p_diff_function (negsuc n) op r) h = absurd h

  -- The text lookup(#n), with one argument in place of two, makes ParseFuncFromString panic, for
  -- every natural number n in the range of int.
  pub parse-lookup_one_panics :
      (op : Text) (r : F) (n : ℕ)
      → n < two63
      → parse_func_from_string op r (one (codes "lookup") n) ≡ none
  unfolding function_of eq_text
  parse-lookup_one_panics op r n h = parse_one op r b'l' (codes "ookup") n (omega arith) h
