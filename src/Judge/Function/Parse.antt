-- ===== src/Judge/Function/Parse.antt =====
-- modules/judge/store/func.go: atois and ParseFuncFromString.
use falcon_plus.Base.{ℕ, suc, Option, none, some, List, [], ◌∷◌, length, if◌then◌else◌, Run, ◌>>=◌}
use falcon_plus.Base.Int.{ℤ}
use falcon_plus.Base.Text.{Text, codes, eq_text}
use falcon_plus.Base.Strings.{index_byte, slice, split}
use falcon_plus.Base.Number.{atoi}
use falcon_plus.Judge.Function.Compute.{
  Function, max_function, min_function, all_function, lookup_function, sum_function, avg_function,
  diff_function, p_diff_function,
}

-- The pair (fn, err) that the parser returns: a function or an error.
pub data Parsed (F : Type 0) : Type 0 where
  parsed : Function F → Parsed F
  failed : Parsed F

-- The loop ends at the first part that is no number.
unfoldable pub all_atoi : List Text → Option (List ℤ)
all_atoi [] = some []
all_atoi (v ∷ vs) = do n ← atoi v; ns ← all_atoi vs; some (n ∷ ns)

unfoldable pub atois : Text → Option (List ℤ)
unfolding all_atoi
atois s = all_atoi (split b',' s)

-- `args[0]` and `args[1]`
abbrev pub arg_0 : List ℤ → Run ℤ
arg_0 [] = none
arg_0 (a ∷ _) = some a

abbrev pub arg_1 : List ℤ → Run ℤ
arg_1 (_ ∷ b ∷ _) = some b
arg_1 _ = none

-- `str[:idx-1]`, where `idx` is -1 if there is no '#'.
abbrev pub name_before : Option ℕ → Text → Run Text
name_before (some (suc i)) str = slice 0 i str
name_before _ str = none

-- `idx+1`
abbrev pub after : Option ℕ → ℕ
after none = 0
after (some i) = suc i

module _ {F : Type 0} (operator : Text) (right : F) where
  unfoldable pub function_of : Text → List ℤ → Run (Parsed F)
  function_of name args =
      if eq_text name (codes "max")
      then (arg_0 args >>= λ n. some (parsed (max_function n operator right)))
      else if eq_text name (codes "min")
      then (arg_0 args >>= λ n. some (parsed (min_function n operator right)))
      else if eq_text name (codes "all")
      then (arg_0 args >>= λ n. some (parsed (all_function n operator right)))
      else if eq_text name (codes "sum")
      then (arg_0 args >>= λ n. some (parsed (sum_function n operator right)))
      else if eq_text name (codes "avg")
      then (arg_0 args >>= λ n. some (parsed (avg_function n operator right)))
      else if eq_text name (codes "diff")
      then (arg_0 args >>= λ n. some (parsed (diff_function n operator right)))
      else if eq_text name (codes "pdiff")
      then (arg_0 args >>= λ n. some (parsed (p_diff_function n operator right)))
      else if eq_text name (codes "lookup")
      then (arg_0 args >>= λ k.
          arg_1 args >>= λ n. some (parsed (lookup_function k n operator right)))
      else some failed

  abbrev by_args : Option (List ℤ) → Run Text → Run (Parsed F)
  by_args none name = some failed
  by_args (some args) name = name >>= λ name. function_of name args

  unfoldable pub parse_func_from_string : Text → Run (Parsed F)
  unfolding atois
  parse_func_from_string [] = some failed
  parse_func_from_string (c ∷ cs) =
      let str = c ∷ cs in
      let idx = index_byte b'#' str in
      slice (after idx) (length cs) str >>= λ inner. by_args (atois inner) (name_before idx str)
