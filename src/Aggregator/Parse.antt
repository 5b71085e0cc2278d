-- ===== src/Aggregator/Parse.antt =====
-- modules/aggregator/cron/run.go: needCompute, parse and operatorsValid, with the two functions of the
-- standard library that they call.
use falcon_plus.Base.{
  ℕ, Bool, true, false, not, ◌||◌, ◌&&◌, none, some, List, [], ◌∷◌, Run, ◌>>=◌, eqb, if◌then◌else◌,
}
use falcon_plus.Base.Strings.{add_byte}
use falcon_plus.Base.Text.{Text, codes, eq_text}

-- strings.Contains(val, "$(")
unfoldable pub need_compute : Text → Bool
need_compute [] = false
need_compute (x ∷ []) = false
need_compute (x ∷ y ∷ val) = (eqb x b'$' && eqb y b'(') || need_compute (y ∷ val)

-- The class of bytes of the pattern `[\$\(\)]+`.
abbrev pub is_mark : ℕ → Bool
is_mark c = eqb c b'$' || (eqb c b'(' || eqb c b')')

abbrev pub starts_with_mark : Text → Bool
starts_with_mark [] = false
starts_with_mark (x ∷ s) = is_mark x

-- splitCounter.Split(expression, -1): the parts between the longest runs of marks, at least one.
unfoldable pub split_counter : Text → List Text
split_counter [] = [] ∷ []
split_counter (x ∷ s) =
    let rest = split_counter s in
    if is_mark x then (if starts_with_mark s then rest else [] ∷ rest) else add_byte x rest

pub record Parsed : Type 0 where
  pub operands : List Text
  pub operators : List Text
  pub compute_mode : Text

-- One item of the loop: an operand at an even place, an operator at an odd one.
abbrev pub with_val : Bool → Text → Parsed → Parsed
with_val even val p =
    if even
    then record p { operands = val ∷ p.operands }
    else record p { operators = val ∷ p.operators }

-- The loop, from a place that is even or odd; the last item is the mode.
unfoldable pub items_from : Bool → List Text → Run Parsed
items_from even [] = none
items_from even (mode ∷ []) = some (record { operands = []; operators = []; compute_mode = mode })
items_from even (val ∷ next ∷ items) =
    items_from (not even) (next ∷ items) >>= λ p. some (with_val even val p)

-- `items[1 : count-1]`, which panics where there is only one item.
abbrev pub after_first : List Text → Run Parsed
after_first [] = none
after_first (item ∷ items) = items_from true items

unfoldable pub parse : Text → Bool → Run Parsed
unfolding split_counter items_from
parse expression need =
    if need
    then after_first (split_counter expression)
    else some (record { operands = []; operators = []; compute_mode = [] })

unfoldable pub operators_valid : List Text → Bool
operators_valid [] = true
operators_valid (op ∷ ops) =
    if not (eq_text op (codes "+")) && not (eq_text op (codes "-"))
    then false
    else operators_valid ops
