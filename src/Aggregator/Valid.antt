-- ===== src/Aggregator/Valid.antt =====
-- modules/aggregator/cron/run.go: cleanParam and expressionValid, with the standard library's TrimSpace and
-- the patterns, each of which is matched from the left with no choice left open.
use falcon_plus.Base.{
  ℕ, ◌-◌, Bool, true, false, not, ◌&&◌, ◌||◌, Option, none, some, [], ◌∷◌, eqb, leb, if◌then◌else◌,
}
use mathlib.Core.List.{reverse}
use falcon_plus.Base.Text.{Text, codes, eq_text}
use falcon_plus.Utils.Dicted.{remove_byte}

-- The bytes of a white space of Unicode in UTF-8.
abbrev pub is_space : ℕ → Bool
is_space a = (leb 9 a && leb a 13) || eqb a 32

abbrev pub is_space2 : ℕ → ℕ → Bool
is_space2 a b = eqb a 194 && (eqb b 133 || eqb b 160)

abbrev pub is_space3 : ℕ → ℕ → ℕ → Bool
is_space3 a b c =
    (eqb a 225 && (eqb b 154 && eqb c 128))
    || ((eqb a 226
          && (eqb b 128 && ((leb 128 c && leb c 138) || (eqb c 168 || (eqb c 169 || eqb c 175)))))
        || ((eqb a 226 && (eqb b 129 && eqb c 159)) || (eqb a 227 && (eqb b 128 && eqb c 128))))

-- How many bytes the white space takes that the text starts with.
abbrev pub space_width : Text → ℕ
space_width [] = 0
space_width (a ∷ []) = if is_space a then 1 else 0
space_width (a ∷ b ∷ []) = if is_space a then 1 else if is_space2 a b then 2 else 0
space_width (a ∷ b ∷ c ∷ s) =
    if is_space a then 1 else if is_space2 a b then 2 else if is_space3 a b c then 3 else 0

-- The same of the bytes in reverse.
abbrev pub space_width_back : Text → ℕ
space_width_back [] = 0
space_width_back (a ∷ []) = if is_space a then 1 else 0
space_width_back (b ∷ a ∷ []) = if is_space b then 1 else if is_space2 a b then 2 else 0
space_width_back (c ∷ b ∷ a ∷ s) =
    if is_space c then 1 else if is_space2 b c then 2 else if is_space3 a b c then 3 else 0

-- Spaces are dropped, the first of which has `left` bytes to go.
unfoldable pub drop_spaces : (Text → ℕ) → ℕ → Text → Text
drop_spaces width left [] = []
drop_spaces width left (a ∷ s) =
    let w = if eqb left 0 then width (a ∷ s) else left in
    let rest = drop_spaces width (w - 1) s in if eqb w 0 then a ∷ s else rest

-- strings.TrimSpace
unfoldable pub trim_space : Text → Text
unfolding drop_spaces
trim_space s = reverse (drop_spaces space_width_back 0 (reverse (drop_spaces space_width 0 s)))

unfoldable pub clean_param : Text → Text
unfolding trim_space remove_byte
clean_param val = remove_byte 9 (remove_byte 10 (remove_byte 13 (remove_byte 32 (trim_space val))))

-- strings.Contains of one of the two brackets "（" and "）".
unfoldable pub has_wide_bracket : Text → Bool
has_wide_bracket [] = false
has_wide_bracket (a ∷ []) = false
has_wide_bracket (a ∷ b ∷ []) = false
has_wide_bracket (a ∷ b ∷ c ∷ s) =
    (eqb a 239 && (eqb b 188 && (eqb c 136 || eqb c 137))) || has_wide_bracket (b ∷ c ∷ s)

-- Where a match of counters stands.
pub data At : Type 0 where
  at_dollar : At
  at_open : At
  in_name : (seen : Bool) → At
  after_counter : At

-- What follows `(\$\([^\(\)]+\)[+-])*\$\([^\(\)]+\)`, or a single counter.
unfoldable pub counters_end : Bool → At → Text → Option Text
counters_end many at_dollar [] = none
counters_end many at_dollar (c ∷ s) =
    let rest = counters_end many at_open s in if eqb c b'$' then rest else none
counters_end many at_open [] = none
counters_end many at_open (c ∷ s) =
    let rest = counters_end many (in_name false) s in if eqb c b'(' then rest else none
counters_end many (in_name seen) [] = none
counters_end many (in_name seen) (c ∷ s) =
    let rest = counters_end many (if eqb c b')' then after_counter else in_name true) s in
    if eqb c b'(' then none else if eqb c b')' then (if seen then rest else none) else rest
counters_end many after_counter [] = some []
counters_end many after_counter (c ∷ s) =
    let rest = counters_end many at_dollar s in
    if many && (eqb c b'+' || eqb c b'-') then rest else some (c ∷ s)

abbrev pub is_digit : ℕ → Bool
is_digit c = leb b'0' c && leb c b'9'

-- `\d+(\.\d+)?` to the end: whether a digit came, and whether the point did.
unfoldable pub is_number : Bool → Bool → Text → Bool
is_number digit point [] = digit
is_number digit point (c ∷ s) =
    let rest = is_number (is_digit c) (point || eqb c b'.') s in
    if is_digit c then rest else if eqb c b'.' && (digit && not point) then rest else false

-- `(>|=|<|>=|<=)\d+(\.\d+)?$`
abbrev pub is_comparison : Text → Bool
is_comparison [] = false
is_comparison (c ∷ []) = false
is_comparison (c ∷ d ∷ s) =
    if (eqb c b'>' || eqb c b'<') && eqb d b'='
    then is_number false false s
    else if eqb c b'>' || (eqb c b'=' || eqb c b'<')
    then is_number false false (d ∷ s)
    else false

abbrev pub is_nothing : Text → Bool
is_nothing [] = true
is_nothing (_ ∷ _) = false

abbrev pub ends_in : (Text → Bool) → Option Text → Bool
ends_in test none = false
ends_in test (some rest) = test rest

abbrev pub is_closed_comparison : Text → Bool
is_closed_comparison [] = false
is_closed_comparison (c ∷ s) = eqb c b')' && is_comparison s

abbrev pub is_grouped : Text → Bool
is_grouped [] = false
is_grouped (c ∷ s) = eqb c b'(' && ends_in is_closed_comparison (counters_end true at_dollar s)

-- `^\d+$`
abbrev pub are_digits : Bool → Text → Bool
are_digits digit [] = digit
are_digits digit (c ∷ s) = is_digit c && are_digits true s

unfoldable pub expression_valid : Text → Bool
unfolding has_wide_bracket counters_end is_number
expression_valid val =
    if has_wide_bracket val
    then false
    else (eq_text val (codes "$#")
        || (ends_in is_nothing (counters_end true at_dollar val)
            || (ends_in is_comparison (counters_end false at_dollar val)
                || (is_grouped val || are_digits false val))))
