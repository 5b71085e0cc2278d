-- ===== src/Aggregator/Compute.antt =====
-- modules/aggregator/cron/computer.go: the value of an expression for a host. An answer is `none` for a
-- panic, and `some none` for an error.
use falcon_plus.Base.{
  ℕ, Bool, not, ◌||◌, ◌&&◌, Option, none, some, List, [], ◌∷◌, ◌++◌, length, Run, ◌>>=◌, eqb, leb,
  if◌then◌else◌,
}
use falcon_plus.Base.Int.{pos}
use falcon_plus.Base.Text.{Text, codes, eq_text}
use falcon_plus.Base.Dict.{Dict, get, text_eq}
use falcon_plus.Base.Float.{Float64}

-- The classes of bytes of the pattern `([><=]+)([\d\.]+)`.
abbrev pub is_sign : ℕ → Bool
is_sign c = eqb c b'>' || (eqb c b'<' || eqb c b'=')

abbrev pub is_figure : ℕ → Bool
is_figure c = (leb b'0' c && leb c b'9') || eqb c b'.'

-- The longest run at the front.
unfoldable pub run_of : (ℕ → Bool) → Text → Text
run_of test [] = []
run_of test (x ∷ s) = let rest = run_of test s in if test x then x ∷ rest else []

unfoldable pub after_run : (ℕ → Bool) → Text → Text
after_run test [] = []
after_run test (x ∷ s) = let rest = after_run test s in if test x then rest else x ∷ s

-- The groups of a match, where both runs are there.
abbrev pub groups : Text → Text → Option (Text × Text)
groups [] val = none
groups (c ∷ mode) [] = none
groups (c ∷ mode) (d ∷ val) = some (c ∷ mode, d ∷ val)

abbrev pub or_later : Option (Text × Text) → Option (Text × Text) → Option (Text × Text)
or_later none later = later
or_later (some m) later = some m

-- FindStringSubmatch: the first match, with its two groups.
unfoldable pub find_match : Text → Option (Text × Text)
unfolding run_of after_run
find_match [] = none
find_match (x ∷ s) =
    or_later (groups (run_of is_sign (x ∷ s)) (run_of is_figure (after_run is_sign (x ∷ s))))
      (find_match s)

module _ {F : Type 0} where
  abbrev pub with_value : Option F → List F → List F
  with_value none ret = ret
  with_value (some v) ret = v ∷ ret

  unfoldable pub query_operands : List Text → Text → Dict Text F → List F
  query_operands [] endpoint val_map = []
  query_operands (counter ∷ counters) endpoint val_map =
      with_value (get (endpoint ++ counter) val_map) (query_operands counters endpoint val_map)

module _ {F : Type 0} ⦃f : Float64 F⦄ where
  -- The loop over vals[1:]; an operator that is missing panics.
  unfoldable pub sum_operands : F → List F → List Text → Run F
  sum_operands sum [] ops = some sum
  sum_operands sum (v ∷ vs) [] = none
  sum_operands sum (v ∷ vs) (op ∷ ops) =
      sum_operands (if eq_text op (codes "+") then f.add sum v else f.sub sum v) vs ops

  -- The cases of compareSum.
  unfoldable pub compared : Text → F → F → Bool
  compared mode sum val =
      (eq_text mode (codes ">") && f.lt val sum)
      || ((eq_text mode (codes "<") && f.lt sum val)
          || ((eq_text mode (codes "=") && f.eq sum val)
              || ((eq_text mode (codes ">=") && f.le val sum)
                  || (eq_text mode (codes "<=") && f.le sum val))))

  -- compareSum, where a text that does not match panics; the argument is the value of
  -- strconv.ParseFloat, whose error is not looked at.
  unfoldable pub compare_sum : (Text → F) → F → Text → Run Bool
  unfolding find_match compared
  compare_sum parse_float sum compute_mode =
      find_match compute_mode >>= λ m. some (compared m.0 sum (parse_float m.1))

  abbrev pub with_mode : (Text → F) → F → Text → Run (Option F)
  with_mode parse_float sum [] = some (some sum)
  with_mode parse_float sum (c ∷ mode) = compare_sum parse_float sum (c ∷ mode) >>= λ hit.
      some (some (if hit then f.of_int (pos 1) else f.of_int (pos 0)))

  abbrev pub sum_of : List F → List Text → Run F
  sum_of [] ops = none
  sum_of (v ∷ vs) ops = sum_operands v vs ops

  unfoldable pub compute :
      (Text → F) → List Text → List Text → Text → Text → Dict Text F → Run (Option F)
  unfolding query_operands sum_operands compare_sum
  compute parse_float operands operators compute_mode hostname val_map =
      let count = length operands in
      let vals = query_operands operands hostname val_map in
      if eqb count 0
      then some none
      else if not (eqb (length vals) count)
      then some none
      else (sum_of vals operators >>= λ sum. with_mode parse_float sum compute_mode)
