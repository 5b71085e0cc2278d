-- ===== src/Judge/Function/Compute.antt =====
-- modules/judge/store/func.go: the implementations of `Function.Compute` and checkIsTriggered. Each
-- loop recurs on the rounds left and on the points not yet read; a read past the end panics.
use falcon_plus.Base.{
  ℕ, zero, suc, ◌-◌, Bool, true, false, ◌||◌, ◌&&◌, none, some, List, [], ◌∷◌, if◌then◌else◌, Run,
  ◌>>=◌,
}
use falcon_plus.Base.Int.{ℤ, pos, pos_part, eqb_ℤ}
use falcon_plus.Base.Word.{add64}
use falcon_plus.Base.Text.{Text, codes, eq_text}
use falcon_plus.Base.Float.{Float64}
use falcon_plus.Judge.Model.{JudgeItem, HistoryData}
use falcon_plus.Judge.History.List.{history_data}

-- One constructor for each struct that implements the interface.
pub data Function (F : Type 0) : Type 0 where
  max_function : (limit : ℤ) → (operator : Text) → (right_value : F) → Function F
  min_function : (limit : ℤ) → (operator : Text) → (right_value : F) → Function F
  all_function : (limit : ℤ) → (operator : Text) → (right_value : F) → Function F
  lookup_function : (num limit : ℤ) → (operator : Text) → (right_value : F) → Function F
  sum_function : (limit : ℤ) → (operator : Text) → (right_value : F) → Function F
  avg_function : (limit : ℤ) → (operator : Text) → (right_value : F) → Function F
  diff_function : (limit : ℤ) → (operator : Text) → (right_value : F) → Function F
  p_diff_function : (limit : ℤ) → (operator : Text) → (right_value : F) → Function F

-- The named results of `Compute`.
pub record Computed (F : Type 0) : Type 0 where
  pub vs : List (HistoryData F)
  pub left_value : F
  pub is_triggered : Bool
  pub is_enough : Bool

module _ {F : Type 0} ⦃f : Float64 F⦄ where
  unfoldable pub check_is_triggered : F → Text → F → Bool
  check_is_triggered left operator right =
      if eq_text operator (codes "=") || eq_text operator (codes "==")
      then f.lt (f.abs (f.sub left right)) f.tolerance
      else if eq_text operator (codes "!=")
      then f.lt f.tolerance (f.abs (f.sub left right))
      else if eq_text operator (codes "<")
      then f.lt left right
      else if eq_text operator (codes "<=")
      then f.le left right
      else if eq_text operator (codes ">")
      then f.lt right left
      else if eq_text operator (codes ">=")
      then f.le right left
      else false

  abbrev pub nought : F
  nought = f.of_int (pos 0)

  -- `vs[0].Value`
  abbrev pub first_value : List (HistoryData F) → Run F
  first_value [] = none
  first_value (v ∷ _) = some v.value

  abbrev pub rest_of : List (HistoryData F) → List (HistoryData F)
  rest_of [] = []
  rest_of (_ ∷ vs) = vs

  unfoldable pub max_loop : ℕ → F → List (HistoryData F) → Run F
  max_loop zero max vs = some max
  max_loop (suc n) max [] = none
  max_loop (suc n) max (v ∷ vs) = max_loop n (if f.lt max v.value then v.value else max) vs

  unfoldable pub min_loop : ℕ → F → List (HistoryData F) → Run F
  min_loop zero min vs = some min
  min_loop (suc n) min [] = none
  min_loop (suc n) min (v ∷ vs) = min_loop n (if f.lt v.value min then v.value else min) vs

  unfoldable pub sum_loop : ℕ → F → List (HistoryData F) → Run F
  sum_loop zero sum vs = some sum
  sum_loop (suc n) sum [] = none
  sum_loop (suc n) sum (v ∷ vs) = sum_loop n (f.add sum v.value) vs

  abbrev pub percent : F → F → F
  percent first v = f.mul (f.div (f.sub first v) v) (f.of_int (pos 100))

module _ {F : Type 0} ⦃f : Float64 F⦄ (operator : Text) (right : F) where
  abbrev pub triggers : F → Bool
  triggers left = check_is_triggered left operator right

  -- `isTriggered` is true when a round begins.
  unfoldable pub all_loop : ℕ → List (HistoryData F) → Run Bool
  all_loop zero vs = some true
  all_loop (suc n) [] = none
  all_loop (suc n) (v ∷ vs) =
      let rest = all_loop n vs in if triggers v.value then rest else some false

  -- `n` is the number of points that have triggered.
  unfoldable pub lookup_loop : ℤ → ℕ → ℕ → List (HistoryData F) → Run Bool
  lookup_loop num zero n vs = some false
  lookup_loop num (suc rounds) n [] = none
  lookup_loop num (suc rounds) n (v ∷ vs) =
      let hit = triggers v.value in
      let n' = if hit then suc n else n in
      let rest = lookup_loop num rounds n' vs in
      if hit && eqb_ℤ (pos n') num then some true else rest

  -- The last difference from `first`, and whether it triggered.
  unfoldable pub diff_loop : ℕ → F → F → List (HistoryData F) → Run (F × Bool)
  diff_loop zero first left vs = some (left, false)
  diff_loop (suc n) first left [] = none
  diff_loop (suc n) first left (v ∷ vs) =
      let left' = f.sub first v.value in
      let rest = diff_loop n first left' vs in if triggers left' then some (left', true) else rest

  unfoldable pub p_diff_loop : ℕ → F → F → List (HistoryData F) → Run (F × Bool)
  p_diff_loop zero first left vs = some (left, false)
  p_diff_loop (suc n) first left [] = none
  p_diff_loop (suc n) first left (v ∷ vs) =
      let left' = percent first v.value in
      let skipped = p_diff_loop n first left vs in
      let rest = p_diff_loop n first left' vs in
      if f.eq v.value nought then skipped else if triggers left' then some (left', true) else rest

module _ {F : Type 0} ⦃f : Float64 F⦄ where
  -- The early return, with the named results as they are then.
  abbrev pub not_enough : List (HistoryData F) → Computed F
  not_enough vs = record { vs = vs; left_value = nought; is_triggered = false; is_enough = false }

  abbrev pub enough : List (HistoryData F) → F → Bool → Computed F
  enough vs left triggered = record {
    vs = vs;
    left_value = left;
    is_triggered = triggered;
    is_enough = true;
  }

  abbrev pub if_enough :
      List (HistoryData F) × Bool → (List (HistoryData F) → Run (Computed F)) → Run (Computed F)
  if_enough (vs, false) body = some (not_enough vs)
  if_enough (vs, true) body = body vs

  -- `len(vs) == 0` and `vs[0]` in one.
  abbrev pub with_first :
      List (HistoryData F) → (F → List (HistoryData F) → Run (Computed F)) → Run (Computed F)
  with_first [] body = some (not_enough [])
  with_first (v ∷ vs) body = body v.value vs

  unfoldable pub compute : Function F → List (JudgeItem F) → Run (Computed F)
  compute (max_function limit operator right) l = if_enough (history_data limit l) λ vs. do
    first ← first_value vs
    max ← max_loop (pos_part limit - 1) first (rest_of vs)
    some (enough vs max (check_is_triggered max operator right))
  compute (min_function limit operator right) l = if_enough (history_data limit l) λ vs. do
    first ← first_value vs
    min ← min_loop (pos_part limit - 1) first (rest_of vs)
    some (enough vs min (check_is_triggered min operator right))
  compute (all_function limit operator right) l = if_enough (history_data limit l) λ vs. do
    triggered ← all_loop operator right (pos_part limit) vs
    first ← first_value vs
    some (enough vs first triggered)
  compute (lookup_function num limit operator right) l = if_enough (history_data limit l) λ vs. do
    first ← first_value vs
    triggered ← lookup_loop operator right num (pos_part limit) 0 vs
    some (enough vs first triggered)
  compute (sum_function limit operator right) l = if_enough (history_data limit l) λ vs. do
    sum ← sum_loop (pos_part limit) nought vs
    some (enough vs sum (check_is_triggered sum operator right))
  compute (avg_function limit operator right) l = if_enough (history_data limit l) λ vs. do
    sum ← sum_loop (pos_part limit) nought vs
    let avg = f.div sum (f.of_int limit)
    some (enough vs avg (check_is_triggered avg operator right))
  compute (diff_function limit operator right) l =
      if_enough (history_data (add64 limit (pos 1)) l) λ vs. with_first vs λ first rest. do
        (left, triggered) ←
            diff_loop operator right (pos_part (add64 limit (pos 1)) - 1) first nought rest
        some (enough vs left triggered)
  compute (p_diff_function limit operator right) l =
      if_enough (history_data (add64 limit (pos 1)) l) λ vs. with_first vs λ first rest. do
        (left, triggered) ←
            p_diff_loop operator right (pos_part (add64 limit (pos 1)) - 1) first nought rest
        some (enough vs left triggered)
