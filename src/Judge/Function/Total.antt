-- ===== src/Judge/Function/Total.antt =====
-- modules/judge/store/func.go: the functions with any list, full or not.
use falcon_plus.Base.{suc, ◌-◌, ◌≡◌, refl, Bool, true, false, some, List, [], ◌∷◌, length, arith}
use native.Mathlib.Nat.{le_refl}
use falcon_plus.Base.Int.{ℤ, pos, pos_part}
use falcon_plus.Base.Word.{add64}
use falcon_plus.Base.Float.{Float64}
use falcon_plus.Judge.Model.{JudgeItem, HistoryData}
use falcon_plus.Judge.History.List.{history_data}
use falcon_plus.Judge.Function.Compute.{
  Function, max_function, min_function, all_function, lookup_function, sum_function, avg_function,
  diff_function, p_diff_function, Computed, compute, not_enough, enough, check_is_triggered,
}
use falcon_plus.Judge.Function.Loops.{lookup_loop_never}
use falcon_plus.Judge.Function.Extremes.{max_loop_lem, min_loop_lem}
use falcon_plus.Judge.Function.Meaning.{
  window-Full, lookup_function_lem, all_function_lem, sum_function_lem, diff_function_lem,
  p_diff_function_lem,
}

module _ {F : Type 0} ⦃f : Float64 F⦄ where
  -- The number of points that the function asks HistoryData for.
  abbrev pub window : Function F → ℤ
  window (max_function n _ _) = n
  window (min_function n _ _) = n
  window (all_function n _ _) = n
  window (lookup_function _ n _ _) = n
  window (sum_function n _ _) = n
  window (avg_function n _ _) = n
  window (diff_function n _ _) = add64 n (pos 1)
  window (p_diff_function n _ _) = add64 n (pos 1)

  abbrev Returns : Function F → List (JudgeItem F) → List (HistoryData F) × Bool → Type 0
  Returns fn l p = (r : Computed F) × (compute fn l ≡ some r) × (r.is_enough ≡ p.1) × (r.vs ≡ p.0)

  short_window :
      (fn : Function F) (l : List (JudgeItem F)) (vs : List (HistoryData F))
      → history_data (window fn) l ≡ (vs, false)
      → compute fn l ≡ some (not_enough vs)
  unfolding compute
  short_window (max_function n op right) l vs e = rw e refl
  short_window (min_function n op right) l vs e = rw e refl
  short_window (all_function n op right) l vs e = rw e refl
  short_window (lookup_function k n op right) l vs e = rw e refl
  short_window (sum_function n op right) l vs e = rw e refl
  short_window (avg_function n op right) l vs e = rw e refl
  short_window (diff_function n op right) l vs e = rw e refl
  short_window (p_diff_function n op right) l vs e = rw e refl

  full_window :
      (fn : Function F) (l : List (JudgeItem F)) (v : HistoryData F) (vs : List (HistoryData F))
      → history_data (window fn) l ≡ (v ∷ vs, true)
      → Returns fn l (v ∷ vs, true)
  unfolding compute
  full_window (max_function n op right) l v vs e =
      let h = window-Full n l (v ∷ vs) e in
      let rounds : pos_part n - 1 ≡ length vs = omega arith in
      let (m, run, _) = max_loop_lem (length vs) v.value vs (le_refl (length vs)) in
      (enough (v ∷ vs) m (check_is_triggered m op right), rw (e, rounds, run) refl, refl, refl)
  full_window (min_function n op right) l v vs e =
      let h = window-Full n l (v ∷ vs) e in
      let rounds : pos_part n - 1 ≡ length vs = omega arith in
      let (m, run, _) = min_loop_lem (length vs) v.value vs (le_refl (length vs)) in
      (enough (v ∷ vs) m (check_is_triggered m op right), rw (e, rounds, run) refl, refl, refl)
  full_window (all_function n op right) l v vs e =
      (_, all_function_lem n op right l v vs e, refl, refl)
  full_window (lookup_function (pos (suc k)) n op right) l v vs e =
      (_, lookup_function_lem n op right l v vs (suc k) (omega arith) e, refl, refl)
  full_window (lookup_function num n op right) l v vs e =
      let h = window-Full n l (v ∷ vs) e in
      (
        enough (v ∷ vs) v.value false,
        rw
            (
              e,
              ← h.1,
              lookup_loop_never op right num (suc (length vs)) 0 (v ∷ vs)
                  (le_refl (suc (length vs))) (omega arith),
            )
            refl,
        refl,
        refl,
      )
  full_window (sum_function n op right) l v vs e =
      (_, (sum_function_lem n op right l v vs e).0, refl, refl)
  full_window (avg_function n op right) l v vs e =
      (_, (sum_function_lem n op right l v vs e).1, refl, refl)
  full_window (diff_function n op right) l v vs e =
      let (r, run, d) = diff_function_lem n op right l v vs e in (r, run, d.1, d.0)
  full_window (p_diff_function n op right) l v vs e =
      let (r, run, d) = p_diff_function_lem n op right l v vs e in (r, run, d.1, d.0)

  by_window :
      (fn : Function F) (l : List (JudgeItem F)) (p : List (HistoryData F) × Bool)
      → history_data (window fn) l ≡ p
      → Returns fn l p
  by_window fn l (vs, false) e = (not_enough vs, short_window fn l vs e, refl, refl)
  by_window fn l ([], true) e = absurd (omega (arith, window-Full (window fn) l [] e))
  by_window fn l (v ∷ vs, true) e = full_window fn l v vs e

  -- Every function returns on every list without a panic, has enough exactly when HistoryData
  -- finds its window full, and hands on the points of the window.
  pub compute_total :
      (fn : Function F) (l : List (JudgeItem F))
      → (r : Computed F) × (compute fn l ≡ some r)
        × (r.is_enough ≡ (history_data (window fn) l).1)
        × (r.vs ≡ (history_data (window fn) l).0)
  compute_total fn l = by_window fn l (history_data (window fn) l) refl
