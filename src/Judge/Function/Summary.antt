-- ===== src/Judge/Function/Summary.antt =====
-- modules/judge/store/func.go: the Compute methods, side by side.
use falcon_plus.Base.{
  suc, ◌≡◌, refl, sym, ◌⊎◌, true, false, inl, inr, subst, Bool-cases, ◌&&◌, some, List, ◌∷◌, map,
  foldl, length, All, eqb, leb, ltb, arith,
}
use falcon_plus.Base.Int.{ℤ, pos, negsuc, pos_part, ltb_ℤ}
use falcon_plus.Base.Word.{add64}
use falcon_plus.Base.Text.{Text}
use falcon_plus.Base.Float.{Float64, IsNumber, IsOrdered}
use falcon_plus.Judge.Model.{JudgeItem, HistoryData}
use falcon_plus.Judge.History.List.{history_data}
use falcon_plus.Judge.Function.Compute.{
  Function, max_function, min_function, all_function, lookup_function, sum_function, avg_function,
  diff_function, p_diff_function, Computed, check_is_triggered, nought, compute, enough, percent,
}
use falcon_plus.Judge.Function.Loops.{values, Among, hits, nonzero, lookup_loop_never}
use falcon_plus.Judge.Function.Extremes.{IsTop, IsBottom}
use falcon_plus.Judge.Function.Meaning.{
  window-Full, max_function_lem, min_function_lem, all_function_lem, lookup_function_lem,
  sum_function_lem, diff_function_lem, p_diff_function_lem,
}

module _ {F : Type 0} ⦃f : Float64 F⦄ where
  -- How many points a function asks for: one more than its limit where it takes differences.
  abbrev pub window_of : Function F → ℤ
  window_of (max_function n operator right) = n
  window_of (min_function n operator right) = n
  window_of (all_function n operator right) = n
  window_of (lookup_function k n operator right) = n
  window_of (sum_function n operator right) = n
  window_of (avg_function n operator right) = n
  window_of (diff_function n operator right) = add64 n (pos 1)
  window_of (p_diff_function n operator right) = add64 n (pos 1)

  -- The left value is what is tested against the threshold.
  abbrev pub TestsLeft : Text → F → Computed F → Type 0
  TestsLeft operator right r = r.is_triggered ≡ check_is_triggered r.left_value operator right

  -- It triggers exactly when one of the numbers passes, and then the left value is such a number.
  abbrev pub FindsOne : Text → F → List F → Computed F → Type 0
  FindsOne operator right xs r =
      (r.is_triggered ≡ ltb 0 (hits operator right xs))
      × ((r.is_triggered ≡ false)
          ⊎ ((check_is_triggered r.left_value operator right ≡ true) × Among r.left_value xs))

  -- What the result says of a window with `v` in front of `vs`.
  abbrev pub Means : HistoryData F → List (HistoryData F) → Function F → Computed F → Type 0
  Means v vs (max_function n operator right) r =
      Among r.left_value (values (v ∷ vs))
      × IsTop r.left_value (values (v ∷ vs))
      × TestsLeft operator right r
  Means v vs (min_function n operator right) r =
      Among r.left_value (values (v ∷ vs))
      × IsBottom r.left_value (values (v ∷ vs))
      × TestsLeft operator right r
  Means v vs (all_function n operator right) r =
      (r.left_value ≡ v.value)
      × (r.is_triggered ≡ eqb (hits operator right (values (v ∷ vs))) (length (v ∷ vs)))
  Means v vs (lookup_function k n operator right) r =
      (r.left_value ≡ v.value)
      × (r.is_triggered
          ≡ (ltb_ℤ (pos 0) k && leb (pos_part k) (hits operator right (values (v ∷ vs)))))
  Means v vs (sum_function n operator right) r =
      (r.left_value ≡ foldl f.add nought (values (v ∷ vs))) × TestsLeft operator right r
  Means v vs (avg_function n operator right) r =
      (r.left_value ≡ f.div (foldl f.add nought (values (v ∷ vs))) (f.of_int n))
      × TestsLeft operator right r
  Means v vs (diff_function n operator right) r =
      FindsOne operator right (map (f.sub v.value) (values vs)) r
  Means v vs (p_diff_function n operator right) r =
      FindsOne operator right (map (percent v.value) (nonzero (values vs))) r

  lookup_function_never :
      (k n : ℤ) (operator : Text) (right : F) (l : List (JudgeItem F)) (v : HistoryData F)
      (vs : List (HistoryData F))
      → ltb_ℤ (pos 0) k ≡ false
      → history_data n l ≡ (v ∷ vs, true)
      → compute (lookup_function k n operator right) l ≡ some (enough (v ∷ vs) v.value false)
  unfolding compute
  lookup_function_never k n operator right l v vs h e =
      let w = window-Full n l (v ∷ vs) e in
      rw
        (
          e,
          ← w.1,
          lookup_loop_never operator right k (suc (length vs)) 0 (v ∷ vs) (omega arith)
              (ground arith),
        )
        refl

  -- For every number of hits asked for, positive or not.
  lookup_function-hits :
      (k n : ℤ) (operator : Text) (right : F) (l : List (JudgeItem F)) (v : HistoryData F)
      (vs : List (HistoryData F))
      → history_data n l ≡ (v ∷ vs, true)
      → compute (lookup_function k n operator right) l
        ≡ some (
            enough
              (v ∷ vs)
              v.value
              (ltb_ℤ (pos 0) k && leb (pos_part k) (hits operator right (values (v ∷ vs)))))
  lookup_function-hits k n operator right l v vs e = elim (Bool-cases (ltb_ℤ (pos 0) k)) [
    | inl h ↦
        let is_pos : k ≡ pos (pos_part k) = by_parts k h in
        rw h (
          subst
            (λ z.
              compute (lookup_function z n operator right) l
              ≡ some (
                  enough (v ∷ vs) v.value
                    (leb (pos_part k) (hits operator right (values (v ∷ vs))))))
            (sym is_pos)
            (lookup_function_lem n operator right l v vs (pos_part k) (ground arith) e))
    | inr h ↦ rw h (lookup_function_never k n operator right l v vs h e)
  ]
    where
      by_parts : (k : ℤ) → ltb_ℤ (pos 0) k ≡ true → k ≡ pos (pos_part k)
      by_parts (pos k) h = refl
      by_parts (negsuc k) h = absurd (ground arith)

  -- On a window that HistoryData reports as enough and whose points are numbers, each of the eight
  -- functions returns the window and means what its name says: max and min give a top and a bottom
  -- point, all and lookup count the points that pass, sum and avg add up, diff and pdiff find a
  -- difference that passes.
  pub compute-Means :
      (fn : Function F) (l : List (JudgeItem F)) (v : HistoryData F) (vs : List (HistoryData F))
      → IsOrdered F
      → All IsNumber (values (v ∷ vs))
      → history_data (window_of fn) l ≡ (v ∷ vs, true)
      → (r : Computed F) × (compute fn l ≡ some r)
        × (r.vs ≡ v ∷ vs)
        × (r.is_enough ≡ true)
        × Means v vs fn r
  compute-Means (max_function n operator right) l v vs o a e =
      let (m, run, among, top) = max_function_lem n operator right l v vs o a e in
      (enough (v ∷ vs) m (check_is_triggered m operator right), run, refl, refl, (among, top, refl))
  compute-Means (min_function n operator right) l v vs o a e =
      let (m, run, among, bottom) = min_function_lem n operator right l v vs o a e in
      (
        enough (v ∷ vs) m (check_is_triggered m operator right),
        run,
        refl,
        refl,
        (among, bottom, refl),
      )
  compute-Means (all_function n operator right) l v vs o a e = (
    enough (v ∷ vs) v.value _,
    all_function_lem n operator right l v vs e,
    refl,
    refl,
    (refl, refl),
  )
  compute-Means (lookup_function k n operator right) l v vs o a e = (
    enough (v ∷ vs) v.value _,
    lookup_function-hits k n operator right l v vs e,
    refl,
    refl,
    (refl, refl),
  )
  compute-Means (sum_function n operator right) l v vs o a e = (
    enough (v ∷ vs) _ _,
    (sum_function_lem n operator right l v vs e).0,
    refl,
    refl,
    (refl, refl),
  )
  compute-Means (avg_function n operator right) l v vs o a e = (
    enough (v ∷ vs) _ _,
    (sum_function_lem n operator right l v vs e).1,
    refl,
    refl,
    (refl, refl),
  )
  compute-Means (diff_function n operator right) l v vs o a e =
      let (r, run, (all, whole, triggered, cause)) = diff_function_lem n operator right l v vs e in
      (r, run, all, whole, (triggered, cause))
  compute-Means (p_diff_function n operator right) l v vs o a e =
      let (r, run, (all, whole, triggered, cause)) =
        p_diff_function_lem n operator right l v vs e in
      (r, run, all, whole, (triggered, cause))
