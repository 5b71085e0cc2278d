-- ===== src/Judge/Function/Meaning.antt =====
-- What each function computes from the points of its window.
use falcon_plus.Base.{
  ℕ, suc, ◌-◌, ◌≤◌, ◌≡◌, refl, ap, ◌⊎◌, inl, inr, Bool, true, false, some, List, ◌∷◌, map, foldl,
  length, All, eqb, leb, ltb, arith, take_self,
}
use native.Mathlib.Nat.{le_refl}
use falcon_plus.Base.Int.{ℤ, pos, pos_part}
use falcon_plus.Base.Word.{add64}
use falcon_plus.Base.Text.{Text}
use falcon_plus.Base.Float.{Float64, IsNumber, IsOrdered}
use falcon_plus.Judge.Model.{JudgeItem, HistoryData}
use falcon_plus.Judge.History.List.{history_data}
use falcon_plus.Judge.History.Read.{history_data-enough}
use falcon_plus.Judge.Function.Compute.{
  max_function, min_function, all_function, lookup_function, sum_function, avg_function,
  diff_function, p_diff_function, Computed, check_is_triggered, nought, compute, enough, percent,
}
use falcon_plus.Judge.Function.Loops.{
  values, Among, hits, nonzero, all_loop_lem, lookup_loop_lem, diff_loop_lem, p_diff_loop_lem,
}
use falcon_plus.Judge.Function.Extremes.{
  IsTop, IsBottom, sum_loop_lem, max_loop_lem, min_loop_lem, max_loop-IsTop, min_loop-IsBottom,
}

module _ {F : Type 0} ⦃f : Float64 F⦄ where
  -- What a list holds that HistoryData reports as enough: as many points as were asked for.
  abbrev pub Full : ℤ → List (HistoryData F) → Type 0
  Full n vs = (1 ≤ pos_part n) × (length vs ≡ pos_part n)

  full :
      (n : ℤ) (l : List (JudgeItem F)) → (history_data n l).1 ≡ true → Full n (history_data n l).0
  full n l e = omega (arith, history_data-enough n l e)

  pub window-Full :
      (n : ℤ) (l : List (JudgeItem F)) (vs : List (HistoryData F))
      → history_data n l ≡ (vs, true)
      → Full n vs
  window-Full n l vs e = rw e at (full n l (ap (λ r. r.1) e))

  module _ (n : ℤ) (operator : Text) (right : F) (l : List (JudgeItem F)) (v : HistoryData F)
      (vs : List (HistoryData F)) where
    -- The threshold test of a single number.
    abbrev test : F → Bool
    test x = check_is_triggered x operator right

    -- With a full window of numbers, the left value of max is one of its points, none of them is
    -- above it, and it is what is tested against the threshold.
    pub max_function_lem :
        IsOrdered F
        → All IsNumber (values (v ∷ vs))
        → history_data n l ≡ (v ∷ vs, true)
        → (m : F) × (compute (max_function n operator right) l ≡ some (enough (v ∷ vs) m (test m)))
          × Among m (values (v ∷ vs))
          × IsTop m (values (v ∷ vs))
    unfolding compute
    max_function_lem o a e =
        let h = window-Full n l (v ∷ vs) e in
        let rounds : pos_part n - 1 ≡ length vs = omega arith in
        let (m, run, among) = max_loop_lem (length vs) v.value vs (le_refl (length vs)) in
        (
          m,
          rw (e, rounds, run) refl,
          rw (take_self vs) at among,
          rw (take_self vs) at
              (max_loop-IsTop o (length vs) v.value vs m a.0 (rw (take_self vs) a.1) run),
        )

    -- With a full window of numbers, the left value of min is one of its points, none of them is
    -- below it, and it is what is tested against the threshold.
    pub min_function_lem :
        IsOrdered F
        → All IsNumber (values (v ∷ vs))
        → history_data n l ≡ (v ∷ vs, true)
        → (m : F) × (compute (min_function n operator right) l ≡ some (enough (v ∷ vs) m (test m)))
          × Among m (values (v ∷ vs))
          × IsBottom m (values (v ∷ vs))
    unfolding compute
    min_function_lem o a e =
        let h = window-Full n l (v ∷ vs) e in
        let rounds : pos_part n - 1 ≡ length vs = omega arith in
        let (m, run, among) = min_loop_lem (length vs) v.value vs (le_refl (length vs)) in
        (
          m,
          rw (e, rounds, run) refl,
          rw (take_self vs) at among,
          rw (take_self vs) at
              (min_loop-IsBottom o (length vs) v.value vs m a.0 (rw (take_self vs) a.1) run),
        )

    -- With a full window, all triggers exactly when every point of it passes, and its left value
    -- is the newest point.
    pub all_function_lem :
        history_data n l ≡ (v ∷ vs, true)
        → compute (all_function n operator right) l
          ≡ some (
              enough
                (v ∷ vs)
                v.value
                (eqb (hits operator right (values (v ∷ vs))) (length (v ∷ vs))))
    unfolding compute
    all_function_lem e =
        let h = window-Full n l (v ∷ vs) e in
        rw
          (
            e,
            ← h.1,
            all_loop_lem operator right (suc (length vs)) (v ∷ vs) (omega arith),
            take_self vs,
          )
          refl

    -- With a full window, lookup(#k,n) for k of at least 1 triggers exactly when at least k points
    -- of it pass.
    pub lookup_function_lem :
        (k : ℕ)
        → 1 ≤ k
        → history_data n l ≡ (v ∷ vs, true)
        → compute (lookup_function (pos k) n operator right) l
          ≡ some (enough (v ∷ vs) v.value (leb k (hits operator right (values (v ∷ vs)))))
    unfolding compute
    lookup_function_lem k positive e =
        let h = window-Full n l (v ∷ vs) e in
        rw
          (
            e,
            ← h.1,
            lookup_loop_lem operator right k (suc (length vs)) 0 (v ∷ vs) (omega arith)
                (omega arith),
            take_self vs,
          )
          (ground arith)

    -- With a full window, the left value of sum is the sum of its points from the newest on, that
    -- of avg is this sum over the limit, and each is what is tested against the threshold.
    pub sum_function_lem :
        history_data n l ≡ (v ∷ vs, true)
        → let total = foldl f.add nought (values (v ∷ vs)) in
          (compute (sum_function n operator right) l ≡ some (enough (v ∷ vs) total (test total)))
          × (compute (avg_function n operator right) l
              ≡ some (enough (v ∷ vs) (f.div total (f.of_int n)) (test (f.div total (f.of_int n)))))
    unfolding compute
    sum_function_lem e =
        let h = window-Full n l (v ∷ vs) e in
        let summed = sum_loop_lem (suc (length vs)) nought (v ∷ vs) (omega arith) in
        (rw (e, ← h.1, summed, take_self vs) refl, rw (e, ← h.1, summed, take_self vs) refl)

    -- The result of a function that looks for one difference that passes.
    abbrev pub Differs : List F → Computed F → Type 0
    Differs xs r =
        (r.vs ≡ v ∷ vs)
        × (r.is_enough ≡ true)
        × (r.is_triggered ≡ ltb 0 (hits operator right xs))
        × ((r.is_triggered ≡ false) ⊎ ((test r.left_value ≡ true) × Among r.left_value xs))

    -- A result that triggered has a cause.
    with_cause : {P : Type 0} (b : Bool) → (b ≡ true → P) → (b ≡ false) ⊎ P
    with_cause true cause = inr (cause refl)
    with_cause false cause = inl refl

    -- With a full window of n + 1 points, diff triggers exactly when the newest point less some
    -- older one passes, and then its left value is such a difference.
    pub diff_function_lem :
        history_data (add64 n (pos 1)) l ≡ (v ∷ vs, true)
        → (r : Computed F) × (compute (diff_function n operator right) l ≡ some r)
          × Differs (map (f.sub v.value) (values vs)) r
    unfolding compute
    diff_function_lem e =
        let h = window-Full (add64 n (pos 1)) l (v ∷ vs) e in
        let rounds : pos_part (add64 n (pos 1)) - 1 ≡ length vs = omega arith in
        let (r, run, found) =
          diff_loop_lem operator right (length vs) v.value nought vs (le_refl (length vs)) in
        let found' = rw (take_self vs) at found in
        (
          enough (v ∷ vs) r.0 r.1,
          rw (e, rounds, run) refl,
          (refl, refl, found'.0, with_cause r.1 found'.1),
        )

    -- With a full window of n + 1 points, pdiff triggers exactly when the change in percent from
    -- some older point that is not zero to the newest passes, and then its left value is such a
    -- change.
    pub p_diff_function_lem :
        history_data (add64 n (pos 1)) l ≡ (v ∷ vs, true)
        → (r : Computed F) × (compute (p_diff_function n operator right) l ≡ some r)
          × Differs (map (percent v.value) (nonzero (values vs))) r
    unfolding compute
    p_diff_function_lem e =
        let h = window-Full (add64 n (pos 1)) l (v ∷ vs) e in
        let rounds : pos_part (add64 n (pos 1)) - 1 ≡ length vs = omega arith in
        let (r, run, found) =
          p_diff_loop_lem operator right (length vs) v.value nought vs (le_refl (length vs)) in
        let found' = rw (take_self vs) at found in
        (
          enough (v ∷ vs) r.0 r.1,
          rw (e, rounds, run) refl,
          (refl, refl, found'.0, with_cause r.1 found'.1),
        )
