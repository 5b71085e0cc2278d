-- ===== src/Judge/Function/Extremes.antt =====
-- The loops of max, min and sum, against the order of the numbers and a fold.
use falcon_plus.Base.{
  ℕ, zero, suc, ◌≤◌, ◌≡◌, refl, inl, inr, false, some, List, [], ◌∷◌, foldl, length, take, All,
  Bool-cases, arith,
}
use falcon_plus.Base.Float.{Float64, IsNumber, IsOrdered}
use falcon_plus.Judge.Model.{HistoryData}
use falcon_plus.Judge.Function.Compute.{max_loop, min_loop, sum_loop}
use falcon_plus.Judge.Function.Loops.{values, Among}

module _ {F : Type 0} ⦃f : Float64 F⦄ where
  -- No value of the list is above `r`, and none is below.
  abbrev pub IsTop : F → List F → Type 0
  IsTop r xs = All (λ x. f.lt r x ≡ false) xs

  abbrev pub IsBottom : F → List F → Type 0
  IsBottom r xs = All (λ x. f.lt x r ≡ false) xs

  pub sum_loop_lem :
      (n : ℕ) (acc : F) (vs : List (HistoryData F))
      → n ≤ length vs
      → sum_loop n acc vs ≡ some (foldl f.add acc (values (take n vs)))
  unfolding sum_loop
  sum_loop_lem zero acc vs h = refl
  sum_loop_lem (suc n) acc [] h = absurd (omega arith)
  sum_loop_lem (suc n) acc (v ∷ vs) h = sum_loop_lem n (f.add acc v.value) vs (omega arith)

  pub max_loop_lem :
      (n : ℕ) (max : F) (vs : List (HistoryData F))
      → n ≤ length vs
      → (r : F) × (max_loop n max vs ≡ some r) × Among r (max ∷ values (take n vs))
  unfolding max_loop
  max_loop_lem zero max vs h = (max, refl, inl refl)
  max_loop_lem (suc n) max [] h = absurd (omega arith)
  max_loop_lem (suc n) max (v ∷ vs) h = elim (Bool-cases (f.lt max v.value)) [
    | inl e ↦
        let (r, run, here) = max_loop_lem n v.value vs (omega arith) in (r, rw e run, inr here)
    | inr e ↦
        let (r, run, here) = max_loop_lem n max vs (omega arith) in
        (r, rw e run, elim here [ inl p ↦ inl p | inr q ↦ inr (inr q) ])
  ]

  pub min_loop_lem :
      (n : ℕ) (min : F) (vs : List (HistoryData F))
      → n ≤ length vs
      → (r : F) × (min_loop n min vs ≡ some r) × Among r (min ∷ values (take n vs))
  unfolding min_loop
  min_loop_lem zero min vs h = (min, refl, inl refl)
  min_loop_lem (suc n) min [] h = absurd (omega arith)
  min_loop_lem (suc n) min (v ∷ vs) h = elim (Bool-cases (f.lt v.value min)) [
    | inl e ↦
        let (r, run, here) = min_loop_lem n v.value vs (omega arith) in (r, rw e run, inr here)
    | inr e ↦
        let (r, run, here) = min_loop_lem n min vs (omega arith) in
        (r, rw e run, elim here [ inl p ↦ inl p | inr q ↦ inr (inr q) ])
  ]

module _ {F : Type 0} ⦃f : Float64 F⦄ (o : IsOrdered F) where
  -- Among numbers the loop's result is above the start and all that it read.
  pub max_loop-IsTop :
      (n : ℕ) (max : F) (vs : List (HistoryData F)) (r : F)
      → IsNumber max
      → All IsNumber (values (take n vs))
      → max_loop n max vs ≡ some r
      → IsTop r (max ∷ values (take n vs))
  unfolding max_loop
  max_loop-IsTop zero max vs r m a e = ground (arith, o.lt_irrefl max)
  max_loop-IsTop (suc n) max [] r m a e = cc
  max_loop-IsTop (suc n) max (v ∷ vs) r m a e = elim (Bool-cases (f.lt max v.value)) [
    | inl above ↦
        let top = max_loop-IsTop n v.value vs r a.0 a.1 (rw above at e) in
        (o.not-lt_trans r v.value max a.0 top.0 (o.lt_asymm max v.value above), top)
    | inr below ↦
        let top = max_loop-IsTop n max vs r m a.1 (rw below at e) in
        (top.0, (o.not-lt_trans r max v.value m top.0 below, top.1))
  ]

  pub min_loop-IsBottom :
      (n : ℕ) (min : F) (vs : List (HistoryData F)) (r : F)
      → IsNumber min
      → All IsNumber (values (take n vs))
      → min_loop n min vs ≡ some r
      → IsBottom r (min ∷ values (take n vs))
  unfolding min_loop
  min_loop-IsBottom zero min vs r m a e = ground (arith, o.lt_irrefl min)
  min_loop-IsBottom (suc n) min [] r m a e = cc
  min_loop-IsBottom (suc n) min (v ∷ vs) r m a e = elim (Bool-cases (f.lt v.value min)) [
    | inl below ↦
        let bottom = min_loop-IsBottom n v.value vs r a.0 a.1 (rw below at e) in
        (o.not-lt_trans min v.value r a.0 (o.lt_asymm v.value min below) bottom.0, bottom)
    | inr above ↦
        let bottom = min_loop-IsBottom n min vs r m a.1 (rw above at e) in
        (bottom.0, (o.not-lt_trans v.value min r m above bottom.0, bottom.1))
  ]
