-- ===== src/Judge/Function/Loops.antt =====
-- The loops of the functions, against counts and folds of the points that they read.
use falcon_plus.Base.{
  ℕ, zero, suc, ◌+◌, ◌≤◌, ◌<◌, ◌≡◌, refl, ◌⊎◌, inl, inr, Bool, true, false, some, List, [], ◌∷◌,
  map, length, take, eqb, leb, ltb, Bool-cases, if◌then◌else◌, arith,
}
use falcon_plus.Base.Int.{ℤ, pos, ◌≤ℤ◌}
use falcon_plus.Base.Text.{Text}
use falcon_plus.Base.Float.{Float64}
use falcon_plus.Judge.Model.{HistoryData}
use falcon_plus.Judge.Function.Compute.{
  nought, triggers, all_loop, lookup_loop, diff_loop, percent, p_diff_loop,
}

module _ {F : Type 0} where
  abbrev pub values : List (HistoryData F) → List F
  values = map (λ v. v.value)

  abbrev pub Among : F → List F → Type 0
  Among x [] = ⊥
  Among x (y ∷ ys) = (x ≡ y) ⊎ Among x ys

module _ {F : Type 0} ⦃f : Float64 F⦄ where
  -- The values that pdiff looks at: it skips a zero.
  abbrev pub nonzero : List F → List F
  nonzero [] = []
  nonzero (x ∷ xs) = let rest = nonzero xs in if f.eq x nought then rest else x ∷ rest

module _ {F : Type 0} ⦃f : Float64 F⦄ (operator : Text) (right : F) where
  -- How many of the values pass the threshold.
  unfoldable pub hits : List F → ℕ
  hits [] = 0
  hits (x ∷ xs) = let rest = hits xs in if triggers operator right x then suc rest else rest

  pub hits-le-length : (xs : List F) → hits xs ≤ length xs
  unfolding hits
  hits-le-length [] = omega arith
  hits-le-length (x ∷ xs) = ground (arith, hits-le-length xs)

  pub all_loop_lem :
      (n : ℕ) (vs : List (HistoryData F))
      → n ≤ length vs
      → all_loop operator right n vs ≡ some (eqb (hits (values (take n vs))) n)
  unfolding all_loop hits
  all_loop_lem zero vs h = refl
  all_loop_lem (suc n) [] h = absurd (omega arith)
  all_loop_lem (suc n) (v ∷ vs) h =
      ground (arith, all_loop_lem n vs, hits-le-length (values (take n vs)), length-values n vs)
    where
      length-values : (n : ℕ) (vs : List (HistoryData F)) → length (values (take n vs)) ≤ n
      length-values zero vs = omega arith
      length-values (suc n) [] = omega arith
      length-values (suc n) (v ∷ vs) = omega (arith, length-values n vs)

  pub lookup_loop_lem :
      (k n c : ℕ) (vs : List (HistoryData F))
      → n ≤ length vs
      → c < k
      → lookup_loop operator right (pos k) n c vs ≡ some (leb k (c + hits (values (take n vs))))
  unfolding lookup_loop hits
  lookup_loop_lem k zero c vs h b = ground arith
  lookup_loop_lem k (suc n) c [] h b = absurd (omega arith)
  lookup_loop_lem k (suc n) c (v ∷ vs) h b =
      ground (arith, lookup_loop_lem k n c vs, lookup_loop_lem k n (suc c) vs)

  pub lookup_loop_never :
      (num : ℤ) (n c : ℕ) (vs : List (HistoryData F))
      → n ≤ length vs
      → num ≤ℤ pos 0
      → lookup_loop operator right num n c vs ≡ some false
  unfolding lookup_loop
  lookup_loop_never num zero c vs h b = refl
  lookup_loop_never num (suc n) c [] h b = absurd (omega arith)
  lookup_loop_never num (suc n) c (v ∷ vs) h b =
      ground (arith, lookup_loop_never num n c vs, lookup_loop_never num n (suc c) vs)

  -- The outcome of a loop that looks for one difference that passes.
  abbrev pub Found : List F → F × Bool → Type 0
  Found xs r =
      (r.1 ≡ ltb 0 (hits xs)) × (r.1 ≡ true → (triggers operator right r.0 ≡ true) × Among r.0 xs)

  pub diff_loop_lem :
      (n : ℕ) (first left : F) (vs : List (HistoryData F))
      → n ≤ length vs
      → (r : F × Bool) × (diff_loop operator right n first left vs ≡ some r)
        × Found (map (f.sub first) (values (take n vs))) r
  unfolding diff_loop hits
  diff_loop_lem zero first left vs h = ((left, false), refl, (refl, λ e. cc))
  diff_loop_lem (suc n) first left [] h = absurd (omega arith)
  diff_loop_lem (suc n) first left (v ∷ vs) h =
      let left' = f.sub first v.value in
      elim (Bool-cases (triggers operator right left')) [
        | inl e ↦ ((left', true), ground arith, (ground arith, λ _. (e, inl refl)))
        | inr e ↦
            let (r, run, found) = diff_loop_lem n first left' vs (omega arith) in
            (r, ground arith, (ground arith, λ t. ((found.1 t).0, inr (found.1 t).1)))
      ]

  pub p_diff_loop_lem :
      (n : ℕ) (first left : F) (vs : List (HistoryData F))
      → n ≤ length vs
      → (r : F × Bool) × (p_diff_loop operator right n first left vs ≡ some r)
        × Found (map (percent first) (nonzero (values (take n vs)))) r
  unfolding p_diff_loop hits
  p_diff_loop_lem zero first left vs h = ((left, false), refl, (refl, λ e. cc))
  p_diff_loop_lem (suc n) first left [] h = absurd (omega arith)
  p_diff_loop_lem (suc n) first left (v ∷ vs) h = elim (Bool-cases (f.eq v.value nought)) [
    | inl zeroed ↦
        let (r, run, found) = p_diff_loop_lem n first left vs (omega arith) in
        (r, rw zeroed run, rw zeroed found)
    | inr counted ↦ elim (Bool-cases (triggers operator right left')) [
      | inl e ↦ ((left', true), rw (counted, e) refl, rw counted (ground arith, λ _. (e, inl refl)))
      | inr e ↦
          let (r, run, found) = p_diff_loop_lem n first left' vs (omega arith) in
          (
            r,
            rw (counted, e) run,
            rw counted (ground arith, λ t. ((found.1 t).0, inr (found.1 t).1)),
          )
    ]
  ]
    where
      left' : F
      left' = percent first v.value
