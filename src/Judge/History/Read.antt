-- ===== src/Judge/History/Read.antt =====
-- What HistoryData reads off a counter's list.
use falcon_plus.Base.{
  ℕ, zero, suc, ◌+◌, ◌-◌, ◌≤◌, ◌<◌, ◌≡◌, refl, Bool, true, false, not, Option, none, some, List, [],
  ◌∷◌, map, length, take, leb, Option-cases, arith, inl, inr, take_of_length-le, >>=-eq-some,
  if◌then◌else◌,
}
use falcon_plus.Base.Int.{ℤ, pos, pos_part, ◌≤ℤ◌, ltb_ℤ, ◌+ℤ◌}
use falcon_plus.Base.Word.{two63, int64_exact, add64}
use falcon_plus.Base.Float.{Float64}
use falcon_plus.Judge.Model.{JudgeItem, HistoryData}
use falcon_plus.Judge.History.List.{
  point, rate, gauge_walk, counter_walk, is_gauge, first_byte, gauge_history, counter_history,
  history_data, recovered,
}

module _ {F : Type 0} ⦃f : Float64 F⦄ where
  gauge_walk-take :
      (n : ℕ) (l : List (JudgeItem F)) → n ≤ length l → gauge_walk n l ≡ some (map point (take n l))
  unfolding gauge_walk
  gauge_walk-take zero l h = refl
  gauge_walk-take (suc n) [] h = absurd (omega arith)
  gauge_walk-take (suc n) (x ∷ xs) h = rw (gauge_walk-take n xs (omega arith)) refl

  -- The rates between neighbours, newest first.
  abbrev pub rates : List (JudgeItem F) → List (HistoryData F)
  rates (x ∷ y ∷ ys) = rate x y ∷ rates (y ∷ ys)
  rates _ = []

  counter_walk-take :
      (n : ℕ) (l : List (JudgeItem F))
      → n < length l
      → counter_walk n l ≡ some (rates (take (suc n) l))
  unfolding counter_walk
  counter_walk-take zero [] h = refl
  counter_walk-take zero (x ∷ xs) h = refl
  counter_walk-take (suc n) [] h = absurd (omega arith)
  counter_walk-take (suc n) (x ∷ []) h = absurd (omega arith)
  counter_walk-take (suc n) (x ∷ y ∷ ys) h = rw (counter_walk-take n (y ∷ ys) (omega arith)) refl

  gauge_history_lem :
      (n : ℕ) (l : List (JudgeItem F))
      → gauge_history (pos n) l ≡ (map point (take n l), leb n (length l))
  unfolding gauge_history
  gauge_history_lem n l = ground (
    arith,
    gauge_walk-take n l,
    gauge_walk-take (length l) l,
    take_of_length-le n l,
    take_of_length-le (length l) l,
  )

  -- Of a gauge, HistoryData reads the newest n points, or all where there are fewer, and reports
  -- enough exactly when there are n.
  pub history_data-gauge :
      (n c : ℕ) (x : JudgeItem F) (xs : List (JudgeItem F))
      → 1 ≤ n
      → first_byte x ≡ some c
      → is_gauge c ≡ true
      → history_data (pos n) (x ∷ xs) ≡ (map point (take n (x ∷ xs)), leb n (length (x ∷ xs)))
  unfolding history_data
  history_data-gauge n c x xs h e g = ground (arith, gauge_history_lem n (x ∷ xs))

  counter_history_lem :
      (n : ℕ) (x : JudgeItem F) (xs : List (JudgeItem F))
      → suc n < two63
      → counter_history (pos n) (x ∷ xs)
        ≡ (rates (take (suc n) (x ∷ xs)), leb (suc n) (length (x ∷ xs)))
  unfolding counter_history ◌+ℤ◌
  counter_history_lem n x xs b = ground (
    arith,
    int64_exact (pos (n + 1)),
    counter_walk-take n (x ∷ xs),
    counter_walk-take (length xs) (x ∷ xs),
    take_of_length-le n xs,
    take_of_length-le (length xs) xs,
  )

  -- Of a counter, HistoryData reads the rates between the newest n + 1 points, or between all
  -- where there are fewer, and reports enough exactly when there are n + 1.
  pub history_data-counter :
      (n c : ℕ) (x : JudgeItem F) (xs : List (JudgeItem F))
      → 1 ≤ n
      → suc n < two63
      → first_byte x ≡ some c
      → is_gauge c ≡ false
      → history_data (pos n) (x ∷ xs)
        ≡ (rates (take (suc n) (x ∷ xs)), leb (suc n) (length (x ∷ xs)))
  unfolding history_data
  history_data-counter n c x xs h b e g = ground (arith, counter_history_lem n x xs)

  length-gauge_walk :
      (n : ℕ) (l : List (JudgeItem F)) (vs : List (HistoryData F))
      → gauge_walk n l ≡ some vs
      → length vs ≡ n
  unfolding gauge_walk
  length-gauge_walk zero l vs e = ground arith
  length-gauge_walk (suc n) [] vs e = cc
  length-gauge_walk (suc n) (x ∷ xs) vs e =
      let (rest, walked, made) = >>=-eq-some (gauge_walk n xs) (λ vs. some (point x ∷ vs)) e in
      ground (arith, length-gauge_walk n xs rest walked)

  length-counter_walk :
      (n : ℕ) (l : List (JudgeItem F)) (vs : List (HistoryData F))
      → counter_walk n l ≡ some vs
      → length vs ≡ n
  unfolding counter_walk
  length-counter_walk zero l vs e = ground arith
  length-counter_walk (suc n) [] vs e = cc
  length-counter_walk (suc n) (x ∷ []) vs e = cc
  length-counter_walk (suc n) (x ∷ y ∷ ys) vs e =
      let (rest, walked, made) =
        >>=-eq-some (counter_walk n (y ∷ ys)) (λ vs. some (rate x y ∷ vs)) e in
      ground (arith, length-counter_walk n (y ∷ ys) rest walked)

  length-enough :
      (walk : ℕ → Option (List (HistoryData F))) (short : Bool) (a b : ℕ)
      → ((n : ℕ) (vs : List (HistoryData F)) → walk n ≡ some vs → length vs ≡ n)
      → (recovered (not short) (walk (if short then a else b))).1 ≡ true
      → length (recovered (not short) (walk (if short then a else b))).0 ≡ b
  length-enough walk true a b h e = absurd (never (walk a) e)
    where
      never : (w : Option (List (HistoryData F))) → (recovered false w).1 ≡ true → ⊥
      never none e = cc
      never (some vs) e = cc
  length-enough walk false a b h e = elim (Option-cases (walk b)) [
    | inl out ↦ absurd (never (rw out at e))
    | inr (vs, walked) ↦ rw walked (h b vs walked)
  ]
    where
      never : ◌≡◌ {A = Bool} false true → ⊥
      never e = cc

  length-by_walk :
      (limit : ℤ) (l : List (JudgeItem F))
      → ((gauge_history limit l).1 ≡ true → length (gauge_history limit l).0 ≡ pos_part limit)
        × ((counter_history limit l).1 ≡ true → length (counter_history limit l).0 ≡ pos_part limit)
  unfolding gauge_history counter_history
  length-by_walk limit l = (
    length-enough (λ n. gauge_walk n l) (ltb_ℤ (pos (length l)) limit) (length l) (pos_part limit)
        (λ n vs. length-gauge_walk n l vs),
    length-enough (λ n. counter_walk n l) (ltb_ℤ (pos (length l)) (add64 limit (pos 1)))
        (length l - 1) (pos_part limit) (λ n vs. length-counter_walk n l vs),
  )

  -- Whatever the list and the limit, when HistoryData reports enough it was asked for at least one
  -- point and returns exactly as many as it was asked for.
  pub history_data-enough :
      (limit : ℤ) (l : List (JudgeItem F))
      → (history_data limit l).1 ≡ true
      → (pos 1 ≤ℤ limit) × (length (history_data limit l).0 ≡ pos_part limit)
  unfolding history_data
  history_data-enough limit [] e = ground arith
  history_data-enough limit (x ∷ xs) e =
      ground (arith, (length-by_walk limit (x ∷ xs)).0, (length-by_walk limit (x ∷ xs)).1)
