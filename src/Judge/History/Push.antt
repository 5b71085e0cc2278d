-- ===== src/Judge/History/Push.antt =====
-- What a push keeps of a counter's list: its order in time and its bound.
use falcon_plus.Base.{
  ℕ, zero, suc, ◌-◌, ◌≤◌, ◌≡◌, refl, ap, ◌∙◌, ◌⊎◌, inl, inr, Bool, true, false, some, List, [], ◌∷◌,
  length, take, take_of_length-le, length-take, Bool-cases, arith,
}
use falcon_plus.Base.Int.{ℤ, pos, ◌≤ℤ◌, ◌<ℤ◌}
use falcon_plus.Judge.Model.{JudgeItem}
use falcon_plus.Judge.History.List.{drop_last, remove_backs, is_invalid, push_front_and_maintain}

module _ {F : Type 0} where
  -- The front of the list, if there is one, is older than `x`.
  abbrev pub Newer : JudgeItem F → List (JudgeItem F) → Type 0
  Newer x [] = Unit {0}
  Newer x (y ∷ _) = y.timestamp <ℤ x.timestamp

  -- Timestamps fall strictly from the front to the back.
  abbrev pub Descending : List (JudgeItem F) → Type 0
  Descending [] = Unit {0}
  Descending (x ∷ xs) = Newer x xs × Descending xs

  pub record IsHistory (max : ℕ) (l : List (JudgeItem F)) : Type 0 where
    pub descending : Descending l
    pub bounded : length l ≤ max

  length-drop_last :
      (x : JudgeItem F) (xs : List (JudgeItem F)) → length (drop_last (x ∷ xs)) ≡ length xs
  length-drop_last x [] = refl
  length-drop_last x (y ∷ ys) = ap suc (length-drop_last y ys)

  take-drop_last :
      (k : ℕ) (x : JudgeItem F) (xs : List (JudgeItem F))
      → k ≤ length xs
      → take k (drop_last (x ∷ xs)) ≡ take k (x ∷ xs)
  take-drop_last zero x xs h = refl
  take-drop_last (suc k) x [] h = absurd (omega arith)
  take-drop_last (suc k) x (y ∷ ys) h = ap (◌∷◌ x) (take-drop_last k y ys (omega arith))

  pub remove_backs-take :
      (n : ℕ) (l : List (JudgeItem F))
      → n ≤ length l
      → remove_backs n l ≡ some (take (length l - n) l)
  unfolding remove_backs
  remove_backs-take zero l h = ap some (sym_take l)
    where
      sym_take : (l : List (JudgeItem F)) → l ≡ take (length l - 0) l
      sym_take l = ground (arith, take_of_length-le (length l - 0) l)
  remove_backs-take (suc n) [] h = absurd (omega arith)
  remove_backs-take (suc n) (x ∷ xs) h =
      remove_backs-take n (drop_last (x ∷ xs)) (omega (arith, length-drop_last x xs))
      ∙ rw (length-drop_last x xs) (ground (arith, take-drop_last (length xs - n) x xs))

  take-Newer : (n : ℕ) (x : JudgeItem F) (l : List (JudgeItem F)) → Newer x l → Newer x (take n l)
  take-Newer zero x l h = tt
  take-Newer (suc n) x [] h = tt
  take-Newer (suc n) x (y ∷ l) h = h

  pub take-Descending : (n : ℕ) (l : List (JudgeItem F)) → Descending l → Descending (take n l)
  take-Descending zero l h = tt
  take-Descending (suc n) [] h = tt
  take-Descending (suc n) (x ∷ l) h = (take-Newer n x l h.0, take-Descending n l h.1)

  Newer-is_invalid :
      (v : JudgeItem F) (l : List (JudgeItem F))
      → Newer v l
      → pos 0 <ℤ v.timestamp
      → is_invalid v l ≡ false
  unfolding is_invalid
  Newer-is_invalid v [] n p = refl
  Newer-is_invalid v (y ∷ l) n p = ground arith

  -- A point newer than the front and later than time 0 is put in front, exactly the newest points
  -- up to the bound are kept, and it is to be judged.
  pub push-accepts :
      (v : JudgeItem F) (max : ℕ) (l : List (JudgeItem F))
      → Newer v l
      → pos 0 <ℤ v.timestamp
      → push_front_and_maintain v (pos max) l ≡ some (take max (v ∷ l), true)
  unfolding push_front_and_maintain
  push-accepts v max l n p = ground (
    arith,
    Newer-is_invalid v l n p,
    take_of_length-le max (v ∷ l),
    remove_backs-take (suc (length l) - max) (v ∷ l),
  )

  -- A point that is not newer than the front, or not later than time 0 where there is a front, is
  -- dropped: the list stays as it is and the point is not judged.
  pub push-rejects :
      (v front : JudgeItem F) (max : ℤ) (rest : List (JudgeItem F))
      → (v.timestamp ≤ℤ front.timestamp) ⊎ (v.timestamp ≤ℤ pos 0)
      → push_front_and_maintain v max (front ∷ rest) ≡ some (front ∷ rest, false)
  unfolding push_front_and_maintain
  push-rejects v front max rest h = ground arith

  is_invalid-Newer : (v : JudgeItem F) (l : List (JudgeItem F)) → is_invalid v l ≡ false → Newer v l
  unfolding is_invalid
  is_invalid-Newer v [] h = tt
  is_invalid-Newer v (y ∷ l) h = ground arith

  take-IsHistory :
      (v : JudgeItem F) (max : ℕ) (l : List (JudgeItem F))
      → is_invalid v l ≡ false
      → IsHistory max l
      → IsHistory max (take max (v ∷ l))
  take-IsHistory v max l e h = record {
    descending = take-Descending max (v ∷ l) (is_invalid-Newer v l e, h.descending);
    bounded = omega (arith, length-take max (v ∷ l));
  }

  maintain-take :
      (v : JudgeItem F) (max : ℕ) (l : List (JudgeItem F))
      → is_invalid v l ≡ false
      → push_front_and_maintain v (pos max) l ≡ some (take max (v ∷ l), true)
  unfolding push_front_and_maintain
  maintain-take v max l e =
      ground
        (arith, take_of_length-le max (v ∷ l), remove_backs-take (suc (length l) - max) (v ∷ l))

  -- Any push of any point returns, and keeps a list in falling order of time and within its bound.
  pub push-IsHistory :
      (v : JudgeItem F) (max : ℕ) (l : List (JudgeItem F))
      → IsHistory max l
      → (r : List (JudgeItem F) × Bool) × (push_front_and_maintain v (pos max) l ≡ some r)
        × IsHistory max r.0
  unfolding push_front_and_maintain
  push-IsHistory v max l h = elim (Bool-cases (is_invalid v l)) [
    | inl e ↦ ((l, false), rw e refl, h)
    | inr e ↦ ((take max (v ∷ l), true), maintain-take v max l e, take-IsHistory v max l e h)
  ]
