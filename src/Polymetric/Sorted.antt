-- ===== src/Polymetric/Sorted.antt =====
-- modules/polymetric/cron/poly_worker.go: what the sorted values of GeneralPolyMethods are.
use falcon_plus.Base.{
  ℕ, zero, suc, ◌≤◌, ◌≡◌, refl, ap, ◌∙◌, subst, inl, inr, Bool, false, some, List, [], ◌∷◌, length,
  get_elem?, All, if◌then◌else◌, if_both, Bool-cases, arith,
}
use mathlib.Core.Option.{some-injective}
use falcon_plus.Base.Float.{Float64, IsNumber, IsOrdered}
use falcon_plus.Polymetric.Worker.{insert_float, sort_floats}

module _ {A : Type 0} where
  pub All-get_elem? :
      (P : A → Type 0) (l : List A) (i : ℕ) (v : A) → All P l → get_elem? l i ≡ some v → P v
  All-get_elem? P [] i v h e = cc
  All-get_elem? P (x ∷ l) zero v h e = subst P (some-injective x v e) h.0
  All-get_elem? P (x ∷ l) (suc i) v h e = All-get_elem? P l i v h.1 e

module _ {F : Type 0} ⦃f : Float64 F⦄ where
  -- No value is greater than a later one.
  abbrev pub AreAscending : List F → Type 0
  AreAscending [] = Unit {0}
  AreAscending (x ∷ l) = All (λ y. f.lt y x ≡ false) l × AreAscending l

  abbrev pub AreNumbers : List F → Type 0
  AreNumbers l = All (λ x. IsNumber x) l

  pub insert_float-All :
      (P : F → Type 0) (x : F) (l : List F) → P x → All P l → All P (insert_float x l)
  unfolding insert_float
  insert_float-All P x [] p h = (p, tt)
  insert_float-All P x (y ∷ l) p h =
      if_both (All P) (f.lt y x) (h.0, insert_float-All P x l p h.1) (p, h)

  pub sort_floats-All : (P : F → Type 0) (l : List F) → All P l → All P (sort_floats l)
  unfolding sort_floats
  sort_floats-All P [] h = tt
  sort_floats-All P (x ∷ l) h = insert_float-All P x (sort_floats l) h.0 (sort_floats-All P l h.1)

  -- What holds of each value of a list from which one is inserted holds of the list.
  insert_float-All_back :
      (P : F → Type 0) (x : F) (l : List F) → All P (insert_float x l) → P x × All P l
  unfolding insert_float
  insert_float-All_back P x [] h = h
  insert_float-All_back P x (y ∷ l) h = elim (Bool-cases (f.lt y x)) [
    | inl less ↦
        let h' : All P (y ∷ insert_float x l) =
          subst (λ (b : Bool). All P (if b then y ∷ insert_float x l else x ∷ y ∷ l)) less h in
        let (p, rest) = insert_float-All_back P x l h'.1 in (p, (h'.0, rest))
    | inr greater ↦
        subst (λ (b : Bool). All P (if b then y ∷ insert_float x l else x ∷ y ∷ l)) greater h
  ]

  pub sort_floats-All_back : (P : F → Type 0) (l : List F) → All P (sort_floats l) → All P l
  unfolding sort_floats
  sort_floats-All_back P [] h = tt
  sort_floats-All_back P (x ∷ l) h =
      let (p, rest) = insert_float-All_back P x (sort_floats l) h in
      (p, sort_floats-All_back P l rest)

  length-insert_float : (x : F) (l : List F) → length (insert_float x l) ≡ suc (length l)
  unfolding insert_float
  length-insert_float x [] = refl
  length-insert_float x (y ∷ l) =
      if_both (λ (m : List F). length m ≡ suc (suc (length l))) (f.lt y x)
        (ap suc (length-insert_float x l)) refl

  pub length-sort_floats : (l : List F) → length (sort_floats l) ≡ length l
  unfolding sort_floats
  length-sort_floats [] = refl
  length-sort_floats (x ∷ l) = length-insert_float x (sort_floats l) ∙ ap suc (length-sort_floats l)

  module _ (o : IsOrdered F) where
    All-above :
        (x y : F) (l : List F)
        → f.lt y x ≡ false
        → IsNumber y
        → All (λ z. f.lt z y ≡ false) l
        → All (λ z. f.lt z x ≡ false) l
    All-above x y [] g n h = tt
    All-above x y (z ∷ l) g n h = (o.not-lt_trans z y x n h.0 g, All-above x y l g n h.1)

    insert_float-AreAscending :
        (x : F) (l : List F)
        → IsNumber x
        → AreNumbers l
        → AreAscending l
        → AreAscending (insert_float x l)
    unfolding insert_float
    insert_float-AreAscending x [] p n h = (tt, tt)
    insert_float-AreAscending x (y ∷ l) p n h = elim (Bool-cases (f.lt y x)) [
      | inl less ↦ rw less (
        insert_float-All (λ z. f.lt z y ≡ false) x l (o.lt_asymm y x less) h.0,
        insert_float-AreAscending x l p n.1 h.1,
      )
      | inr greater ↦ rw greater ((greater, All-above x y l greater n.0 h.0), h)
    ]

    pub sort_floats-AreAscending : (l : List F) → AreNumbers l → AreAscending (sort_floats l)
    unfolding sort_floats
    sort_floats-AreAscending [] n = tt
    sort_floats-AreAscending (x ∷ l) n =
        insert_float-AreAscending x (sort_floats l) n.0 (sort_floats-All (λ x. IsNumber x) l n.1)
          (sort_floats-AreAscending l n.1)

    -- A later value is not less than an earlier one.
    pub AreAscending-at :
        (l : List F) (i j : ℕ) (v w : F)
        → AreAscending l
        → i ≤ j
        → get_elem? l i ≡ some v
        → get_elem? l j ≡ some w
        → f.lt w v ≡ false
    AreAscending-at [] i j v w h k p q = cc
    AreAscending-at (x ∷ l) zero zero v w h k p q =
        subst (λ z. f.lt w z ≡ false) (some-injective x v p)
          (subst (λ z. f.lt z x ≡ false) (some-injective x w q) (o.lt_irrefl x))
    AreAscending-at (x ∷ l) zero (suc j) v w h k p q =
        subst (λ z. f.lt w z ≡ false) (some-injective x v p)
          (All-get_elem? (λ y. f.lt y x ≡ false) l j w h.0 q)
    AreAscending-at (x ∷ l) (suc i) zero v w h k p q = absurd (omega arith)
    AreAscending-at (x ∷ l) (suc i) (suc j) v w h k p q =
        AreAscending-at l i j v w h.1 (omega arith) p q
