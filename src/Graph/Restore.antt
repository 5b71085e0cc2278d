-- ===== src/Graph/Restore.antt =====
-- modules/graph/store/linkedlist.go: PopAll, and PushAll of what it returned.
use falcon_plus.Base.{
  ℕ, zero, suc, ◌≤◌, ◌≡◌, refl, ap, ◌∙◌, sym, some, List, [], ◌∷◌, ◌++◌, length, take, take_self,
  get_elem?, get_elem?-length, arith,
}
use mathlib.Core.List.{append_assoc, append-nil}
use native.Mathlib.Nat.{le_refl}
use falcon_plus.Graph.Linked.{
  GraphItem, SafeLinkedList, last_of, without_last, pop_loop, pop_all, push_loop, push_all,
  reversed,
}

module _ {F : Type 0} where
  reversed_last :
      (x : GraphItem F) (xs : List (GraphItem F))
      → (y : GraphItem F) × (last_of (x ∷ xs) ≡ some y)
        × (reversed (x ∷ xs) ≡ y ∷ reversed (without_last (x ∷ xs)))
        × (length (without_last (x ∷ xs)) ≡ length xs)
  reversed_last x [] = (x, refl, refl, refl)
  reversed_last x (z ∷ zs) =
      let (y, last, rest, size) = reversed_last z zs in
      (y, last, ap (λ l. l ++ (x ∷ [])) rest, ap suc size)

  pop_loop_lem :
      (n : ℕ) (ret l : List (GraphItem F))
      → length l ≡ n
      → pop_loop n ret l ≡ some (ret ++ reversed l, [])
  unfolding pop_loop
  pop_loop_lem zero ret [] h = ap (λ z. some (z, [])) (sym (append-nil ret))
  pop_loop_lem zero ret (x ∷ xs) h = absurd (omega arith)
  pop_loop_lem (suc n) ret [] h = absurd (omega arith)
  pop_loop_lem (suc n) ret (x ∷ xs) h =
      let (y, last, rest, size) = reversed_last x xs in
      rw last (
        pop_loop_lem n (ret ++ (y ∷ [])) (without_last (x ∷ xs)) (omega arith)
        ∙ ap (λ z. some (z, [])) (append_assoc ret (y ∷ []) _ ∙ ap (λ z. ret ++ z) (sym rest)))

  reversed-take :
      (n : ℕ) (items : List (GraphItem F)) (v : GraphItem F)
      → get_elem? items n ≡ some v
      → reversed (take (suc n) items) ≡ v ∷ reversed (take n items)
  reversed-take n [] v h = cc
  reversed-take zero (x ∷ xs) v h = cc
  reversed-take (suc n) (x ∷ xs) v h = ap (λ l. l ++ (x ∷ [])) (reversed-take n xs v h)

  push_loop_lem :
      (n : ℕ) (items l : List (GraphItem F))
      → n ≤ length items
      → push_loop n items l ≡ some (l ++ reversed (take n items))
  unfolding push_loop
  push_loop_lem zero items l h = ap some (sym (append-nil l))
  push_loop_lem (suc n) items l h =
      let (v, found) = get_elem?-length items n (omega arith) in
      rw found (
        push_loop_lem n items (l ++ (v ∷ [])) (omega arith)
        ∙ ap some
            (append_assoc l (v ∷ []) _ ∙ ap (λ z. l ++ z) (sym (reversed-take n items v found))))

  -- PopAll returns the points from the back to the front and leaves the list empty.
  pub pop_all_lem :
      (this : SafeLinkedList F) → pop_all this ≡ some (reversed this.l, record this { l = [] })
  unfolding pop_all
  pop_all_lem this = rw (pop_loop_lem (length this.l) [] this.l refl) refl

  push_all_lem :
      (items : List (GraphItem F)) (this : SafeLinkedList F)
      → push_all items this ≡ some (record this { l = this.l ++ reversed items })
  unfolding push_all
  push_all_lem items this =
      rw (push_loop_lem (length items) items this.l (le_refl (length items)), take_self items) refl

  reversed-append :
      (xs : List (GraphItem F)) (y : GraphItem F) → reversed (xs ++ (y ∷ [])) ≡ y ∷ reversed xs
  reversed-append [] y = refl
  reversed-append (x ∷ xs) y = ap (λ l. l ++ (x ∷ [])) (reversed-append xs y)

  reversed_twice : (l : List (GraphItem F)) → reversed (reversed l) ≡ l
  reversed_twice [] = refl
  reversed_twice (x ∷ xs) = reversed-append (reversed xs) x ∙ ap (◌∷◌ x) (reversed_twice xs)

  -- PopAll and PushAll do not panic: PopAll empties a list, and PushAll of what it returned puts
  -- the points back, in their order, behind the points that came in between.
  pub push_all-pop_all :
      (this : SafeLinkedList F) (new : List (GraphItem F))
      → (items : List (GraphItem F)) × (pop_all this ≡ some (items, record this { l = [] }))
        × (push_all items (record this { l = new }) ≡ some (record this { l = new ++ this.l }))
  push_all-pop_all this new = (
    reversed this.l,
    pop_all_lem this,
    push_all_lem (reversed this.l) (record this { l = new })
        ∙ ap (λ l. some (record this { l = new ++ l })) (reversed_twice this.l),
  )
