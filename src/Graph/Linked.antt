-- ===== src/Graph/Linked.antt =====
-- common/model/graph.go: GraphItem; modules/graph/store/linkedlist.go: SafeLinkedList. Each method
-- takes the lock for its whole body, so it is one step; container/list's list is a list, its front
-- first.
use falcon_plus.Base.{
  ℕ, zero, suc, Option, none, some, List, [], ◌∷◌, ◌++◌, length, get_elem?, Run, ◌>>=◌,
}
use falcon_plus.Base.Int.{ℤ}
use falcon_plus.Base.Text.{Text}
use falcon_plus.Utils.Tags.{Tags}

pub record GraphItem (F : Type 0) : Type 0 where
  pub endpoint : Text
  pub metric : Text
  pub tags : Tags
  pub value : F
  pub timestamp : ℤ
  pub ds_type : Text
  pub step : ℤ
  pub heartbeat : ℤ
  pub min : Text
  pub max : Text

pub record SafeLinkedList (F : Type 0) : Type 0 where
  pub flag : ℕ
  pub l : List (GraphItem F)

module _ {F : Type 0} where
  abbrev pub first_of : List (GraphItem F) → Option (GraphItem F)
  first_of [] = none
  first_of (x ∷ _) = some x

  abbrev pub last_of : List (GraphItem F) → Option (GraphItem F)
  last_of [] = none
  last_of (x ∷ []) = some x
  last_of (x ∷ y ∷ ys) = last_of (y ∷ ys)

  abbrev pub without_last : List (GraphItem F) → List (GraphItem F)
  without_last [] = []
  without_last (x ∷ []) = []
  without_last (x ∷ y ∷ ys) = x ∷ without_last (y ∷ ys)

  abbrev pub push_front : GraphItem F → SafeLinkedList F → SafeLinkedList F
  push_front v this = record this { l = v ∷ this.l }

  unfoldable pub pop_back : SafeLinkedList F → Option (GraphItem F) × SafeLinkedList F
  pop_back this = (last_of this.l, record this { l = without_last this.l })

  -- The loop of PopAll, with `ret` so far; the value of a nil element would panic.
  unfoldable pub pop_loop :
      ℕ → List (GraphItem F) → List (GraphItem F) → Run (List (GraphItem F) × List (GraphItem F))
  pop_loop zero ret l = some (ret, l)
  pop_loop (suc n) ret l = last_of l >>= λ item. pop_loop n (ret ++ (item ∷ [])) (without_last l)

  unfoldable pub pop_all : SafeLinkedList F → Run (List (GraphItem F) × SafeLinkedList F)
  unfolding pop_loop
  pop_all this = do
    (ret, rest) ← pop_loop (length this.l) [] this.l
    some (ret, record this { l = rest })

  -- The loop of PushAll, which pushes the items before `i` at the back, the last of them first.
  unfoldable pub push_loop : ℕ → List (GraphItem F) → List (GraphItem F) → Run (List (GraphItem F))
  push_loop zero items l = some l
  push_loop (suc i) items l = get_elem? items i >>= λ item. push_loop i items (l ++ (item ∷ []))

  unfoldable pub push_all : List (GraphItem F) → SafeLinkedList F → Run (SafeLinkedList F)
  unfolding push_loop
  push_all items this =
      push_loop (length items) items this.l >>= λ l'. some (record this { l = l' })

  -- From the back to the front.
  abbrev pub reversed : List (GraphItem F) → List (GraphItem F)
  reversed [] = []
  reversed (x ∷ xs) = reversed xs ++ (x ∷ [])

  unfoldable pub fetch_all : SafeLinkedList F → List (GraphItem F) × ℕ
  fetch_all this = (reversed this.l, this.flag)
