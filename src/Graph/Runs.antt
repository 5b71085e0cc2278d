-- ===== src/Graph/Runs.antt =====
-- modules/graph/store/store.go: any run of operations on GraphItemMap against one map.
use falcon_plus.Base.{
  ℕ, ◌≤◌, ◌≡◌, refl, subst, inl, inr, Bool, Option, none, some, List, [], ◌∷◌, Option-cases, Run,
  ◌>>=◌, if◌then◌else◌, Bool-cases,
}
use falcon_plus.Base.Text.{Text, eq_text, eq_text_iff}
use falcon_plus.Graph.Linked.{GraphItem, SafeLinkedList}
use falcon_plus.Graph.Store.{
  GraphItemMap, find, store, remove, push_front_to, pushed_to, pop_all_of, init_graph_items,
}
use falcon_plus.Graph.Refines.{
  IsSized, Holds, store-Holds, remove-Holds, push_front_to-Holds, pop_all_of-Holds,
  init_graph_items-Holds,
}

-- The operations that change the store: Set, Remove, PushFront and PopAll.
pub data Operation (F : Type 0) : Type 0 where
  set_list : (key : Text) → (sl : SafeLinkedList F) → Operation F
  remove_list : (key : Text) → Operation F
  push_item : (key : Text) → (item : GraphItem F) → (missing : Bool) → Operation F
  pop_items : (key : Text) → Operation F

module _ {F : Type 0} (hash_key : Text → ℕ) where
  abbrev pub run_one : Operation F → GraphItemMap F → Run (GraphItemMap F)
  run_one (set_list key sl) this = store hash_key key sl this
  run_one (remove_list key) this = remove hash_key key this >>= λ r. some r.1
  run_one (push_item key item missing) this = push_front_to hash_key key item missing this
  run_one (pop_items key) this = pop_all_of hash_key key this >>= λ r. some r.1

  abbrev pub run_all : List (Operation F) → GraphItemMap F → Run (GraphItemMap F)
  run_all [] this = some this
  run_all (op ∷ ops) this = run_one op this >>= run_all ops

module _ {F : Type 0} where
  abbrev pub emptied : Option (SafeLinkedList F) → Option (SafeLinkedList F)
  emptied none = none
  emptied (some sl) = some (record sl { l = [] })

  -- What an operation does to the one map.
  abbrev pub after_one :
      Operation F → (Text → Option (SafeLinkedList F)) → Text → Option (SafeLinkedList F)
  after_one (set_list key sl) m k = if eq_text key k then some sl else m k
  after_one (remove_list key) m k = if eq_text key k then none else m k
  after_one (push_item key item missing) m k =
      if eq_text key k then some (pushed_to missing item (m key)) else m k
  after_one (pop_items key) m k = if eq_text key k then emptied (m key) else m k

  abbrev pub after_all :
      List (Operation F) → (Text → Option (SafeLinkedList F)) → Text → Option (SafeLinkedList F)
  after_all [] m = m
  after_all (op ∷ ops) m = after_all ops (after_one op m)

module _ {F : Type 0} (hash_key : Text → ℕ) where
  -- The run returns a whole store that stands for the map.
  abbrev Refined : Run (GraphItemMap F) → (Text → Option (SafeLinkedList F)) → Type 0
  Refined run m =
      (this' : GraphItemMap F) × (run ≡ some this') × IsSized this' × Holds hash_key this' m

  run_one-Refined :
      (op : Operation F) (this : GraphItemMap F) (m : Text → Option (SafeLinkedList F))
      → IsSized this
      → Holds hash_key this m
      → Refined (run_one hash_key op this) (after_one op m)
  unfolding pop_all_of
  run_one-Refined (set_list key sl) this m w h = store-Holds hash_key this key sl m w h
  run_one-Refined (remove_list key) this m w h =
      let (r, run, w', h') = remove-Holds hash_key this key m w h in (r.1, rw run refl, w', h')
  run_one-Refined (push_item key item missing) this m w h =
      push_front_to-Holds hash_key this key item missing m w h
  run_one-Refined (pop_items key) this m w h = elim (Option-cases (m key)) [
    | inl e ↦ (this, rw (h key, e) refl, w, untouched e)
    | inr (sl, e) ↦
        let (this', run, w', h') = pop_all_of-Holds hash_key this key sl m w h e in
        (this', rw run refl, w', rw e h')
  ]
    where
      untouched : m key ≡ none → Holds hash_key this (after_one (pop_items key) m)
      untouched e k = elim (Bool-cases (eq_text key k)) [
        | inl same ↦
            let at_key : m k ≡ none = subst (λ z. m z ≡ none) ((eq_text_iff key k).0 same) e in
            rw (same, e) (rw at_key at (h k))
        | inr apart ↦ rw apart (h k)
      ]

  run_all-Refined :
      (ops : List (Operation F)) (this : GraphItemMap F) (m : Text → Option (SafeLinkedList F))
      → IsSized this
      → Holds hash_key this m
      → Refined (run_all hash_key ops this) (after_all ops m)
  run_all-Refined [] this m w h = (this, refl, w, h)
  run_all-Refined (op ∷ ops) this m w h =
      let (this', run, w', h') = run_one-Refined op this m w h in
      let (this'', runs, w'', h'') = run_all-Refined ops this' (after_one op m) w' h' in
      (this'', rw run runs, w'', h'')

  -- On the store that init makes with at least one map, any run of Set, Remove, PushFront and
  -- PopAll returns without a panic, and Get finds under every key what one map after the same
  -- operations holds.
  pub init_graph_items-run_all :
      (size : ℕ) (ops : List (Operation F))
      → 1 ≤ size
      → (this : GraphItemMap F) × (run_all hash_key ops (init_graph_items size) ≡ some this)
        × ((key : Text) → find hash_key key this ≡ some (after_all ops (λ _. none) key))
  init_graph_items-run_all size ops positive =
      let start = init_graph_items-Holds hash_key size positive in
      let (this, run, w, h) =
        run_all-Refined ops (init_graph_items size) (λ _. none) start.0 start.1 in
      (this, run, h)
