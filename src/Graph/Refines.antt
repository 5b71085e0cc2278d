-- ===== src/Graph/Refines.antt =====
-- modules/graph/store/store.go: GraphItemMap against the one map that it stands for.
use falcon_plus.Base.{
  ℕ, ◌%◌, ◌≤◌, ◌<◌, ◌≡◌, refl, ap, subst, ◌∙◌, inl, inr, Bool, true, false, Option, none, some, [],
  length, get_elem?, set, get_elem?-length, get_elem?-set, length-set, length-replicate,
  get_elem?-replicate, eqb, Bool-cases, if◌then◌else◌, arith, Option-cases,
}
use native.Mathlib.Nat.{mod-lt}
use falcon_plus.Base.Text.{Text, eq_text, eq_text_iff}
use falcon_plus.Base.Dict.{get, put, delete, get-put, get-delete, text_eq}
use falcon_plus.Graph.Linked.{GraphItem, SafeLinkedList, reversed}
use falcon_plus.Graph.Restore.{pop_all_lem}
use falcon_plus.Graph.Store.{
  Shard, GraphItemMap, index, find, store, remove, push_front_to, pushed_to, pop_all_of,
  init_graph_items,
}

module _ {F : Type 0} where
  -- As many maps as the size says, and one at least.
  pub record IsSized (this : GraphItemMap F) : Type 0 where
    pub length_a : length this.a ≡ this.size
    pub positive : 1 ≤ this.size

module _ {F : Type 0} (hash_key : Text → ℕ) where
  -- The map that `this` stands for.
  abbrev pub Holds : GraphItemMap F → (Text → Option (SafeLinkedList F)) → Type 0
  Holds this m = (key : Text) → find hash_key key this ≡ some (m key)

  small :
      (this : GraphItemMap F) (key : Text) → IsSized this → index hash_key key this < length this.a
  small this key w =
      let below : index hash_key key this < this.size =
        mod-lt (hash_key key) (omega (arith, w.positive)) in
      omega (arith, below, w.length_a)

  found :
      (this : GraphItemMap F) (key : Text)
      → IsSized this
      → (m : Shard F) × (get_elem? this.a (index hash_key key this) ≡ some m)
  found this key w = get_elem?-length this.a (index hash_key key this) (small this key w)

  -- The map after a change of the shard of `key` that shows at `key` alone.
  set-Holds :
      (this : GraphItemMap F) (key : Text) (shard shard' : Shard F) (v : Option (SafeLinkedList F))
      (m : Text → Option (SafeLinkedList F))
      → index hash_key key this < length this.a
      → get_elem? this.a (index hash_key key this) ≡ some shard
      → ((k : Text) → get k shard' ≡ (if eq_text key k then v else get k shard))
      → Holds this m
      → Holds
          (record this { a = set this.a (index hash_key key this) shard' })
          (λ k. if eq_text key k then v else m k)
  unfolding find
  set-Holds this key shard shard' v m below at shows h k =
      rw (get_elem?-set this.a (index hash_key key this) (index hash_key k this) shard' below)
        (elim (Bool-cases (eq_text key k)) [
          | inl same ↦
              let at_one : index hash_key key this ≡ index hash_key k this =
                ap (λ z. index hash_key z this) ((eq_text_iff key k).0 same) in
              let met : eqb (index hash_key key this) (index hash_key k this) ≡ true =
                ground (arith, at_one) in
              rw (met, shows k, same) refl
          | inr other ↦ elim (Bool-cases (eqb (index hash_key key this) (index hash_key k this))) [
            | inl i ↦
                let at_one : index hash_key key this ≡ index hash_key k this = ground (arith, i) in
                let at' = subst (λ j. get_elem? this.a j ≡ some shard) at_one at in
                rw (i, shows k, other) (rw at' at (h k))
            | inr i ↦ rw (i, other) (h k)
          ]
        ])

  -- On a whole store, Set does not panic and changes its key alone.
  pub store-Holds :
      (this : GraphItemMap F) (key : Text) (sl : SafeLinkedList F)
      (m : Text → Option (SafeLinkedList F))
      → IsSized this
      → Holds this m
      → (this' : GraphItemMap F) × (store hash_key key sl this ≡ some this')
        × IsSized this'
        × Holds this' (λ k. if eq_text key k then some sl else m k)
  unfolding store find
  store-Holds this key sl m w h =
      let (shard, at) = found this key w in
      let this' = record this { a = set this.a (index hash_key key this) (put key sl shard) } in
      (
        this',
        rw at refl,
        record { length_a = length-set this.a _ _ ∙ w.length_a; positive = w.positive },
        set-Holds this key shard (put key sl shard) (some sl) m (small this key w) at
            (λ k. get-put key k sl shard) h,
      )

  absent-Holds :
      (this : GraphItemMap F) (key : Text) (shard : Shard F) (m : Text → Option (SafeLinkedList F))
      → get_elem? this.a (index hash_key key this) ≡ some shard
      → get key shard ≡ none
      → Holds this m
      → Holds this (λ k. if eq_text key k then none else m k)
  unfolding find
  absent-Holds this key shard m at absent h k = elim (Bool-cases (eq_text key k)) [
    | inl same ↦
        let is_key = (eq_text_iff key k).0 same in
        rw same (subst (λ z. find hash_key z this ≡ some none) is_key (rw (at, absent) refl))
    | inr other ↦ rw other (h k)
  ]

  -- On a whole store, Remove does not panic, takes the key away, and no other.
  pub remove-Holds :
      (this : GraphItemMap F) (key : Text) (m : Text → Option (SafeLinkedList F))
      → IsSized this
      → Holds this m
      → (r : Bool × GraphItemMap F) × (remove hash_key key this ≡ some r)
        × IsSized r.1
        × Holds r.1 (λ k. if eq_text key k then none else m k)
  unfolding remove
  remove-Holds this key m w h =
      let (shard, at) = found this key w in
      elim (Option-cases (get key shard)) [
        | inl absent ↦
            ((false, this), rw (at, absent) refl, w, absent-Holds this key shard m at absent h)
        | inr (sl, present) ↦ (
          (true, record this { a = set this.a (index hash_key key this) (delete key shard) }),
          rw (at, present) refl,
          record { length_a = length-set this.a _ _ ∙ w.length_a; positive = w.positive },
          set-Holds this key shard (delete key shard) none m (small this key w) at
              (λ k. get-delete key k shard) h,
        )
      ]

  -- On a store with as many maps as its size says, PushFront does not panic, and on the one map
  -- that the store stands for it puts the point in front of the list of its key, or makes the
  -- list, and changes no other key.
  pub push_front_to-Holds :
      (this : GraphItemMap F) (key : Text) (item : GraphItem F) (missing : Bool)
      (m : Text → Option (SafeLinkedList F))
      → IsSized this
      → Holds this m
      → (this' : GraphItemMap F) × (push_front_to hash_key key item missing this ≡ some this')
        × IsSized this'
        × Holds this' (λ k. if eq_text key k then some (pushed_to missing item (m key)) else m k)
  unfolding push_front_to
  push_front_to-Holds this key item missing m w h =
      rw (h key) (store-Holds this key (pushed_to missing item (m key)) m w h)

  -- On a whole store, PopAll of a key that has a list does not panic, returns the points of the
  -- list from the back to the front, leaves the list empty, and the other keys as they are.
  pub pop_all_of-Holds :
      (this : GraphItemMap F) (key : Text) (sl : SafeLinkedList F)
      (m : Text → Option (SafeLinkedList F))
      → IsSized this
      → Holds this m
      → m key ≡ some sl
      → (this' : GraphItemMap F) × (pop_all_of hash_key key this ≡ some (reversed sl.l, this'))
        × IsSized this'
        × Holds this' (λ k. if eq_text key k then some (record sl { l = [] }) else m k)
  unfolding pop_all_of
  pop_all_of-Holds this key sl m w h at =
      let (this', run, w', h') = store-Holds this key (record sl { l = [] }) m w h in
      (this', rw (h key, at, pop_all_lem sl, run) refl, w', h')

  -- With at least one map, the store that init makes is whole and holds no list.
  pub init_graph_items-Holds :
      (size : ℕ)
      → 1 ≤ size
      → IsSized (init_graph_items {F = F} size) × Holds (init_graph_items size) (λ _. none)
  unfolding init_graph_items find get
  init_graph_items-Holds size h = (
    record { length_a = length-replicate size []; positive = h },
    λ key.
        rw
          (get_elem?-replicate {A = Shard F} size (hash_key key % size) []
            (mod-lt (hash_key key) h))
          refl,
  )
