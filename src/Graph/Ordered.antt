-- ===== src/Graph/Ordered.antt =====
-- modules/graph/api/graph.go: the order of the waiting points under handleItems.
use falcon_plus.Base.{
  ◌≡◌, refl, inl, inr, Bool, false, not, Option, none, some, List, [], ◌∷◌, Run, Bool-cases,
  if_both, arith,
}
use falcon_plus.Base.Int.{◌<ℤ◌}
use falcon_plus.Base.Text.{Text, eq_text}
use falcon_plus.Utils.Tags.{pk, counter}
use falcon_plus.Graph.Linked.{GraphItem, SafeLinkedList, first_of}
use falcon_plus.Graph.Store.{first, read, pushed_to}
use falcon_plus.Graph.Refines.{IsSized, Holds, push_front_to-Holds}
use falcon_plus.Graph.Receive.{
  State, Env, form_rrd_cache_key, is_valid_string, is_old, take_item, handle_item, handle_items,
}

module _ {F : Type 0} where
  abbrev pub After : GraphItem F → List (GraphItem F) → Type 0
  After x [] = Unit {0}
  After x (y ∷ _) = y.timestamp <ℤ x.timestamp

  abbrev pub Falling : List (GraphItem F) → Type 0
  Falling [] = Unit {0}
  Falling (x ∷ xs) = After x xs × Falling xs

  abbrev pub ListFalling : Option (SafeLinkedList F) → Type 0
  ListFalling none = Unit {0}
  ListFalling (some sl) = Falling sl.l

  abbrev front_of : Option (SafeLinkedList F) → Option (GraphItem F)
  front_of = read none (λ sl. first_of sl.l)

module _ {F : Type 0} (env : Env F) where
  -- The store is whole, and each key's points stand in falling order of time.
  pub record IsOrdered (s : State F) : Type 0 where
    pub sized : IsSized s.graph_items
    pub lists :
        (m : Text → Option (SafeLinkedList F)) × Holds env.hash_key s.graph_items m
        × ((key : Text) → ListFalling (m key))

  abbrev pub KeepsOrder : Run (State F) → Type 0
  KeepsOrder run = (s' : State F) × (run ≡ some s') × IsOrdered s'

  pushed-Falling :
      (missing : Bool) (item : GraphItem F) (o : Option (SafeLinkedList F))
      → is_old env item (front_of o) ≡ false
      → ListFalling o
      → ListFalling (some (pushed_to missing item o))
  pushed-Falling missing item none fresh h = (tt, tt)
  pushed-Falling missing item (some sl) fresh h = by_list sl.l fresh h
    where
      by_list :
          (l : List (GraphItem F))
          → is_old env item (first_of l) ≡ false
          → Falling l
          → Falling (item ∷ l)
      by_list [] fresh h = (tt, tt)
      by_list (y ∷ ys) fresh h = (ground (arith, fresh), h)

  take_item-KeepsOrder :
      (item : GraphItem F) (s : State F) → IsOrdered s → KeepsOrder (take_item env item s)
  unfolding take_item first
  take_item-KeepsOrder item s h =
      let (m, holds, falling) = h.lists in
      let checksum = env.md5 (pk item.endpoint item.metric item.tags) in
      let key = form_rrd_cache_key checksum item.ds_type item.step in
      let missing = env.rrd_missing checksum item.ds_type item.step in
      rw (holds key) (elim (Bool-cases (is_old env item (front_of (m key)))) [
        | inl old ↦ rw old (s, refl, h)
        | inr new ↦
            let (items, run, sized, holds') =
              push_front_to-Holds env.hash_key s.graph_items key item missing m h.sized holds in
            rw (new, run)
              (
                _,
                refl,
                record {
                  sized = sized;
                  lists = (
                    _,
                    holds',
                    λ k.
                        if_both ListFalling (eq_text key k)
                          (pushed-Falling missing item (m key) new (falling key)) (falling k),
                  );
                },
              )
      ])

  handle_item-KeepsOrder :
      (o : Option (GraphItem F)) (s : State F) → IsOrdered s → KeepsOrder (handle_item env o s)
  handle_item-KeepsOrder none s h = (s, refl, h)
  handle_item-KeepsOrder (some item) s h =
      if_both KeepsOrder (not (is_valid_string env item.endpoint)) (s, refl, h)
        (if_both KeepsOrder (not (is_valid_string env (counter item.metric item.tags))) (s, refl, h)
          (take_item-KeepsOrder item s h))

  -- From a whole store in which each key has its points in falling order of time, handleItems of
  -- any points returns without a panic and keeps the store so.
  pub handle_items-KeepsOrder :
      (items : List (Option (GraphItem F))) (s : State F)
      → IsOrdered s
      → KeepsOrder (handle_items env items s)
  unfolding handle_items
  handle_items-KeepsOrder [] s h = (s, refl, h)
  handle_items-KeepsOrder (o ∷ items) s h =
      let (s', run, h') = handle_item-KeepsOrder o s h in
      rw run (handle_items-KeepsOrder items s' h')
