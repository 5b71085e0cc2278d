-- ===== src/Graph/Store.antt =====
-- modules/graph/store/store.go: GraphItemMap, an array of maps in which the hash of a key says which
-- map it stands in. A list behind a pointer is changed in place: it is written back to its map.
use falcon_plus.Base.{
  ℕ, ◌%◌, Bool, true, false, Option, none, some, List, [], ◌∷◌, map, length, get_elem?, set,
  replicate, Run, ◌>>=◌,
}
use falcon_plus.Base.Text.{Text}
use falcon_plus.Base.Dict.{Dict, get, put, delete, text_eq}
use falcon_plus.Graph.Linked.{
  GraphItem, SafeLinkedList, first_of, last_of, push_front, push_all, pop_all, fetch_all,
}

abbrev pub Shard : Type 0 → Type 0
Shard F = Dict Text (SafeLinkedList F)

pub record GraphItemMap (F : Type 0) : Type 0 where
  pub a : List (Shard F)
  pub size : ℕ

-- GRAPH_F_MISS is 1.
abbrev pub new_flag : Bool → ℕ
new_flag true = 1
new_flag false = 0

module _ {F : Type 0} where
  abbrev pub pushed_to : Bool → GraphItem F → Option (SafeLinkedList F) → SafeLinkedList F
  pushed_to missing item none = record { flag = new_flag missing; l = item ∷ [] }
  pushed_to missing item (some sl) = push_front item sl

  -- The answer of a read of a list, and of one that is not there.
  abbrev pub read : {A : Type 0} → A → (SafeLinkedList F → A) → Option (SafeLinkedList F) → A
  read other f none = other
  read other f (some sl) = f sl

-- `hash_key` is crc32.ChecksumIEEE of the key; `missing` is what PushFront finds on disk for a new
-- key, with the migration switched on.
module _ {F : Type 0} (hash_key : Text → ℕ) where
  abbrev pub index : Text → GraphItemMap F → ℕ
  index key this = hash_key key % this.size

  -- `this.A[idx][key]`
  unfoldable pub find : Text → GraphItemMap F → Run (Option (SafeLinkedList F))
  find key this = get_elem? this.a (index key this) >>= λ m. some (get key m)

  unfoldable pub store : Text → SafeLinkedList F → GraphItemMap F → Run (GraphItemMap F)
  store key val this = get_elem? this.a (index key this) >>= λ m.
      some (record this { a = set this.a (index key this) (put key val m) })

  abbrev pub removed :
      Text → GraphItemMap F → Shard F → Option (SafeLinkedList F) → Bool × GraphItemMap F
  removed key this m none = (false, this)
  removed key this m (some _) =
      (true, record this { a = set this.a (index key this) (delete key m) })

  unfoldable pub remove : Text → GraphItemMap F → Run (Bool × GraphItemMap F)
  remove key this = get_elem? this.a (index key this) >>= λ m. some (removed key this m (get key m))

  unfoldable pub first : Text → GraphItemMap F → Run (Option (GraphItem F))
  unfolding find
  first key this = find key this >>= λ o. some (read none (λ sl. first_of sl.l) o)

  unfoldable pub back : Text → GraphItemMap F → Run (Option (GraphItem F))
  unfolding find
  back key this = find key this >>= λ o. some (read none (λ sl. last_of sl.l) o)

  unfoldable pub item_cnt : Text → GraphItemMap F → Run ℕ
  unfolding find
  item_cnt key this = find key this >>= λ o. some (read 0 (λ sl. length sl.l) o)

  -- `none` inside stands for the error "not exist".
  unfoldable pub get_flag : Text → GraphItemMap F → Run (Option ℕ)
  unfolding find
  get_flag key this = find key this >>= λ o. some (read none (λ sl. some sl.flag) o)

  unfoldable pub fetch : Text → GraphItemMap F → Run (List (GraphItem F) × ℕ)
  unfolding find
  fetch key this = find key this >>= λ o. some (read ([], 0) fetch_all o)

  -- A list that is there is changed and written back; `false` stands for "not exist".
  abbrev pub change :
      Text
      → GraphItemMap F
      → (SafeLinkedList F → Run (SafeLinkedList F))
      → Option (SafeLinkedList F)
      → Run (Bool × GraphItemMap F)
  change key this f none = some (false, this)
  change key this f (some sl) = do sl' ← f sl; this' ← store key sl' this; some (true, this')

  unfoldable pub set_flag : Text → ℕ → GraphItemMap F → Run (Bool × GraphItemMap F)
  unfolding find
  set_flag key flag this =
      find key this >>= change key this (λ sl. some (record sl { flag = flag }))

  unfoldable pub push_all_to :
      Text → List (GraphItem F) → GraphItemMap F → Run (Bool × GraphItemMap F)
  unfolding find
  push_all_to key items this = find key this >>= change key this (push_all items)

  abbrev pub popped :
      Text → GraphItemMap F → Option (SafeLinkedList F) → Run (List (GraphItem F) × GraphItemMap F)
  popped key this none = some ([], this)
  popped key this (some sl) = do
    (items, sl') ← pop_all sl
    this' ← store key sl' this
    some (items, this')

  unfoldable pub pop_all_of : Text → GraphItemMap F → Run (List (GraphItem F) × GraphItemMap F)
  unfolding find
  pop_all_of key this = find key this >>= popped key this

  unfoldable pub push_front_to : Text → GraphItem F → Bool → GraphItemMap F → Run (GraphItemMap F)
  unfolding find store
  push_front_to key item missing this =
      find key this >>= λ o. store key (pushed_to missing item o) this

module _ {F : Type 0} where
  unfoldable pub get_items : ℕ → GraphItemMap F → Run (Shard F × GraphItemMap F)
  get_items idx this =
      get_elem? this.a idx >>= λ items. some (items, record this { a = set this.a idx [] })

  unfoldable pub keys_by_index : ℕ → GraphItemMap F → Run (List Text)
  keys_by_index idx this = get_elem? this.a idx >>= λ m. some (map (λ e. e.0) m)

  -- The maps that `init` makes, for a size of any number.
  unfoldable pub init_graph_items : ℕ → GraphItemMap F
  init_graph_items size = record { a = replicate size []; size = size }
