-- ===== src/Graph/Indexed.antt =====
-- modules/graph/index: what GetTypeAndStep answers once a point was received and the index was updated.
use falcon_plus.Base.{
  ◌≡◌, refl, ◌∙◌, inl, inr, Bool, true, false, none, some, List, [], ◌∷◌, ◌++◌, map, if◌then◌else◌,
  Bool-cases, Option-cases,
}
use falcon_plus.Base.Text.{Text, eq_text, eq_text_iff}
use falcon_plus.Base.Dict.{Dict, get, put, delete, text_eq, get-put, get-put_self, get-delete}
use falcon_plus.Utils.Tags.{pk, counter}
use falcon_plus.Graph.Linked.{GraphItem}
use falcon_plus.Graph.Index.{
  IndexCacheItem, Index, Tables, new_index_cache_item, uuid_of_item, checksum, receive_item, has_id,
  update_index_from_one_item, update_one, update_keys, update_index_incr, get_type_and_step,
}

abbrev has_key : Text → List Text → Bool
has_key k [] = false
has_key k (key ∷ keys) = if eq_text key k then true else has_key k keys

module _ {F : Type 0} where
  abbrev keys_of : Dict Text (IndexCacheItem F) → List Text
  keys_of m = map (λ e. e.0) m

  -- A key of a map is among its keys.
  has_key-get :
      (k : Text) (ic : IndexCacheItem F) (m : Dict Text (IndexCacheItem F))
      → get k m ≡ some ic
      → has_key k (keys_of m) ≡ true
  unfolding get
  has_key-get k ic [] h = cc
  has_key-get k ic ((key, v) ∷ m) h = elim (Bool-cases (eq_text key k)) [
    | inl same ↦ rw same refl
    | inr other ↦ rw other (has_key-get k ic m (rw other at h))
  ]

module _ {F : Type 0} (db : Tables) where
  abbrev next : Text → Index F → Index F
  next key x =
      update_one db key (get key x.un_indexed) (record x { un_indexed = delete key x.un_indexed })

  next-un_indexed :
      (k key : Text) (x : Index F)
      → get k (next key x).un_indexed ≡ (if eq_text key k then none else get k x.un_indexed)
  next-un_indexed k key x = elim (Option-cases (get key x.un_indexed)) [
    | inl e ↦ rw e (get-delete key k x.un_indexed)
    | inr (ic, e) ↦ elim (Bool-cases (update_index_from_one_item db ic.item)) [
      | inl done ↦ rw (e, done) (get-delete key k x.un_indexed)
      | inr failed ↦ rw (e, failed) (get-delete key k x.un_indexed)
    ]
  ]

  next-other :
      (k key : Text) (x : Index F)
      → eq_text key k ≡ false
      → get k (next key x).indexed ≡ get k x.indexed
  next-other k key x h = elim (Option-cases (get key x.un_indexed)) [
    | inl e ↦ rw e refl
    | inr (ic, e) ↦ elim (Bool-cases (update_index_from_one_item db ic.item)) [
      | inl done ↦ rw (e, done) (get-put key k ic x.indexed ∙ rw h refl)
      | inr failed ↦ rw (e, failed) refl
    ]
  ]

  -- An entry that is not waiting stays as it is.
  update_keys-none :
      (k : Text) (keys : List Text) (x : Index F)
      → get k x.un_indexed ≡ none
      → get k (update_keys db keys x).indexed ≡ get k x.indexed
  unfolding update_keys
  update_keys-none k [] x h = refl
  update_keys-none k (key ∷ keys) x h = elim (Bool-cases (eq_text key k)) [
    | inl same ↦
        let e : key ≡ k = (eq_text_iff key k).0 same in
        let gone : get key x.un_indexed ≡ none = rw e h in
        update_keys-none k keys (next key x) (next-un_indexed k key x ∙ rw same refl) ∙ rw gone refl
    | inr other ↦
        update_keys-none k keys (next key x) (next-un_indexed k key x ∙ rw other h)
        ∙ next-other k key x other
  ]

  update_keys-some :
      (k : Text) (ic : IndexCacheItem F) (keys : List Text) (x : Index F)
      → update_index_from_one_item db ic.item ≡ true
      → get k x.un_indexed ≡ some ic
      → has_key k keys ≡ true
      → get k (update_keys db keys x).indexed ≡ some ic
  unfolding update_keys
  update_keys-some k ic [] x done h m = cc
  update_keys-some k ic (key ∷ keys) x done h m = elim (Bool-cases (eq_text key k)) [
    | inl same ↦
        let e : key ≡ k = (eq_text_iff key k).0 same in
        let here : get key x.un_indexed ≡ some ic = rw e h in
        update_keys-none k keys (next key x) (next-un_indexed k key x ∙ rw same refl)
        ∙ rw (here, done) (get-put key k ic x.indexed ∙ rw same refl)
    | inr other ↦
        update_keys-some k ic keys (next key x) done (next-un_indexed k key x ∙ rw other h)
          (rw other at m)
  ]

  -- The index after an update knows the type and the step of the item.
  abbrev Known : GraphItem F → Index F → Type 0
  Known item x = get (checksum db item) x.indexed ≡ some (new_index_cache_item item)

  update_index_incr-some :
      (item : GraphItem F) (x : Index F)
      → has_id (db.endpoint_id item.endpoint) ≡ true
      → get (checksum db item) x.un_indexed ≡ some (new_index_cache_item item)
      → Known item (update_index_incr db x)
  unfolding update_index_incr
  update_index_incr-some item x id h =
      let k = checksum db item in
      let ic : IndexCacheItem F = new_index_cache_item item in
      update_keys-some k ic (keys_of x.un_indexed) x id h (has_key-get k ic x.un_indexed h)

  put_un_indexed-Known :
      (item : GraphItem F) (x : Index F)
      → has_id (db.endpoint_id item.endpoint) ≡ true
      → Known item (
          update_index_incr db (record x {
            un_indexed = put (checksum db item) (new_index_cache_item item) x.un_indexed;
          }))
  put_un_indexed-Known item x id =
      update_index_incr-some item _ id
        (get-put_self (checksum db item) (new_index_cache_item item) x.un_indexed)

  put_indexed-Known :
      (item : GraphItem F) (x : Index F)
      → get (checksum db item) x.un_indexed ≡ none
      → Known item (
          update_index_incr db
            (record x { indexed = put (checksum db item) (new_index_cache_item item) x.indexed }))
  unfolding update_index_incr
  put_indexed-Known item x h =
      update_keys-none (checksum db item) (keys_of x.un_indexed)
        (record x { indexed = put (checksum db item) (new_index_cache_item item) x.indexed }) h
      ∙ get-put_self (checksum db item) (new_index_cache_item item) x.indexed

  receive_item-Known :
      (item : GraphItem F) (x : Index F)
      → has_id (db.endpoint_id item.endpoint) ≡ true
      → get (checksum db item) x.un_indexed ≡ none
      → Known item (update_index_incr db (receive_item db (some item) (checksum db item) x))
  unfolding receive_item
  receive_item-Known item x id h = elim (Option-cases (get (checksum db item) x.indexed)) [
    | inl e ↦ elim (Bool-cases (db.is_rrd_file_exist (checksum db item) item.ds_type item.step)) [
      | inl found ↦ rw (e, found) (put_indexed-Known item x h)
      | inr absent ↦ rw (e, absent) (put_un_indexed-Known item x id)
    ]
    | inr (old, e) ↦ elim (Bool-cases (eq_text (uuid_of_item item) old.uuid)) [
      | inl same ↦ rw (e, same) (put_indexed-Known item x h)
      | inr other ↦ rw (e, other) (put_un_indexed-Known item x id)
    ]
  ]

  pk-counter :
      (item : GraphItem F)
      → pk item.endpoint item.metric item.tags
        ≡ item.endpoint ++ (b'/' ∷ counter item.metric item.tags)
  unfolding pk counter
  pk-counter item =
      elim item.tags
        as (λ tags.
          pk item.endpoint item.metric tags ≡ item.endpoint ++ (b'/' ∷ counter item.metric tags)) [
            | [] ↦ refl
            | ◌∷◌ t ts ↦ refl
          ]

  -- Where the endpoint gets an id in the database and no item waits under the checksum of an item,
  -- ReceiveItem of the item and then one updateIndexIncr make GetTypeAndStep answer its type and
  -- step for its endpoint and counter, whatever the index had before, and leave the index as it
  -- is.
  pub get_type_and_step-received :
      (item : GraphItem F) (x : Index F)
      → has_id (db.endpoint_id item.endpoint) ≡ true
      → get (checksum db item) x.un_indexed ≡ none
      → let x' = update_index_incr db (receive_item db (some item) (checksum db item) x) in
        get_type_and_step db item.endpoint (counter item.metric item.tags) x'
        ≡ some (some (item.ds_type, item.step), x')
  unfolding get_type_and_step
  get_type_and_step-received item x id h =
      rw (← pk-counter item, receive_item-Known item x id h) refl
