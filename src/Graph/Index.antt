-- ===== src/Graph/Index.antt =====
-- modules/graph/index (index.go, cache.go, index_update_incr_task.go and index_update_all_task.go): the
-- counters that graph knows, in memory and in the database; common/utils/func.go: UUID and Checksum. MD5,
-- the files and the database are parameters; an entry of the timed caches that has expired is not there.
use falcon_plus.Base.{
  Bool, true, false, not, Option, none, some, List, [], ◌∷◌, ◌++◌, map, Run, ◌>>=◌, if◌then◌else◌,
}
use falcon_plus.Base.Int.{ℤ, pos, leb_ℤ, ltb_ℤ}
use falcon_plus.Base.Word.{sub64}
use falcon_plus.Base.Text.{Text, eq_text}
use falcon_plus.Base.Strings.{split}
use falcon_plus.Base.Number.{itoa, atoi}
use falcon_plus.Base.Dict.{Dict, get, put, delete, text_eq}
use falcon_plus.Utils.Tags.{Tags, pk, sorted_tags}
use falcon_plus.Graph.Linked.{GraphItem}

unfoldable pub uuid_of : Text → Text → Tags → Text → ℤ → Text
uuid_of endpoint metric [] dstype step =
    endpoint ++ (b'/' ∷ (metric ++ (b'/' ∷ (dstype ++ (b'/' ∷ itoa step)))))
uuid_of endpoint metric (t ∷ ts) dstype step =
    endpoint
    ++ (b'/'
        ∷ (metric ++ (b'/' ∷ (sorted_tags (t ∷ ts) ++ (b'/' ∷ (dstype ++ (b'/' ∷ itoa step)))))))

-- The pointer to the item may be nil.
pub record IndexCacheItem (F : Type 0) : Type 0 where
  pub uuid : Text
  pub item : Option (GraphItem F)

-- IndexedItemCache, unIndexedItemCache, dbEndpointCache and dbEndpointCounterCache.
pub record Index (F : Type 0) : Type 0 where
  pub indexed : Dict Text (IndexCacheItem F)
  pub un_indexed : Dict Text (IndexCacheItem F)
  pub endpoints : Dict Text ℤ
  pub counters : Dict Text Text

-- MD5, the rows of the tables `endpoint` (none where there is no row, or the query fails) and
-- `endpoint_counter`, and whether the rrd file of a checksum, type and step is there.
pub record Tables : Type 0 where
  pub md5 : Text → Text
  pub endpoint_id : Text → Option ℤ
  pub type_and_step : ℤ → Text → Option (Text × ℤ)
  pub is_rrd_file_exist : Text → Text → ℤ → Bool

-- updateIndexFromOneItem: whether the endpoint has an id above 0 once the rows are written.
abbrev pub has_id : Option ℤ → Bool
has_id none = false
has_id (some id) = not (leb_ℤ id (pos 0))

-- "%d-%s" and "%s_%d"
abbrev pub counter_key : ℤ → Text → Text
counter_key endpoint_id counter = itoa endpoint_id ++ (b'-' ∷ counter)

abbrev pub type_step_text : Text → ℤ → Text
type_step_text ds_type step = ds_type ++ (b'_' ∷ itoa step)

abbrev pub with_step : Text → Option ℤ → Option (Text × ℤ)
with_step ds_type none = none
with_step ds_type (some step) = some (ds_type, step)

-- arr[1] panics where there is no underscore.
abbrev pub read_type_step : List Text → Run (Option (Text × ℤ))
read_type_step [] = none
read_type_step (ds_type ∷ []) = none
read_type_step (ds_type ∷ step ∷ _) = some (with_step ds_type (atoi step))

module _ {F : Type 0} where
  abbrev pub uuid_of_item : GraphItem F → Text
  uuid_of_item item = uuid_of item.endpoint item.metric item.tags item.ds_type item.step

  abbrev pub new_index_cache_item : GraphItem F → IndexCacheItem F
  new_index_cache_item item = record { uuid = uuid_of_item item; item = some item }

  abbrev pub put_indexed : Text → IndexCacheItem F → Index F → Index F
  put_indexed md5 ic x = record x { indexed = put md5 ic x.indexed }

  abbrev pub put_un_indexed : Text → IndexCacheItem F → Index F → Index F
  put_un_indexed md5 ic x = record x { un_indexed = put md5 ic x.un_indexed }

module _ {F : Type 0} (db : Tables) where
  abbrev pub checksum : GraphItem F → Text
  checksum item = db.md5 (pk item.endpoint item.metric item.tags)

  -- By what IndexedItemCache has under the checksum.
  abbrev pub received : GraphItem F → Text → Option (IndexCacheItem F) → Index F → Index F
  received item md5 none x =
      if db.is_rrd_file_exist md5 item.ds_type item.step
      then put_indexed md5 (new_index_cache_item item) x
      else put_un_indexed md5 (new_index_cache_item item) x
  received item md5 (some old) x =
      if eq_text (uuid_of_item item) old.uuid
      then put_indexed md5 (new_index_cache_item item) x
      else put_un_indexed md5 (new_index_cache_item item) x

  -- ReceiveItem.
  unfoldable pub receive_item : Option (GraphItem F) → Text → Index F → Index F
  unfolding uuid_of
  receive_item none md5 x = x
  receive_item (some item) md5 x = received item md5 (get md5 x.indexed) x

  -- RemoveItem, as far as the index goes.
  unfoldable pub remove_item : GraphItem F → Index F → Index F
  remove_item item x = record x {
    indexed = delete (checksum item) x.indexed;
    un_indexed = delete (checksum item) x.un_indexed;
  }

  abbrev pub update_index_from_one_item : Option (GraphItem F) → Bool
  update_index_from_one_item none = true
  update_index_from_one_item (some item) = has_id (db.endpoint_id item.endpoint)

  abbrev pub update_one : Text → Option (IndexCacheItem F) → Index F → Index F
  update_one key none x = x
  update_one key (some ic) x =
      if update_index_from_one_item ic.item then put_indexed key ic x else x

  -- The loop of updateIndexIncr; the goroutines of two keys do not touch one entry.
  unfoldable pub update_keys : List Text → Index F → Index F
  update_keys [] x = x
  update_keys (key ∷ keys) x =
      update_keys keys
        (update_one key (get key x.un_indexed) (record x { un_indexed = delete key x.un_indexed }))

  -- updateIndexIncr, with a connection to the database.
  unfoldable pub update_index_incr : Index F → Index F
  unfolding update_keys
  update_index_incr x = update_keys (map (λ e. e.0) x.un_indexed) x

  -- The loop of updateIndexAll: an entry that is too old is removed. A nil item panics.
  abbrev pub drop_old : Text → ℤ → Option (IndexCacheItem F) → Index F → Run (Index F)
  drop_old key last_ts none x = some x
  drop_old key last_ts (some ic) x = ic.item >>= λ item.
      some (if ltb_ℤ item.timestamp last_ts then record x { indexed = delete key x.indexed } else x)

  unfoldable pub update_all_keys : List Text → ℤ → Index F → Run (Index F)
  update_all_keys [] last_ts x = some x
  update_all_keys (key ∷ keys) last_ts x =
      drop_old key last_ts (get key x.indexed) x >>= update_all_keys keys last_ts

  unfoldable pub update_index_all : ℤ → ℤ → Index F → Run (Index F)
  unfolding update_all_keys
  update_index_all update_step now x =
      update_all_keys (map (λ e. e.0) x.indexed) (sub64 now update_step) x

  abbrev pub endpoint_row : Text → Option ℤ → Index F → Option ℤ × Index F
  endpoint_row endpoint none x = (none, x)
  endpoint_row endpoint (some id) x =
      if ltb_ℤ id (pos 0)
      then (none, x)
      else (some id, record x { endpoints = put endpoint id x.endpoints })

  abbrev pub endpoint_or_row : Text → Option ℤ → Index F → Option ℤ × Index F
  endpoint_or_row endpoint none x = endpoint_row endpoint (db.endpoint_id endpoint) x
  endpoint_or_row endpoint (some id) x = (some id, x)

  -- GetEndpointFromCache.
  unfoldable pub get_endpoint_from_cache : Text → Index F → Option ℤ × Index F
  get_endpoint_from_cache endpoint x = endpoint_or_row endpoint (get endpoint x.endpoints) x

  abbrev pub counter_row : Text → Option (Text × ℤ) → Index F → Run (Option (Text × ℤ) × Index F)
  counter_row key none x = some (none, x)
  counter_row key (some (ds_type, step)) x = some (
    some (ds_type, step),
    record x { counters = put key (type_step_text ds_type step) x.counters },
  )

  abbrev pub counter_or_row : ℤ → Text → Option Text → Index F → Run (Option (Text × ℤ) × Index F)
  counter_or_row endpoint_id counter none x =
      counter_row (counter_key endpoint_id counter) (db.type_and_step endpoint_id counter) x
  counter_or_row endpoint_id counter (some s) x = read_type_step (split b'_' s) >>= λ r. some (r, x)

  -- GetCounterFromCache.
  unfoldable pub get_counter_from_cache : ℤ → Text → Index F → Run (Option (Text × ℤ) × Index F)
  get_counter_from_cache endpoint_id counter x =
      counter_or_row endpoint_id counter (get (counter_key endpoint_id counter) x.counters) x

  abbrev pub counter_of_endpoint : Text → Option ℤ → Index F → Run (Option (Text × ℤ) × Index F)
  counter_of_endpoint counter none x = some (none, x)
  counter_of_endpoint counter (some id) x = get_counter_from_cache id counter x

  abbrev pub from_db : Text → Text → Index F → Run (Option (Text × ℤ) × Index F)
  from_db endpoint counter x =
      let (id, x') = get_endpoint_from_cache endpoint x in counter_of_endpoint counter id x'

  abbrev pub type_and_step_of : Option (GraphItem F) → Option (Text × ℤ)
  type_and_step_of none = none
  type_and_step_of (some item) = some (item.ds_type, item.step)

  abbrev pub from_index : Option (IndexCacheItem F) → Option (Text × ℤ)
  from_index none = none
  from_index (some ic) = type_and_step_of ic.item

  abbrev pub or_from_db :
      Text → Text → Option (Text × ℤ) → Index F → Run (Option (Text × ℤ) × Index F)
  or_from_db endpoint counter none x = from_db endpoint counter x
  or_from_db endpoint counter (some found) x = some (some found, x)

  -- GetTypeAndStep.
  unfoldable pub get_type_and_step : Text → Text → Index F → Run (Option (Text × ℤ) × Index F)
  unfolding get_endpoint_from_cache get_counter_from_cache
  get_type_and_step endpoint counter x =
      or_from_db endpoint counter
        (from_index (get (db.md5 (endpoint ++ (b'/' ∷ counter))) x.indexed)) x
