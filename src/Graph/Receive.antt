-- ===== src/Graph/Receive.antt =====
-- modules/graph/api/graph.go: handleItems; modules/graph/store/history.go: AddItem and GetLastItem;
-- modules/graph/store/store.go: getWts; modules/graph/g/utils.go: IsValidString and
-- FormRrdCacheKey.
use falcon_plus.Base.{
  ℕ, ◌%◌, Bool, true, false, not, ◌||◌, Option, none, some, List, [], ◌∷◌, ◌++◌, eqb, Run, ◌>>=◌,
  if◌then◌else◌,
}
use falcon_plus.Base.Int.{ℤ, pos, leb_ℤ, ltb_ℤ}
use falcon_plus.Base.Word.{add64, sub64}
use falcon_plus.Base.Text.{Text}
use falcon_plus.Base.Number.{itoa}
use falcon_plus.Base.Dict.{Dict, get, put, text_eq}
use falcon_plus.Utils.Tags.{pk, counter}
use falcon_plus.Graph.Linked.{GraphItem, first_of}
use falcon_plus.Graph.Store.{GraphItemMap, first, push_front_to}

-- GraphItems, HistoryCache, and the calls of index.ReceiveItem, the last of them first.
pub record State (F : Type 0) : Type 0 where
  pub graph_items : GraphItemMap F
  pub history : Dict Text (List (GraphItem F))
  pub received : List (GraphItem F × Text)

-- Code that is not modelled: CRC-32, MD5, the runes of a string and unicode.IsPrint,
-- SafeListLimited.PushFrontViolently, and whether the migration is on and the rrd file of a checksum,
-- type and step is not there.
pub record Env (F : Type 0) : Type 0 where
  pub hash_key : Text → ℕ
  pub md5 : Text → Text
  pub runes : Text → List ℕ
  pub is_print : ℕ → Bool
  pub push_front_violently : ℕ → GraphItem F → List (GraphItem F) → List (GraphItem F)
  pub rrd_missing : Text → Text → ℤ → Bool

-- g.CACHE_TIME
abbrev pub cache_time : ℕ
cache_time = 1800000

unfoldable pub get_wts : (Text → ℕ) → Text → ℤ → ℤ
get_wts hash_key key now = sub64 (add64 now (pos cache_time)) (pos (hash_key key % cache_time))

unfoldable pub form_rrd_cache_key : Text → Text → ℤ → Text
form_rrd_cache_key md5 ds_type step = md5 ++ (b'_' ∷ (ds_type ++ (b'_' ∷ itoa step)))

module _ {F : Type 0} (env : Env F) where
  -- The switch; 26 is '\\032'.
  abbrev pub is_valid_rune : ℕ → Bool
  is_valid_rune t = not (
      eqb t 13
      || (eqb t 10 || (eqb t 39 || (eqb t 34 || (eqb t 62 || (eqb t 26 || not (env.is_print t)))))))

  valid_runes : List ℕ → Bool
  valid_runes [] = true
  valid_runes (t ∷ ts) = let rest = valid_runes ts in if is_valid_rune t then rest else false

  unfoldable pub is_valid_string : Text → Bool
  unfolding valid_runes
  is_valid_string str = valid_runes (env.runes str)

  -- A list that is not in the map yet is new and empty.
  abbrev pub list_or_new : Option (List (GraphItem F)) → List (GraphItem F)
  list_or_new none = []
  list_or_new (some l) = l

  abbrev pub is_latest : GraphItem F → Option (GraphItem F) → Bool
  is_latest val none = true
  is_latest val (some front) = ltb_ℤ front.timestamp val.timestamp

  unfoldable pub add_item :
      Text → GraphItem F → Dict Text (List (GraphItem F)) → Dict Text (List (GraphItem F))
  add_item key val history =
      let slist = list_or_new (get key history) in
      put key
        (if is_latest val (first_of slist) then env.push_front_violently 3 val slist else slist)
        history

  -- A stored list whose front is not older than the point.
  abbrev pub is_old : GraphItem F → Option (GraphItem F) → Bool
  is_old item none = false
  is_old item (some front) = leb_ℤ item.timestamp front.timestamp

  -- The part of the round after the guards on the strings.
  unfoldable pub take_item : GraphItem F → State F → Run (State F)
  unfolding form_rrd_cache_key add_item
  take_item item s =
      let checksum = env.md5 (pk item.endpoint item.metric item.tags) in
      let key = form_rrd_cache_key checksum item.ds_type item.step in
      first env.hash_key key s.graph_items >>= λ front.
      if is_old item front
      then some s
      else (push_front_to env.hash_key key item (env.rrd_missing checksum item.ds_type item.step)
            s.graph_items
          >>= λ graph_items. some (record {
            graph_items = graph_items;
            history = add_item checksum item s.history;
            received = (item, checksum) ∷ s.received;
          }))

  abbrev pub handle_item : Option (GraphItem F) → State F → Run (State F)
  handle_item none s = some s
  handle_item (some item) s =
      if not (is_valid_string item.endpoint)
      then some s
      else if not (is_valid_string (counter item.metric item.tags))
      then some s
      else take_item item s

  -- A nil pointer among the points is `none`.
  unfoldable pub handle_items : List (Option (GraphItem F)) → State F → Run (State F)
  unfolding take_item is_valid_string
  handle_items [] s = some s
  handle_items (item ∷ items) s = handle_item item s >>= handle_items items

module _ {F : Type 0} where
  unfoldable pub get_last_item : Text → Dict Text (List (GraphItem F)) → Option (GraphItem F)
  get_last_item key history = get key history >>= first_of
