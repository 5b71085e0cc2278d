-- ===== src/Graph/Last.antt =====
-- modules/graph/api/graph.go: GetLast, GetLastRaw, Last, LastRaw, Info and Delete; modules/graph/store/
-- history.go: GetAllItems; modules/graph/index/index.go: RemoveItem with the waiting points.
use falcon_plus.Base.{
  ℕ, Bool, true, false, not, ◌||◌, Option, none, some, List, [], ◌∷◌, ◌++◌, Run, ◌>>=◌,
  if◌then◌else◌,
}
use falcon_plus.Base.Int.{ℤ, pos, leb_ℤ, eqb_ℤ}
use falcon_plus.Base.Word.{sub64}
use falcon_plus.Base.Text.{Text, codes, eq_text}
use falcon_plus.Base.Strings.{slice}
use falcon_plus.Base.Number.{itoa}
use falcon_plus.Base.Dict.{Dict, get, text_eq}
use falcon_plus.Base.Float.{Float64}
use falcon_plus.Utils.Tags.{Tags}
use falcon_plus.Utils.Dicted.{split_tags_string}
use falcon_plus.Graph.Linked.{GraphItem}
use falcon_plus.Graph.Store.{GraphItemMap, pop_all_of}
use falcon_plus.Graph.Index.{Index, Tables, checksum, remove_item, get_type_and_step}
use falcon_plus.Graph.Receive.{get_last_item, form_rrd_cache_key}
use falcon_plus.Graph.Query.{RrdData, at_time}

module _ {F : Type 0} where
  abbrev pub items_or_none : Option (List (GraphItem F)) → List (GraphItem F)
  items_or_none none = []
  items_or_none (some items) = items

  unfoldable pub get_all_items : Text → Dict Text (List (GraphItem F)) → List (GraphItem F)
  get_all_items key history = items_or_none (get key history)

module _ {F : Type 0} ⦃f : Float64 F⦄ (db : Tables) where
  -- The datum of no value: its time is 0.
  abbrev pub invalid : RrdData F
  invalid = at_time (pos 0) (f.of_int (pos 0))

  -- An item that is not there is read as one whose fields are zero.
  abbrev pub datum_or_invalid : Option (GraphItem F) → RrdData F
  datum_or_invalid none = invalid
  datum_or_invalid (some item) = at_time item.timestamp item.value

  unfoldable pub get_last_raw : Text → Text → Dict Text (List (GraphItem F)) → RrdData F
  unfolding get_last_item
  get_last_raw endpoint counter history =
      datum_or_invalid (get_last_item (db.md5 (endpoint ++ (b'/' ∷ counter))) history)

  -- The rate between the newest two points; a value that falls counts as one that stays.
  abbrev pub last_rate : ℤ → List (GraphItem F) → RrdData F
  last_rate step [] = invalid
  last_rate step (f0 ∷ []) = invalid
  last_rate step (f0 ∷ f1 ∷ _) =
      let delta_ts = sub64 f0.timestamp f1.timestamp in
      let delta_v = f.sub f0.value f1.value in
      if not (eqb_ℤ delta_ts step) || leb_ℤ delta_ts (pos 0)
      then invalid
      else at_time f0.timestamp (
          f.div (if f.lt delta_v (f.of_int (pos 0)) then f.of_int (pos 0) else delta_v)
            (f.of_int delta_ts))

  abbrev pub last_of_type :
      Text → Text → Dict Text (List (GraphItem F)) → Option (Text × ℤ) → RrdData F
  last_of_type endpoint counter history none = invalid
  last_of_type endpoint counter history (some (ds_type, step)) =
      if eq_text ds_type (codes "GAUGE")
      then get_last_raw endpoint counter history
      else if eq_text ds_type (codes "COUNTER") || eq_text ds_type (codes "DERIVE")
      then last_rate step (get_all_items (db.md5 (endpoint ++ (b'/' ∷ counter))) history)
      else invalid

  unfoldable pub get_last :
      Text → Text → Dict Text (List (GraphItem F)) → Index F → Run (RrdData F × Index F)
  unfolding get_last_raw get_all_items
  get_last endpoint counter history x = get_type_and_step db endpoint counter x >>= λ found.
      some (last_of_type endpoint counter history found.0, found.1)

-- GraphInfoResp
pub record GraphInfo : Type 0 where
  pub consol_fun : Text
  pub step : ℤ
  pub filename : Text

abbrev pub info_of :
    (Text → Text) → (storage endpoint counter : Text) → Option (Text × ℤ) → Run GraphInfo
info_of md5_of storage endpoint counter none =
    some (record { consol_fun = []; step = pos 0; filename = [] })
info_of md5_of storage endpoint counter (some (ds_type, step)) =
    let md5 = md5_of (endpoint ++ (b'/' ∷ counter)) in
    slice 0 2 md5 >>= λ folder. some (record {
      consol_fun = ds_type;
      step = step;
      filename =
          storage
          ++ (b'/'
              ∷ (folder
                  ++ (b'/' ∷ (md5 ++ (b'_' ∷ (ds_type ++ (b'_' ∷ (itoa step ++ codes ".rrd"))))))));
    })

module _ {F : Type 0} (db : Tables) where
  -- Graph.Info.
  unfoldable pub info : (storage endpoint counter : Text) → Index F → Run (GraphInfo × Index F)
  info storage endpoint counter x = get_type_and_step db endpoint counter x >>= λ found.
      info_of db.md5 storage endpoint counter found.0 >>= λ resp. some (resp, found.1)

pub record GraphDeleteParam : Type 0 where
  pub endpoint : Text
  pub metric : Text
  pub step : ℤ
  pub ds_type : Text
  pub tags : Text

module _ {F : Type 0} (db : Tables) (hash_key : Text → ℕ) (zero_value : F) where
  -- The index and the waiting points, without the file.
  abbrev pub discard : GraphItem F → Index F × GraphItemMap F → Run (Index F × GraphItemMap F)
  discard item (x, graph_items) =
      pop_all_of hash_key (form_rrd_cache_key (checksum db item) item.ds_type item.step) graph_items
      >>= λ popped. some (remove_item db item x, popped.1)

  abbrev pub deleted_item : GraphDeleteParam → Tags → GraphItem F
  deleted_item param tags = record {
    endpoint = param.endpoint;
    metric = param.metric;
    tags = tags;
    value = zero_value;
    timestamp = pos 0;
    ds_type = param.ds_type;
    step = param.step;
    heartbeat = pos 0;
    min = [];
    max = [];
  }

  abbrev pub delete_param :
      GraphDeleteParam → Bool × Tags → Index F × GraphItemMap F → Run (Index F × GraphItemMap F)
  delete_param param (false, tags) s = some s
  delete_param param (true, tags) s = discard (deleted_item param tags) s

  -- Graph.Delete; the tags that do not read are passed over.
  unfoldable pub delete_items :
      List GraphDeleteParam → Index F × GraphItemMap F → Run (Index F × GraphItemMap F)
  unfolding pop_all_of
  delete_items [] s = some s
  delete_items (param ∷ params) s =
      delete_param param (split_tags_string param.tags) s >>= delete_items params
