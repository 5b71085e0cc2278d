-- ===== src/Graph/Answer.antt =====
-- modules/graph/api/graph.go: Query; modules/graph/g/utils.go: RrdFileName.
use falcon_plus.Base.{
  ℕ, ◌&&◌, ◌%◌, Option, none, some, List, [], ◌∷◌, ◌++◌, eqb, Run, ◌>>=◌, if◌then◌else◌,
}
use falcon_plus.Base.Int.{ℤ, pos, ltb_ℤ, eqb_ℤ}
use falcon_plus.Base.Word.{add64, sub64, mul64, rem_ℤ}
use falcon_plus.Base.Text.{Text, codes}
use falcon_plus.Base.Strings.{slice}
use falcon_plus.Base.Number.{itoa}
use falcon_plus.Base.Float.{Float64}
use falcon_plus.Graph.Linked.{GraphItem}
use falcon_plus.Graph.Store.{GraphItemMap, fetch}
use falcon_plus.Graph.Index.{Index, Tables, get_type_and_step}
use falcon_plus.Graph.Receive.{form_rrd_cache_key}
use falcon_plus.Graph.Query.{
  RrdData, GraphQueryParam, GraphQueryResponse, Sources, merge, merge_or_datas,
}

-- RrdFileName; md5[0:2] panics on a shorter text.
unfoldable pub rrd_file_name : Text → Text → Text → ℤ → Run Text
rrd_file_name base_dir md5 ds_type step = slice 0 2 md5 >>= λ folder. some (
    base_dir
    ++ (b'/'
        ∷ (folder ++ (b'/' ∷ (md5 ++ (b'_' ∷ (ds_type ++ (b'_' ∷ (itoa step ++ codes ".rrd")))))))))

-- RRA1PointCnt
abbrev pub rra1_point_cnt : ℤ
rra1_point_cnt = pos 720

module _ {F : Type 0} ⦃f : Float64 F⦄ (env : Sources F) where
  -- The data of the rrd file, or of the other node where GRAPH_F_MISS is set.
  abbrev pub datas_of :
      GraphQueryParam
      → (filename md5 : Text) → (flag : ℕ) → (start_ts end_ts step : ℤ) → List (RrdData F)
  datas_of param filename md5 flag start_ts end_ts step =
      if env.migrate_enabled && eqb (flag % 2) 1
      then env.remote param
      else env.fetch_rrd filename md5 param.consol_fun (sub64 start_ts step) end_ts step

  -- The first data that are not consolidated start at rra1StartTs.
  abbrev pub merged_or_datas :
      Text
      → (start_ts end_ts step now_ts : ℤ) → List (GraphItem F)
      → List (RrdData F)
      → Run (List (RrdData F))
  merged_or_datas ds_type start_ts end_ts step now_ts items datas =
      let rra1_start_ts = sub64 (sub64 now_ts (rem_ℤ now_ts step)) (mul64 rra1_point_cnt step) in
      if ltb_ℤ start_ts rra1_start_ts
      then some datas
      else merge_or_datas env ds_type start_ts end_ts step items datas

  unfoldable pub values_of :
      GraphQueryParam
      → (md5 ds_type : Text) → (step start_ts end_ts now_ts : ℤ) → GraphItemMap F
      → Run (List (RrdData F))
  unfolding rrd_file_name merge
  values_of param md5 ds_type step start_ts end_ts now_ts graph_items =
      rrd_file_name env.storage md5 ds_type step >>= λ filename.
      fetch env.hash_key (form_rrd_cache_key md5 ds_type step) graph_items >>= λ cached.
      merged_or_datas ds_type start_ts end_ts step now_ts cached.0
        (datas_of param filename md5 cached.1 start_ts end_ts step)

  abbrev pub start_of : ℤ → ℤ → ℤ
  start_of start step = sub64 start (rem_ℤ start step)

  abbrev pub end_of : ℤ → ℤ → ℤ
  end_of end step = add64 (sub64 end (rem_ℤ end step)) step

  abbrev pub empty_response : GraphQueryParam → GraphQueryResponse F
  empty_response param = record {
    endpoint = param.endpoint;
    counter = param.counter;
    ds_type = [];
    step = pos 0;
    values = [];
  }

  -- By what GetTypeAndStep answers; a step of 0 panics.
  abbrev pub respond :
      (Text → Text)
      → GraphQueryParam
      → (now_ts : ℤ) → GraphItemMap F
      → Option (Text × ℤ)
      → Run (GraphQueryResponse F)
  respond md5 param now_ts graph_items none = some (empty_response param)
  respond md5 param now_ts graph_items (some (ds_type, step)) =
      let resp = record (empty_response param) { ds_type = ds_type; step = step } in
      let start_ts = start_of param.start step in
      let end_ts = end_of param.end step in
      if eqb_ℤ step (pos 0)
      then none
      else if ltb_ℤ (sub64 (sub64 end_ts start_ts) step) (pos 1)
      then some resp
      else (values_of param (md5 (param.endpoint ++ (b'/' ∷ param.counter))) ds_type step start_ts
            end_ts now_ts graph_items
          >>= λ values. some (record resp { values = values }))

  -- Graph.Query.
  unfoldable pub query :
      Tables
      → GraphQueryParam
      → (now_ts : ℤ) → GraphItemMap F
      → Index F
      → Run (GraphQueryResponse F × Index F)
  unfolding values_of
  query db param now_ts graph_items x =
      get_type_and_step db param.endpoint param.counter x >>= λ found.
      respond db.md5 param now_ts graph_items found.0 >>= λ resp. some (resp, found.1)
