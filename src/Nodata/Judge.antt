-- ===== src/Nodata/Judge.antt =====
-- modules/nodata/judge/judge_cron.go: one round of the judge over all configured counters.
use falcon_plus.Base.{not, ◌||◌, ◌&&◌, Option, none, some, List, [], ◌∷◌, if◌then◌else◌}
use falcon_plus.Base.Int.{ℤ, pos, negsuc, leb_ℤ, ltb_ℤ, eqb_ℤ}
use falcon_plus.Base.Word.{add64, sub64, mul64, rem_ℤ}
use falcon_plus.Base.Text.{Text, codes, eq_text}
use falcon_plus.Base.Dict.{Dict, get, put, text_eq}
use falcon_plus.Base.Float.{Float64}
use falcon_plus.Utils.Tags.{sorted_tags}
use falcon_plus.Nodata.Status.{
  NodataStatus, NodataConfig, DataItem, MetaData, last_ts, turn_ok, turn_nodata, get_first_item,
}

-- StatusMap and MockMap.
pub record State (F : Type 0) : Type 0 where
  pub status_map : Dict Text NodataStatus
  pub mock_map : Dict Text (MetaData F)

-- NdConfigMap and ItemMap, as the collector and the configuration cron left them.
pub record Env (F : Type 0) : Type 0 where
  pub configs : Dict Text (NodataConfig F)
  pub items : Dict Text (List (DataItem F))

unfoldable pub gen_ts : ℤ → ℤ → ℤ
gen_ts now step =
    let step' = if ltb_ℤ step (pos 1) then pos 60 else step in
    sub64 (sub64 now (rem_ℤ now step')) (mul64 (pos 2) step')

unfoldable pub get_timeout : ℤ → ℤ
get_timeout step = if ltb_ℤ step (pos 60) then pos 180 else mul64 step (pos 3)

module _ {F : Type 0} ⦃f : Float64 F⦄ where
  unfoldable pub f_compare : F → F → ℤ
  f_compare left right =
      let sub = f.sub left right in
      if f.lt f.neg_min_float sub && f.lt sub f.min_float
      then pos 0
      else if f.le f.min_float sub
      then pos 1
      else negsuc 0

  unfoldable pub gen_mock :
      ℤ → Text → NodataConfig F → Dict Text (MetaData F) → Dict Text (MetaData F)
  gen_mock ts key ndcfg = put key (record {
    metric = ndcfg.metric;
    endpoint = ndcfg.endpoint;
    timestamp = ts;
    step = ndcfg.step;
    value = ndcfg.mock;
    counter_type = ndcfg.ds_type;
    tags = sorted_tags ndcfg.tags;
  })

  -- The two places that take a report to be overdue.
  unfoldable pub overdue : Text → ℤ → NodataConfig F → State F → State F
  overdue key now ndcfg s =
      if leb_ℤ (add64 (last_ts key s.status_map) ndcfg.step) now
      then record {
        status_map = turn_nodata key now s.status_map;
        mock_map = gen_mock (gen_ts now ndcfg.step) key ndcfg s.mock_map;
      }
      else s

  abbrev pub by_item : Text → ℤ → NodataConfig F → Option (DataItem F) → State F → State F
  by_item key now ndcfg none s = s
  by_item key now ndcfg (some item) s =
      let last = sub64 now (get_timeout ndcfg.step) in
      if not (eq_text item.f_status (codes "OK")) || ltb_ℤ item.f_ts last
      then s
      else if eqb_ℤ (f_compare ndcfg.mock item.value) (pos 0)
      then overdue key now ndcfg s
      else if ltb_ℤ item.ts last
      then overdue key now ndcfg s
      else record s { status_map = turn_ok key now s.status_map }

  abbrev pub by_config :
      Text → ℤ → Option (NodataConfig F) → Dict Text (List (DataItem F)) → State F → State F
  by_config key now none items s = s
  by_config key now (some ndcfg) items s = by_item key now ndcfg (get_first_item key items) s

  -- One round of the loop.
  unfoldable pub judge_key : Env F → ℤ → Text → State F → State F
  unfolding overdue
  judge_key env now key s = by_config key now (get key env.configs) env.items s

  -- `keys` are the keys of NdConfigMap.
  unfoldable pub judge : Env F → ℤ → List Text → State F → State F
  unfolding judge_key
  judge env now [] s = s
  judge env now (key ∷ keys) s = judge env now keys (judge_key env now key s)
