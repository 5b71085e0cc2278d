-- ===== src/Nodata/Status.antt =====
-- modules/nodata/judge/status.go, modules/nodata/collector/collector.go and sender.go (AddMock): what
-- nodata keeps for each counter.
use falcon_plus.Base.{Option, none, some, List, [], ◌∷◌}
use falcon_plus.Base.Int.{ℤ, pos}
use falcon_plus.Base.Word.{add64}
use falcon_plus.Base.Text.{Text}
use falcon_plus.Base.Dict.{Dict, get, put, text_eq}
use falcon_plus.Utils.Tags.{Tags}

-- `Status` is "OK" or "NODATA".
pub data Health : Type 0 where
  ok nodata : Health

pub record NodataStatus : Type 0 where
  pub key : Text
  pub status : Health
  pub cnt : ℤ
  pub ts : ℤ

pub record NodataConfig (F : Type 0) : Type 0 where
  pub id : ℤ
  pub name : Text
  pub obj_type : Text
  pub endpoint : Text
  pub metric : Text
  pub tags : Tags
  pub ds_type : Text
  pub step : ℤ
  pub mock : F

pub record DataItem (F : Type 0) : Type 0 where
  pub ts : ℤ
  pub value : F
  pub f_status : Text
  pub f_ts : ℤ

-- The JsonMetaData of a mock.
pub record MetaData (F : Type 0) : Type 0 where
  pub metric : Text
  pub endpoint : Text
  pub timestamp : ℤ
  pub step : ℤ
  pub value : F
  pub counter_type : Text
  pub tags : Text

abbrev ts_of : Option NodataStatus → ℤ
ts_of none = pos 0
ts_of (some ns) = ns.ts

unfoldable pub last_ts : Text → Dict Text NodataStatus → ℤ
last_ts key m = ts_of (get key m)

abbrev pub turned_ok : Text → ℤ → Option NodataStatus → NodataStatus
turned_ok key ts none = record { key = key; status = ok; cnt = pos 0; ts = ts }
turned_ok key ts (some ns) = record ns { status = ok; cnt = pos 0; ts = ts }

unfoldable pub turn_ok : Text → ℤ → Dict Text NodataStatus → Dict Text NodataStatus
turn_ok key ts m = put key (turned_ok key ts (get key m)) m

abbrev pub turned_nodata : Text → ℤ → Option NodataStatus → NodataStatus
turned_nodata key ts none = record { key = key; status = nodata; cnt = pos 1; ts = ts }
turned_nodata key ts (some ns) = record ns { status = nodata; cnt = add64 ns.cnt (pos 1); ts = ts }

unfoldable pub turn_nodata : Text → ℤ → Dict Text NodataStatus → Dict Text NodataStatus
turn_nodata key ts m = put key (turned_nodata key ts (get key m)) m

module _ {F : Type 0} where
  -- The newest item of a counter: the front of its list.
  abbrev front : Option (List (DataItem F)) → Option (DataItem F)
  front none = none
  front (some []) = none
  front (some (x ∷ _)) = some x

  unfoldable pub get_first_item : Text → Dict Text (List (DataItem F)) → Option (DataItem F)
  get_first_item key m = front (get key m)
