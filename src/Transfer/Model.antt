-- ===== src/Transfer/Model.antt =====
-- common/model/metric.go, poly.go and graph.go: what transfer receives and sends.
use falcon_plus.Base.{List}
use falcon_plus.Base.Int.{ℤ}
use falcon_plus.Base.Text.{Text}
use falcon_plus.Utils.Tags.{Tags, pk}

-- The field `Value` of a report, an interface{}; `other_value` is any type but those that are read.
pub data Value (F : Type 0) : Type 0 where
  string_value : Text → Value F
  float_value : F → Value F
  int_value : ℤ → Value F
  other_value : Value F

pub record MetricValue (F : Type 0) : Type 0 where
  pub endpoint : Text
  pub metric : Text
  pub value : Value F
  pub step : ℤ
  pub type : Text
  pub tags : Text
  pub timestamp : ℤ

pub record MetaData (F : Type 0) : Type 0 where
  pub metric : Text
  pub endpoint : Text
  pub timestamp : ℤ
  pub step : ℤ
  pub value : F
  pub counter_type : Text
  pub tags : Tags

pub record PromeMetaData (F : Type 0) : Type 0 where
  pub falcon_meta_data : MetaData F
  pub polys : List Text

pub record PolyRequest (F : Type 0) : Type 0 where
  pub poly_name : Text
  pub end_point : Text
  pub type : Text
  pub value : F

-- MetaData.PK
unfoldable pub meta_pk : {F : Type 0} → MetaData F → Text
unfolding pk
meta_pk t = pk t.endpoint t.metric t.tags
