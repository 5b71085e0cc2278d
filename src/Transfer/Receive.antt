-- ===== src/Transfer/Receive.antt =====
-- modules/transfer/receiver/rpc/rpc_transfer.go: the loop of RecvMetricValues.
use falcon_plus.Base.{
  ℕ, suc, ◌+◌, Bool, true, false, not, ◌||◌, Option, none, some, List, [], ◌∷◌, ◌++◌, map, length,
  ltb, if◌then◌else◌,
}
use falcon_plus.Base.Int.{ℤ, pos, leb_ℤ, ltb_ℤ}
use falcon_plus.Base.Word.{add64, sub64, mul64}
use falcon_plus.Base.Text.{Text, codes, eq_text}
use falcon_plus.Base.Strings.{split_pair}
use falcon_plus.Base.Dict.{Dict, get, put, text_eq}
use falcon_plus.Base.Float.{Float64}
use falcon_plus.Utils.Tags.{counter}
use falcon_plus.Utils.Dicted.{dicted_tagstring}
use falcon_plus.Transfer.Model.{
  Value, string_value, float_value, int_value, other_value, MetricValue, MetaData, PromeMetaData,
  PolyRequest,
}

-- What the loop reads besides the reports: strconv.ParseFloat, the cache EndPolyCache of the names of
-- the pre-aggregations of a counter, and Config().Prome.Enabled.
pub record Settings (F : Type 0) : Type 0 where
  pub parse_float : Text → Option F
  pub end_poly : Text → Text
  pub prome_enabled : Bool

-- The variables of the loop, and the cache PolyCounterCache, which outlives it.
pub record Received (F : Type 0) : Type 0 where
  pub invalid : ℕ
  pub items : List (MetaData F)
  pub prome_items : List (PromeMetaData F)
  pub poly_items : List (PolyRequest F)
  pub dynamic_metric_items : List (MetaData F)
  pub poly_counter_cache : Dict Text (MetaData F)

abbrev pub gauge : Text
gauge = codes "GAUGE"

abbrev pub counter_type_name : Text
counter_type_name = codes "COUNTER"

abbrev pub derive : Text
derive = codes "DERIVE"

abbrev pub is_empty : Text → Bool
is_empty [] = true
is_empty (c ∷ s) = false

unfoldable pub is_supported : Text → Bool
is_supported type = eq_text type counter_type_name || eq_text type gauge || eq_text type derive

abbrev pub is_dynamic : Option Text → Bool
is_dynamic none = false
is_dynamic (some s) = eq_text s (codes "true")

module _ {F : Type 0} where
  -- v.Value == "", which is false of a value of another type.
  abbrev pub is_empty_string : Value F → Bool
  is_empty_string (string_value s) = is_empty s
  is_empty_string _ = false

  -- The tests with which a report is refused, but for its value.
  unfoldable pub refused : MetricValue F → Bool
  unfolding is_supported
  refused v =
      eq_text v.metric (codes "kernel.hostname")
      || (is_empty v.metric || is_empty v.endpoint)
      || not (is_supported v.type)
      || is_empty_string v.value
      || leb_ℤ v.step (pos 0)
      || ltb 510 (length v.metric + length v.tags)

  -- A time that is not positive, or more than three steps away, is replaced by the present.
  unfoldable pub recv_timestamp : ℤ → MetricValue F → ℤ
  recv_timestamp now v =
      if leb_ℤ v.timestamp (pos 0)
        || ltb_ℤ (add64 now (mul64 (pos 3) v.step)) v.timestamp
        || ltb_ℤ v.timestamp (sub64 now (mul64 (pos 3) v.step))
      then now
      else v.timestamp

  abbrev pub not_recorded : Received F → Received F
  not_recorded r = record r { invalid = suc r.invalid }

  abbrev request : MetaData F → F → Text → PolyRequest F
  request fv value poly = record {
    poly_name = poly;
    end_point = fv.endpoint;
    type = fv.counter_type;
    value = value;
  }

  abbrev pub with_item : MetaData F → Received F → Received F
  with_item fv r = record r { items = r.items ++ fv ∷ [] }

  abbrev pub meta_of : ℤ → MetricValue F → F → MetaData F
  meta_of now v value = record {
    metric = v.metric;
    endpoint = v.endpoint;
    timestamp = recv_timestamp now v;
    step = v.step;
    value = value;
    counter_type = v.type;
    tags = dicted_tagstring v.tags;
  }

module _ {F : Type 0} ⦃f : Float64 F⦄ (env : Settings F) where
  -- The type switch on v.Value.
  unfoldable pub value_of : Value F → Option F
  value_of (string_value s) = env.parse_float s
  value_of (float_value x) = some x
  value_of (int_value n) = some (f.of_int n)
  value_of other_value = none

  -- The requests of the pre-aggregations and the point for Prometheus; strings.Split gives one name
  -- at least.
  unfoldable pub with_polys : MetaData F → F → Text → Received F → Received F
  with_polys fv value poly_strategy r =
      let polys = split_pair b'@' b'@' poly_strategy in
      with_item fv (record r {
        poly_items = r.poly_items ++ map (request fv value) polys;
        prome_items =
            if env.prome_enabled
            then r.prome_items ++ record { falcon_meta_data = fv; polys = polys } ∷ []
            else r.prome_items;
      })

  abbrev pub after_previous :
      Text → MetaData F → Text → Received F → Option (MetaData F) → Received F
  after_previous key fv poly_strategy r none = record r {
    poly_counter_cache = put key fv r.poly_counter_cache;
  }
  after_previous key fv poly_strategy r (some last) =
      if leb_ℤ (sub64 fv.timestamp last.timestamp) (pos 0)
      then r
      else with_polys fv
          (f.div (f.sub fv.value last.value) (f.of_int (sub64 fv.timestamp last.timestamp)))
          poly_strategy r

  -- A point of a counter that has pre-aggregations; of a COUNTER the rate is taken.
  unfoldable pub recv_poly : Text → MetaData F → Text → Received F → Received F
  unfolding with_polys
  recv_poly key fv poly_strategy r =
      if is_empty poly_strategy
      then with_item fv r
      else if eq_text fv.counter_type counter_type_name
      then after_previous key fv poly_strategy r (get key r.poly_counter_cache)
      else with_polys fv fv.value poly_strategy r

  abbrev pub recv_meta : MetaData F → Received F → Received F
  recv_meta fv r =
      if is_dynamic (get (codes "DynamicMetric") fv.tags)
      then record r { dynamic_metric_items = r.dynamic_metric_items ++ fv ∷ [] }
      else (let counter_text = counter fv.metric fv.tags in
          recv_poly (fv.endpoint ++ counter_text) fv
            (env.end_poly (fv.endpoint ++ (codes "||" ++ counter_text))) r)

  abbrev pub recv_value : ℤ → MetricValue F → Option F → Received F → Received F
  recv_value now v none r = not_recorded r
  recv_value now v (some value) r = recv_meta (meta_of now v value) r

  -- The body of the loop; a nil report is `none`.
  unfoldable pub recv_metric : ℤ → Option (MetricValue F) → Received F → Received F
  unfolding recv_poly refused recv_timestamp value_of
  recv_metric now none r = not_recorded r
  recv_metric now (some v) r =
      if refused v then not_recorded r else recv_value now v (value_of v.value) r

  unfoldable pub recv_metrics : ℤ → List (Option (MetricValue F)) → Received F → Received F
  unfolding recv_metric
  recv_metrics now [] r = r
  recv_metrics now (v ∷ args) r = recv_metrics now args (recv_metric now v r)
