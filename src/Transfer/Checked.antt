-- ===== src/Transfer/Checked.antt =====
-- modules/transfer/receiver/rpc/rpc_transfer.go: what RecvMetricValues lets through.
use falcon_plus.Base.{
  ◌≡◌, ◌≢◌, ◌⊎◌, inl, inr, true, false, Option, none, some, List, [], ◌∷◌, All, All-append, All-map,
  Bool-cases, if_both, arith,
}
use falcon_plus.Base.Int.{ℤ, pos, leb_ℤ, ◌≤ℤ◌}
use falcon_plus.Base.Word.{sub64}
use falcon_plus.Base.Text.{Text, codes, eq_text, eq_text_iff}
use falcon_plus.Base.Strings.{split_pair}
use falcon_plus.Base.Dict.{get, text_eq}
use falcon_plus.Base.Float.{Float64}
use falcon_plus.Transfer.Model.{MetricValue, MetaData, PromeMetaData, PolyRequest}
use falcon_plus.Transfer.Receive.{
  Settings, Received, gauge, counter_type_name, derive, is_empty, is_supported, refused,
  recv_timestamp, is_dynamic, value_of, with_polys, after_previous, recv_poly, meta_of, recv_meta,
  recv_value, recv_metric, recv_metrics,
}

-- What the receivers of a point rely on.
pub record IsAccepted {F : Type 0} (fv : MetaData F) : Type 0 where
  pub has_metric : fv.metric ≢ []
  pub has_endpoint : fv.endpoint ≢ []
  pub has_step : pos 1 ≤ℤ fv.step
  pub has_time : pos 1 ≤ℤ fv.timestamp
  pub has_type :
      (fv.counter_type ≡ counter_type_name) ⊎ (fv.counter_type ≡ gauge) ⊎ (fv.counter_type ≡ derive)

is_empty-cases : (s : Text) → is_empty s ≡ false → s ≢ []
is_empty-cases [] h = ground arith
is_empty-cases (c ∷ s) h = ground arith

is_supported_lem :
    (type : Text)
    → is_supported type ≡ true
    → (type ≡ counter_type_name) ⊎ (type ≡ gauge) ⊎ (type ≡ derive)
unfolding is_supported
is_supported_lem type h =
    ground
      (arith, eq_text_iff type counter_type_name, eq_text_iff type gauge, eq_text_iff type derive)

module _ {F : Type 0} where
  recv_timestamp-positive :
      (now : ℤ) (v : MetricValue F) → pos 1 ≤ℤ now → pos 1 ≤ℤ recv_timestamp now v
  unfolding recv_timestamp
  recv_timestamp-positive now v h = ground arith

  meta_of-IsAccepted :
      (now : ℤ) (v : MetricValue F) (value : F)
      → pos 1 ≤ℤ now
      → refused v ≡ false
      → IsAccepted (meta_of now v value)
  unfolding refused
  meta_of-IsAccepted now v value h r = record {
    has_metric = is_empty-cases v.metric (ground arith);
    has_endpoint = is_empty-cases v.endpoint (ground arith);
    has_step = ground arith;
    has_time = recv_timestamp-positive now v h;
    has_type = is_supported_lem v.type (ground arith);
  }

  abbrev pub AcceptedFor : PromeMetaData F → Type 0
  AcceptedFor p = IsAccepted p.falcon_meta_data

  abbrev pub HasEndpoint : PolyRequest F → Type 0
  HasEndpoint q = q.end_point ≢ []

  -- All that is sent on is accepted.
  abbrev pub AllAccepted : Received F → Type 0
  AllAccepted r =
      All IsAccepted r.items
      × All IsAccepted r.dynamic_metric_items
      × All AcceptedFor r.prome_items
      × All HasEndpoint r.poly_items

module _ {F : Type 0} ⦃f : Float64 F⦄ (env : Settings F) where
  with_polys-AllAccepted :
      (fv : MetaData F) (value : F) (poly_strategy : Text) (r : Received F)
      → IsAccepted fv
      → AllAccepted r
      → AllAccepted (with_polys env fv value poly_strategy r)
  unfolding with_polys
  with_polys-AllAccepted fv value poly_strategy r a h = (
    All-append IsAccepted r.items (fv ∷ []) h.0 (a, tt),
    h.1,
    if_both (All AcceptedFor) env.prome_enabled (All-append AcceptedFor r.prome_items _ h.2 (a, tt))
        h.2,
    All-append HasEndpoint r.poly_items _ h.3
        (All-map HasEndpoint _ (split_pair b'@' b'@' poly_strategy) (λ poly. a.has_endpoint)),
  )

  recv_poly-AllAccepted :
      (key : Text) (fv : MetaData F) (poly_strategy : Text) (r : Received F)
      → IsAccepted fv
      → AllAccepted r
      → AllAccepted (recv_poly env key fv poly_strategy r)
  unfolding recv_poly
  recv_poly-AllAccepted key fv poly_strategy r a h =
      if_both AllAccepted (is_empty poly_strategy)
        (All-append IsAccepted r.items (fv ∷ []) h.0 (a, tt), h.1, h.2, h.3)
        (if_both AllAccepted (eq_text fv.counter_type counter_type_name)
          (of_last (get key r.poly_counter_cache))
          (with_polys-AllAccepted fv fv.value poly_strategy r a h))
    where
      of_last :
          (o : Option (MetaData F)) → AllAccepted (after_previous env key fv poly_strategy r o)
      of_last none = h
      of_last (some last) =
          if_both AllAccepted (leb_ℤ (sub64 fv.timestamp last.timestamp) (pos 0)) h
            (with_polys-AllAccepted fv _ poly_strategy r a h)

  recv_meta-AllAccepted :
      (fv : MetaData F) (r : Received F)
      → IsAccepted fv
      → AllAccepted r
      → AllAccepted (recv_meta env fv r)
  recv_meta-AllAccepted fv r a h =
      if_both AllAccepted (is_dynamic (get (codes "DynamicMetric") fv.tags))
        (h.0, All-append IsAccepted r.dynamic_metric_items (fv ∷ []) h.1 (a, tt), h.2, h.3)
        (recv_poly-AllAccepted _ fv _ r a h)

  recv_metric-AllAccepted :
      (now : ℤ) (v : Option (MetricValue F)) (r : Received F)
      → pos 1 ≤ℤ now
      → AllAccepted r
      → AllAccepted (recv_metric env now v r)
  unfolding recv_metric
  recv_metric-AllAccepted now none r n h = h
  recv_metric-AllAccepted now (some v) r n h = elim (Bool-cases (refused v)) [
    | inl out ↦ rw out h
    | inr passed ↦ rw passed (by_value (value_of env v.value) passed)
  ]
    where
      by_value : (o : Option F) → refused v ≡ false → AllAccepted (recv_value env now v o r)
      by_value none passed = h
      by_value (some value) passed =
          recv_meta-AllAccepted (meta_of now v value) r (meta_of-IsAccepted now v value n passed) h

  -- At a present time after 0, all that the loop of RecvMetricValues collects has a metric, an
  -- endpoint, a step and a time of at least 1, and one of the three types, and each request of a
  -- pre-aggregation has an endpoint.
  pub recv_metrics-AllAccepted :
      (now : ℤ) (args : List (Option (MetricValue F))) (r : Received F)
      → pos 1 ≤ℤ now
      → AllAccepted r
      → AllAccepted (recv_metrics env now args r)
  unfolding recv_metrics
  recv_metrics-AllAccepted now [] r n h = h
  recv_metrics-AllAccepted now (v ∷ args) r n h =
      recv_metrics-AllAccepted now args (recv_metric env now v r) n
        (recv_metric-AllAccepted now v r n h)
