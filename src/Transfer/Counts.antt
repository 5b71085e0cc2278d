-- ===== src/Transfer/Counts.antt =====
-- modules/transfer/receiver/rpc/rpc_transfer.go: what becomes of each report, and the points of which
-- the rate is taken.
use falcon_plus.Base.{
  ℕ, suc, ◌+◌, ◌≤◌, ◌≡◌, refl, ◌≢◌, ◌⊎◌, inl, inr, true, false, Option, none, some, List, [], ◌∷◌,
  ◌++◌, length, length-append, All, Bool-cases, if_both, arith,
}
use falcon_plus.Base.Int.{ℤ, pos, leb_ℤ}
use falcon_plus.Base.Word.{sub64}
use falcon_plus.Base.Text.{Text, codes, eq_text, eq_text_iff}
use falcon_plus.Base.Dict.{get, text_eq, get-put}
use falcon_plus.Base.Float.{Float64}
use falcon_plus.Transfer.Model.{MetricValue, MetaData}
use falcon_plus.Transfer.Receive.{
  Settings, Received, counter_type_name, is_empty, refused, not_recorded, is_dynamic, value_of,
  with_polys, after_previous, recv_poly, meta_of, recv_meta, recv_value, recv_metric, recv_metrics,
}

module _ {F : Type 0} where
  -- The reports that the reply or the queues account for.
  abbrev pub accounted : Received F → ℕ
  accounted r = r.invalid + length r.items + length r.dynamic_metric_items

  -- A report of which no rate has to be taken.
  abbrev pub NeedsNoRate : Settings F → Option (MetricValue F) → Type 0
  NeedsNoRate env none = Unit {0}
  NeedsNoRate env (some v) = (v.type ≢ counter_type_name) ⊎ ((s : Text) → env.end_poly s ≡ [])

is_empty_text : (s : Text) → s ≡ [] → is_empty s ≡ true
is_empty_text s h = rw h refl

module _ {F : Type 0} ⦃f : Float64 F⦄ (env : Settings F) where
  recv_poly-accounted :
      (key : Text) (fv : MetaData F) (poly_strategy : Text) (r : Received F)
      → (fv.counter_type ≢ counter_type_name) ⊎ (poly_strategy ≡ [])
      → accounted (recv_poly env key fv poly_strategy r) ≡ suc (accounted r)
  unfolding recv_poly with_polys
  recv_poly-accounted key fv poly_strategy r h = elim (Bool-cases (is_empty poly_strategy)) [
    | inl e ↦ rw e (ground (arith, length-append r.items (fv ∷ [])))
    | inr e ↦
        let other : eq_text fv.counter_type counter_type_name ≡ false =
          ground
            (arith, eq_text_iff fv.counter_type counter_type_name, is_empty_text poly_strategy) in
        rw (e, other) (ground (arith, length-append r.items (fv ∷ [])))
  ]

  recv_meta-accounted :
      (fv : MetaData F) (r : Received F)
      → (fv.counter_type ≢ counter_type_name) ⊎ ((s : Text) → env.end_poly s ≡ [])
      → accounted (recv_meta env fv r) ≡ suc (accounted r)
  recv_meta-accounted fv r h =
      if_both (λ r'. accounted r' ≡ suc (accounted r))
        (is_dynamic (get (codes "DynamicMetric") fv.tags))
        (ground (arith, length-append r.dynamic_metric_items (fv ∷ [])))
        (recv_poly-accounted _ fv _ r (elim h [ inl n ↦ inl n | inr e ↦ inr (e _) ]))

  recv_metric-accounted :
      (now : ℤ) (v : Option (MetricValue F)) (r : Received F)
      → NeedsNoRate env v
      → accounted (recv_metric env now v r) ≡ suc (accounted r)
  unfolding recv_metric
  recv_metric-accounted now none r h = omega arith
  recv_metric-accounted now (some v) r h =
      if_both (λ r'. accounted r' ≡ suc (accounted r)) (refused v) {x = not_recorded r}
        (omega arith) (by_value (value_of env v.value))
    where
      by_value : (o : Option F) → accounted (recv_value env now v o r) ≡ suc (accounted r)
      by_value none = omega arith
      by_value (some value) = recv_meta-accounted (meta_of now v value) r h

  -- Of reports that are no COUNTER, or with no pre-aggregation at all, each is sent on, set aside
  -- as dynamic, or counted as invalid, exactly once.
  pub recv_metrics-accounted :
      (now : ℤ) (args : List (Option (MetricValue F))) (r : Received F)
      → All (NeedsNoRate env) args
      → accounted (recv_metrics env now args r) ≡ length args + accounted r
  unfolding recv_metrics
  recv_metrics-accounted now [] r h = omega arith
  recv_metrics-accounted now (v ∷ args) r h = ground (
    arith,
    recv_metrics-accounted now args (recv_metric env now v r) h.1,
    recv_metric-accounted now v r h.0,
  )

  recv_poly-invalid :
      (key : Text) (fv : MetaData F) (poly_strategy : Text) (r : Received F)
      → (recv_poly env key fv poly_strategy r).invalid ≡ r.invalid
  unfolding recv_poly with_polys
  recv_poly-invalid key fv poly_strategy r = if_both Same (is_empty poly_strategy) refl (
      if_both Same (eq_text fv.counter_type counter_type_name)
        (of_last (get key r.poly_counter_cache)) refl)
    where
      Same : Received F → Type 0
      Same r' = r'.invalid ≡ r.invalid

      of_last :
          (o : Option (MetaData F))
          → (after_previous env key fv poly_strategy r o).invalid ≡ r.invalid
      of_last none = refl
      of_last (some last) =
          if_both Same (leb_ℤ (sub64 fv.timestamp last.timestamp) (pos 0)) refl refl

  recv_metric-invalid :
      (now : ℤ) (v : Option (MetricValue F)) (r : Received F)
      → (recv_metric env now v r).invalid ≤ suc r.invalid
  unfolding recv_metric
  recv_metric-invalid now none r = omega arith
  recv_metric-invalid now (some v) r =
      if_both Within (refused v) {x = not_recorded r} (omega arith)
        (by_value (value_of env v.value))
    where
      Within : Received F → Type 0
      Within r' = r'.invalid ≤ suc r.invalid

      by_value : (o : Option F) → (recv_value env now v o r).invalid ≤ suc r.invalid
      by_value none = omega arith
      by_value (some value) =
          let fv = meta_of now v value in
          if_both Within (is_dynamic (get (codes "DynamicMetric") fv.tags))
            {x = record r { dynamic_metric_items = r.dynamic_metric_items ++ fv ∷ [] }}
            (omega arith) (ground (arith, recv_poly-invalid _ fv _ r))

  pub recv_metrics-invalid :
      (now : ℤ) (args : List (Option (MetricValue F))) (r : Received F)
      → (recv_metrics env now args r).invalid ≤ length args + r.invalid
  unfolding recv_metrics
  recv_metrics-invalid now [] r = omega arith
  recv_metrics-invalid now (v ∷ args) r =
      omega (
        arith,
        recv_metrics-invalid now args (recv_metric env now v r),
        recv_metric-invalid now v r,
      )

  -- The point that is remembered for a counter.
  abbrev pub Remembers : Text → MetaData F → Received F → Type 0
  Remembers j last r = get j r.poly_counter_cache ≡ some last

  recv_poly-Remembers :
      (key j : Text) (fv last : MetaData F) (poly_strategy : Text) (r : Received F)
      → Remembers j last r
      → Remembers j last (recv_poly env key fv poly_strategy r)
  unfolding recv_poly with_polys
  recv_poly-Remembers key j fv last poly_strategy r h =
      if_both (Remembers j last) (is_empty poly_strategy) h (
        if_both (Remembers j last) (eq_text fv.counter_type counter_type_name)
          (of_last (get key r.poly_counter_cache) refl) h)
    where
      of_last :
          (o : Option (MetaData F))
          → get key r.poly_counter_cache ≡ o
          → Remembers j last (after_previous env key fv poly_strategy r o)
      of_last none e = ground (arith, get-put key j fv r.poly_counter_cache, eq_text_iff key j)
      of_last (some previous) e =
          if_both (Remembers j last) (leb_ℤ (sub64 fv.timestamp previous.timestamp) (pos 0)) h h

  recv_metric-Remembers :
      (now : ℤ) (v : Option (MetricValue F)) (j : Text) (last : MetaData F) (r : Received F)
      → Remembers j last r
      → Remembers j last (recv_metric env now v r)
  unfolding recv_metric
  recv_metric-Remembers now none j last r h = h
  recv_metric-Remembers now (some v) j last r h =
      if_both (Remembers j last) (refused v) h (by_value (value_of env v.value))
    where
      by_value : (o : Option F) → Remembers j last (recv_value env now v o r)
      by_value none = h
      by_value (some value) = if_both (Remembers j last) _ h (recv_poly-Remembers _ j _ last _ r h)

  -- The point that is remembered for a counter, of which the rates of later points are taken,
  -- stays the same whatever is reported afterwards.
  pub recv_metrics-Remembers :
      (now : ℤ) (args : List (Option (MetricValue F))) (j : Text) (last : MetaData F)
      (r : Received F)
      → Remembers j last r
      → Remembers j last (recv_metrics env now args r)
  unfolding recv_metrics
  recv_metrics-Remembers now [] j last r h = h
  recv_metrics-Remembers now (v ∷ args) j last r h =
      recv_metrics-Remembers now args j last (recv_metric env now v r)
        (recv_metric-Remembers now v j last r h)
