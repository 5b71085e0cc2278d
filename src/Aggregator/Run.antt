-- ===== src/Aggregator/Run.antt =====
-- modules/aggregator/cron/run.go: WorkerRun. An answer is `none` for a panic, and `some none` where nothing
-- is pushed.
use falcon_plus.Base.{
  Bool, not, ◌&&◌, ◌||◌, Option, none, some, List, [], ◌∷◌, ◌++◌, Run, ◌>>=◌, if◌then◌else◌,
}
use falcon_plus.Base.Int.{ℤ, pos}
use falcon_plus.Base.Word.{sub64, mul64}
use falcon_plus.Base.Text.{Text}
use falcon_plus.Base.Float.{Float64}
use falcon_plus.Aggregator.Parse.{Parsed, need_compute, parse, operators_valid}
use falcon_plus.Aggregator.Valid.{clean_param, expression_valid}
use falcon_plus.Aggregator.Worker.{LastPoint, last_values, Side, aggregate}

-- g.Cluster, without the id and the time of its last change.
pub record Cluster : Type 0 where
  pub group_id : ℤ
  pub numerator : Text
  pub denominator : Text
  pub endpoint : Text
  pub metric : Text
  pub tags : Text
  pub ds_type : Text
  pub step : ℤ

-- What sender.Push is called with.
pub record Pushed (F : Type 0) : Type 0 where
  pub endpoint : Text
  pub metric : Text
  pub tags : Text
  pub value : F
  pub ds_type : Text
  pub step : ℤ

abbrev pub side_of : Text → Parsed → Side
side_of text parsed = record { text = text; need = need_compute text; parsed = parsed }

abbrev pub pushed_of : {F : Type 0} → Cluster → F → Pushed F
pushed_of item value = record {
  endpoint = item.endpoint;
  metric = item.metric;
  tags = item.tags;
  value = value;
  ds_type = item.ds_type;
  step = item.step;
}

-- sdk.HostnamesByID, sdk.QueryLastPoints, whose error is `none`, and strconv.ParseFloat.
module _ {F : Type 0} ⦃f : Float64 F⦄ (hostnames_by_id : ℤ → List Text)
    (query_last_points : List Text → List Text → Option (List (LastPoint F)))
    (parse_float : Text → F × Bool) (now : ℤ) where
  -- The points of the answer from two steps ago on.
  abbrev pub pushed_from :
      Cluster → Side → Side → List Text → Option (List (LastPoint F)) → Run (Option (Pushed F))
  pushed_from item numerator denominator hostnames none = some none
  pushed_from item numerator denominator hostnames (some resp) =
      aggregate parse_float numerator denominator hostnames
        (last_values (sub64 now (mul64 item.step (pos 2))) now resp [])
      >>= λ value. some (value >>= λ v. some (pushed_of item v))

  abbrev pub with_hosts : Cluster → Side → Side → List Text → Run (Option (Pushed F))
  with_hosts item numerator denominator [] = some none
  with_hosts item numerator denominator (host ∷ hosts) =
      pushed_from item numerator denominator (host ∷ hosts) (
        query_last_points (host ∷ hosts) (numerator.parsed.operands ++ denominator.parsed.operands))

  abbrev pub parsed_run : Cluster → Text → Text → Run (Option (Pushed F))
  parsed_run item numerator denominator = parse numerator (need_compute numerator) >>= λ n.
      parse denominator (need_compute denominator) >>= λ d.
      if not (operators_valid n.operators) || not (operators_valid d.operators)
      then some none
      else with_hosts item (side_of numerator n) (side_of denominator d)
          (hostnames_by_id item.group_id)

  unfoldable pub worker_run : Cluster → Run (Option (Pushed F))
  worker_run item =
      let numerator = clean_param item.numerator in
      let denominator = clean_param item.denominator in
      if not (expression_valid numerator) || not (expression_valid denominator)
      then some none
      else if not (need_compute numerator) && not (need_compute denominator)
      then some none
      else parsed_run item numerator denominator
