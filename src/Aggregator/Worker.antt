-- ===== src/Aggregator/Worker.antt =====
-- modules/aggregator/cron/run.go: what WorkerRun does once its expressions are parsed and the hosts of
-- the group and the last points are there; modules/aggregator/cron/query.go: queryCounterLast.
use falcon_plus.Base.{
  ℕ, suc, Bool, ◌||◌, Option, none, some, List, [], ◌∷◌, ◌++◌, Run, ◌>>=◌, eqb, if◌then◌else◌,
}
use falcon_plus.Base.Int.{ℤ, pos, ltb_ℤ}
use falcon_plus.Base.Text.{Text, codes, eq_text}
use falcon_plus.Base.Dict.{Dict, put, text_eq}
use falcon_plus.Base.Float.{Float64}
use falcon_plus.Aggregator.Parse.{Parsed}
use falcon_plus.Aggregator.Compute.{compute}

-- A last point, as the api answers it.
pub record LastPoint (F : Type 0) : Type 0 where
  pub endpoint : Text
  pub counter : Text
  pub timestamp : ℤ
  pub value : F

module _ {F : Type 0} where
  -- The loop of queryCounterLast, with `ret` so far.
  unfoldable pub last_values : ℤ → ℤ → List (LastPoint F) → Dict Text F → Dict Text F
  last_values begin end [] ret = ret
  last_values begin end (res ∷ resp) ret = last_values begin end resp (
      if ltb_ℤ res.timestamp begin || ltb_ℤ end res.timestamp
      then ret
      else put (res.endpoint ++ res.counter) res.value ret)

-- The numerator, the denominator and validCount so far.
pub record Sums (F : Type 0) : Type 0 where
  pub numerator : F
  pub denominator : F
  pub valid_count : ℕ

-- The numerator or the denominator: its text, needCompute of it, and what parse makes of it.
pub record Side : Type 0 where
  pub text : Text
  pub need : Bool
  pub parsed : Parsed

-- strconv.ParseFloat: the value, which is 0 or an infinity with an error, and whether there is none.
module _ {F : Type 0} ⦃f : Float64 F⦄ (parse_float : Text → F × Bool) where
  abbrev pub zero_value : F
  zero_value = f.of_int (pos 0)

  abbrev pub side_value : Side → Text → Dict Text F → Run (Option F)
  side_value side hostname value_map =
      if side.need
      then compute (λ s. (parse_float s).0) side.parsed.operands side.parsed.operators
          side.parsed.compute_mode hostname value_map
      else some (some zero_value)

  abbrev pub with_sums : F → F → Sums F → Sums F
  with_sums numerator_val denominator_val s = record {
    numerator = f.add s.numerator numerator_val;
    denominator = f.add s.denominator denominator_val;
    valid_count = suc s.valid_count;
  }

  -- One round: a host without a value on one side is passed over.
  abbrev pub and_denominator : F → Option F → Sums F → Sums F
  and_denominator n none s = s
  and_denominator n (some d) s = with_sums n d s

  abbrev pub host_round : Option F → Run (Option F) → Sums F → Run (Sums F)
  host_round none denominator s = some s
  host_round (some n) denominator s = denominator >>= λ d. some (and_denominator n d s)

  unfoldable pub host_sums : Side → Side → Dict Text F → List Text → Sums F → Run (Sums F)
  unfolding compute
  host_sums numerator denominator value_map [] s = some s
  host_sums numerator denominator value_map (hostname ∷ hostnames) s =
      side_value numerator hostname value_map >>= λ n.
      host_round n (side_value denominator hostname value_map) s
      >>= host_sums numerator denominator value_map hostnames

  -- A side that is not computed is the number of hosts, or a number; `none` where it is no number.
  abbrev pub number_of : F × Bool → Option F
  number_of (v, ok) = if ok then some v else none

  abbrev pub side_total : Side → F → ℕ → Option F
  side_total side sum valid_count =
      if side.need
      then some sum
      else if eq_text side.text (codes "$#")
      then some (f.of_int (pos valid_count))
      else number_of (parse_float side.text)

  -- The value that is pushed, if any.
  unfoldable pub push_value : Side → Side → Sums F → Option F
  push_value numerator denominator s = side_total numerator s.numerator s.valid_count >>= λ n.
      side_total denominator s.denominator s.valid_count >>= λ d.
      if f.eq d zero_value then none else if eqb s.valid_count 0 then none else some (f.div n d)

  unfoldable pub aggregate : Side → Side → List Text → Dict Text F → Run (Option F)
  unfolding host_sums push_value
  aggregate numerator denominator hostnames value_map =
      host_sums numerator denominator value_map hostnames
        (record { numerator = zero_value; denominator = zero_value; valid_count = 0 })
      >>= λ s. some (push_value numerator denominator s)
