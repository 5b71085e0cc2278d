-- ===== src/Aggregator/Pushed.antt =====
-- modules/aggregator/cron/run.go: what WorkerRun pushes for an expression that it accepts.
use falcon_plus.Base.{
  ℕ, ◌≡◌, refl, Bool, true, false, All, Option, none, some, List, [], ◌∷◌, map, ◌>>=◌, arith,
}
use mathlib.Core.List.{append-nil}
use falcon_plus.Base.Int.{ℤ, pos}
use falcon_plus.Base.Word.{sub64, mul64}
use falcon_plus.Base.Text.{Text, codes, eq_text}
use falcon_plus.Base.Dict.{text_eq}
use falcon_plus.Base.Float.{Float64}
use falcon_plus.Aggregator.Parse.{is_mark, need_compute, parse, operators_valid}
use falcon_plus.Aggregator.Valid.{has_wide_bracket, clean_param, expression_valid}
use falcon_plus.Aggregator.Printed.{
  Term, counter_of, text_of, IsName, IsCounter, AreCounters, needs, parse-text_of,
}
use falcon_plus.Aggregator.Compute.{is_figure}
use falcon_plus.Aggregator.Meaning.{
  above, below, equal, at_least, at_most, Mode, sum_itself, against, mode_text, IsNumeral,
}
use falcon_plus.Aggregator.Worker.{LastPoint, last_values}
use falcon_plus.Aggregator.Run.{Cluster, Pushed, pushed_of, with_hosts, worker_run}
use falcon_plus.Aggregator.Mean.{written, all_hosts, values_of, mean, aggregate-mean}

figure_is_no_mark : (c : ℕ) → is_figure c ≡ true → is_mark c ≡ false
figure_is_no_mark c h = ground (arith, h)

figures-IsName : (num : Text) → All (λ c. is_figure c ≡ true) num → IsName num
figures-IsName [] h = tt
figures-IsName (x ∷ num) h = (figure_is_no_mark x h.0, figures-IsName num h.1)

mode_text-IsName : (mode : Mode) → IsNumeral mode → IsName (mode_text mode)
mode_text-IsName sum_itself h = tt
mode_text-IsName (against above num) h = (refl, figures-IsName num h.1)
mode_text-IsName (against below num) h = (refl, figures-IsName num h.1)
mode_text-IsName (against equal num) h = (refl, figures-IsName num h.1)
mode_text-IsName (against at_least num) h = (refl, (refl, figures-IsName num h.1))
mode_text-IsName (against at_most num) h = (refl, (refl, figures-IsName num h.1))

count-valid : expression_valid (codes "$#") ≡ true
unfolding expression_valid has_wide_bracket eq_text
count-valid = refl

none-valid : operators_valid [] ≡ true
unfolding operators_valid
none-valid = refl

count-computed : need_compute (codes "$#") ≡ false
unfolding need_compute
count-computed = refl

count-parsed :
    parse (codes "$#") (need_compute (codes "$#"))
    ≡ some (record { operands = []; operators = []; compute_mode = [] })
unfolding parse need_compute
count-parsed = refl

module _ {F : Type 0} ⦃f : Float64 F⦄ (hostnames_by_id : ℤ → List Text)
    (query_last_points : List Text → List Text → Option (List (LastPoint F)))
    (parse_float : Text → F × Bool) (now : ℤ) where
  -- The mean for a cluster, with the values of an answer.
  abbrev pub pushed_mean :
      Cluster → Text → List Term → Mode → List (LastPoint F) → Option (Pushed F)
  pushed_mean item c ts mode resp =
      let vals = last_values (sub64 now (mul64 item.step (pos 2))) now resp [] in
      mean parse_float (values_of parse_float c ts mode vals (hostnames_by_id item.group_id))
      >>= λ v. some (pushed_of item v)

  mean-empty : mean parse_float [] ≡ none
  mean-empty = ground arith

  with_hosts-mean :
      (item : Cluster) (grouped : Bool) (c : Text) (ts : List Term) (mode : Mode)
      (resp : List (LastPoint F)) (hosts : List Text)
      → IsNumeral mode
      → query_last_points hosts (c ∷ map counter_of ts) ≡ some resp
      → with_hosts hostnames_by_id query_last_points parse_float now item
          (written grouped c ts mode)
          all_hosts
          hosts
        ≡ some (
            mean parse_float (
              values_of parse_float c ts mode
                (last_values (sub64 now (mul64 item.step (pos 2))) now resp [])
                hosts)
            >>= λ v. some (pushed_of item v))
  with_hosts-mean item grouped c ts mode resp [] m q = rw mean-empty refl
  with_hosts-mean item grouped c ts mode resp (host ∷ hosts) m q =
      let vals = last_values (sub64 now (mul64 item.step (pos 2))) now resp [] in
      rw
        (
          append-nil (map counter_of ts),
          q,
          aggregate-mean parse_float grouped c ts mode vals (host ∷ hosts) m,
        )
        refl

  -- For a cluster whose denominator is "$#" once cleaned, and whose numerator, once cleaned, is a
  -- written expression that expressionValid accepts: counters that are not empty and hold no
  -- dollar and no bracket, added and subtracted, with no mode or a comparison with figures behind.
  -- If the last points of its counters can be asked for, WorkerRun returns without a panic. It
  -- pushes, for the cluster, the mean over the hosts of the group that have a value for each
  -- counter, in the points between two steps ago and now, of the sum (or of 1 and 0 as the
  -- comparison holds or not); it pushes nothing where there is no such host or their number is
  -- equal to 0 as a float.
  pub worker_run-mean :
      (item : Cluster) (grouped : Bool) (c : Text) (ts : List Term) (mode : Mode)
      (resp : List (LastPoint F))
      → clean_param item.numerator ≡ text_of grouped c ts (mode_text mode)
      → clean_param item.denominator ≡ codes "$#"
      → expression_valid (text_of grouped c ts (mode_text mode)) ≡ true
      → IsCounter c
      → AreCounters ts
      → IsNumeral mode
      → query_last_points (hostnames_by_id item.group_id) (c ∷ map counter_of ts) ≡ some resp
      → worker_run hostnames_by_id query_last_points parse_float now item
        ≡ some (pushed_mean item c ts mode resp)
  unfolding worker_run
  worker_run-mean item grouped c ts mode resp n d v h a m q =
      let name = mode_text-IsName mode m in
      let (parsed, valid) = parse-text_of grouped c ts (mode_text mode) h a name in
      rw
        (
          n,
          d,
          v,
          count-valid,
          parsed,
          count-parsed,
          valid,
          none-valid,
          needs grouped c ts (mode_text mode),
          count-computed,
        )
        (with_hosts-mean item grouped c ts mode resp (hostnames_by_id item.group_id) m q)
