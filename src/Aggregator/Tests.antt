-- ===== src/Aggregator/Tests.antt =====
-- The aggregator at concrete inputs.
use falcon_plus.Base.{◌≡◌, refl, Bool, true, false, some, List, [], ◌∷◌, map, arith}
use falcon_plus.Base.Int.{ℤ, pos, ◌-ℤ◌, ◌*ℤ◌, ◌+ℤ◌}
use falcon_plus.Base.Text.{Text, codes, eq_text}
use falcon_plus.Base.Word.{int64}
use falcon_plus.Base.Dict.{get, put, text_eq}
use falcon_plus.Base.Float.{fixed_float}
use falcon_plus.Aggregator.Parse.{need_compute, parse, operators_valid}
use falcon_plus.Aggregator.Printed.{
  Term, plus, minus, counter_of, operator_of, text_of, IsCounter, AreCounters, parse-text_of,
}
use falcon_plus.Aggregator.Meaning.{Mode, against, at_least}
use falcon_plus.Aggregator.Valid.{clean_param, has_wide_bracket, expression_valid}
use falcon_plus.Aggregator.Worker.{LastPoint, last_values, aggregate}
use falcon_plus.Aggregator.Run.{Cluster, pushed_of, worker_run}
use falcon_plus.Aggregator.Pushed.{pushed_mean, worker_run-mean}

abbrev other_terms : List Term
other_terms = plus (codes "idle") ∷ minus (codes "nice") ∷ []

abbrev over_80 : Mode
over_80 = against at_least (codes "80")

busy-IsCounter : IsCounter (codes "busy")
busy-IsCounter = ((λ e. ground (arith, e)), (refl, (refl, (refl, (refl, tt)))))

other_terms-AreCounters : AreCounters other_terms
other_terms-AreCounters = (
  ((λ e. ground (arith, e)), (refl, (refl, (refl, (refl, tt))))),
  (((λ e. ground (arith, e)), (refl, (refl, (refl, (refl, tt))))), tt),
)

abbrev read_80 : Text → ℤ × Bool
read_80 s = (pos 80000000, true)

abbrev hosts : List Text
hosts = codes "h1" ∷ codes "h2" ∷ []

parse-text_of_example :
    let e = text_of true (codes "busy") other_terms (codes ">=80") in
    (parse e (need_compute e)
      ≡ some (record {
        operands = codes "busy" ∷ map counter_of other_terms;
        operators = map operator_of other_terms;
        compute_mode = codes ">=80";
      }))
    × (operators_valid (map operator_of other_terms) ≡ true)
parse-text_of_example =
    parse-text_of true (codes "busy") other_terms (codes ">=80") busy-IsCounter
      other_terms-AreCounters (refl, (refl, (refl, (refl, tt))))

abbrev last_points : List (LastPoint ℤ)
last_points =
    record {
      endpoint = codes "h1";
      counter = codes "busy";
      timestamp = pos 1000;
      value = pos 90000000;
    }
    ∷ record {
      endpoint = codes "h1";
      counter = codes "idle";
      timestamp = pos 990;
      value = pos 5000000;
    }
    ∷ record {
      endpoint = codes "h1";
      counter = codes "nice";
      timestamp = pos 880;
      value = pos 1000000;
    }
    ∷ record {
      endpoint = codes "h2";
      counter = codes "busy";
      timestamp = pos 879;
      value = pos 10000000;
    }
    ∷ []

abbrev cluster : Cluster
cluster = record {
  group_id = pos 7;
  numerator = codes " ($(busy) + $(idle) - $(nice)) >= 80\n";
  denominator = codes "$#";
  endpoint = codes "group";
  metric = codes "busy.part";
  tags = [];
  ds_type = codes "GAUGE";
  step = pos 60;
}

worker_run-mean_example :
    worker_run (λ id. hosts) (λ names counters. some last_points) read_80 (pos 1000) cluster
    ≡ some (
        pushed_mean
          (λ id. hosts)
          (λ names counters. some last_points)
          read_80
          (pos 1000)
          cluster
          (codes "busy")
          other_terms
          over_80
          last_points)
unfolding clean_param expression_valid eq_text
worker_run-mean_example =
    worker_run-mean (λ id. hosts) (λ names counters. some last_points) read_80 (pos 1000) cluster
      true (codes "busy") other_terms over_80 last_points refl refl refl busy-IsCounter
      other_terms-AreCounters ((λ e. ground (arith, e)), (refl, (refl, tt))) refl

worker_run-pushes :
    worker_run (λ id. hosts) (λ names counters. some last_points) read_80 (pos 1000) cluster
    ≡ some (some (pushed_of cluster (pos 1000000)))
unfolding worker_run clean_param expression_valid has_wide_bracket need_compute parse
    operators_valid aggregate last_values eq_text get put int64 ◌-ℤ◌ ◌*ℤ◌ ◌+ℤ◌
worker_run-pushes = refl

-- The expressions of run_test.go.
accepted_texts :
    map
      (λ s. expression_valid s)
      (codes "1210"
        ∷ codes "$#"
        ∷ codes "$(cpu.busy)"
        ∷ codes "$(cpu.busy)+$(cpu.idle)-$(cpu.nice)"
        ∷ codes "$(cpu.busy)>=80"
        ∷ codes "($(cpu.busy)+$(cpu.idle)-$(cpu.nice))>80"
        ∷ codes "$(qps/module=judge,project=falcon)"
        ∷ codes "($(cpu.idle)+$(cpu.busy))=100"
        ∷ [])
    ≡ true ∷ true ∷ true ∷ true ∷ true ∷ true ∷ true ∷ true ∷ []
unfolding expression_valid eq_text
accepted_texts = refl

refused_texts :
    map
      (λ s. expression_valid s)
      (codes "$((cpu.busy)"
        ∷ codes "$(cpu.idle)+$(cpu.busy)>40"
        ∷ codes "($(cpu.idle)+$(cpu.busy)-60)>100"
        ∷ [])
    ≡ false ∷ false ∷ false ∷ []
unfolding expression_valid eq_text
refused_texts = refl
