-- ===== src/Judge/Tests/Functions.antt =====
-- Runs of the judge on concrete points, and its theorems at concrete inputs.
use falcon_plus.Base.{ℕ, ◌≡◌, refl, Bool, true, none, some, List, [], ◌∷◌, arith, ◌*◌, take}
use falcon_plus.Base.Int.{◌+ℤ◌, ℤ, pos}
use falcon_plus.Base.Text.{Text, codes}
use falcon_plus.Base.Dict.{text_eq}
use falcon_plus.Base.Float.{fixed_float, fixed_IsOrdered}
use falcon_plus.Base.Word.{add64, int64}
use falcon_plus.Judge.Model.{JudgeItem, HistoryData}
use falcon_plus.Judge.History.List.{push_front_and_maintain, history_data}
use falcon_plus.Judge.History.Push.{IsHistory, push-IsHistory, push-accepts}
use falcon_plus.Judge.History.Read.{history_data-gauge}
use falcon_plus.Judge.Function.Compute.{
  all_function, lookup_function, max_function, Computed, compute,
}
use falcon_plus.Judge.Function.Summary.{Means, compute-Means}
use falcon_plus.Judge.Function.Total.{compute_total}
use falcon_plus.Judge.Function.Parse.{parsed, parse_func_from_string}
use falcon_plus.Base.Number.{decimal}
use falcon_plus.Judge.Function.RoundTrip.{parse-printed, parse-lookup_one_panics}

-- millionths
abbrev pub whole : ℕ → ℤ
whole n = pos (n * 1000000)

abbrev pub sample : Text → ℕ → ℕ → JudgeItem ℤ
sample judge_type time n = record {
  endpoint = codes "web1";
  metric = codes "cpu.idle";
  value = whole n;
  timestamp = pos time;
  judge_type = judge_type;
  tags = [];
}

abbrev pub gauges : List (JudgeItem ℤ)
gauges =
    sample (codes "GAUGE") 180 7 ∷ sample (codes "GAUGE") 120 5 ∷ sample (codes "GAUGE") 60 0 ∷ []

abbrev pub counters : List (JudgeItem ℤ)
counters =
    sample (codes "COUNTER") 180 480
    ∷ sample (codes "COUNTER") 120 240
    ∷ sample (codes "COUNTER") 60 120
    ∷ []

abbrev pub datum : ℕ → ℕ → HistoryData ℤ
datum time n = record { timestamp = pos time; value = whole n }

abbrev pub gauges_IsHistory : IsHistory 3 gauges
gauges_IsHistory = record {
  descending = (omega arith, (omega arith, (tt, tt)));
  bounded = omega arith;
}

push-IsHistory_example :
    (r : List (JudgeItem ℤ) × Bool) × (push_front_and_maintain
        (sample (codes "GAUGE") 240 9)
        (pos 3)
        gauges
      ≡ some r)
    × IsHistory 3 r.0
push-IsHistory_example = push-IsHistory (sample (codes "GAUGE") 240 9) 3 gauges gauges_IsHistory

push-accepts_example :
    push_front_and_maintain (sample (codes "GAUGE") 240 9) (pos 3) gauges
    ≡ some (take 3 (sample (codes "GAUGE") 240 9 ∷ gauges), true)
push-accepts_example =
    push-accepts (sample (codes "GAUGE") 240 9) 3 gauges (omega arith) (omega arith)

abbrev pub readings : List (HistoryData ℤ)
readings = datum 120 5 ∷ datum 60 0 ∷ []

gauges_window : history_data (pos 3) gauges ≡ (datum 180 7 ∷ readings, true)
gauges_window =
    history_data-gauge 3 b'G' (sample (codes "GAUGE") 180 7)
      (sample (codes "GAUGE") 120 5 ∷ sample (codes "GAUGE") 60 0 ∷ []) (omega arith) refl refl

gauges_window_plus : history_data (add64 (pos 2) (pos 1)) gauges ≡ (datum 180 7 ∷ readings, true)
unfolding int64 ◌+ℤ◌
gauges_window_plus = gauges_window

compute-Means_example :
    (r : Computed ℤ) × (compute (max_function (pos 3) (codes ">") (whole 6)) gauges ≡ some r)
    × (r.vs ≡ datum 180 7 ∷ readings)
    × (r.is_enough ≡ true)
    × Means (datum 180 7) readings (max_function (pos 3) (codes ">") (whole 6)) r
compute-Means_example =
    compute-Means (max_function (pos 3) (codes ">") (whole 6)) gauges (datum 180 7) readings
      fixed_IsOrdered (refl, (refl, (refl, tt))) gauges_window

compute_total_example :
    (r : Computed ℤ) × (compute (all_function (pos 5) (codes "<") (whole 6)) gauges ≡ some r)
    × (r.is_enough ≡ (history_data (pos 5) gauges).1)
    × (r.vs ≡ (history_data (pos 5) gauges).0)
compute_total_example = compute_total (all_function (pos 5) (codes "<") (whole 6)) gauges

parse-printed_example :
    parse_func_from_string (codes "<") (whole 6) (codes "lookup(#2,5)")
    ≡ some (parsed (lookup_function (pos 2) (pos 5) (codes "<") (whole 6)))
unfolding decimal
parse-printed_example =
    parse-printed (lookup_function (pos 2) (pos 5) (codes "<") (whole 6)) (omega arith, omega arith)

parse-lookup_one_panics_example :
    parse_func_from_string (codes "<") (whole 6) (codes "lookup(#3)") ≡ none
unfolding decimal
parse-lookup_one_panics_example = parse-lookup_one_panics (codes "<") (whole 6) 3 (omega arith)
