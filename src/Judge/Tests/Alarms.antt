-- ===== src/Judge/Tests/Alarms.antt =====
-- The alarm protocol and the receiver at concrete inputs.
use falcon_plus.Base.{◌≡◌, refl, ◌⊎◌, true, none, some, List, [], ◌∷◌, ◌++◌, arith, ◌≤◌, ◌+◌}
use falcon_plus.Base.Int.{ℤ, pos}
use falcon_plus.Base.Text.{Text, eq_text, codes}
use falcon_plus.Base.Dict.{get, text_eq}
use falcon_plus.Base.Float.{fixed_float}
use falcon_plus.Utils.Tags.{pk}
use falcon_plus.Judge.Model.{HistoryData, Strategy, Event, Status, unset}
use falcon_plus.Base.{if_both}
use falcon_plus.Base.Number.{decimal}
use falcon_plus.Base.Strings.{slice}
use falcon_plus.Judge.Function.Compute.{all_function}
use falcon_plus.Judge.Function.RoundTrip.{parse-printed}
use falcon_plus.Judge.Function.Parse.{parsed}
use falcon_plus.Judge.Alarm.State.{State, Env}
use falcon_plus.Judge.Alarm.Send.{send_event_if_need}
use falcon_plus.Judge.Alarm.Protocol.{Move, Decided, send_event_if_need-Move}
use falcon_plus.Judge.Alarm.Limits.{Round, alarms, run_rounds, alarms-le-max_step}
use falcon_plus.Judge.Alarm.Panics.{expression_event_panics}
use falcon_plus.Judge.Match.Check.{judge}
use falcon_plus.Judge.Match.Total.{IsHealthy, Fine}
use falcon_plus.Judge.Match.Returns.{HbsParses, judge-Fine}
use falcon_plus.Judge.Items.Maps.{BigMap, send}
use falcon_plus.Judge.Items.Kept.{
  ListKept, MapKept, BigKept, HasShards, Usable, Stored, Stores, send_fine,
}
use falcon_plus.Judge.Tests.Functions.{gauges_IsHistory, whole, sample, gauges, datum, readings}

abbrev pub idle_low : Strategy ℤ
idle_low = record {
  id = pos 7;
  metric = codes "cpu.idle";
  tags = [];
  func = codes "all(#2)";
  operator = codes "<";
  right_value = whole 10;
  max_step = pos 3;
  priority = pos 1;
  note = codes "idle";
  union_strategy_id = pos 0;
}

-- A digest whose first two bytes are always 0a.
abbrev pub site : Env ℤ
site = record {
  remain = pos 3;
  min_interval = pos 300;
  queue_key = λ priority. codes "event:p1";
  hbs_strategies = λ host. some (idle_low ∷ []);
  hbs_union_strategies = λ id. none;
  expression_map = [];
  union_address = λ id. codes "judge2";
  union_answers = λ e n. true;
  md5 = λ raw. codes "0a" ++ raw;
}

abbrev pub idle : State ℤ
idle = record { last_events = []; union_last_events = []; host_cache = []; outputs = [] }

abbrev low : Event ℤ
low = record {
  id = codes "s_7_0a";
  strategy = some idle_low;
  expression = none;
  status = unset;
  endpoint = codes "web1";
  left_value = whole 7;
  current_step = pos 0;
  event_time = pos 180;
  pushed_tags = [];
}

-- An event as an expression makes it.
abbrev expressed : Event ℤ
expressed = record low { strategy = none }

abbrev newest : List (HistoryData ℤ)
newest = datum 180 7 ∷ readings

send_event_if_need-Move_example :
    Decided site newest
      (pos 200)
      (Move site newest (pos 200) true (pos 3) none)
      low
      idle
      (send_event_if_need site newest true (pos 200) low (pos 3) idle)
unfolding get
send_event_if_need-Move_example =
    send_event_if_need-Move site newest (pos 200) true low (pos 3) idle (pos 60) refl tt

abbrev round : Round ℤ
round = record { history = newest; now = pos 200; event = low }

alarms-le-max_step_example :
    (s' : State ℤ) × (run_rounds site (pos 3) (round ∷ round ∷ []) idle ≡ some s')
    × (alarms (codes "s_7_0a") s'.outputs + 0 ≤ 0 + 3)
unfolding alarms get
alarms-le-max_step_example =
    alarms-le-max_step site 3 (codes "s_7_0a") (round ∷ round ∷ []) idle (omega arith)
      (
        (refl, (pos 60, refl), (idle_low, refl, omega arith)),
        ((refl, (pos 60, refl), (idle_low, refl, omega arith)), tt),
      )
      tt

expression_event_panics_example :
    (((st : Status) × (step : ℤ) × Move site newest (pos 200) true (pos 3) none st step)
      × (send_event_if_need site newest true (pos 200) expressed (pos 3) idle ≡ none))
    ⊎ (((st : Status) (step : ℤ) → ¬ Move site newest (pos 200) true (pos 3) none st step)
        × (send_event_if_need site newest true (pos 200) expressed (pos 3) idle ≡ some idle))
unfolding get
expression_event_panics_example =
    expression_event_panics site newest (pos 200) true expressed (pos 3) idle (pos 60) refl refl tt

abbrev idle_IsHealthy : IsHealthy idle
unfolding get
idle_IsHealthy = record { statuses = λ id. tt; cached = λ host. tt }

idle_low_HbsParses : HbsParses site
unfolding decimal
idle_low_HbsParses = λ host. (
  (
    parsed (all_function (pos 2) (codes "<") (whole 10)),
    parse-printed (all_function (pos 2) (codes "<") (whole 10)) (omega arith),
  ),
  tt,
)

judge-Fine_example : Fine (judge site gauges (sample (codes "GAUGE") 180 7) (pos 200) idle)
judge-Fine_example =
    judge-Fine site idle_low_HbsParses refl gauges (sample (codes "GAUGE") 180 7) (pos 200) idle
      idle_IsHealthy

site-Usable : Usable site 3
site-Usable = record {
  parses = idle_low_HbsParses;
  no_expressions = refl;
  remains = refl;
  positive = omega arith;
}

abbrev one_shard : BigMap ℤ
one_shard = (codes "0a", (pk (codes "web1") (codes "cpu.idle") [], gauges) ∷ []) ∷ []

one_list :
    (key : Text) → ListKept 3 (get key ((pk (codes "web1") (codes "cpu.idle") [], gauges) ∷ []))
unfolding get
one_list key =
    if_both (ListKept 3) (eq_text (pk (codes "web1") (codes "cpu.idle") []) key) gauges_IsHistory tt

one_shard-Stored : Stored site 3 (one_shard, idle)
unfolding BigKept HasShards get slice eq_text
one_shard-Stored = record {
  kept = λ prefix. if_both (MapKept 3) (eq_text (codes "0a") prefix) one_list tt;
  shards = λ raw.
      (codes "0a", ground arith, (((pk (codes "web1") (codes "cpu.idle") [], gauges) ∷ []), refl));
  healthy = idle_IsHealthy;
}

send_fine_example : Stores site 3 (
    send site
      (sample (codes "GAUGE") 240 9 ∷ sample (codes "GAUGE") 200 8 ∷ [])
      (pos 240)
      one_shard
      idle)
send_fine_example =
    send_fine site 3 (sample (codes "GAUGE") 240 9 ∷ sample (codes "GAUGE") 200 8 ∷ []) (pos 240)
      one_shard idle site-Usable one_shard-Stored
