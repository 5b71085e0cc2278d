-- ===== src/Judge/Tests/Syncing.antt =====
-- The maps that are rebuilt from HBS at concrete inputs.
use falcon_plus.Base.{◌≡◌, List, [], ◌∷◌}
use falcon_plus.Base.Int.{ℤ, pos}
use falcon_plus.Base.Text.{codes, eq_text}
use falcon_plus.Base.Dict.{get, text_eq}
use falcon_plus.Judge.Model.{Expression}
use falcon_plus.Judge.Sync.Rebuild.{HostStrategy, rebuild_strategy_map}
use falcon_plus.Utils.Grouped.{listed}
use falcon_plus.Judge.Sync.Grouped.{rebuild_strategy_map_lem}
use falcon_plus.Judge.Tests.Functions.{whole, sample, gauges}
use falcon_plus.Judge.Tests.Alarms.{idle_low, site, idle}
use falcon_plus.Base.Float.{fixed_float}
use falcon_plus.Judge.Alarm.State.{Env}
use falcon_plus.Judge.Match.Related.{
  build_keys_from_metric_and_tags, filter_related_expressions, is_related_expression, tags_related,
}
use falcon_plus.Judge.Match.Check.{check_expression}
use falcon_plus.Judge.Match.Once.{IsOnce, judge_all, check_expression-IsOnce}

abbrev hosts : List (HostStrategy ℤ)
hosts =
    record { hostname = codes "web1"; strategies = idle_low ∷ [] }
    ∷ record { hostname = codes "web2"; strategies = idle_low ∷ [] }
    ∷ []

abbrev latency_high : Expression ℤ
latency_high = record {
  id = pos 3;
  metric = codes "latency";
  tags = (codes "srv", codes "api") ∷ [];
  func = codes "all(#3)";
  operator = codes ">";
  right_value = whole 500;
  max_step = pos 3;
  priority = pos 0;
  note = codes "latency";
  action_id = pos 1;
}

rebuild_strategy_map_lem_example :
    listed (get (codes "web1/cpu.idle") (rebuild_strategy_map hosts)) ≡ idle_low ∷ []
unfolding eq_text
rebuild_strategy_map_lem_example = rebuild_strategy_map_lem (codes "web1/cpu.idle") hosts

-- An expression that stands twice under the endpoint of the point.
abbrev low_everywhere : Expression ℤ
low_everywhere = record latency_high {
  metric = codes "cpu.idle";
  tags = [];
  func = codes "all(#2)";
  operator = codes "<";
}

abbrev expressive : Env ℤ
expressive = record site {
  expression_map = (codes "cpu.idle/endpoint=web1", low_everywhere ∷ low_everywhere ∷ []) ∷ [];
}

check_expression-IsOnce_example :
    (es : List (Expression ℤ)) × IsOnce [] es
    × (es ≡ low_everywhere ∷ [])
    × (check_expression expressive gauges (sample (codes "GAUGE") 180 7) (pos 200) idle
        ≡ judge_all expressive gauges (sample (codes "GAUGE") 180 7) (pos 200) es idle)
unfolding get eq_text build_keys_from_metric_and_tags filter_related_expressions
    is_related_expression tags_related
check_expression-IsOnce_example =
    check_expression-IsOnce expressive gauges (sample (codes "GAUGE") 180 7) (pos 200) idle
