-- ===== src/Judge/Tests/Unions.antt =====
-- Combined alarms at concrete inputs.
use falcon_plus.Base.{refl, none, some, [], ◌∷◌}
use falcon_plus.Base.Int.{ℤ, pos}
use falcon_plus.Base.Text.{codes}
use falcon_plus.Base.Number.{itoa}
use falcon_plus.Base.Dict.{get, put, text_eq}
use falcon_plus.Base.Float.{fixed_float}
use falcon_plus.Judge.Model.{Strategy, Event, problem}
use falcon_plus.Judge.Alarm.State.{Env, nil}
use falcon_plus.Judge.Union.Gather.{Members, set_and_judge, union_judge}
use falcon_plus.Judge.Union.Decision.{Outcome, set_and_judge-Outcome}
use falcon_plus.Judge.Tests.Functions.{whole}
use falcon_plus.Judge.Tests.Alarms.{idle_low, idle, site}

abbrev cpu : Strategy ℤ
cpu = record idle_low { union_strategy_id = pos 4 }

abbrev disk : Strategy ℤ
disk = record cpu { id = pos 8; metric = codes "df.free" }

-- HBS gives the two members of the combined strategy 4.
abbrev combined : Env ℤ
combined = record site { hbs_union_strategies = λ id. some (cpu ∷ disk ∷ []) }

abbrev event_of : Strategy ℤ → Event ℤ
event_of st = record {
  id = codes "s_7_0a";
  strategy = some st;
  expression = none;
  status = problem;
  endpoint = codes "web1";
  left_value = whole 7;
  current_step = pos 1;
  event_time = pos 180;
  pushed_tags = [];
}

abbrev waiting : Members ℤ
waiting = (codes "df.free", (event_of disk, nil)) ∷ []

set_and_judge-Outcome_example :
    Outcome combined
      (event_of cpu)
      (pos 200)
      (codes "cpu.idle")
      (itoa (pos 4))
      2
      (put (codes "cpu.idle") (event_of cpu, nil) waiting)
      idle
      (set_and_judge combined (codes "cpu.idle") (event_of cpu) (pos 200) waiting idle)
unfolding get falcon_plus.Judge.Union.Gather.get_one_union_strategy
set_and_judge-Outcome_example =
    set_and_judge-Outcome combined (event_of cpu) (pos 200) (codes "cpu.idle") waiting idle cpu refl
      tt
