-- ===== src/Judge/Match/Check.antt =====
-- modules/judge/store/judge.go: Judge, CheckStrategy and CheckExpression; modules/judge/g/call.go:
-- the strategies of a host.
use falcon_plus.Base.{
  Bool, false, not, ◌||◌, Option, none, some, List, [], ◌∷◌, ◌++◌, if◌then◌else◌, Run, ◌>>=◌,
}
use falcon_plus.Base.Int.{ℤ, eqb_ℤ}
use falcon_plus.Base.Text.{Text, codes}
use falcon_plus.Base.Number.{itoa}
use falcon_plus.Base.Dict.{get, put, text_eq}
use falcon_plus.Base.Float.{Float64}
use falcon_plus.Utils.Tags.{pk}
use falcon_plus.Judge.Model.{JudgeItem, Strategy, Expression, Event, unset}
use falcon_plus.Judge.Function.Compute.{compute}
use falcon_plus.Judge.Function.Parse.{Parsed, parsed, failed, parse_func_from_string}
use falcon_plus.Judge.Alarm.State.{State, Env}
use falcon_plus.Judge.Alarm.Send.{send_event_if_need}
use falcon_plus.Judge.Match.Related.{
  tags_related, with_metric, filter_related_expressions, build_keys_from_metric_and_tags,
}

-- `_, ok := handledExpression[id]`
abbrev pub handled : ℤ → List ℤ → Bool
handled id [] = false
handled id (x ∷ xs) = eqb_ℤ x id || handled id xs

module _ {F : Type 0} ⦃f : Float64 F⦄ (env : Env F) where
  -- item.PrimaryKey()
  unfoldable pub primary_key : JudgeItem F → Text
  primary_key item = env.md5 (pk item.endpoint item.metric item.tags)

  abbrev pub answered : Option (List (Strategy F)) → List (Strategy F)
  answered none = []
  answered (some ss) = ss

  unfoldable pub get_one_strategy : Text → List (Strategy F)
  get_one_strategy hostname = answered (env.hbs_strategies hostname)

  abbrev pub by_cache : Text → Option (List (Strategy F)) → State F → List (Strategy F) × State F
  by_cache hostname (some ss) s = (ss, s)
  by_cache hostname none s =
      let ss = get_one_strategy hostname in
      (ss, record s { host_cache = put hostname ss s.host_cache })

  unfoldable pub judge_host_strategies : Text → State F → List (Strategy F) × State F
  unfolding get_one_strategy
  judge_host_strategies hostname s = by_cache hostname (get hostname s.host_cache) s

  unfoldable pub check_need_judge : Text → Text → State F → List (Strategy F) × State F
  unfolding judge_host_strategies
  check_need_judge hostname metric s =
      let (ss, s') = judge_host_strategies hostname s in (with_metric metric ss, s')

  -- The event of a strategy: s_<id>_<key of the point>.
  unfoldable pub strategy_event : Strategy F → JudgeItem F → F → Event F
  unfolding primary_key
  strategy_event strategy item left = record {
    id = codes "s_" ++ (itoa strategy.id ++ (b'_' ∷ primary_key item));
    strategy = some strategy;
    expression = none;
    status = unset;
    endpoint = item.endpoint;
    left_value = left;
    current_step = ℤ.pos 0;
    event_time = item.timestamp;
    pushed_tags = item.tags;
  }

  unfoldable pub expression_event : Expression F → JudgeItem F → F → Event F
  unfolding primary_key
  expression_event expression item left = record {
    id = codes "e_" ++ (itoa expression.id ++ (b'_' ∷ primary_key item));
    strategy = none;
    expression = some expression;
    status = unset;
    endpoint = item.endpoint;
    left_value = left;
    current_step = ℤ.pos 0;
    event_time = item.timestamp;
    pushed_tags = item.tags;
  }

  -- What follows the parser in judgeItemWithStrategy and judgeItemWithExpression.
  abbrev pub judge_parsed :
      Parsed F → List (JudgeItem F) → (F → Event F) → ℤ → ℤ → State F → Run (State F)
  judge_parsed failed l event max_step now s = some s
  judge_parsed (parsed fn) l event max_step now s = compute fn l >>= λ c.
      if not c.is_enough
      then some s
      else send_event_if_need env c.vs c.is_triggered now (event c.left_value) max_step s

  unfoldable pub judge_item_with_strategy :
      List (JudgeItem F) → Strategy F → JudgeItem F → ℤ → State F → Run (State F)
  judge_item_with_strategy l st item now s =
      parse_func_from_string st.operator st.right_value st.func >>= λ p.
      judge_parsed p l (strategy_event st item) st.max_step now s

  unfoldable pub judge_item_with_expression :
      List (JudgeItem F) → Expression F → JudgeItem F → ℤ → State F → Run (State F)
  judge_item_with_expression l exp item now s =
      parse_func_from_string exp.operator exp.right_value exp.func >>= λ p.
      judge_parsed p l (expression_event exp item) exp.max_step now s

  -- The loop of CheckStrategy over the strategies of the metric.
  unfoldable pub check_strategies :
      List (Strategy F) → List (JudgeItem F) → JudgeItem F → ℤ → State F → Run (State F)
  check_strategies [] l item now s = some s
  check_strategies (st ∷ ss) l item now s =
      (if tags_related st.tags item.tags then judge_item_with_strategy l st item now s else some s)
      >>= check_strategies ss l item now

  unfoldable pub check_strategy : List (JudgeItem F) → JudgeItem F → ℤ → State F → Run (State F)
  unfolding check_need_judge
  check_strategy l item now s =
      let (ss, s') = check_need_judge item.endpoint item.metric s in
      check_strategies ss l item now s'

  -- The loop over the related expressions of one key, with the ids handled so far.
  unfoldable pub check_related :
      List (Expression F)
      → List (JudgeItem F)
      → JudgeItem F
      → ℤ
      → List ℤ
      → State F
      → Run (List ℤ × State F)
  check_related [] l item now ids s = some (ids, s)
  check_related (exp ∷ exps) l item now ids s =
      let skipped = check_related exps l item now ids s in
      if handled exp.id ids
      then skipped
      else (judge_item_with_expression l exp item now s
          >>= check_related exps l item now (exp.id ∷ ids))

  abbrev pub exps_of : Option (List (Expression F)) → List (Expression F)
  exps_of none = []
  exps_of (some exps) = exps

  -- The loop over the keys.
  unfoldable pub check_keys :
      List Text → List (JudgeItem F) → JudgeItem F → ℤ → List ℤ → State F → Run (State F)
  unfolding check_related
  check_keys [] l item now ids s = some s
  check_keys (key ∷ keys) l item now ids s = do
    let related = filter_related_expressions (exps_of (get key env.expression_map)) item
    (ids', s') ← check_related related l item now ids s
    check_keys keys l item now ids' s'

  unfoldable pub check_expression : List (JudgeItem F) → JudgeItem F → ℤ → State F → Run (State F)
  unfolding check_keys
  check_expression l item now s = check_keys (build_keys_from_metric_and_tags item) l item now [] s

  unfoldable pub judge : List (JudgeItem F) → JudgeItem F → ℤ → State F → Run (State F)
  unfolding check_strategy check_expression
  judge l item now s = check_strategy l item now s >>= check_expression l item now
