-- ===== src/Judge/Alarm/Send.antt =====
-- modules/judge/store/judge.go: sendEventIfNeed, sendEventProxy, sendEventForUnionStrategy,
-- sendEvent and sendEventToRedis.
use falcon_plus.Base.{
  ℕ, zero, suc, Bool, true, false, ◌&&◌, Option, none, some, List, [], ◌∷◌, if◌then◌else◌, Run,
  ◌>>=◌,
}
use falcon_plus.Base.Int.{ℤ, pos, leb_ℤ, ltb_ℤ, eqb_ℤ}
use falcon_plus.Base.Word.{add64, sub64}
use falcon_plus.Base.Text.{Text}
use falcon_plus.Base.Dict.{get, put, text_eq}
use falcon_plus.Base.Float.{Float64}
use falcon_plus.Judge.Model.{
  Event, Strategy, Expression, Status, unset, problem, ok, HistoryData, priority,
}
use falcon_plus.Judge.Alarm.State.{State, Env, Output, redis_push, union_call, Chain, nil, link}

-- `lastEvent.Status[0]` is 'O', or 'P'.
abbrev pub is_ok : Status → Run Bool
is_ok unset = none
is_ok problem = some false
is_ok ok = some true

abbrev pub is_problem : Status → Run Bool
is_problem unset = none
is_problem problem = some true
is_problem ok = some false

module _ {F : Type 0} where
  -- `historyData[len(historyData)-1].Timestamp`
  abbrev pub oldest : List (HistoryData F) → Run ℤ
  oldest [] = none
  oldest (v ∷ []) = some v.timestamp
  oldest (_ ∷ v ∷ vs) = oldest (v ∷ vs)

  abbrev pub marked : Event F → Status → ℤ → Event F
  marked e status step = record e { status = status; current_step = step }

module _ {F : Type 0} ⦃f : Float64 F⦄ where
  abbrev rule_value_finite : Option (Strategy F) → Option (Expression F) → Bool
  rule_value_finite (some s) (some x) = f.is_finite s.right_value && f.is_finite x.right_value
  rule_value_finite (some s) none = f.is_finite s.right_value
  rule_value_finite none (some x) = f.is_finite x.right_value
  rule_value_finite none none = true

  abbrev event_marshals : Event F → Bool
  event_marshals e = f.is_finite e.left_value && rule_value_finite e.strategy e.expression

  chain_marshals : Chain F → Bool
  chain_marshals nil = true
  chain_marshals (link e inner rest) =
      event_marshals e && (chain_marshals inner && chain_marshals rest)

  -- json.Marshal refuses an event just when one of its numbers is NaN or infinite.
  unfoldable pub marshals : Event F → Chain F → Bool
  unfolding chain_marshals
  marshals e chain = event_marshals e && chain_marshals chain

module _ {F : Type 0} ⦃f : Float64 F⦄ (env : Env F) where
  unfoldable pub send_event_to_redis : Event F → Chain F → State F → Run (State F)
  unfolding priority
  send_event_to_redis e chain s =
      if marshals e chain
      then (priority e >>= λ p.
          some (record s { outputs = redis_push (env.queue_key p) e chain ∷ s.outputs }))
      else some s

  unfoldable pub send_event : Event F → Chain F → State F → Run (State F)
  unfolding send_event_to_redis
  send_event e chain s =
      send_event_to_redis e chain (record s { last_events = put e.id e s.last_events })

  -- The `for` loop of at most `rounds` calls, from call `i` on, that ends at the first answer.
  unfoldable pub union_calls : Text → Event F → ℕ → ℕ → List (Output F) → List (Output F)
  union_calls address e i zero out = out
  union_calls address e i (suc rounds) out =
      let answered = env.union_answers e i in
      let out' = union_call address e answered ∷ out in
      let rest = union_calls address e (suc i) rounds out' in if answered then out' else rest

  unfoldable pub send_event_for_union_strategy : Event F → ℤ → State F → State F
  unfolding union_calls
  send_event_for_union_strategy e union_strategy_id s =
      if leb_ℤ union_strategy_id (pos 0) then s else record s {
        last_events = put e.id e s.last_events;
        outputs = union_calls (env.union_address union_strategy_id) e 0 3 s.outputs;
      }

  abbrev proxy_by_strategy : Option (Strategy F) → Event F → State F → Run (State F)
  proxy_by_strategy none e s = none
  proxy_by_strategy (some st) e s =
      if ltb_ℤ (pos 0) st.union_strategy_id
      then some (send_event_for_union_strategy e st.union_strategy_id s)
      else send_event e nil s

  -- `event.Strategy.UnionStrategyId` reads through the pointer to the strategy.
  unfoldable pub send_event_proxy : Event F → State F → Run (State F)
  unfolding send_event send_event_for_union_strategy
  send_event_proxy e s = proxy_by_strategy e.strategy e s

  abbrev pub first_alarm : Event F → ℤ → State F → Run (State F)
  first_alarm e max_step s =
      if eqb_ℤ max_step (pos 0) then some s else send_event_proxy (marked e problem (pos 1)) s

  abbrev pub next_alarm : List (HistoryData F) → ℤ → Event F → ℤ → Event F → State F → Run (State F)
  next_alarm history now e max_step last s =
      if leb_ℤ max_step last.current_step
      then some s
      else (oldest history >>= λ ts.
          if leb_ℤ ts last.event_time
          then some s
          else if ltb_ℤ (sub64 now last.event_time) env.min_interval
          then some s
          else send_event_proxy (marked e problem (add64 last.current_step (pos 1))) s)

  abbrev pub triggered_after :
      List (HistoryData F) → ℤ → Event F → ℤ → Option (Event F) → State F → Run (State F)
  triggered_after history now e max_step none s = first_alarm e max_step s
  triggered_after history now e max_step (some last) s = is_ok last.status >>= λ recovered.
      if recovered then first_alarm e max_step s else next_alarm history now e max_step last s

  abbrev pub restored_after : Event F → Option (Event F) → State F → Run (State F)
  restored_after e none s = some s
  restored_after e (some last) s = is_problem last.status >>= λ alarmed.
      if alarmed then send_event_proxy (marked e ok (pos 1)) s else some s

  unfoldable pub send_event_if_need :
      List (HistoryData F) → Bool → ℤ → Event F → ℤ → State F → Run (State F)
  send_event_if_need history is_triggered now e max_step s =
      if is_triggered
      then triggered_after history now e max_step (get e.id s.last_events) s
      else restored_after e (get e.id s.last_events) s
