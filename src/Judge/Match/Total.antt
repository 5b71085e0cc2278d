-- ===== src/Judge/Match/Total.antt =====
-- modules/judge/store/judge.go: the judgement of strategies whose functions can be parsed.
use falcon_plus.Base.{
  ◌≤◌, ◌≡◌, refl, ap, sym, ◌∙◌, ◌≢◌, ◌⊎◌, inl, inr, Bool, true, false, not, Option, none, some,
  List, [], ◌∷◌, length, All, Run, Bool-cases, if_both, if◌then◌else◌, arith,
}
use falcon_plus.Base.Int.{ℤ}
use falcon_plus.Base.Text.{Text, eq_text}
use falcon_plus.Base.Dict.{Dict, get, put, get-put, text_eq}
use falcon_plus.Base.Float.{Float64}
use falcon_plus.Judge.Model.{JudgeItem, HistoryData, Strategy, Event, Status, unset, problem, ok}
use falcon_plus.Judge.History.List.{history_data}
use falcon_plus.Judge.History.Read.{history_data-enough}
use falcon_plus.Judge.Function.Compute.{Function, Computed}
use falcon_plus.Judge.Function.Total.{window, compute_total}
use falcon_plus.Judge.Function.Parse.{Parsed, parsed, failed, parse_func_from_string}
use falcon_plus.Judge.Alarm.State.{State, Env}
use falcon_plus.Judge.Alarm.Send.{send_event_if_need, oldest, marked}
use falcon_plus.Judge.Alarm.Protocol.{
  HasStatus, Move, MoveAfter, send_event_proxy-Sent, send_event_if_need-Move,
}
use falcon_plus.Judge.Match.Related.{tags_related}
use falcon_plus.Judge.Match.Check.{
  strategy_event, judge_parsed, judge_item_with_strategy, check_strategies,
}

module _ {F : Type 0} where
  -- The parser returns, with a function or an error.
  abbrev pub Parses : Strategy F → Type 0
  Parses st = (p : Parsed F) × (parse_func_from_string st.operator st.right_value st.func ≡ some p)

  abbrev pub AllParse : Option (List (Strategy F)) → Type 0
  AllParse none = Unit {0}
  AllParse (some ss) = All Parses ss

  -- Every remembered event has a status, and every cached strategy parses.
  pub record IsHealthy (s : State F) : Type 0 where
    pub statuses : (id : Text) → HasStatus (get id s.last_events)
    pub cached : (host : Text) → AllParse (get host s.host_cache)

  -- A run that returns a healthy state.
  abbrev pub Fine : Run (State F) → Type 0
  Fine r = (s' : State F) × (r ≡ some s') × IsHealthy s'

  oldest_of_nonempty :
      (vs : List (HistoryData F)) → 1 ≤ length vs → (ts : ℤ) × (oldest vs ≡ some ts)
  oldest_of_nonempty [] h = absurd (omega arith)
  oldest_of_nonempty (v ∷ []) h = (v.timestamp, refl)
  oldest_of_nonempty (v ∷ w ∷ vs) h = oldest_of_nonempty (w ∷ vs) (omega arith)

  HasStatus-put :
      (e : Event F) (m : Dict Text (Event F))
      → e.status ≢ unset
      → ((id : Text) → HasStatus (get id m))
      → (id : Text) → HasStatus (get id (put e.id e m))
  HasStatus-put e m set all id =
      rw (get-put e.id id e m) (if_both HasStatus (eq_text e.id id) set (all id))

  Move-has_status :
      ⦃f : Float64 F⦄ (env : Env F) (history : List (HistoryData F)) (now : ℤ) (triggered : Bool)
      (max_step : ℤ) (last : Option (Event F)) (st : Status) (step : ℤ)
      → Move env history now triggered max_step last st step
      → st ≢ unset
  Move-has_status env history now triggered max_step none st step m = λ u. ground arith
  Move-has_status env history now triggered max_step (some last) st step m = by_status last.status m
    where
      by_status :
          (status : Status)
          → MoveAfter env history now triggered max_step last status st step
          → st ≢ unset
      by_status unset m = absurd m
      by_status ok m = λ u. ground arith
      by_status problem (inl m) = λ u. ground arith
      by_status problem (inr m) = λ u. ground arith

module _ {F : Type 0} ⦃f : Float64 F⦄ (env : Env F) where
  send_event_if_need-Fine :
      (history : List (HistoryData F)) (triggered : Bool) (now : ℤ) (e : Event F) (max_step : ℤ)
      (s : State F) (st : Strategy F)
      → e.strategy ≡ some st
      → 1 ≤ length history
      → IsHealthy s
      → Fine (send_event_if_need env history triggered now e max_step s)
  send_event_if_need-Fine history triggered now e max_step s st h filled healthy =
      let (ts, old) = oldest_of_nonempty history filled in
      elim (send_event_if_need-Move env history now triggered e max_step s ts old
        (healthy.statuses e.id)) [
          | inr (_, run) ↦ (s, run, healthy)
          | inl (status, step, mv, run) ↦
              let (s', sent, kept) = send_event_proxy-Sent env (marked e status step) s st h in
              let set = Move-has_status env history now triggered max_step _ status step mv in
              (
                s',
                run ∙ sent,
                record {
                  statuses = λ id.
                      rw kept.recorded (
                        HasStatus-put (marked e status step) s.last_events set healthy.statuses id);
                  cached = λ host. rw kept.cache_kept (healthy.cached host);
                },
              )
        ]

  event_of_strategy :
      (st : Strategy F) (item : JudgeItem F) (left : F)
      → (strategy_event env st item left).strategy ≡ some st
  unfolding strategy_event
  event_of_strategy st item left = refl

  full_history :
      (fn : Function F) (l : List (JudgeItem F)) (c : Computed F)
      → c.is_enough ≡ (history_data (window fn) l).1
      → c.vs ≡ (history_data (window fn) l).0
      → c.is_enough ≡ true
      → 1 ≤ length c.vs
  full_history fn l c e v enough =
      omega (arith, history_data-enough (window fn) l (sym e ∙ enough), ap length v)

  judge_parsed-Fine :
      (p : Parsed F) (l : List (JudgeItem F)) (st : Strategy F) (item : JudgeItem F) (now : ℤ)
      (s : State F)
      → IsHealthy s
      → Fine (judge_parsed env p l (strategy_event env st item) st.max_step now s)
  judge_parsed-Fine failed l st item now s healthy = (s, refl, healthy)
  judge_parsed-Fine (parsed fn) l st item now s healthy =
      let (c, run, e, v) = compute_total fn l in rw run (go c e v (Bool-cases c.is_enough))
    where
      go :
          (c : Computed F)
          → c.is_enough ≡ (history_data (window fn) l).1
          → c.vs ≡ (history_data (window fn) l).0
          → (c.is_enough ≡ true) ⊎ (c.is_enough ≡ false)
          → Fine (
              if not c.is_enough
              then some s
              else send_event_if_need env c.vs c.is_triggered now
                  (strategy_event env st item c.left_value)
                  st.max_step
                  s)
      go c e v (inr short) = (s, rw (ap not short) refl, healthy)
      go c e v (inl enough) = rw (ap not enough) (
          send_event_if_need-Fine c.vs c.is_triggered now (strategy_event env st item c.left_value)
            st.max_step s st (event_of_strategy st item c.left_value)
            (full_history fn l c e v enough) healthy)

  judge_item_with_strategy-Fine :
      (l : List (JudgeItem F)) (st : Strategy F) (item : JudgeItem F) (now : ℤ) (s : State F)
      → Parses st
      → IsHealthy s
      → Fine (judge_item_with_strategy env l st item now s)
  unfolding judge_item_with_strategy
  judge_item_with_strategy-Fine l st item now s (p, parse) healthy =
      rw parse (judge_parsed-Fine p l st item now s healthy)

  pub check_strategies-Fine :
      (ss : List (Strategy F)) (l : List (JudgeItem F)) (item : JudgeItem F) (now : ℤ) (s : State F)
      → All Parses ss
      → IsHealthy s
      → Fine (check_strategies env ss l item now s)
  unfolding check_strategies
  check_strategies-Fine [] l item now s a healthy = (s, refl, healthy)
  check_strategies-Fine (st ∷ ss) l item now s a healthy =
      elim (Bool-cases (tags_related st.tags item.tags)) [
        | inl related ↦
            let (s', run, healthy') = judge_item_with_strategy-Fine l st item now s a.0 healthy in
            rw (related, run) (check_strategies-Fine ss l item now s' a.1 healthy')
        | inr other ↦ rw other (check_strategies-Fine ss l item now s a.1 healthy)
      ]
