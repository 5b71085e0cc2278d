-- ===== src/Judge/Alarm/Limits.antt =====
-- modules/judge/store/judge.go: sendEventIfNeed over many judgements of one event.
use falcon_plus.Base.{
  ℕ, zero, suc, ◌+◌, ◌≤◌, ◌<◌, ◌≡◌, refl, subst, ◌∙◌, ◌≢◌, inl, inr, Bool, true, false, ◌&&◌,
  Option, none, some, List, [], ◌∷◌, Run, All, Bool-cases, if◌then◌else◌, arith, ◌>>=◌,
}
use falcon_plus.Base.Int.{ℤ, pos, negsuc, pos_part, ◌≤ℤ◌, ◌+ℤ◌}
use falcon_plus.Base.Word.{two63, int64_exact}
use falcon_plus.Base.Text.{Text, eq_text}
use falcon_plus.Base.Dict.{get, put, get-put_self, text_eq}
use falcon_plus.Base.Float.{Float64}
use falcon_plus.Judge.Model.{Event, Strategy, Status, unset, problem, ok, HistoryData}
use falcon_plus.Judge.Alarm.State.{State, Env, Output, redis_push, union_call, nil}
use falcon_plus.Judge.Alarm.Send.{
  marshals, send_event_to_redis, send_event, send_event_proxy, oldest, marked, send_event_if_need,
}
use falcon_plus.Judge.Alarm.Protocol.{
  priority_of, HasStatus, Move, MoveAfter, send_event_if_need-Move,
}

abbrev pub is_alarmed : Status → Bool
is_alarmed problem = true
is_alarmed _ = false

-- One judgement of an event: the window, the time, and the event.
pub record Round (F : Type 0) : Type 0 where
  pub history : List (HistoryData F)
  pub now : ℤ
  pub event : Event F

module _ {F : Type 0} where
  -- The alarms of an event id that went to Redis.
  unfoldable pub alarms : Text → List (Output F) → ℕ
  alarms id [] = 0
  alarms id (redis_push key e chain ∷ out) =
      let rest = alarms id out in if eq_text e.id id && is_alarmed e.status then suc rest else rest
  alarms id (union_call address e answered ∷ out) = alarms id out

  -- The step that an alarm has reached, and 0 where none is open.
  abbrev pub steps : Option (Event F) → ℕ
  steps none = 0
  steps (some last) = if is_alarmed last.status then pos_part last.current_step else 0

  -- A remembered event has a status, and an open alarm has a step from 1 to `m`.
  abbrev pub StepsWithin : ℕ → Option (Event F) → Type 0
  StepsWithin m none = Unit {0}
  StepsWithin m (some last) =
      (last.status ≢ unset)
      × (last.status ≡ problem → (pos 1 ≤ℤ last.current_step) × (last.current_step ≤ℤ pos m))

steps-le : {F : Type 0} (m : ℕ) (last : Option (Event F)) → StepsWithin m last → steps last ≤ m
steps-le m none w = omega arith
steps-le m (some last) w = ground arith

nonzero_pos : (m : ℕ) → pos m ≢ pos 0 → 1 ≤ m
nonzero_pos zero h = absurd (h refl)
nonzero_pos (suc m) h = omega arith

module _ {F : Type 0} ⦃f : Float64 F⦄ (env : Env F) where
  -- With the threshold passed, a move raises the step by one, to at most `m`.
  raised_step :
      (history : List (HistoryData F)) (now : ℤ) (m : ℕ) (last : Option (Event F)) (st : Status)
      (step : ℤ)
      → m < two63
      → StepsWithin m last
      → Move env history now true (pos m) last st step
      → (st ≡ problem) × (step ≡ pos (suc (steps last))) × (suc (steps last) ≤ m)
  unfolding ◌+ℤ◌
  raised_step history now m none st step b w mv = (mv.2, mv.3, nonzero_pos m mv.1)
  raised_step history now m (some last) st step b w mv =
      by_status last.status last.current_step refl refl
    where
      raised :
          last.status ≡ ok
          → (st ≡ problem) × (step ≡ pos (suc (steps (some last)))) × (suc (steps (some last)) ≤ m)
      raised h =
          let r = subst (λ z. MoveAfter env history now true (pos m) last z st step) h mv in
          (r.2, ground arith, ground (arith, nonzero_pos m r.1))

      by_status :
          (status : Status) (reached : ℤ)
          → last.status ≡ status
          → last.current_step ≡ reached
          → (st ≡ problem) × (step ≡ pos (suc (steps (some last)))) × (suc (steps (some last)) ≤ m)
      by_status unset reached h k = absurd (w.0 h)
      by_status ok reached h k = raised h
      by_status problem (negsuc k) h q = ground (arith, w.1 h)
      by_status problem (pos k) h q =
          let r = subst (λ z. MoveAfter env history now true (pos m) last z st step) h mv in
          ground (arith, int64_exact (pos (k + 1)))

  -- What a send to Redis adds to the count of alarms.
  push_alarms :
      (e : Event F) (s : State F) (strategy : Strategy F)
      → e.strategy ≡ some strategy
      → strategy.union_strategy_id ≤ℤ pos 0
      → e.status ≡ problem
      → (s' : State F) × (send_event_proxy env e s ≡ some s')
        × (s'.last_events ≡ put e.id e s.last_events)
        × (alarms e.id s'.outputs ≤ suc (alarms e.id s.outputs))
  unfolding send_event_proxy send_event send_event_to_redis alarms
  push_alarms e s strategy h u p = elim (Bool-cases (marshals e nil)) [
    | inl m ↦ (
      record s {
        last_events = put e.id e s.last_events;
        outputs = redis_push (env.queue_key strategy.priority) e nil ∷ s.outputs;
      },
      ground (arith, priority_of e strategy h),
      refl,
      ground arith,
    )
    | inr m ↦
        (record s { last_events = put e.id e s.last_events }, ground arith, refl, ground arith)
  ]

  -- A judgement of event `id` by a strategy of its own, that is no part of a combined one.
  abbrev pub IsRoundOf : Text → Round F → Type 0
  IsRoundOf id r =
      (r.event.id ≡ id)
      × ((ts : ℤ) × (oldest r.history ≡ some ts))
      × ((st : Strategy F) × (r.event.strategy ≡ some st) × (st.union_strategy_id ≤ℤ pos 0))

  -- What a round adds to the alarms of an id it adds to the steps.
  abbrev Counted : ℕ → Text → Round F → State F → Type 0
  Counted m id r s =
      StepsWithin m (get id s.last_events)
      → (s' : State F) × (send_event_if_need env r.history true r.now r.event (pos m) s ≡ some s')
        × (alarms id s'.outputs + steps (get id s.last_events)
            ≤ alarms id s.outputs + steps (get id s'.last_events))
        × StepsWithin m (get id s'.last_events)

  marked_within :
      (m k : ℕ) (e : Event F) (st : Status) (step : ℤ)
      → st ≡ problem
      → step ≡ pos (suc k)
      → suc k ≤ m
      → StepsWithin m (some (marked e st step)) × (steps (some (marked e st step)) ≡ suc k)
  marked_within m k e st step p q h = ((λ u. ground arith, λ _. ground arith), ground arith)

  round_Counted :
      (m : ℕ) (r : Round F) (s : State F)
      → m < two63
      → IsRoundOf r.event.id r
      → Counted m r.event.id r s
  round_Counted m r s b (_, (ts, old), (strategy, h, u)) w =
      elim (send_event_if_need-Move env r.history r.now true r.event (pos m) s ts old
        (weaken _ w)) [
          | inr (_, run) ↦ (s, run, omega arith, w)
          | inl (st, step, mv, run) ↦
              let (p, q, le) = raised_step r.history r.now m _ st step b w mv in
              let (s', sent, recorded, counted) =
                push_alarms (marked r.event st step) s strategy h u p in
              let last' = get-put_self r.event.id (marked r.event st step) s.last_events in
              let (within, reached) = marked_within m _ r.event st step p q le in
              (s', run ∙ sent, rw (recorded, last') (omega arith), rw (recorded, last') within)
        ]
    where
      weaken : (last : Option (Event F)) → StepsWithin m last → HasStatus last
      weaken none w = tt
      weaken (some last) w = w.0

  pub run_rounds : ℤ → List (Round F) → State F → Run (State F)
  run_rounds max_step [] s = some s
  run_rounds max_step (r ∷ rs) s =
      send_event_if_need env r.history true r.now r.event max_step s >>= run_rounds max_step rs

  -- However many judgements in a row of an event of a single strategy find the threshold passed,
  -- none panics, and with the steps already taken at most MaxStep alarms go to Redis.
  pub alarms-le-max_step :
      (m : ℕ) (id : Text) (rs : List (Round F)) (s : State F)
      → m < two63
      → All (IsRoundOf id) rs
      → StepsWithin m (get id s.last_events)
      → (s' : State F) × (run_rounds (pos m) rs s ≡ some s')
        × (alarms id s'.outputs + steps (get id s.last_events) ≤ alarms id s.outputs + m)
  unfolding run_rounds
  alarms-le-max_step m id [] s b rounds w =
      (s, refl, omega (arith, steps-le m (get id s.last_events) w))
  alarms-le-max_step m id (r ∷ rs) s b rounds w =
      let (here, rest) = rounds in
      let counted =
        subst (λ i. Counted m i r s) here.0 (round_Counted m r s b (refl, here.1, here.2)) in
      let (s', run, step, within) = counted w in
      let (s'', runs, most) = alarms-le-max_step m id rs s' b rest within in
      (s'', rw run runs, omega arith)
