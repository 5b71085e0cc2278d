-- ===== src/Judge/Alarm/Protocol.antt =====
-- The alarm protocol of one event: when it is raised, repeated and recovered.
use falcon_plus.Base.{
  ◌≡◌, refl, ap, ◌≢◌, ◌⊎◌, inl, inr, Bool, true, false, Option, none, some, List, ◌∷◌, Run,
  Bool-cases, if◌then◌else◌, arith,
}
use falcon_plus.Base.Int.{ℤ, pos, ◌≤ℤ◌, ◌<ℤ◌, leb_ℤ, ltb_ℤ, eqb_ℤ, eqb_ℤ_iff}
use falcon_plus.Base.Word.{add64, sub64}
use falcon_plus.Base.Dict.{get, put, text_eq}
use falcon_plus.Base.Float.{Float64}
use falcon_plus.Judge.Model.{Event, Strategy, Status, unset, problem, ok, HistoryData, priority}
use falcon_plus.Judge.Alarm.State.{State, Env, redis_push, nil}
use falcon_plus.Judge.Alarm.Send.{
  marshals, send_event_to_redis, send_event, send_event_for_union_strategy, send_event_proxy,
  oldest, is_ok, is_problem, marked, send_event_if_need, triggered_after, restored_after,
  first_alarm, next_alarm,
}

module _ {F : Type 0} where
  -- No event is remembered whose status was never set.
  abbrev pub HasStatus : Option (Event F) → Type 0
  HasStatus none = Unit {0}
  HasStatus (some last) = last.status ≢ unset

  pub priority_of :
      (e : Event F) (st : Strategy F) → e.strategy ≡ some st → priority e ≡ some st.priority
  unfolding priority
  priority_of e st h = ground arith

module _ {F : Type 0} ⦃f : Float64 F⦄ (env : Env F) where
  -- An event that was sent is the last event of its id, and nothing else that the judge remembers
  -- changes.
  pub record Sent (e : Event F) (s s' : State F) : Type 0 where
    pub recorded : s'.last_events ≡ put e.id e s.last_events
    pub union_kept : s'.union_last_events ≡ s.union_last_events
    pub cache_kept : s'.host_cache ≡ s.host_cache

  send_event-Sent :
      (e : Event F) (s : State F) (st : Strategy F)
      → e.strategy ≡ some st
      → (s' : State F) × (send_event env e nil s ≡ some s') × Sent e s s'
  unfolding send_event send_event_to_redis
  send_event-Sent e s st h = elim (Bool-cases (marshals e nil)) [
    | inl m ↦ (
      record s {
        last_events = put e.id e s.last_events;
        outputs = redis_push (env.queue_key st.priority) e nil ∷ s.outputs;
      },
      rw (m, priority_of e st h) refl,
      record { recorded = refl; union_kept = refl; cache_kept = refl },
    )
    | inr m ↦ (
      record s { last_events = put e.id e s.last_events },
      rw m refl,
      record { recorded = refl; union_kept = refl; cache_kept = refl },
    )
  ]

  -- An event of a strategy is handed on without a panic, is recorded as the last event of its id,
  -- and nothing else that the judge remembers changes.
  pub send_event_proxy-Sent :
      (e : Event F) (s : State F) (st : Strategy F)
      → e.strategy ≡ some st
      → (s' : State F) × (send_event_proxy env e s ≡ some s') × Sent e s s'
  unfolding send_event_proxy send_event_for_union_strategy
  send_event_proxy-Sent e s st h = elim (Bool-cases (ltb_ℤ (pos 0) st.union_strategy_id)) [
    | inl u ↦ (
      send_event_for_union_strategy env e st.union_strategy_id s,
      ground arith,
      record { recorded = ground arith; union_kept = ground arith; cache_kept = ground arith },
    )
    | inr u ↦ let (s', run, sent) = send_event-Sent e s st h in (s', ground arith, sent)
  ]

module _ {F : Type 0} ⦃f : Float64 F⦄ (env : Env F) (history : List (HistoryData F)) (now : ℤ) where
  -- A new alarm of an event that is not alarmed: its first step.
  abbrev pub Raised : Bool → ℤ → Status → ℤ → Type 0
  Raised triggered max_step st step =
      (triggered ≡ true) × (max_step ≢ pos 0) × (st ≡ problem) × (step ≡ pos 1)

  -- An alarm that is repeated: fewer than `max_step` have been sent, every point of the window is
  -- newer than the last alarm, and the pause since then is long enough.
  abbrev pub Repeated : Bool → ℤ → Event F → Status → ℤ → Type 0
  Repeated triggered max_step last st step =
      (triggered ≡ true)
      × (last.current_step <ℤ max_step)
      × ((ts : ℤ) × (oldest history ≡ some ts) × (last.event_time <ℤ ts))
      × (env.min_interval ≤ℤ sub64 now last.event_time)
      × (st ≡ problem)
      × (step ≡ add64 last.current_step (pos 1))

  abbrev pub Recovered : Bool → Status → ℤ → Type 0
  Recovered triggered st step = (triggered ≡ false) × (st ≡ ok) × (step ≡ pos 1)

  -- What is to be sent after the last event of the id, by the status of that event.
  abbrev pub MoveAfter : Bool → ℤ → Event F → Status → Status → ℤ → Type 0
  MoveAfter triggered max_step last unset st step = ⊥
  MoveAfter triggered max_step last ok st step = Raised triggered max_step st step
  MoveAfter triggered max_step last problem st step =
      Repeated triggered max_step last st step ⊎ Recovered triggered st step

  abbrev pub Move : Bool → ℤ → Option (Event F) → Status → ℤ → Type 0
  Move triggered max_step none st step = Raised triggered max_step st step
  Move triggered max_step (some last) st step =
      MoveAfter triggered max_step last last.status st step

  -- Where there is a move, its status and step are handed on; where there is none, nothing is.
  abbrev pub Decided : (Status → ℤ → Type 0) → Event F → State F → Run (State F) → Type 0
  Decided move e s r =
      ((st : Status) × (step : ℤ) × move st step × (r ≡ send_event_proxy env (marked e st step) s))
      ⊎ (((st : Status) (step : ℤ) → ¬ move st step) × (r ≡ some s))

  first_alarm-Decided :
      (e : Event F) (max_step : ℤ) (s : State F)
      → Decided (Raised true max_step) e s (first_alarm env e max_step s)
  first_alarm-Decided e max_step s = elim (Bool-cases (eqb_ℤ max_step (pos 0))) [
    | inl z ↦ inr (λ st step m. m.1 ((eqb_ℤ_iff max_step (pos 0)).0 z), rw z refl)
    | inr z ↦
        let positive : max_step ≢ pos 0 = λ h. ground (arith, (eqb_ℤ_iff max_step (pos 0)).1 h) in
        inl (problem, pos 1, (refl, positive, refl, refl), rw z refl)
  ]

  next_alarm-Decided :
      (e last : Event F) (max_step : ℤ) (s : State F) (ts : ℤ)
      → oldest history ≡ some ts
      → Decided
          (MoveAfter true max_step last problem)
          e
          s
          (next_alarm env history now e max_step last s)
  next_alarm-Decided e last max_step s ts old = elim (Bool-cases spent) [
    | inl a ↦ inr (λ st step m. ground arith, rw a refl)
    | inr a ↦ elim (Bool-cases stale) [
      | inl b ↦ inr (λ st step m. ground arith, rw (a, old, b) refl)
      | inr b ↦ elim (Bool-cases early) [
        | inl c ↦ inr (λ st step m. ground arith, rw (a, old, b, c) refl)
        | inr c ↦ inl (
          problem,
          add64 last.current_step (pos 1),
          inl (refl, ground arith, (ts, old, ground arith), ground arith, refl, refl),
          rw (a, old, b, c) refl,
        )
      ]
    ]
  ]
    where
      spent : Bool
      spent = leb_ℤ max_step last.current_step

      stale : Bool
      stale = leb_ℤ ts last.event_time

      early : Bool
      early = ltb_ℤ (sub64 now last.event_time) env.min_interval

  by_status :
      (triggered : Bool) (e last : Event F) (max_step : ℤ) (s : State F) (ts : ℤ) (status : Status)
      → oldest history ≡ some ts
      → last.status ≡ status
      → status ≢ unset
      → Decided (MoveAfter triggered max_step last status) e s (
          if triggered
          then triggered_after env history now e max_step (some last) s
          else restored_after env e (some last) s)
  by_status true e last max_step s ts problem old h w =
      rw (ap is_ok h) (next_alarm-Decided e last max_step s ts old)
  by_status true e last max_step s ts ok old h w =
      rw (ap is_ok h) (first_alarm-Decided e max_step s)
  by_status false e last max_step s ts problem old h w =
      rw (ap is_problem h) (inl (ok, pos 1, inr (refl, refl, refl), refl))
  by_status false e last max_step s ts ok old h w =
      rw (ap is_problem h) (inr (λ st step m. ground arith, refl))
  by_status triggered e last max_step s ts unset old h w = absurd (w refl)

  by_last :
      (triggered : Bool) (e : Event F) (max_step : ℤ) (s : State F) (ts : ℤ)
      (last : Option (Event F))
      → oldest history ≡ some ts
      → HasStatus last
      → Decided (Move triggered max_step last) e s (
          if triggered
          then triggered_after env history now e max_step last s
          else restored_after env e last s)
  by_last true e max_step s ts none old w = first_alarm-Decided e max_step s
  by_last false e max_step s ts none old w = inr (λ st step m. ground arith, refl)
  by_last triggered e max_step s ts (some last) old w =
      by_status triggered e last max_step s ts last.status old refl w

  -- For an event that the judge remembers with a status or not at all, and a window with an oldest
  -- point, sendEventIfNeed hands the event to sendEventProxy with exactly the status and step of
  -- the protocol's move (raised, repeated or recovered), and where the protocol has no move it
  -- changes nothing.
  pub send_event_if_need-Move :
      (triggered : Bool) (e : Event F) (max_step : ℤ) (s : State F) (ts : ℤ)
      → oldest history ≡ some ts
      → HasStatus (get e.id s.last_events)
      → Decided
          (Move triggered max_step (get e.id s.last_events))
          e
          s
          (send_event_if_need env history triggered now e max_step s)
  unfolding send_event_if_need
  send_event_if_need-Move triggered e max_step s ts old w =
      by_last triggered e max_step s ts (get e.id s.last_events) old w
