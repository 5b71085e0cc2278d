-- ===== src/Judge/Alarm/Panics.antt =====
-- modules/judge/store/judge.go: sendEventProxy on an event without a strategy.
use falcon_plus.Base.{◌≡◌, ◌∙◌, ◌⊎◌, inl, inr, Bool, none, some, List, arith}
use falcon_plus.Base.Int.{ℤ}
use falcon_plus.Base.Dict.{get, text_eq}
use falcon_plus.Base.Float.{Float64}
use falcon_plus.Judge.Model.{Event, Status, HistoryData}
use falcon_plus.Judge.Alarm.State.{State, Env}
use falcon_plus.Judge.Alarm.Send.{send_event_proxy, oldest, marked, send_event_if_need}
use falcon_plus.Judge.Alarm.Protocol.{HasStatus, Move, send_event_if_need-Move}

module _ {F : Type 0} ⦃f : Float64 F⦄ (env : Env F) where
  proxy_panics :
      (e : Event F) (st : Status) (step : ℤ) (s : State F)
      → e.strategy ≡ none
      → send_event_proxy env (marked e st step) s ≡ none
  unfolding send_event_proxy
  proxy_panics e st step s h = ground arith

  -- An event without a strategy, which is what an expression makes, makes the judge panic where
  -- the protocol has a move, and elsewhere changes nothing.
  pub expression_event_panics :
      (history : List (HistoryData F)) (now : ℤ) (triggered : Bool) (e : Event F) (max_step : ℤ)
      (s : State F) (ts : ℤ)
      → e.strategy ≡ none
      → oldest history ≡ some ts
      → HasStatus (get e.id s.last_events)
      → (((st : Status) × (step : ℤ) × Move env history now triggered max_step
              (get e.id s.last_events)
              st
              step)
          × (send_event_if_need env history triggered now e max_step s ≡ none))
        ⊎ (((st : Status) (step : ℤ)
              → ¬ Move env history now triggered max_step (get e.id s.last_events) st step)
            × (send_event_if_need env history triggered now e max_step s ≡ some s))
  expression_event_panics history now triggered e max_step s ts h old w =
      elim (send_event_if_need-Move env history now triggered e max_step s ts old w) [
        | inl (st, step, mv, run) ↦ inl ((st, step, mv), run ∙ proxy_panics e st step s h)
        | inr none_moves ↦ inr none_moves
      ]
