-- ===== src/Alarm/Unblocked.antt =====
-- modules/alarm/cron/event_consumer.go: who the pushes of consume are for.
use falcon_plus.Base.{◌≡◌, some, List, All, Run}
use falcon_plus.Base.Text.{Text}
use falcon_plus.Base.Dict.{Dict, text_eq}
use falcon_plus.Judge.Model.{Event, Strategy}
use falcon_plus.Alarm.Users.{User, Blocks}
use falcon_plus.Alarm.Consume.{Incoming, metric, Push}
use falcon_plus.Alarm.Free.{AreForFree}

module _ {F : Type 0} where
  -- Each event of a chain has a strategy.
  abbrev pub HaveStrategies : List (Event F) → Type 0
  HaveStrategies chain = All (λ e. (s : Strategy F) × (e.strategy ≡ some s)) chain

  -- What consume pushes.
  abbrev pub Spares : Blocks → Dict Text User → Incoming F → Run (List Push) → Type 0
  Spares blocks known e run =
      (met : Text) × (pushes : List Push) × (metric e ≡ some met)
      × (run ≡ some pushes)
      × AreForFree blocks e.event.endpoint met known pushes
