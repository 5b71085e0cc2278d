-- ===== src/Judge/Model.antt =====
-- common/model/judge.go, strategy.go, expression.go and event.go: the data that the judge works on.
use falcon_plus.Base.{Option, none, some, Run}
use falcon_plus.Base.Int.{ℤ}
use falcon_plus.Base.Text.{Text}
use falcon_plus.Base.Dict.{Dict}

abbrev pub Tags : Type 0
Tags = Dict Text Text

pub record JudgeItem (F : Type 0) : Type 0 where
  pub endpoint : Text
  pub metric : Text
  pub value : F
  pub timestamp : ℤ
  pub judge_type : Text
  pub tags : Tags

pub record HistoryData (F : Type 0) : Type 0 where
  pub timestamp : ℤ
  pub value : F

-- The template pointer `Tpl` is carried along and never read by the judge, so it is left out.
pub record Strategy (F : Type 0) : Type 0 where
  pub id : ℤ
  pub metric : Text
  pub tags : Tags
  pub func : Text
  pub operator : Text
  pub right_value : F
  pub max_step : ℤ
  pub priority : ℤ
  pub note : Text
  pub union_strategy_id : ℤ

pub record Expression (F : Type 0) : Type 0 where
  pub id : ℤ
  pub metric : Text
  pub tags : Tags
  pub func : Text
  pub operator : Text
  pub right_value : F
  pub max_step : ℤ
  pub priority : ℤ
  pub note : Text
  pub action_id : ℤ

-- `Status` is the empty string until the event is judged, and then "PROBLEM" or "OK".
pub data Status : Type 0 where
  unset problem ok : Status

-- The pointers `Strategy` and `Expression` may be nil. The chain of a combined alarm is kept beside
-- the event, where it is sent.
pub record Event (F : Type 0) : Type 0 where
  pub id : Text
  pub strategy : Option (Strategy F)
  pub expression : Option (Expression F)
  pub status : Status
  pub endpoint : Text
  pub left_value : F
  pub current_step : ℤ
  pub event_time : ℤ
  pub pushed_tags : Tags

-- A read through a nil pointer panics.
abbrev of_expression : {F : Type 0} → (Expression F → ℤ) → Option (Expression F) → Run ℤ
of_expression read none = none
of_expression read (some x) = some (read x)

abbrev strategy_or : {F : Type 0} → (Strategy F → ℤ) → Option (Strategy F) → Run ℤ → Run ℤ
strategy_or read (some s) other = some (read s)
strategy_or read none other = other

unfoldable pub priority : {F : Type 0} → Event F → Run ℤ
priority e = strategy_or (λ s. s.priority) e.strategy (of_expression (λ x. x.priority) e.expression)

unfoldable pub max_step : {F : Type 0} → Event F → Run ℤ
max_step e = strategy_or (λ s. s.max_step) e.strategy (of_expression (λ x. x.max_step) e.expression)
