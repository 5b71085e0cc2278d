-- ===== src/Judge/Alarm/State.antt =====
-- The state of the judge that outlives a point (modules/judge/g/var.go), and what it sends.
use falcon_plus.Base.{ℕ, Bool, Option, List}
use falcon_plus.Base.Int.{ℤ}
use falcon_plus.Base.Text.{Text}
use falcon_plus.Base.Dict.{Dict}
use falcon_plus.Judge.Model.{Event, Strategy, Expression}

-- The chain of a combined alarm, `EventChain`: an event, its own chain, and the rest.
pub data Chain (F : Type 0) : Type 0 where
  nil : Chain F
  link : (event : Event F) → (inner rest : Chain F) → Chain F

-- A push to a queue in Redis, and a call of Judge.UnionJudge with whether it was answered.
pub data Output (F : Type 0) : Type 0 where
  redis_push : (key : Text) → (event : Event F) → (chain : Chain F) → Output F
  union_call : (address : Text) → (event : Event F) → (answered : Bool) → Output F

pub record State (F : Type 0) : Type 0 where
  -- g.LastEvents and g.UnionLastEvents
  pub last_events : Dict Text (Event F)
  pub union_last_events : Dict Text (Event F)
  -- HostSSCache
  pub host_cache : Dict Text (List (Strategy F))
  -- what was sent, newest first
  pub outputs : List (Output F)

-- The configuration, and what the judge asks of others: HBS, the other judges, and crypto/md5.
pub record Env (F : Type 0) : Type 0 where
  -- Config().Remain, Config().Alarm.MinInterval, and Config().Alarm.QueuePattern at a priority
  pub remain : ℤ
  pub min_interval : ℤ
  pub queue_key : ℤ → Text
  -- the answer of Hbs.GetOneEndStrategies, with `none` for an error
  pub hbs_strategies : Text → Option (List (Strategy F))
  -- the answer of Hbs.GetOneUnionStrategies
  pub hbs_union_strategies : ℤ → Option (List (Strategy F))
  -- g.ExpressionMap
  pub expression_map : Dict Text (List (Expression F))
  -- the judge that the ring of nodes gives for a combined strategy, and whether its n-th call answers
  pub union_address : ℤ → Text
  pub union_answers : Event F → ℕ → Bool
  pub md5 : Text → Text
