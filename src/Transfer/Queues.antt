-- ===== src/Transfer/Queues.antt =====
-- modules/transfer/sender/sender.go: the queues to the other modules, and the rings that choose among
-- them. nlist.SafeListLimited and the ring of consistent hashing are other projects' code.
use falcon_plus.Base.{ℕ, ◌≡◌, ◌⊎◌, Bool, true, false, Option, some, List, ◌∷◌, Run, ◌>>=◌}
use falcon_plus.Base.Int.{ℤ}
use falcon_plus.Base.Text.{Text}
use falcon_plus.Base.Dict.{Dict, get, put, text_eq}
use falcon_plus.Utils.Tags.{Tags}
use falcon_plus.Judge.Model.{JudgeItem}
use falcon_plus.Graph.Linked.{GraphItem}
use falcon_plus.Transfer.Model.{PolyRequest}

-- A bounded list: PushFront puts the item in front and says so, or refuses it.
pub record LimitedList (Q : Type 0 → Type 0) : Type 1 where
  pub contents : {A : Type 0} → Q A → List A
  pub push_front : {A : Type 0} → A → Q A → Bool × Q A
  pub push_front_law :
      {A : Type 0} (x : A) (q : Q A)
      → (((push_front x q).0 ≡ true) × (contents (push_front x q).1 ≡ x ∷ contents q))
        ⊎ (((push_front x q).0 ≡ false) × (contents (push_front x q).1 ≡ contents q))

pub record TsdbItem (F : Type 0) : Type 0 where
  pub metric : Text
  pub tags : Tags
  pub value : F
  pub timestamp : ℤ

pub record KafkaData (F : Type 0) : Type 0 where
  pub endpoint : Text
  pub timestamp : ℤ
  pub metric_value : Dict Text F

-- The capacity of the Kafka channel.
abbrev pub kafka_capacity : ℕ
kafka_capacity = 64000

-- The queues, with the counts of the items that were dropped, and what waits in the Kafka channel for
-- its reader, the last of it first.
pub record Queues (Q : Type 0 → Type 0) (F : Type 0) : Type 0 where
  pub judge_queues : Dict Text (Q (JudgeItem F))
  pub poly_queues : Dict Text (Q (PolyRequest F))
  pub graph_queues : Dict Text (Q (GraphItem F))
  pub tsdb_queue : Option (Q (TsdbItem F))
  pub kafka_queue : List (KafkaData F)
  pub judge_drop : ℕ
  pub poly_drop : ℕ
  pub graph_drop : ℕ
  pub tsdb_drop : ℕ

-- Config().Tsdb.Enabled, MinStep, GetNode of the rings with `none` for an error, and the addresses of a graph in
-- Config().Graph.ClusterList.
pub record Cluster : Type 0 where
  pub tsdb_enabled : Bool
  pub min_step : ℤ
  pub judge_node : Text → Option Text
  pub poly_node : Text → Option Text
  pub graph_node : Text → Option Text
  pub graph_addrs : Text → Option (List Text)

module _ {Q : Type 0 → Type 0} {A : Type 0} (limited : LimitedList Q) where
  -- Queues[node].PushFront(item): whether it was taken; a nil queue panics.
  unfoldable pub push_to : Text → A → Dict Text (Q A) → Run (Bool × Dict Text (Q A))
  push_to node item queues = get node queues >>= λ q.
      (let (taken, q') = limited.push_front item q in some (taken, put node q' queues))
