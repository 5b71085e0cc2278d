-- ===== src/Transfer/Handler.antt =====
-- modules/transfer/receiver/rpc/rpc_transfer.go: RecvMetricValues as a whole.
use falcon_plus.Base.{ℕ, Bool, ◌&&◌, not, Option, some, List, [], length, Run, ◌>>=◌, if◌then◌else◌}
use falcon_plus.Base.Int.{ℤ}
use falcon_plus.Base.Text.{Text}
use falcon_plus.Base.Dict.{Dict}
use falcon_plus.Base.Float.{Float64}
use falcon_plus.Transfer.Model.{MetricValue, MetaData}
use falcon_plus.Transfer.Receive.{Settings, Received, recv_metrics, is_empty}
use falcon_plus.Transfer.Queues.{LimitedList, Queues, Cluster}
use falcon_plus.Transfer.Send.{
  push2_judge_send_queue, push2_poly_send_queue, push2_graph_send_queue, push2_tsdb_send_queue,
  push2_kafka_send_queue,
}

-- The parts of Config() that say where the points go.
pub record Enabled : Type 0 where
  pub graph : Bool
  pub judge : Bool
  pub poly : Bool
  pub kafka : Bool
  pub databus_channel : Text

-- The fields of TransferResponse that are counts; the message is always "ok".
pub record Reply : Type 0 where
  pub invalid : ℕ
  pub total : ℕ

abbrev pub fresh : {F : Type 0} → Dict Text (MetaData F) → Received F
fresh cache = record {
  invalid = 0;
  items = [];
  prome_items = [];
  poly_items = [];
  dynamic_metric_items = [];
  poly_counter_cache = cache;
}

abbrev pub when {ℓ} : {A : Type ℓ} → Bool → (A → Run A) → A → Run A
when enabled act s = if enabled then act s else some s

module _ {Q : Type 0 → Type 0} {F : Type 0} (limited : LimitedList Q) (c : Cluster)
    (on : Enabled) where
  -- The pushes, in the source's order.
  unfoldable pub send_on : Received F → Queues Q F → Run (Queues Q F)
  unfolding push2_judge_send_queue push2_poly_send_queue push2_graph_send_queue
      push2_tsdb_send_queue push2_kafka_send_queue
  send_on r s =
      when on.graph (push2_graph_send_queue limited c r.items) s
      >>= when on.judge (push2_judge_send_queue limited c r.items)
      >>= when on.poly (push2_poly_send_queue limited c r.poly_items)
      >>= when c.tsdb_enabled (push2_tsdb_send_queue limited c r.items)
      >>= when (on.kafka && not (is_empty on.databus_channel))
          (push2_kafka_send_queue limited c r.items)

module _ {Q : Type 0 → Type 0} {F : Type 0} ⦃f : Float64 F⦄ (limited : LimitedList Q) (c : Cluster)
    (on : Enabled) where
  -- The reply, the cache of counters, and the queues. PromeWork runs on its own afterwards.
  unfoldable pub recv_metric_values :
      Settings F
      → ℤ
      → List (Option (MetricValue F))
      → Dict Text (MetaData F)
      → Queues Q F
      → Run (Reply × Dict Text (MetaData F) × Queues Q F)
  unfolding recv_metrics send_on
  recv_metric_values env now args cache s =
      let r = recv_metrics env now args (fresh cache) in
      send_on limited c on r s >>= λ s'.
      some (record { invalid = r.invalid; total = length args }, r.poly_counter_cache, s')
