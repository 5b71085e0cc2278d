-- ===== src/Transfer/Send.antt =====
-- modules/transfer/sender/sender.go: Push2JudgeSendQueue, Push2PolySendQueue, Push2GraphSendQueue,
-- Push2TsdbSendQueue and Push2KafkaSendQueue, with their conversions.
use falcon_plus.Base.{
  ℕ, suc, Bool, true, ◌&&◌, Option, none, some, List, [], ◌∷◌, ◌++◌, length, ltb, Run, ◌>>=◌,
  if◌then◌else◌,
}
use falcon_plus.Base.Int.{ℤ, pos, eqb_ℤ, ltb_ℤ}
use falcon_plus.Base.Word.{sub64, mul64, rem_ℤ}
use falcon_plus.Base.Text.{Text, codes, eq_text}
use falcon_plus.Base.Dict.{Dict, put, text_eq}
use falcon_plus.Utils.Tags.{counter}
use falcon_plus.Judge.Model.{JudgeItem}
use falcon_plus.Graph.Linked.{GraphItem}
use falcon_plus.Transfer.Model.{MetaData, PolyRequest, meta_pk}
use falcon_plus.Transfer.Receive.{gauge, counter_type_name, derive, is_empty}
use falcon_plus.Transfer.Queues.{
  LimitedList, TsdbItem, KafkaData, Queues, Cluster, push_to, kafka_capacity,
}

-- A division by 0 panics.
unfoldable pub align_ts : ℤ → ℤ → Run ℤ
align_ts ts period = if eqb_ℤ period (pos 0) then none else some (sub64 ts (rem_ℤ ts period))

-- The step, and MinStep if it is less.
abbrev pub step_of : Cluster → ℤ → ℤ
step_of c step = if ltb_ℤ step c.min_step then c.min_step else step

-- The type and the minimum of a counter type, and `none` for the error of another.
unfoldable pub ds_type_of : Text → Option (Text × Text)
ds_type_of type =
    if eq_text type gauge
    then some (gauge, codes "U")
    else if eq_text type counter_type_name
    then some (derive, codes "0")
    else if eq_text type derive
    then some (derive, codes "0")
    else none

abbrev pub counted : Bool → ℕ → ℕ
counted taken n = if taken then n else suc n

module _ {F : Type 0} where
  unfoldable pub judge_item : Cluster → MetaData F → Run (JudgeItem F)
  unfolding align_ts
  judge_item c item = align_ts item.timestamp (step_of c item.step) >>= λ ts. some (record {
    endpoint = item.endpoint;
    metric = item.metric;
    value = item.value;
    timestamp = ts;
    judge_type = item.counter_type;
    tags = item.tags;
  })

  abbrev pub graph_item : MetaData F → ℤ → ℤ → Text → Text → GraphItem F
  graph_item d step ts ds_type min = record {
    endpoint = d.endpoint;
    metric = d.metric;
    tags = d.tags;
    value = d.value;
    timestamp = ts;
    ds_type = ds_type;
    step = step;
    heartbeat = mul64 step (pos 2);
    min = min;
    max = codes "U";
  }

  abbrev pub typed_item : Cluster → MetaData F → Option (Text × Text) → Run (Option (GraphItem F))
  typed_item c d none = some none
  typed_item c d (some (ds_type, min)) =
      let step = step_of c d.step in
      align_ts d.timestamp step >>= λ ts. some (some (graph_item d step ts ds_type min))

  -- The item, or `none` for the error.
  unfoldable pub convert2_graph_item : Cluster → MetaData F → Run (Option (GraphItem F))
  unfolding align_ts ds_type_of
  convert2_graph_item c d = typed_item c d (ds_type_of d.counter_type)

  unfoldable pub convert2_tsdb_item : MetaData F → TsdbItem F
  convert2_tsdb_item d = record {
    metric = d.metric;
    tags = put (codes "endpoint") d.endpoint d.tags;
    value = d.value;
    timestamp = d.timestamp;
  }

  unfoldable pub extract_kafka_item_new : List (MetaData F) → KafkaData F → KafkaData F
  extract_kafka_item_new [] kv = kv
  extract_kafka_item_new (item ∷ items) kv =
      let name = counter item.metric item.tags in
      extract_kafka_item_new items (
        if is_empty kv.endpoint
        then record {
          endpoint = item.endpoint;
          timestamp = item.timestamp;
          metric_value = (name, item.value) ∷ [];
        }
        else record kv { metric_value = put name item.value kv.metric_value })

module _ {Q : Type 0 → Type 0} {F : Type 0} (limited : LimitedList Q) (c : Cluster) where
  abbrev pub judge_to : MetaData F → Queues Q F → Option Text → Run (Queues Q F)
  judge_to item s none = some s
  judge_to item s (some node) = judge_item c item >>= λ j.
      push_to limited node j s.judge_queues >>= λ r.
      some (record s { judge_queues = r.1; judge_drop = counted r.0 s.judge_drop })

  unfoldable pub push2_judge_send_queue : List (MetaData F) → Queues Q F → Run (Queues Q F)
  unfolding judge_item push_to meta_pk
  push2_judge_send_queue [] s = some s
  push2_judge_send_queue (item ∷ items) s =
      judge_to item s (c.judge_node (meta_pk item)) >>= push2_judge_send_queue items

  abbrev pub poly_to : PolyRequest F → Queues Q F → Option Text → Run (Queues Q F)
  poly_to item s none = some s
  poly_to item s (some node) = push_to limited node item s.poly_queues >>= λ r.
      some (record s { poly_queues = r.1; poly_drop = counted r.0 s.poly_drop })

  unfoldable pub push2_poly_send_queue : List (PolyRequest F) → Queues Q F → Run (Queues Q F)
  unfolding push_to
  push2_poly_send_queue [] s = some s
  push2_poly_send_queue (item ∷ items) s =
      poly_to item s (c.poly_node item.poly_name) >>= push2_poly_send_queue items

  -- The loop over the addresses of the node: whether all took the item, and the queues.
  unfoldable pub push_addrs :
      Text
      → GraphItem F
      → List Text
      → Dict Text (Q (GraphItem F))
      → Run (Bool × Dict Text (Q (GraphItem F)))
  unfolding push_to
  push_addrs node item [] queues = some (true, queues)
  push_addrs node item (addr ∷ addrs) queues = push_to limited (node ++ addr) item queues >>= λ r.
      push_addrs node item addrs r.1 >>= λ r'. some (r.0 && r'.0, r'.1)

  -- A node that ClusterList lacks is a nil pointer.
  abbrev pub graph_to : GraphItem F → Queues Q F → Option Text → Run (Queues Q F)
  graph_to item s none = some s
  graph_to item s (some node) = c.graph_addrs node >>= λ addrs.
      push_addrs node item addrs s.graph_queues >>= λ r.
      some (record s { graph_queues = r.1; graph_drop = counted r.0 s.graph_drop })

  abbrev pub graph_or_error : MetaData F → Queues Q F → Option (GraphItem F) → Run (Queues Q F)
  graph_or_error d s none = some s
  graph_or_error d s (some item) = graph_to item s (c.graph_node (meta_pk d))

  unfoldable pub push2_graph_send_queue : List (MetaData F) → Queues Q F → Run (Queues Q F)
  unfolding convert2_graph_item push_addrs meta_pk
  push2_graph_send_queue [] s = some s
  push2_graph_send_queue (d ∷ items) s =
      convert2_graph_item c d >>= graph_or_error d s >>= push2_graph_send_queue items

  abbrev pub tsdb_to : MetaData F → Queues Q F → Q (TsdbItem F) → Queues Q F
  tsdb_to d s q =
      let (taken, q') = limited.push_front (convert2_tsdb_item d) q in
      record s { tsdb_queue = some q'; tsdb_drop = counted taken s.tsdb_drop }

  -- TsdbQueue is made when the store is enabled.
  unfoldable pub push2_tsdb_send_queue : List (MetaData F) → Queues Q F → Run (Queues Q F)
  unfolding convert2_tsdb_item
  push2_tsdb_send_queue [] s = some s
  push2_tsdb_send_queue (d ∷ items) s =
      s.tsdb_queue >>= λ q. push2_tsdb_send_queue items (tsdb_to d s q)

  -- A send on the full channel waits for the reader: it has no result.
  abbrev pub send_kafka : KafkaData F → Queues Q F → Run (Queues Q F)
  send_kafka kv s =
      if ltb (length s.kafka_queue) kafka_capacity
      then some (record s { kafka_queue = kv ∷ s.kafka_queue })
      else none

  unfoldable pub push2_kafka_send_queue : List (MetaData F) → Queues Q F → Run (Queues Q F)
  unfolding extract_kafka_item_new
  push2_kafka_send_queue items s =
      let kv =
        extract_kafka_item_new items
          (record { endpoint = []; timestamp = pos 0; metric_value = [] }) in
      if is_empty kv.endpoint then some s else send_kafka kv s
