-- ===== src/Transfer/Delivered.antt =====
-- modules/transfer/receiver/rpc/rpc_transfer.go and sender/sender.go: RecvMetricValues returns, and
-- what it adds to the queues.
use falcon_plus.Base.{
  ◌≤◌, ◌<◌, ◌⊎◌, Bool-cases, ltb, false, ◌≡◌, refl, sym, ap, ◌∙◌, subst, inl, inr, Bool, true, not,
  ◌&&◌, Option, some, List, [], ◌∷◌, length, Run, ◌>>=◌, Option-cases, arith,
}
use falcon_plus.Base.Int.{ℤ, pos}
use falcon_plus.Base.Text.{Text}
use falcon_plus.Base.Dict.{Dict}
use falcon_plus.Base.Float.{Float64}
use falcon_plus.Transfer.Model.{MetricValue, MetaData, PolyRequest, meta_pk}
use falcon_plus.Transfer.Receive.{Settings, Received, recv_metrics, is_empty}
use falcon_plus.Transfer.Counts.{recv_metrics-invalid}
use falcon_plus.Transfer.Queues.{LimitedList, KafkaData, Queues, Cluster, kafka_capacity}
use falcon_plus.Transfer.Send.{
  counted, graph_item, step_of, ds_type_of, convert2_graph_item, push2_judge_send_queue,
  push2_poly_send_queue, graph_or_error, push2_graph_send_queue, convert2_tsdb_item, tsdb_to,
  push2_tsdb_send_queue, push2_kafka_send_queue, extract_kafka_item_new,
}
use falcon_plus.Transfer.Handler.{Enabled, Reply, fresh, when, send_on, recv_metric_values}
use falcon_plus.Transfer.Grows.{GrowsAt, push_front-GrowsAt}
use falcon_plus.Transfer.Routed.{
  IsStarted, Routes, Routes-refl, Routes-trans, Keeps, Keeps-refl, Keeps-trans, IsStarted-Routes,
  judge_to-Keeps, poly_to-Keeps, push_addrs-Grows, align_ts-defined, step_of-min, AnyItem,
}

module _ {Q : Type 0 → Type 0} {F : Type 0} (limited : LimitedList Q) (c : Cluster) where
  -- A run from `s` returns, only routes, and leaves the Kafka channel alone.
  abbrev pub Delivers : Queues Q F → Run (Queues Q F) → Type 0
  Delivers s run = (s' : Queues Q F) × (run ≡ some s') × Keeps limited c s s'

  graph_to-Delivers :
      (d : MetaData F) (s : Queues Q F)
      → IsStarted limited c s
      → Delivers s (convert2_graph_item c d >>= graph_or_error limited c d s)
  unfolding convert2_graph_item meta_pk
  graph_to-Delivers d s w = elim (Option-cases (ds_type_of d.counter_type)) [
    | inl e ↦ (s, rw e refl, Keeps-refl limited c s)
    | inr ((ds_type, min), e) ↦
        let (ts, aligned) = align_ts-defined c d.timestamp d.step w.positive in
        elim (Option-cases (c.graph_node (meta_pk d))) [
          | inl e' ↦ (s, rw (e, aligned, e') refl, Keeps-refl limited c s)
          | inr (node, e') ↦
              let (addrs, there, queues) = w.graphs (meta_pk d) node e' in
              let (r, pushed, grown) =
                push_addrs-Grows limited c node (graph_item d (step_of c d.step) ts ds_type min)
                  addrs s.graph_queues e' (step_of-min c d.step) queues in
              (
                record s { graph_queues = r.1; graph_drop = counted r.0 s.graph_drop },
                rw (e, aligned, e', there, pushed) refl,
                (
                  (
                    (Routes-refl limited c s).0,
                    (Routes-refl limited c s).1,
                    grown,
                    (Routes-refl limited c s).3,
                  ),
                  refl,
                ),
              )
        ]
  ]

  -- One delivery after another.
  then-Delivers :
      (s : Queues Q F) (run : Run (Queues Q F)) (next : Queues Q F → Run (Queues Q F))
      → IsStarted limited c s
      → Delivers s run
      → ((s' : Queues Q F) → IsStarted limited c s' → Delivers s' (next s'))
      → Delivers s (run >>= next)
  then-Delivers s run next w (s', e, routed) h =
      let (s'', e', routed') = h s' (IsStarted-Routes limited c s s' routed.0 w) in
      (s'', rw e e', Keeps-trans limited c s s' s'' routed routed')

  push2_judge-Delivers :
      (items : List (MetaData F)) (s : Queues Q F)
      → IsStarted limited c s
      → Delivers s (push2_judge_send_queue limited c items s)
  unfolding push2_judge_send_queue
  push2_judge-Delivers [] s w = (s, refl, Keeps-refl limited c s)
  push2_judge-Delivers (item ∷ items) s w =
      then-Delivers s _ _ w (judge_to-Keeps limited c item s w) (push2_judge-Delivers items)

  push2_poly-Delivers :
      (items : List (PolyRequest F)) (s : Queues Q F)
      → IsStarted limited c s
      → Delivers s (push2_poly_send_queue limited c items s)
  unfolding push2_poly_send_queue
  push2_poly-Delivers [] s w = (s, refl, Keeps-refl limited c s)
  push2_poly-Delivers (item ∷ items) s w =
      then-Delivers s _ _ w (poly_to-Keeps limited c item s w) (push2_poly-Delivers items)

  push2_graph-Delivers :
      (items : List (MetaData F)) (s : Queues Q F)
      → IsStarted limited c s
      → Delivers s (push2_graph_send_queue limited c items s)
  unfolding push2_graph_send_queue
  push2_graph-Delivers [] s w = (s, refl, Keeps-refl limited c s)
  push2_graph-Delivers (d ∷ items) s w =
      then-Delivers s _ _ w (graph_to-Delivers d s w) (push2_graph-Delivers items)

  push2_tsdb-Delivers :
      (items : List (MetaData F)) (s : Queues Q F)
      → c.tsdb_enabled ≡ true
      → IsStarted limited c s
      → Delivers s (push2_tsdb_send_queue limited c items s)
  unfolding push2_tsdb_send_queue
  push2_tsdb-Delivers [] s on w = (s, refl, Keeps-refl limited c s)
  push2_tsdb-Delivers (d ∷ items) s on w =
      let (q, there) = w.stores on in
      let s' = tsdb_to limited c d s q in
      let routed : Routes limited c s s' = (
        (Routes-refl limited c s).0,
        (Routes-refl limited c s).1,
        (Routes-refl limited c s).2,
        subst (λ o. GrowsAt limited AnyItem o s'.tsdb_queue) (sym there)
            (push_front-GrowsAt limited AnyItem (convert2_tsdb_item d) q tt),
      ) in
      let (s'', e, routed') =
        push2_tsdb-Delivers items s' on (IsStarted-Routes limited c s s' routed w) in
      (
        s'',
        ap (λ o. o >>= λ q'. push2_tsdb_send_queue limited c items (tsdb_to limited c d s q')) there
            ∙ e,
        Keeps-trans limited c s s' s'' (routed, refl) routed',
      )

  -- What the Kafka channel holds afterwards: at most one more item, which has an endpoint.
  abbrev pub SendsOne : Queues Q F → Queues Q F → Type 0
  SendsOne s s' =
      (s'.kafka_queue ≡ s.kafka_queue)
      ⊎ ((kv : KafkaData F) × (is_empty kv.endpoint ≡ false)
          × (s'.kafka_queue ≡ kv ∷ s.kafka_queue))

  abbrev pub Completes : Queues Q F → Run (Queues Q F) → Type 0
  Completes s run = (s' : Queues Q F) × (run ≡ some s') × Routes limited c s s' × SendsOne s s'

  HasRoom : Queues Q F → Type 0
  HasRoom s = length s.kafka_queue < kafka_capacity

  push2_kafka-Completes :
      (items : List (MetaData F)) (s : Queues Q F)
      → HasRoom s
      → Completes s (push2_kafka_send_queue limited c items s)
  unfolding push2_kafka_send_queue HasRoom
  push2_kafka-Completes items s room =
      let kv =
        extract_kafka_item_new items
          (record { endpoint = []; timestamp = pos 0; metric_value = [] }) in
      let free : ltb (length s.kafka_queue) kafka_capacity ≡ true = ground (arith, room) in
      elim (Bool-cases (is_empty kv.endpoint)) [
        | inl empty ↦ (s, rw empty refl, Routes-refl limited c s, inl refl)
        | inr named ↦ (
          record s { kafka_queue = kv ∷ s.kafka_queue },
          rw (named, free) refl,
          Routes-refl limited c s,
          inr (kv, named, refl),
        )
      ]

  when-Delivers :
      (enabled : Bool) (act : Queues Q F → Run (Queues Q F)) (s : Queues Q F)
      → (enabled ≡ true → Delivers s (act s))
      → Delivers s (when enabled act s)
  when-Delivers true act s h = h refl
  when-Delivers false act s h = (s, refl, Keeps-refl limited c s)

  -- The Kafka step after steps that leave its channel alone.
  last_step :
      (s s4 : Queues Q F) (run : Run (Queues Q F))
      → Keeps limited c s s4
      → run ≡ some s4
      → (enabled : Bool) (act : Queues Q F → Run (Queues Q F)) → Completes s4 (act s4)
      → Completes s (run >>= when enabled act)
  last_step s s4 run kept e false act h = (s4, ap (λ o. o >>= when false act) e, kept.0, inl kept.1)
  last_step s s4 run kept e true act (s5, done, routed, sent) = (
    s5,
    ap (λ o. o >>= act) e ∙ done,
    Routes-trans limited c s s4 s5 kept.0 routed,
    subst
        (λ q.
          (s5.kafka_queue ≡ q)
          ⊎ ((kv : KafkaData F) × (is_empty kv.endpoint ≡ false) × (s5.kafka_queue ≡ kv ∷ q)))
        kept.1 sent,
  )

  send_on-Completes :
      (on : Enabled) (r : Received F) (s : Queues Q F)
      → IsStarted limited c s
      → HasRoom s
      → Completes s (send_on limited c on r s)
  unfolding send_on HasRoom
  send_on-Completes on r s w room =
      let (s4, run, kept) =
        then-Delivers s _ (when c.tsdb_enabled tsdb) w
          (then-Delivers s _ (when on.poly poly) w
            (then-Delivers s _ (when on.judge judge) w
              (when-Delivers on.graph graph s (λ e. push2_graph-Delivers r.items s w))
              (λ s' w'. when-Delivers on.judge judge s' (λ e. push2_judge-Delivers r.items s' w')))
            (λ s' w'. when-Delivers on.poly poly s' (λ e. push2_poly-Delivers r.poly_items s' w')))
          (λ s' w'.
            when-Delivers c.tsdb_enabled tsdb s' (λ e. push2_tsdb-Delivers r.items s' e w')) in
      let room4 = subst (λ q. length q < kafka_capacity) (sym kept.1) room in
      last_step s s4 _ kept run channel (push2_kafka_send_queue limited c r.items)
        (push2_kafka-Completes r.items s4 room4)
    where
      graph : Queues Q F → Run (Queues Q F)
      graph = push2_graph_send_queue limited c r.items

      judge : Queues Q F → Run (Queues Q F)
      judge = push2_judge_send_queue limited c r.items

      poly : Queues Q F → Run (Queues Q F)
      poly = push2_poly_send_queue limited c r.poly_items

      tsdb : Queues Q F → Run (Queues Q F)
      tsdb = push2_tsdb_send_queue limited c r.items

      channel : Bool
      channel = on.kafka && not (is_empty on.databus_channel)

  -- With a queue for each node that a ring can give, a MinStep of at least 1 and a Kafka channel
  -- that is not full, RecvMetricValues returns on any reports and replies their number and no more
  -- invalid ones than that. Each queue gets, in front, only points that its ring assigns to its
  -- node by their key, those for a graph with a step of MinStep at least, and the Kafka channel
  -- gets nothing or one item, which has an endpoint.
  pub recv_metric_values-Delivers :
      ⦃f : Float64 F⦄ (on : Enabled) (env : Settings F) (now : ℤ)
      (args : List (Option (MetricValue F))) (cache : Dict Text (MetaData F)) (s : Queues Q F)
      → IsStarted limited c s
      → length s.kafka_queue < kafka_capacity
      → (reply : Reply) × (cache' : Dict Text (MetaData F)) × (s' : Queues Q F)
        × (recv_metric_values limited c on env now args cache s ≡ some (reply, cache', s'))
        × (reply.total ≡ length args)
        × (reply.invalid ≤ length args)
        × Routes limited c s s'
        × SendsOne s s'
  unfolding recv_metric_values HasRoom
  recv_metric_values-Delivers on env now args cache s w room =
      let r = recv_metrics env now args (fresh cache) in
      let (s', sent, routed, one) = send_on-Completes on r s w room in
      (
        record { invalid = r.invalid; total = length args },
        r.poly_counter_cache,
        s',
        rw sent refl,
        refl,
        ground (arith, recv_metrics-invalid env now args (fresh cache)),
        routed,
        one,
      )
