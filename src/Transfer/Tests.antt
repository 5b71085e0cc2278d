-- ===== src/Transfer/Tests.antt =====
-- Transfer at concrete inputs.
use falcon_plus.Base.{
  ℕ, ◌*◌, ◌≤◌, ◌≡◌, refl, subst, ◌⊎◌, inl, inr, Bool, true, false, Option, none, some, List, [],
  ◌∷◌, ◌++◌, length, leb, Bool-cases, if◌then◌else◌, All, arith,
}
use falcon_plus.Base.Int.{ℤ, pos}
use falcon_plus.Base.Text.{Text, codes, eq_text}
use falcon_plus.Base.Dict.{Dict, get, text_eq}
use falcon_plus.Base.Float.{fixed_float}
use falcon_plus.Judge.Model.{JudgeItem}
use falcon_plus.Graph.Linked.{GraphItem}
use falcon_plus.Transfer.Model.{int_value, MetricValue, MetaData, PolyRequest}
use falcon_plus.Transfer.Receive.{Settings, gauge, derive, recv_metrics}
use falcon_plus.Transfer.Queues.{LimitedList, Queues, Cluster}
use falcon_plus.Transfer.Send.{convert2_graph_item}
use falcon_plus.Transfer.Handler.{Enabled, Reply, fresh, recv_metric_values}
use falcon_plus.Transfer.Checked.{AllAccepted, recv_metrics-AllAccepted}
use falcon_plus.Transfer.Counts.{
  accounted, Remembers, recv_metrics-accounted, recv_metrics-Remembers,
}
use falcon_plus.Transfer.Routed.{IsStarted, Routes}
use falcon_plus.Transfer.Delivered.{SendsOne, recv_metric_values-Delivers}
use falcon_plus.Transfer.Aligned.{IsAligned, convert2_graph_item-IsAligned}

-- Lists of two items at most.
abbrev push_two : {A : Type 0} → A → List A → Bool × List A
push_two x q = if leb 2 (length q) then (false, q) else (true, x ∷ q)

push_two_law :
    {A : Type 0} (x : A) (q : List A)
    → (((push_two x q).0 ≡ true) × ((push_two x q).1 ≡ x ∷ q))
      ⊎ (((push_two x q).0 ≡ false) × ((push_two x q).1 ≡ q))
push_two_law x q = elim (Bool-cases (leb 2 (length q))) [
  | inl full ↦ rw full (inr (refl, refl))
  | inr room ↦ rw room (inl (refl, refl))
]

abbrev two_items : LimitedList List
two_items = record { contents = λ q. q; push_front = push_two; push_front_law = push_two_law }

-- No pre-aggregation, and one of the counter of web1.
abbrev plain : Settings ℤ
plain = record { parse_float = λ s. none; end_poly = λ s. []; prome_enabled = false }

abbrev aggregated : Settings ℤ
aggregated = record plain { end_poly = λ s. codes "sum@@avg" }

abbrev report : ℕ → MetricValue ℤ
report time = record {
  endpoint = codes "web1";
  metric = codes "net";
  value = int_value (pos 5);
  step = pos 60;
  type = codes "COUNTER";
  tags = codes "if=eth0";
  timestamp = pos time;
}

abbrev reports : List (Option (MetricValue ℤ))
reports = some (report 180) ∷ none ∷ some (report 240) ∷ []

recv_metrics-AllAccepted_example :
    AllAccepted (recv_metrics aggregated (pos 200) reports (fresh []))
recv_metrics-AllAccepted_example =
    recv_metrics-AllAccepted aggregated (pos 200) reports (fresh []) (omega arith) (tt, tt, tt, tt)

recv_metrics-accounted_example : accounted (recv_metrics plain (pos 200) reports (fresh [])) ≡ 3
recv_metrics-accounted_example =
    recv_metrics-accounted plain (pos 200) reports (fresh [])
      (inr (λ s. refl), (tt, (inr (λ s. refl), tt)))

abbrev earlier : MetaData ℤ
earlier = record {
  metric = codes "net";
  endpoint = codes "web1";
  timestamp = pos 120;
  step = pos 60;
  value = pos 1;
  counter_type = codes "COUNTER";
  tags = (codes "if", codes "eth0") ∷ [];
}

abbrev remembered : Dict Text (MetaData ℤ)
remembered = (codes "web1net/if=eth0", earlier) ∷ []

recv_metrics-Remembers_example :
    Remembers aggregated
      (codes "web1net/if=eth0")
      earlier
      (recv_metrics aggregated (pos 200) reports (fresh remembered))
unfolding get eq_text
recv_metrics-Remembers_example =
    recv_metrics-Remembers aggregated (pos 200) reports (codes "web1net/if=eth0") earlier
      (fresh remembered) refl

abbrev cluster : Cluster
cluster = record {
  tsdb_enabled = false;
  min_step = pos 30;
  judge_node = λ key. some (codes "j");
  poly_node = λ key. some (codes "p");
  graph_node = λ key. some (codes "g");
  graph_addrs = λ node. some (codes "1" ∷ codes "2" ∷ []);
}

abbrev idle : Queues List ℤ
idle = record {
  judge_queues = (codes "j", []) ∷ [];
  poly_queues = (codes "p", []) ∷ [];
  graph_queues = (codes "g1", []) ∷ (codes "g2", []) ∷ [];
  tsdb_queue = none;
  kafka_queue = [];
  judge_drop = 0;
  poly_drop = 0;
  graph_drop = 0;
  tsdb_drop = 0;
}

abbrev every : Enabled
every = record {
  graph = true;
  judge = true;
  poly = true;
  kafka = true;
  databus_channel = codes "c";
}

same_node : (a b : Text) → some a ≡ some b → a ≡ b
same_node a b e = ground (arith, e)

abbrev HasGraphs : Text → Type 0
HasGraphs n =
    (addrs : List Text) × (cluster.graph_addrs n ≡ some addrs)
    × All (λ addr. (q : List (GraphItem ℤ)) × (get (n ++ addr) idle.graph_queues ≡ some q)) addrs

idle-IsStarted : IsStarted two_items cluster idle
unfolding get eq_text
idle-IsStarted = record {
  positive = omega arith;
  judges = λ key node e.
      subst (λ n. (q : List (JudgeItem ℤ)) × (get n idle.judge_queues ≡ some q))
        (same_node (codes "j") node e) ([], refl);
  polys = λ key node e.
      subst (λ n. (q : List (PolyRequest ℤ)) × (get n idle.poly_queues ≡ some q))
        (same_node (codes "p") node e) ([], refl);
  graphs = λ key node e.
      subst HasGraphs (same_node (codes "g") node e)
        (codes "1" ∷ codes "2" ∷ [], refl, (([], refl), (([], refl), tt)));
  stores = λ e. absurd (ground arith);
}

recv_metric_values-Delivers_example :
    (reply : Reply) × (cache' : Dict Text (MetaData ℤ)) × (s' : Queues List ℤ) × (recv_metric_values
        two_items cluster every aggregated
        (pos 200)
        reports
        remembered
        idle
      ≡ some (reply, cache', s'))
    × (reply.total ≡ 3)
    × (reply.invalid ≤ 3)
    × Routes two_items cluster idle s'
    × SendsOne two_items cluster idle s'
recv_metric_values-Delivers_example =
    recv_metric_values-Delivers two_items cluster every aggregated (pos 200) reports remembered idle
      idle-IsStarted (omega arith)

convert2_graph_item-IsAligned_example :
    (g : GraphItem ℤ) × (step t : ℕ) × (convert2_graph_item cluster earlier ≡ some (some g))
    × ((g.ds_type ≡ gauge) ⊎ (g.ds_type ≡ derive))
    × (g.step ≡ pos step)
    × (60 ≤ step)
    × (30 ≤ step)
    × (g.heartbeat ≡ pos (step * 2))
    × (g.timestamp ≡ pos t)
    × IsAligned 120 step t
convert2_graph_item-IsAligned_example =
    convert2_graph_item-IsAligned cluster earlier 120 60 30 refl refl refl (omega arith)
      (omega arith) (omega arith) (omega arith) (inl refl)
