-- ===== src/Transfer/Routed.antt =====
-- modules/transfer/sender/sender.go: to which queues the points go.
use falcon_plus.Base.{
  ◌≡◌, ◌∙◌, refl, inl, inr, Bool, true, false, ◌&&◌, some, List, [], ◌∷◌, ◌++◌, All, All-imp,
  Option-cases, arith,
}
use falcon_plus.Base.Int.{ℤ, pos, eqb_ℤ, eqb_ℤ_iff, ◌≤ℤ◌}
use falcon_plus.Base.Word.{sub64, rem_ℤ}
use falcon_plus.Base.Text.{Text}
use falcon_plus.Base.Dict.{Dict, get, text_eq}
use falcon_plus.Utils.Tags.{pk}
use falcon_plus.Judge.Model.{JudgeItem}
use falcon_plus.Graph.Linked.{GraphItem}
use falcon_plus.Transfer.Model.{MetaData, PolyRequest, meta_pk}
use falcon_plus.Transfer.Queues.{LimitedList, TsdbItem, Queues, Cluster}
use falcon_plus.Transfer.Send.{
  align_ts, counted, step_of, judge_item, judge_to, poly_to, push_addrs,
}
use falcon_plus.Transfer.Grows.{
  GrowsAt, Grows, GrowsAt-refl, GrowsAt-trans, GrowsAt-some, push_to-Grows,
}

abbrev pub AnyItem : {F : Type 0} → TsdbItem F → Type 0
AnyItem x = Unit {0}

module _ {F : Type 0} (c : Cluster) where
  -- The judge's ring gives the node for the key of the point, and the point has an endpoint.
  abbrev pub ForJudge : Text → JudgeItem F → Type 0
  ForJudge node j = c.judge_node (pk j.endpoint j.metric j.tags) ≡ some node

  abbrev pub ForPoly : Text → PolyRequest F → Type 0
  ForPoly node q = c.poly_node q.poly_name ≡ some node

  -- The graph's ring gives the node for the key of the point, and the queue is that of an address of
  -- the node; the step is MinStep at least.
  abbrev pub ForGraph : Text → GraphItem F → Type 0
  ForGraph name g =
      (node addr : Text) × (name ≡ node ++ addr)
      × (c.graph_node (pk g.endpoint g.metric g.tags) ≡ some node)
      × (c.min_step ≤ℤ g.step)

abbrev judge_point : {F : Type 0} → MetaData F → ℤ → JudgeItem F
judge_point item ts = record {
  endpoint = item.endpoint;
  metric = item.metric;
  value = item.value;
  timestamp = ts;
  judge_type = item.counter_type;
  tags = item.tags;
}

-- A MinStep of 1 at least leaves no step of 0.
pub step_of-min : (c : Cluster) (step : ℤ) → c.min_step ≤ℤ step_of c step
step_of-min c step = ground arith

pub align_ts-defined :
    (c : Cluster) (ts step : ℤ)
    → pos 1 ≤ℤ c.min_step
    → (t : ℤ) × (align_ts ts (step_of c step) ≡ some t)
unfolding align_ts
align_ts-defined c ts step h =
    let least = step_of-min c step in
    let nonzero : eqb_ℤ (step_of c step) (pos 0) ≡ false =
      ground (arith, eqb_ℤ_iff (step_of c step) (pos 0)) in
    (sub64 ts (rem_ℤ ts (step_of c step)), rw nonzero refl)

module _ {Q : Type 0 → Type 0} {F : Type 0} (limited : LimitedList Q) (c : Cluster) where
  -- Start makes a queue for each node that a ring can give.
  pub record IsStarted (s : Queues Q F) : Type 0 where
    pub positive : pos 1 ≤ℤ c.min_step
    pub judges :
        (key node : Text)
        → c.judge_node key ≡ some node
        → (q : Q (JudgeItem F)) × (get node s.judge_queues ≡ some q)
    pub polys :
        (key node : Text)
        → c.poly_node key ≡ some node
        → (q : Q (PolyRequest F)) × (get node s.poly_queues ≡ some q)
    pub graphs :
        (key node : Text)
        → c.graph_node key ≡ some node
        → (addrs : List Text) × (c.graph_addrs node ≡ some addrs)
          × All (λ addr. (q : Q (GraphItem F)) × (get (node ++ addr) s.graph_queues ≡ some q)) addrs
    pub stores : c.tsdb_enabled ≡ true → (q : Q (TsdbItem F)) × (s.tsdb_queue ≡ some q)

  -- Each queue only gets, in front, points that belong there.
  abbrev pub Routes : Queues Q F → Queues Q F → Type 0
  Routes s s' =
      Grows limited (ForJudge c) s.judge_queues s'.judge_queues
      × Grows limited (ForPoly c) s.poly_queues s'.poly_queues
      × Grows limited (ForGraph c) s.graph_queues s'.graph_queues
      × GrowsAt limited AnyItem s.tsdb_queue s'.tsdb_queue

  pub Routes-refl : (s : Queues Q F) → Routes s s
  Routes-refl s = (
    (λ n. GrowsAt-refl limited _ _),
    (λ n. GrowsAt-refl limited _ _),
    (λ n. GrowsAt-refl limited _ _),
    GrowsAt-refl limited AnyItem s.tsdb_queue,
  )

  pub Routes-trans : (s s' s'' : Queues Q F) → Routes s s' → Routes s' s'' → Routes s s''
  Routes-trans s s' s'' h k = (
    (λ n. GrowsAt-trans limited _ _ _ _ (h.0 n) (k.0 n)),
    (λ n. GrowsAt-trans limited _ _ _ _ (h.1 n) (k.1 n)),
    (λ n. GrowsAt-trans limited _ _ _ _ (h.2 n) (k.2 n)),
    GrowsAt-trans limited AnyItem s.tsdb_queue s'.tsdb_queue s''.tsdb_queue h.3 k.3,
  )

  pub IsStarted-Routes : (s s' : Queues Q F) → Routes s s' → IsStarted s → IsStarted s'
  IsStarted-Routes s s' h w = record {
    positive = w.positive;
    judges = λ key node e. GrowsAt-some limited _ _ _ (h.0 node) (w.judges key node e);
    polys = λ key node e. GrowsAt-some limited _ _ _ (h.1 node) (w.polys key node e);
    graphs = λ key node e.
        let (addrs, there, queues) = w.graphs key node e in
        (
          addrs,
          there,
          All-imp _ _ addrs (λ addr. GrowsAt-some limited _ _ _ (h.2 (node ++ addr))) queues,
        );
    stores = λ e. GrowsAt-some limited AnyItem s.tsdb_queue s'.tsdb_queue h.3 (w.stores e);
  }

  -- What the Kafka channel holds is left as it is.
  abbrev pub Keeps : Queues Q F → Queues Q F → Type 0
  Keeps s s' = Routes s s' × (s'.kafka_queue ≡ s.kafka_queue)

  pub Keeps-refl : (s : Queues Q F) → Keeps s s
  Keeps-refl s = (Routes-refl s, refl)

  pub Keeps-trans : (s s' s'' : Queues Q F) → Keeps s s' → Keeps s' s'' → Keeps s s''
  Keeps-trans s s' s'' h k = (Routes-trans s s' s'' h.0 k.0, k.1 ∙ h.1)

  pub judge_to-Keeps :
      (item : MetaData F) (s : Queues Q F)
      → IsStarted s
      → (s' : Queues Q F) × (judge_to limited c item s (c.judge_node (meta_pk item)) ≡ some s')
        × Keeps s s'
  unfolding judge_item meta_pk
  judge_to-Keeps item s w = elim (Option-cases (c.judge_node (meta_pk item))) [
    | inl e ↦ (s, rw e refl, Keeps-refl s)
    | inr (node, e) ↦
        let (ts, aligned) = align_ts-defined c item.timestamp item.step w.positive in
        let (q, there) = w.judges (meta_pk item) node e in
        let (r, pushed, grown) =
          push_to-Grows limited (ForJudge c) node (judge_point item ts) s.judge_queues q there e in
        (
          record s { judge_queues = r.1; judge_drop = counted r.0 s.judge_drop },
          rw (e, aligned, pushed) refl,
          ((grown, (Routes-refl s).1, (Routes-refl s).2, (Routes-refl s).3), refl),
        )
  ]

  pub poly_to-Keeps :
      (item : PolyRequest F) (s : Queues Q F)
      → IsStarted s
      → (s' : Queues Q F) × (poly_to limited c item s (c.poly_node item.poly_name) ≡ some s')
        × Keeps s s'
  poly_to-Keeps item s w = elim (Option-cases (c.poly_node item.poly_name)) [
    | inl e ↦ (s, rw e refl, Keeps-refl s)
    | inr (node, e) ↦
        let (q, there) = w.polys item.poly_name node e in
        let (r, pushed, grown) =
          push_to-Grows limited (ForPoly c) node item s.poly_queues q there e in
        (
          record s { poly_queues = r.1; poly_drop = counted r.0 s.poly_drop },
          rw (e, pushed) refl,
          (((Routes-refl s).0, grown, (Routes-refl s).2, (Routes-refl s).3), refl),
        )
  ]

  abbrev Present : Text → Dict Text (Q (GraphItem F)) → Text → Type 0
  Present node queues addr = (q : Q (GraphItem F)) × (get (node ++ addr) queues ≡ some q)

  pub push_addrs-Grows :
      (node : Text) (item : GraphItem F) (addrs : List Text) (queues : Dict Text (Q (GraphItem F)))
      → c.graph_node (pk item.endpoint item.metric item.tags) ≡ some node
      → c.min_step ≤ℤ item.step
      → All (Present node queues) addrs
      → (r : Bool × Dict Text (Q (GraphItem F))) × (push_addrs limited c node item addrs queues
          ≡ some r)
        × Grows limited (ForGraph c) queues r.1
  unfolding push_addrs
  push_addrs-Grows node item [] queues e m h = ((true, queues), refl, λ n. GrowsAt-refl limited _ _)
  push_addrs-Grows node item (addr ∷ addrs) queues e m ((q, there), h) =
      let (r, pushed, grown) =
        push_to-Grows limited (ForGraph c) (node ++ addr) item queues q there
          (node, addr, refl, e, m) in
      let (r', pushed', grown') = push_addrs-Grows node item addrs r.1 e m (
        All-imp (Present node queues) (Present node r.1) addrs
          (λ a. GrowsAt-some limited _ _ _ (grown (node ++ a))) h) in
      (
        (r.0 && r'.0, r'.1),
        rw (pushed, pushed') refl,
        λ n. GrowsAt-trans limited _ _ _ _ (grown n) (grown' n),
      )
