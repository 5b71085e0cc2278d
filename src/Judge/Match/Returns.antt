-- ===== src/Judge/Match/Returns.antt =====
-- modules/judge/g/call.go and store/judge.go: where the strategies of a host come from, and Judge.
use falcon_plus.Base.{◌≡◌, refl, Option, none, some, List, [], ◌∷◌, All, if_both, arith}
use falcon_plus.Base.Int.{ℤ}
use falcon_plus.Base.Text.{Text, eq_text}
use falcon_plus.Base.Dict.{Dict, get, put, get-put, text_eq}
use falcon_plus.Base.Float.{Float64}
use falcon_plus.Judge.Model.{JudgeItem, Strategy}
use falcon_plus.Judge.Alarm.State.{State, Env}
use falcon_plus.Judge.Match.Related.{with_metric, filter_related_expressions}
use falcon_plus.Judge.Match.Check.{
  check_need_judge, judge_host_strategies, get_one_strategy, check_strategy, check_related,
  answered, by_cache, check_keys, check_expression, judge,
}
use falcon_plus.Judge.Match.Total.{Parses, AllParse, IsHealthy, Fine, check_strategies-Fine}

module _ {F : Type 0} where
  with_metric-Parses :
      (metric : Text) (ss : List (Strategy F)) → All Parses ss → All Parses (with_metric metric ss)
  unfolding with_metric
  with_metric-Parses metric [] a = tt
  with_metric-Parses metric (st ∷ ss) a =
      let rest = with_metric-Parses metric ss a.1 in
      if_both (All Parses) (eq_text st.metric metric) (a.0, rest) rest

  AllParse-put :
      (host : Text) (ss : List (Strategy F)) (m : Dict Text (List (Strategy F)))
      → All Parses ss
      → ((h : Text) → AllParse (get h m))
      → (h : Text) → AllParse (get h (put host ss m))
  AllParse-put host ss m a all h =
      rw (get-put host h ss m) (if_both AllParse (eq_text host h) a (all h))

module _ {F : Type 0} ⦃f : Float64 F⦄ (env : Env F) where
  -- What HBS answers can be parsed, for every host.
  abbrev pub HbsParses : Type 0
  HbsParses = (host : Text) → AllParse (env.hbs_strategies host)

  abbrev pub Supplied : List (Strategy F) × State F → Type 0
  Supplied r = All Parses r.0 × IsHealthy r.1

  answered-Parses : (o : Option (List (Strategy F))) → AllParse o → All Parses (answered env o)
  answered-Parses none a = tt
  answered-Parses (some ss) a = a

  by_cache-Supplied :
      HbsParses
      → (host : Text) (s : State F) (o : Option (List (Strategy F))) → AllParse o
      → IsHealthy s
      → Supplied (by_cache env host o s)
  unfolding get_one_strategy
  by_cache-Supplied h host s (some ss) a healthy = (a, healthy)
  by_cache-Supplied h host s none a healthy =
      let fetched = answered-Parses (env.hbs_strategies host) (h host) in
      (
        fetched,
        record {
          statuses = healthy.statuses;
          cached = AllParse-put host _ s.host_cache fetched healthy.cached;
        },
      )

  pub check_need_judge-Supplied :
      HbsParses
      → (host metric : Text) (s : State F) → IsHealthy s
      → Supplied (check_need_judge env host metric s)
  unfolding check_need_judge judge_host_strategies
  check_need_judge-Supplied h host metric s healthy =
      let (a, healthy') =
        by_cache-Supplied h host s (get host s.host_cache) (healthy.cached host) healthy in
      (with_metric-Parses metric _ a, healthy')

  check_strategy-Fine :
      HbsParses
      → (l : List (JudgeItem F)) (item : JudgeItem F) (now : ℤ) (s : State F) → IsHealthy s
      → Fine (check_strategy env l item now s)
  unfolding check_strategy
  check_strategy-Fine h l item now s healthy =
      let (a, healthy') = check_need_judge-Supplied h item.endpoint item.metric s healthy in
      check_strategies-Fine env (check_need_judge env item.endpoint item.metric s).0 l item now _ a
        healthy'

  check_keys_idle :
      env.expression_map ≡ []
      → (keys : List Text) (l : List (JudgeItem F)) (item : JudgeItem F) (now : ℤ) (ids : List ℤ)
        (s : State F)
      → check_keys env keys l item now ids s ≡ some s
  unfolding check_keys check_related filter_related_expressions get
  check_keys_idle e [] l item now ids s = refl
  check_keys_idle e (key ∷ keys) l item now ids s =
      ground (arith, check_keys_idle e keys l item now ids s)

  -- With no expression configured and with strategies that all parse, Judge returns on any point
  -- and keeps the memory healthy.
  pub judge-Fine :
      HbsParses
      → env.expression_map ≡ []
      → (l : List (JudgeItem F)) (item : JudgeItem F) (now : ℤ) (s : State F) → IsHealthy s
      → Fine (judge env l item now s)
  unfolding judge check_expression
  judge-Fine h e l item now s healthy =
      let (s', run, healthy') = check_strategy-Fine h l item now s healthy in
      (s', rw run (check_keys_idle e _ l item now [] s'), healthy')
