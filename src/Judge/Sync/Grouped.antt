-- ===== src/Judge/Sync/Grouped.antt =====
-- modules/judge/cron/strategy.go: the maps of strategies and of expressions, by their keys.
use falcon_plus.Base.{◌≡◌, ap, ◌∙◌, sym, List, [], ◌∷◌, ◌++◌, map}
use mathlib.Core.List.{append_assoc, append-nil}
use falcon_plus.Base.Text.{Text}
use falcon_plus.Base.Dict.{Dict, get, text_eq}
use falcon_plus.Utils.Grouped.{file_under, listed, under, under-append, file_under_lem}
use falcon_plus.Judge.Model.{Tags, Strategy, Expression}
use falcon_plus.Judge.Match.Related.{expression_key}
use falcon_plus.Judge.Sync.Rebuild.{
  HostStrategy, strategy_key, file_strategies, file_hosts, rebuild_strategy_map, file_tags,
  file_expressions, rebuild_expression_map,
}

module _ {A : Type 0} where
  -- Two rounds of filing, one after the other.
  then_under :
      (key : Text) (xs ys : List (Text × A)) (base z z' : List A)
      → z' ≡ z ++ under key ys
      → z ≡ base ++ under key xs
      → z' ≡ base ++ under key (xs ++ ys)
  then_under key xs ys base z z' p q =
      p
      ∙ (ap (λ l. l ++ under key ys) q
          ∙ (append_assoc base (under key xs) (under key ys)
              ∙ ap (λ l. base ++ l) (sym (under-append key xs ys))))

module _ {F : Type 0} where
  -- Each strategy of each host, with its key.
  abbrev pub strategy_pairs : List (HostStrategy F) → List (Text × Strategy F)
  strategy_pairs [] = []
  strategy_pairs (hs ∷ rest) =
      map (λ s. (strategy_key hs.hostname s, s)) hs.strategies ++ strategy_pairs rest

  -- Each expression with each of its tags.
  abbrev pub expression_pairs : List (Expression F) → List (Text × Expression F)
  expression_pairs [] = []
  expression_pairs (exp ∷ exps) =
      map (λ t. (expression_key exp.metric t.0 t.1, exp)) exp.tags ++ expression_pairs exps

  file_strategies_lem :
      (key hostname : Text) (ss : List (Strategy F)) (m : Dict Text (List (Strategy F)))
      → listed (get key (file_strategies hostname ss m))
        ≡ listed (get key m) ++ under key (map (λ s. (strategy_key hostname s, s)) ss)
  unfolding file_strategies
  file_strategies_lem key hostname [] m = sym (append-nil _)
  file_strategies_lem key hostname (s ∷ ss) m =
      then_under key ((strategy_key hostname s, s) ∷ []) _ _ _ _
        (file_strategies_lem key hostname ss (file_under (strategy_key hostname s) s m))
        (file_under_lem key (strategy_key hostname s) s m)

  file_hosts_lem :
      (key : Text) (hosts : List (HostStrategy F)) (m : Dict Text (List (Strategy F)))
      → listed (get key (file_hosts hosts m))
        ≡ listed (get key m) ++ under key (strategy_pairs hosts)
  unfolding file_hosts
  file_hosts_lem key [] m = sym (append-nil _)
  file_hosts_lem key (hs ∷ rest) m =
      then_under key (map (λ s. (strategy_key hs.hostname s, s)) hs.strategies) _ _ _ _
        (file_hosts_lem key rest (file_strategies hs.hostname hs.strategies m))
        (file_strategies_lem key hs.hostname hs.strategies m)

  file_tags_lem :
      (key : Text) (exp : Expression F) (tags : Tags) (m : Dict Text (List (Expression F)))
      → listed (get key (file_tags exp tags m))
        ≡ listed (get key m) ++ under key (map (λ t. (expression_key exp.metric t.0 t.1, exp)) tags)
  unfolding file_tags
  file_tags_lem key exp [] m = sym (append-nil _)
  file_tags_lem key exp ((k, v) ∷ tags) m =
      then_under key ((expression_key exp.metric k v, exp) ∷ []) _ _ _ _
        (file_tags_lem key exp tags (file_under (expression_key exp.metric k v) exp m))
        (file_under_lem key (expression_key exp.metric k v) exp m)

  file_expressions_lem :
      (key : Text) (exps : List (Expression F)) (m : Dict Text (List (Expression F)))
      → listed (get key (file_expressions exps m))
        ≡ listed (get key m) ++ under key (expression_pairs exps)
  unfolding file_expressions
  file_expressions_lem key [] m = sym (append-nil _)
  file_expressions_lem key (exp ∷ exps) m =
      then_under key (map (λ t. (expression_key exp.metric t.0 t.1, exp)) exp.tags) _ _ _ _
        (file_expressions_lem key exps (file_tags exp exp.tags m))
        (file_tags_lem key exp exp.tags m)

  -- Under any key the rebuilt map of strategies lists exactly the strategies of the hosts whose
  -- host name and metric make the key, in the order of the answer.
  pub rebuild_strategy_map_lem :
      (key : Text) (hosts : List (HostStrategy F))
      → listed (get key (rebuild_strategy_map hosts)) ≡ under key (strategy_pairs hosts)
  unfolding rebuild_strategy_map get
  rebuild_strategy_map_lem key hosts = file_hosts_lem key hosts []

  -- Under any key the rebuilt map of expressions lists exactly the expressions with a tag that,
  -- with the metric, makes the key, in the order of the answer.
  pub rebuild_expression_map_lem :
      (key : Text) (exps : List (Expression F))
      → listed (get key (rebuild_expression_map exps)) ≡ under key (expression_pairs exps)
  unfolding rebuild_expression_map get
  rebuild_expression_map_lem key exps = file_expressions_lem key exps []
