-- ===== src/Judge/Sync/Rebuild.antt =====
-- modules/judge/cron/strategy.go: the maps of strategies, of expressions and of metrics, built anew
-- from the answers of HBS.
use falcon_plus.Base.{Bool, true, false, Option, none, some, List, [], ◌∷◌, ◌++◌}
use falcon_plus.Base.Text.{Text}
use falcon_plus.Base.Dict.{Dict, get, put, text_eq}
use falcon_plus.Utils.Grouped.{file_under}
use falcon_plus.Judge.Model.{Tags, Strategy, Expression}
use falcon_plus.Judge.Match.Related.{expression_key}

-- common/model/strategy.go
pub record HostStrategy (F : Type 0) : Type 0 where
  pub hostname : Text
  pub strategies : List (Strategy F)

module _ {F : Type 0} where
  abbrev pub strategy_key : Text → Strategy F → Text
  strategy_key hostname strategy = hostname ++ (b'/' ∷ strategy.metric)

  unfoldable pub file_strategies :
      Text → List (Strategy F) → Dict Text (List (Strategy F)) → Dict Text (List (Strategy F))
  file_strategies hostname [] m = m
  file_strategies hostname (s ∷ ss) m =
      file_strategies hostname ss (file_under (strategy_key hostname s) s m)

  unfoldable pub file_hosts :
      List (HostStrategy F) → Dict Text (List (Strategy F)) → Dict Text (List (Strategy F))
  unfolding file_strategies
  file_hosts [] m = m
  file_hosts (hs ∷ rest) m = file_hosts rest (file_strategies hs.hostname hs.strategies m)

  unfoldable pub rebuild_strategy_map : List (HostStrategy F) → Dict Text (List (Strategy F))
  unfolding file_hosts
  rebuild_strategy_map host_strategies = file_hosts host_strategies []

  unfoldable pub file_tags :
      Expression F → Tags → Dict Text (List (Expression F)) → Dict Text (List (Expression F))
  file_tags exp [] m = m
  file_tags exp ((k, v) ∷ tags) m =
      file_tags exp tags (file_under (expression_key exp.metric k v) exp m)

  unfoldable pub file_expressions :
      List (Expression F) → Dict Text (List (Expression F)) → Dict Text (List (Expression F))
  unfolding file_tags
  file_expressions [] m = m
  file_expressions (exp ∷ exps) m = file_expressions exps (file_tags exp exp.tags m)

  unfoldable pub rebuild_expression_map : List (Expression F) → Dict Text (List (Expression F))
  unfolding file_expressions
  rebuild_expression_map expressions = file_expressions expressions []

-- The loops of syncFilter over one of the maps, with the metric of what it holds.
module _ {A : Type 0} (metric_of : A → Text) where
  unfoldable pub filter_list : List A → Dict Text Text → Dict Text Text
  filter_list [] m = m
  filter_list (x ∷ xs) m = filter_list xs (put (metric_of x) (metric_of x) m)

  unfoldable pub filter_map : Dict Text (List A) → Dict Text Text → Dict Text Text
  unfolding filter_list
  filter_map [] m = m
  filter_map ((key, xs) ∷ rest) m = filter_map rest (filter_list xs m)

unfoldable pub sync_filter :
    {F : Type 0} → Dict Text (List (Strategy F)) → Dict Text (List (Expression F)) → Dict Text Text
unfolding filter_map
sync_filter strategy_map expression_map =
    filter_map (λ x. x.metric) expression_map (filter_map (λ s. s.metric) strategy_map [])

abbrev pub is_some : {A : Type 0} → Option A → Bool
is_some none = false
is_some (some _) = true

-- FilterMap.Exists
unfoldable pub exists_metric : Text → Dict Text Text → Bool
exists_metric key m = is_some (get key m)
