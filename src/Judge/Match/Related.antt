-- ===== src/Judge/Match/Related.antt =====
-- The strategies and expressions that are related to a point by metric and tags.
use falcon_plus.Base.{
  ◌≡◌, refl, ◌↔◌, Bool, true, false, ◌&&◌, Option, none, some, List, [], ◌∷◌, ◌++◌, map, All,
  if◌then◌else◌, arith,
}
use falcon_plus.Base.Text.{Text, codes, eq_text, eq_text_iff}
use falcon_plus.Base.Dict.{get, put, text_eq}
use falcon_plus.Judge.Model.{JudgeItem, Strategy, Expression, Tags}

-- `myVal, exists := tags[tagKey]; !exists || myVal != tagVal` is false.
abbrev pub has_value : Option Text → Text → Bool
has_value none want = false
has_value (some have) want = eq_text have want

-- The loop over the tags of a strategy or an expression, which ends at the first that fails.
unfoldable pub tags_related : Tags → Tags → Bool
tags_related [] item_tags = true
tags_related ((key, want) ∷ rest) item_tags =
    has_value (get key item_tags) want && tags_related rest item_tags

-- Each of the tags is one of the item's.
pub Within : Tags → Tags → Type 0
Within tags item_tags = All (λ t. get t.0 item_tags ≡ some t.1) tags

has_value_iff : (o : Option Text) (want : Text) → (has_value o want ≡ true) ↔ (o ≡ some want)
has_value_iff none want = ground arith
has_value_iff (some have) want = ground (arith, eq_text_iff have want)

-- The loop over a strategy's tags finds a point related exactly when each of the tags stands, with
-- its value, among the point's tags.
pub tags_related-Within :
    (tags item_tags : Tags) → (tags_related tags item_tags ≡ true) ↔ Within tags item_tags
unfolding tags_related Within
tags_related-Within [] item_tags = (λ _. tt, λ _. refl)
tags_related-Within ((key, want) ∷ rest) item_tags =
    ground (arith, has_value_iff (get key item_tags) want, tags_related-Within rest item_tags)

-- `range item.Tags` puts the tags of the item over its endpoint.
unfoldable pub put_all : Tags → Tags → Tags
put_all [] ret = ret
put_all ((k, v) ∷ rest) ret = put_all rest (put k v ret)

-- The keys under which rebuildExpressionMap files the expressions: metric/tag=value for each tag,
-- and metric/endpoint=name.
abbrev pub expression_key : Text → Text → Text → Text
expression_key metric tag value = metric ++ (b'/' ∷ (tag ++ (b'=' ∷ value)))

module _ {F : Type 0} where
  -- The loop of CheckNeedJudge.
  unfoldable pub with_metric : Text → List (Strategy F) → List (Strategy F)
  with_metric metric [] = []
  with_metric metric (s ∷ ss) =
      let rest = with_metric metric ss in if eq_text s.metric metric then s ∷ rest else rest

  unfoldable pub copy_item_tags : JudgeItem F → Tags
  unfolding put_all put
  copy_item_tags item = put_all item.tags ((codes "endpoint", item.endpoint) ∷ [])

  abbrev pub tags_for : Option Text → JudgeItem F → Tags
  tags_for none item = item.tags
  tags_for (some _) item = copy_item_tags item

  unfoldable pub is_related_expression : JudgeItem F → Expression F → Bool
  unfolding tags_related get copy_item_tags
  is_related_expression item exp =
      tags_related exp.tags (tags_for (get (codes "endpoint") exp.tags) item)

  unfoldable pub filter_related_expressions :
      List (Expression F) → JudgeItem F → List (Expression F)
  unfolding is_related_expression
  filter_related_expressions [] item = []
  filter_related_expressions (exp ∷ exps) item =
      let rest = filter_related_expressions exps item in
      if is_related_expression item exp then exp ∷ rest else rest

  unfoldable pub build_keys_from_metric_and_tags : JudgeItem F → List Text
  build_keys_from_metric_and_tags item =
      map (λ t. expression_key item.metric t.0 t.1) item.tags
      ++ expression_key item.metric (codes "endpoint") item.endpoint ∷ []
