-- ===== src/Judge/Sync/Metrics.antt =====
-- modules/judge/cron/strategy.go: the metrics of syncFilter.
use falcon_plus.Base.{◌≡◌, refl, Bool, false, ◌||◌, List, [], ◌∷◌, arith}
use falcon_plus.Base.Text.{Text, eq_text}
use falcon_plus.Base.Dict.{Dict, get, put, get-put, text_eq}
use falcon_plus.Judge.Model.{Strategy, Expression}
use falcon_plus.Judge.Sync.Rebuild.{filter_list, filter_map, sync_filter, is_some, exists_metric}

module _ {A : Type 0} (metric_of : A → Text) where
  -- Some value of the list, or of the map, has the metric.
  abbrev pub in_list : Text → List A → Bool
  in_list metric [] = false
  in_list metric (x ∷ xs) = eq_text (metric_of x) metric || in_list metric xs

  abbrev pub in_map : Text → Dict Text (List A) → Bool
  in_map metric [] = false
  in_map metric ((key, xs) ∷ rest) = in_list metric xs || in_map metric rest

  filter_list_lem :
      (metric : Text) (xs : List A) (m : Dict Text Text)
      → is_some (get metric (filter_list metric_of xs m))
        ≡ (in_list metric xs || is_some (get metric m))
  unfolding filter_list
  filter_list_lem metric [] m = refl
  filter_list_lem metric (x ∷ xs) m = ground (
    arith,
    filter_list_lem metric xs (put (metric_of x) (metric_of x) m),
    get-put (metric_of x) metric (metric_of x) m,
  )

  filter_map_lem :
      (metric : Text) (map : Dict Text (List A)) (m : Dict Text Text)
      → is_some (get metric (filter_map metric_of map m))
        ≡ (in_map metric map || is_some (get metric m))
  unfolding filter_map
  filter_map_lem metric [] m = refl
  filter_map_lem metric ((key, xs) ∷ rest) m =
      ground (
        arith,
        filter_map_lem metric rest (filter_list metric_of xs m),
        filter_list_lem metric xs m,
      )

-- The filter of syncFilter knows a metric exactly when a strategy or an expression of the maps has
-- it.
pub sync_filter_lem :
    {F : Type 0} (metric : Text) (strategies : Dict Text (List (Strategy F)))
    (expressions : Dict Text (List (Expression F)))
    → exists_metric metric (sync_filter strategies expressions)
      ≡ (in_map (λ s. s.metric) metric strategies || in_map (λ x. x.metric) metric expressions)
unfolding exists_metric sync_filter get
sync_filter_lem metric strategies expressions = ground (
  arith,
  filter_map_lem (λ x. x.metric) metric expressions (filter_map (λ s. s.metric) strategies []),
  filter_map_lem (λ s. s.metric) metric strategies [],
)
