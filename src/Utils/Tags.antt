-- ===== src/Utils/Tags.antt =====
-- common/utils/tags.go, func.go and counter.go: the canonical text of a tag map, and the keys made
-- of it.
use falcon_plus.Base.{Bool, true, false, ◌&&◌, ◌||◌, [], ◌∷◌, ◌++◌, ltb, eqb, if◌then◌else◌}
use falcon_plus.Base.Text.{Text}
use falcon_plus.Base.Dict.{Dict}

abbrev pub Tags : Type 0
Tags = Dict Text Text

-- The order of sort.Strings: by bytes, a prefix first.
unfoldable pub text_before : Text → Text → Bool
text_before [] [] = false
text_before [] (y ∷ ys) = true
text_before (x ∷ xs) [] = false
text_before (x ∷ xs) (y ∷ ys) = ltb x y || (eqb x y && text_before xs ys)

-- The sorted keys with their values; the keys of a map are distinct.
unfoldable pub insert_sorted : Text → Text → Tags → Tags
insert_sorted k v [] = (k, v) ∷ []
insert_sorted k v ((j, w) ∷ m) =
    let rest = insert_sorted k v m in if text_before j k then (j, w) ∷ rest else (k, v) ∷ (j, w) ∷ m

unfoldable pub sort_tags : Tags → Tags
unfolding insert_sorted
sort_tags [] = []
sort_tags ((k, v) ∷ m) = insert_sorted k v (sort_tags m)

-- key=value, joined by commas.
unfoldable pub join_tags : Tags → Text
join_tags [] = []
join_tags ((k, v) ∷ []) = k ++ (b'=' ∷ v)
join_tags ((k, v) ∷ t ∷ ts) = k ++ (b'=' ∷ (v ++ (b',' ∷ join_tags (t ∷ ts))))

unfoldable pub sorted_tags : Tags → Text
unfolding sort_tags join_tags text_before
sorted_tags tags = join_tags (sort_tags tags)

unfoldable pub pk : Text → Text → Tags → Text
unfolding sorted_tags
pk endpoint metric [] = endpoint ++ (b'/' ∷ metric)
pk endpoint metric (t ∷ ts) = endpoint ++ (b'/' ∷ (metric ++ (b'/' ∷ sorted_tags (t ∷ ts))))

unfoldable pub counter : Text → Tags → Text
unfolding sorted_tags
counter metric [] = metric
counter metric (t ∷ ts) = metric ++ (b'/' ∷ sorted_tags (t ∷ ts))
