-- ===== src/Utils/Reading.antt =====
-- common/utils/tags.go: DictedTagstring reads what SortedTags writes.
use falcon_plus.Base.{
  ℕ, suc, ◌≡◌, refl, ap, ◌∙◌, sym, subst, if_both, ◌≢◌, Bool, true, Option, none, some, List, [],
  ◌∷◌, ◌++◌, map, length, drop, arith,
}
use mathlib.Core.List.{append_assoc, append-nil}
use falcon_plus.Base.Text.{Text, eq_text_iff}
use falcon_plus.Base.Strings.{
  index_byte, split, Without, index_byte_first, split-Without, split_first, take-length,
  index_byte-none,
}
use falcon_plus.Base.Dict.{get, put, text_eq}
use falcon_plus.Utils.Tags.{
  Tags, insert_sorted, sort_tags, join_tags, sorted_tags, text_before, counter,
}
use falcon_plus.Utils.Sorted.{Lacks, AreDistinct, sort_tags-AreDistinct, get-sort_tags}
use falcon_plus.Utils.Dicted.{
  remove_byte, tag_pair, put_pair, put_tags, split_tags, or_bad, unless_empty, split_tags_string,
  dicted_tagstring, conunter_to_metric_and_tags,
}

-- A key or a value that the format can write.
abbrev pub IsPlain : Text → Type 0
IsPlain s = Without b' ' s × Without b',' s

-- The tags can be written: no space or comma, and no '=' in a key.
abbrev pub ArePlain : Tags → Type 0
ArePlain [] = Unit {0}
ArePlain ((k, v) ∷ m) = (IsPlain k × IsPlain v × Without b'=' k) × ArePlain m

remove_byte-append :
    (c : ℕ) (s t : Text) → remove_byte c (s ++ t) ≡ remove_byte c s ++ remove_byte c t
unfolding remove_byte
remove_byte-append c [] t = refl
remove_byte-append c (x ∷ s) t = ground (arith, remove_byte-append c s t)

remove_byte-Without : (c : ℕ) (s : Text) → Without c s → remove_byte c s ≡ s
unfolding remove_byte
remove_byte-Without c [] h = refl
remove_byte-Without c (x ∷ s) h = ground (arith, remove_byte-Without c s h.1)

Without-append : (c : ℕ) (s t : Text) → Without c s → Without c t → Without c (s ++ t)
Without-append c [] t h k = k
Without-append c (x ∷ s) t h k = (h.0, Without-append c s t h.1 k)

one-IsPlain : (k v : Text) → IsPlain k → IsPlain v → IsPlain (k ++ b'=' ∷ v)
one-IsPlain k v hk hv = (
  Without-append b' ' k (b'=' ∷ v) hk.0 (ground arith, hv.0),
  Without-append b',' k (b'=' ∷ v) hk.1 (ground arith, hv.1),
)

join_tags-Without : (m : Tags) → ArePlain m → Without b' ' (join_tags m)
unfolding join_tags
join_tags-Without [] h = tt
join_tags-Without ((k, v) ∷ []) ((hk, hv, he), h) = (one-IsPlain k v hk hv).0
join_tags-Without ((k, v) ∷ t ∷ ts) ((hk, hv, he), h) =
    Without-append b' ' k _ hk.0
      (ground arith, Without-append b' ' v _ hv.0 (ground arith, join_tags-Without (t ∷ ts) h))

drop_past : (c : ℕ) (s t : Text) → drop (suc (length s)) (s ++ c ∷ t) ≡ t
drop_past c [] t = refl
drop_past c (x ∷ s) t = drop_past c s t

tag_pair-one : (k v : Text) → Without b'=' k → tag_pair (k ++ b'=' ∷ v) ≡ some (k, v)
unfolding tag_pair
tag_pair-one k v h = rw (index_byte_first b'=' k v h, take-length k (b'=' ∷ v), drop_past b'=' k v)

abbrev one : Text × Text → Text
one (k, v) = k ++ b'=' ∷ v

split-join_tags :
    (t : Text × Text) (m : Tags)
    → ArePlain (t ∷ m)
    → split b',' (join_tags (t ∷ m)) ≡ map one (t ∷ m)
unfolding join_tags
split-join_tags (k, v) [] ((hk, hv, he), h) = split-Without b',' _ (one-IsPlain k v hk hv).1
split-join_tags (k, v) (t ∷ ts) ((hk, hv, he), h) =
    ap (split b',') (sym (append_assoc k (b'=' ∷ v) (b',' ∷ join_tags (t ∷ ts))))
    ∙ split_first b',' (one (k, v)) (join_tags (t ∷ ts)) (one-IsPlain k v hk hv).1
    ∙ ap (◌∷◌ (one (k, v))) (split-join_tags t ts h)

-- m[k] = v for each tag, in order.
abbrev put_each : Tags → Tags → Tags
put_each [] acc = acc
put_each ((k, v) ∷ m) acc = put_each m (put k v acc)

put_tags-map : (m acc : Tags) → ArePlain m → put_tags (map one m) acc ≡ put_each m acc
unfolding put_tags
put_tags-map [] acc h = refl
put_tags-map ((k, v) ∷ m) acc ((hk, hv, he), h) =
    ap (λ o. put_tags (map one m) (put_pair o acc)) (tag_pair-one k v he)
    ∙ put_tags-map m (put k v acc) h

put-Lacks : (k v : Text) (m : Tags) → Lacks k m → put k v m ≡ m ++ (k, v) ∷ []
unfolding put
put-Lacks k v [] h = refl
put-Lacks k v ((j, w) ∷ m) h = ground (arith, eq_text_iff j k, put-Lacks k v m h.1)

Lacks-AreDistinct : (acc m : Tags) (k v : Text) → AreDistinct (acc ++ (k, v) ∷ m) → Lacks k acc
Lacks-AreDistinct [] m k v d = tt
Lacks-AreDistinct ((j, w) ∷ acc) m k v (l, d) =
    ((λ e. ground (arith, Lacks_middle acc m j k v l)), Lacks-AreDistinct acc m k v d)
  where
    Lacks_middle : (acc m : Tags) (j k v : Text) → Lacks j (acc ++ (k, v) ∷ m) → j ≢ k
    Lacks_middle [] m j k v l = l.0
    Lacks_middle ((i, w) ∷ acc) m j k v l = Lacks_middle acc m j k v l.1

-- Distinct keys are appended in order.
put_each-AreDistinct : (m acc : Tags) → AreDistinct (acc ++ m) → put_each m acc ≡ acc ++ m
put_each-AreDistinct [] acc d = sym (append-nil acc)
put_each-AreDistinct ((k, v) ∷ m) acc d =
    let last = append_assoc acc ((k, v) ∷ []) m in
    ap (put_each m) (put-Lacks k v acc (Lacks-AreDistinct acc m k v d))
    ∙ put_each-AreDistinct m (acc ++ (k, v) ∷ []) (subst AreDistinct (sym last) d)
    ∙ last

insert_sorted-ArePlain :
    (k v : Text) (m : Tags)
    → IsPlain k × IsPlain v × Without b'=' k
    → ArePlain m
    → ArePlain (insert_sorted k v m)
unfolding insert_sorted
insert_sorted-ArePlain k v [] h p = (h, tt)
insert_sorted-ArePlain k v ((j, w) ∷ m) h p =
    if_both ArePlain (text_before j k) (p.0, insert_sorted-ArePlain k v m h p.1) (h, p)

sort_tags-ArePlain : (m : Tags) → ArePlain m → ArePlain (sort_tags m)
unfolding sort_tags
sort_tags-ArePlain [] p = tt
sort_tags-ArePlain ((k, v) ∷ m) p =
    insert_sorted-ArePlain k v (sort_tags m) p.0 (sort_tags-ArePlain m p.1)

dicted_tagstring_lem :
    (s : Text) → dicted_tagstring s ≡ put_tags (split b',' (remove_byte b' ' s)) []
unfolding dicted_tagstring put_tags split remove_byte tag_pair index_byte
dicted_tagstring_lem [] = refl
dicted_tagstring_lem (c ∷ s) = refl

dicted_tagstring-join_tags :
    (m : Tags) → ArePlain m → AreDistinct m → dicted_tagstring (join_tags m) ≡ m
unfolding dicted_tagstring join_tags
dicted_tagstring-join_tags [] p d = refl
dicted_tagstring-join_tags (t ∷ m) p d =
    dicted_tagstring_lem (join_tags (t ∷ m))
    ∙ ap (λ s. put_tags (split b',' s) [])
        (remove_byte-Without b' ' (join_tags (t ∷ m)) (join_tags-Without (t ∷ m) p))
    ∙ ap (λ parts. put_tags parts []) (split-join_tags t m p)
    ∙ put_tags-map (t ∷ m) [] p
    ∙ put_each-AreDistinct (t ∷ m) [] d

-- DictedTagstring reads from what SortedTags writes the map that was written.
pub dicted_tagstring-sorted_tags :
    (m : Tags)
    → ArePlain m
    → AreDistinct m
    → (key : Text) → get key (dicted_tagstring (sorted_tags m)) ≡ get key m
unfolding sorted_tags
dicted_tagstring-sorted_tags m p d key =
    ap (get key) (
      dicted_tagstring-join_tags (sort_tags m) (sort_tags-ArePlain m p) (sort_tags-AreDistinct m d))
    ∙ get-sort_tags key m d

-- For a metric without a slash and distinct tags without spaces and commas, and with no equals
-- sign in a key, ConunterToMetricAndTags takes what Counter makes apart into the metric and a map
-- that looks up every key as the tags do.
pub conunter_to_metric_and_tags-counter :
    (metric : Text) (m : Tags)
    → Without b'/' metric
    → ArePlain m
    → AreDistinct m
    → ((conunter_to_metric_and_tags (counter metric m)).0 ≡ metric)
      × ((key : Text) → get key (conunter_to_metric_and_tags (counter metric m)).1 ≡ get key m)
unfolding conunter_to_metric_and_tags counter
conunter_to_metric_and_tags-counter metric [] w p d =
    rw (index_byte-none b'/' metric w) (refl, λ key. refl)
conunter_to_metric_and_tags-counter metric (t ∷ m) w p d =
    rw (index_byte_first b'/' metric (sorted_tags (t ∷ m)) w) (
      take-length metric (b'/' ∷ sorted_tags (t ∷ m)),
      λ key.
          ap (λ s. get key (dicted_tagstring s)) (drop_past b'/' metric (sorted_tags (t ∷ m)))
          ∙ dicted_tagstring-sorted_tags (t ∷ m) p d key,
    )

or_bad-put_pair :
    (o : Option (Text × Text)) (m m' : Tags) (rest : Tags → Bool × Tags) (other : Tags → Tags)
    → ((n : Tags) → rest n ≡ (true, m') → other n ≡ m')
    → or_bad o m rest ≡ (true, m')
    → other (put_pair o m) ≡ m'
or_bad-put_pair none m m' rest other ih h = absurd (ground arith)
or_bad-put_pair (some (k, v)) m m' rest other ih h = ih (put k v m) h

split_tags-put_tags :
    (parts : List Text) (m m' : Tags) → split_tags parts m ≡ (true, m') → put_tags parts m ≡ m'
unfolding split_tags put_tags
split_tags-put_tags [] m m' h = ground (arith, h)
split_tags-put_tags (tag ∷ tags) m m' h =
    or_bad-put_pair (tag_pair tag) m m' (split_tags tags) (put_tags tags)
      (λ n. split_tags-put_tags tags n m') h

split-unless_empty :
    (s : Text) (m : Tags) → unless_empty s ≡ (true, m) → put_tags (split b',' s) [] ≡ m
unfolding split put_tags tag_pair index_byte
split-unless_empty [] m h = ground (arith, h)
split-unless_empty (c ∷ s) m h = split_tags-put_tags (split b',' (c ∷ s)) [] m h

-- Where SplitTagsString reports no error, DictedTagstring reads the same map.
pub split_tags_string-dicted_tagstring :
    (s : Text) (m : Tags) → split_tags_string s ≡ (true, m) → dicted_tagstring s ≡ m
unfolding split_tags_string
split_tags_string-dicted_tagstring s m h =
    dicted_tagstring_lem s ∙ split-unless_empty (remove_byte b' ' s) m h
