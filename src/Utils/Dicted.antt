-- ===== src/Utils/Dicted.antt =====
-- common/utils/tags.go: the tag map that a text stands for.
use falcon_plus.Base.{
  ℕ, suc, Bool, true, false, Option, none, some, List, [], ◌∷◌, take, drop, eqb, if◌then◌else◌,
}
use falcon_plus.Base.Text.{Text}
use falcon_plus.Base.Strings.{index_byte, split}
use falcon_plus.Base.Dict.{put, text_eq}
use falcon_plus.Utils.Tags.{Tags}

-- strings.Replace by the empty string, for a one-byte string.
unfoldable pub remove_byte : ℕ → Text → Text
remove_byte c [] = []
remove_byte c (x ∷ xs) = let rest = remove_byte c xs in if eqb x c then rest else x ∷ rest

abbrev pub cut_at : Text → Option ℕ → Option (Text × Text)
cut_at tag none = none
cut_at tag (some i) = some (take i tag, drop (suc i) tag)

-- What stands before and after the first '=' of a tag.
unfoldable pub tag_pair : Text → Option (Text × Text)
tag_pair tag = cut_at tag (index_byte b'=' tag)

abbrev pub put_pair : Option (Text × Text) → Tags → Tags
put_pair none m = m
put_pair (some (k, v)) m = put k v m

-- The loop of DictedTagstring, which passes over a part with no '='.
unfoldable pub put_tags : List Text → Tags → Tags
put_tags [] m = m
put_tags (tag ∷ tags) m = put_tags tags (put_pair (tag_pair tag) m)

unfoldable pub dicted_tagstring : Text → Tags
unfolding put_tags
dicted_tagstring [] = []
dicted_tagstring (c ∷ s) = put_tags (split b',' (remove_byte b' ' (c ∷ s))) []

abbrev pub or_bad : Option (Text × Text) → Tags → (Tags → Bool × Tags) → Bool × Tags
or_bad none m rest = (false, m)
or_bad (some (k, v)) m rest = rest (put k v m)

-- The tags read, and whether there was no error; a bad tag ends the loop with the tags before it.
unfoldable pub split_tags : List Text → Tags → Bool × Tags
split_tags [] m = (true, m)
split_tags (tag ∷ tags) m = or_bad (tag_pair tag) m (λ m'. split_tags tags m')

abbrev pub unless_empty : Text → Bool × Tags
unless_empty [] = (true, [])
unless_empty (c ∷ s) = split_tags (split b',' (c ∷ s)) []

unfoldable pub split_tags_string : Text → Bool × Tags
unfolding split_tags
split_tags_string s = unless_empty (remove_byte b' ' s)

abbrev metric_and_tags : Text → Option ℕ → Text × Tags
metric_and_tags counter none = (counter, [])
metric_and_tags counter (some i) = (take i counter, dicted_tagstring (drop (suc i) counter))

-- ConunterToMetricAndTags; strings.SplitN(counter, "/", 2) cuts at the first '/'. A nil map reads as
-- an empty one.
unfoldable pub conunter_to_metric_and_tags : Text → Text × Tags
unfolding dicted_tagstring
conunter_to_metric_and_tags counter = metric_and_tags counter (index_byte b'/' counter)
