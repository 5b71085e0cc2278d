-- ===== src/Utils/Tests.antt =====
-- Tags at concrete inputs.
use falcon_plus.Base.{◌≡◌, ◌≢◌, [], ◌∷◌, arith}
use mathlib.Core.List.Perm
use falcon_plus.Base.Text.{Text, codes}
use falcon_plus.Base.Dict.{get, text_eq}
use falcon_plus.Utils.Tags.{Tags, counter, pk}
use falcon_plus.Utils.Dicted.{conunter_to_metric_and_tags}
use falcon_plus.Utils.Sorted.{pk-Perm}
use falcon_plus.Utils.Reading.{conunter_to_metric_and_tags-counter}

abbrev two_tags : Tags
two_tags = (codes "if", codes "e0") ∷ (codes "az", codes "x") ∷ []

abbrev turned : Tags
turned = (codes "az", codes "x") ∷ (codes "if", codes "e0") ∷ []

other_keys : codes "if" ≢ codes "az"
other_keys e = ground (arith, e)

conunter_to_metric_and_tags-counter_example :
    ((conunter_to_metric_and_tags (counter (codes "net") two_tags)).0 ≡ codes "net")
    × ((key : Text)
        → get key (conunter_to_metric_and_tags (counter (codes "net") two_tags)).1
          ≡ get key two_tags)
conunter_to_metric_and_tags-counter_example =
    conunter_to_metric_and_tags-counter (codes "net") two_tags (ground arith) (ground arith)
      ((other_keys, tt), (tt, tt))

pk-Perm_example : pk (codes "web1") (codes "net") two_tags ≡ pk (codes "web1") (codes "net") turned
pk-Perm_example =
    pk-Perm (codes "web1") (codes "net") two_tags turned (Perm.swap _ _ _)
      ((other_keys, tt), (tt, tt))
