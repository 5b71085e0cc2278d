-- ===== src/Alarm/Grouped.antt =====
-- modules/alarm/cron/combiner.go: the groups of dtoMap.
use falcon_plus.Base.{◌≡◌, ap, ◌∙◌, sym, List, [], ◌∷◌, ◌++◌, map}
use mathlib.Core.List.{append_assoc, append-nil}
use falcon_plus.Base.Text.{Text}
use falcon_plus.Base.Dict.{Dict, get, text_eq}
use falcon_plus.Utils.Grouped.{
  file_under, listed, under, under-append, file_under_lem, AreGroups, file_under-AreGroups,
}
use falcon_plus.Alarm.Combine.{grouped}

module _ {A : Type 0} where
  pub grouped-AreGroups :
      (key : A → Text) (ds : List A) (m : Dict Text (List A))
      → AreGroups m
      → AreGroups (grouped key ds m)
  unfolding grouped
  grouped-AreGroups key [] m h = h
  grouped-AreGroups key (d ∷ ds) m h =
      grouped-AreGroups key ds (file_under (key d) d m) (file_under-AreGroups (key d) d m h)

  abbrev pub keyed : (A → Text) → A → Text × A
  keyed key d = (key d, d)

  pub grouped-under :
      (key : A → Text) (k : Text) (ds : List A) (m : Dict Text (List A))
      → listed (get k (grouped key ds m)) ≡ listed (get k m) ++ under k (map (keyed key) ds)
  unfolding grouped
  grouped-under key k [] m = sym (append-nil (listed (get k m)))
  grouped-under key k (d ∷ ds) m =
      grouped-under key k ds (file_under (key d) d m)
      ∙ ap (λ l. l ++ under k (map (keyed key) ds)) (file_under_lem k (key d) d m)
      ∙ append_assoc (listed (get k m)) (under k ((key d, d) ∷ [])) (under k (map (keyed key) ds))
      ∙ ap (λ l. listed (get k m) ++ l)
          (sym (under-append k ((key d, d) ∷ []) (map (keyed key) ds)))
