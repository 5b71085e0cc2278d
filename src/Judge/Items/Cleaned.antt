-- ===== src/Judge/Items/Cleaned.antt =====
-- modules/judge/store/history.go: CleanStale, seen through lookups.
use falcon_plus.Base.{
  ◌≡◌, refl, ap, ◌∙◌, Bool, false, ◌||◌, Option, none, some, List, [], ◌∷◌, if◌then◌else◌, arith,
  Bool-cases, inl, inr, subst,
}
use falcon_plus.Base.Int.{ℤ}
use falcon_plus.Base.Text.{Text, eq_text, eq_text_iff}
use falcon_plus.Base.Dict.{get, delete, get-delete, text_eq}
use falcon_plus.Judge.Model.{JudgeItem}
use falcon_plus.Judge.Items.Maps.{ItemMap, batch_delete, is_stale, stale_keys, clean_stale}

abbrev holds : Text → List Text → Bool
holds k [] = false
holds k (j ∷ js) = eq_text j k || holds k js

module _ {F : Type 0} where
  -- No key stands twice.
  abbrev pub Distinct : ItemMap F → Type 0
  Distinct [] = Unit {0}
  Distinct ((k, l) ∷ m) = (get k m ≡ none) × Distinct m

  abbrev pub stale_at : ℤ → Option (List (JudgeItem F)) → Bool
  stale_at before none = false
  stale_at before (some l) = is_stale before l

  batch_delete_lem :
      (k : Text) (ks : List Text) (m : ItemMap F)
      → get k (batch_delete ks m) ≡ (if holds k ks then none else get k m)
  unfolding batch_delete
  batch_delete_lem k [] m = refl
  batch_delete_lem k (j ∷ ks) m =
      ground (arith, batch_delete_lem k ks (delete j m), get-delete j k m)

  holds-stale_keys :
      (before : ℤ) (k : Text) (m : ItemMap F)
      → Distinct m
      → holds k (stale_keys before m) ≡ stale_at before (get k m)
  unfolding stale_keys get
  holds-stale_keys before k [] d = refl
  holds-stale_keys before k ((j, l) ∷ m) d = elim (Bool-cases (eq_text j k)) [
    | inl same ↦
        let absent : get k m ≡ none = subst (λ z. get z m ≡ none) ((eq_text_iff j k).0 same) d.0 in
        let rest : holds k (stale_keys before m) ≡ false =
          holds-stale_keys before k m d.1 ∙ ap (stale_at before) absent in
        ground (arith, same, rest)
    | inr other ↦ ground (arith, other, holds-stale_keys before k m d.1)
  ]

  -- In a map in which no key stands twice, CleanStale takes away exactly the keys whose list has a
  -- front older than the given time; any other key looks up as before.
  pub clean_stale_lem :
      (before : ℤ) (k : Text) (m : ItemMap F)
      → Distinct m
      → get k (clean_stale before m) ≡ (if stale_at before (get k m) then none else get k m)
  unfolding clean_stale
  clean_stale_lem before k m d =
      batch_delete_lem k (stale_keys before m) m
      ∙ ap (λ b. if b then none else get k m) (holds-stale_keys before k m d)
