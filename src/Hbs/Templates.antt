-- ===== src/Hbs/Templates.antt =====
-- modules/hbs/cache/strategies.go: ParentIds, on common/model/template.go.
use falcon_plus.Base.{ℕ, zero, suc, Option, none, some, List, [], ◌∷◌, ◌++◌, if◌then◌else◌}
use falcon_plus.Base.Int.{ℤ, pos, leb_ℤ}
use falcon_plus.Base.Text.{Text}
use falcon_plus.Base.Dict.{Dict, get, int_eq}

pub record Template : Type 0 where
  pub id : ℤ
  pub name : Text
  pub parent_id : ℤ
  pub action_id : ℤ
  pub creator : Text

-- The loop that fills `desc` from the back.
unfoldable pub descending : List ℤ → List ℤ
descending [] = []
descending (i ∷ is) = descending is ++ i ∷ []

abbrev parent_or : Option Template → (ℤ → Option (List ℤ)) → List ℤ → Option (List ℤ)
parent_or none next ret = some ret
parent_or (some t) next ret = next t.parent_id

-- The loop, with the rounds that are left until `depth` is 10, and `ret` so far; `none` is the return
-- of an empty list at that depth.
unfoldable pub parent_loop : ℕ → Dict ℤ Template → ℤ → List ℤ → Option (List ℤ)
parent_loop zero tpls tid ret = none
parent_loop (suc n) tpls tid ret =
    if leb_ℤ tid (pos 0)
    then some ret
    else parent_or (get tid tpls) (λ parent. parent_loop n tpls parent (ret ++ tid ∷ [])) ret

abbrev pub descending_or : Option (List ℤ) → List ℤ
descending_or none = []
descending_or (some ret) = descending ret

unfoldable pub parent_ids : Dict ℤ Template → ℤ → List ℤ
unfolding parent_loop descending
parent_ids all_tpls tid = descending_or (parent_loop 10 all_tpls tid [])
