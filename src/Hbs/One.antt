-- ===== src/Hbs/One.antt =====
-- modules/hbs/rpc/hbs.go: GetStrategiesOne.
use falcon_plus.Base.{Option, none, some, List, [], ◌∷◌, Run, ◌>>=◌, if◌then◌else◌}
use falcon_plus.Base.Int.{ℤ}
use falcon_plus.Base.Text.{Text, eq_text}
use falcon_plus.Base.Dict.{Dict, get, int_eq}
use falcon_plus.Hbs.Templates.{Template}
use falcon_plus.Hbs.Inherit.{Owned, tpl2_strategies, calc_inherit_strategies}

module _ {F : Type 0} where
  -- One round of GetStrategiesOne: the host of the name, if it has strategies, ends the loop.
  abbrev pub one_or :
      Text
      → Text
      → List (Owned F)
      → Run (List (Text × List (Owned F)))
      → Run (List (Text × List (Owned F)))
  one_or hostname name [] rest = rest
  one_or hostname name (s ∷ ss) rest =
      if eq_text hostname name then some ((name, s ∷ ss) ∷ []) else rest

  abbrev pub one_strategies_of :
      Text
      → Option Text
      → Run (List (Owned F))
      → Run (List (Text × List (Owned F)))
      → Run (List (Text × List (Owned F)))
  one_strategies_of hostname none ss rest = rest
  one_strategies_of hostname (some name) ss rest = ss >>= λ l. one_or hostname name l rest

  unfoldable pub one_loop :
      Text
      → Dict ℤ Text
      → Dict ℤ Template
      → Dict ℤ (List (Owned F))
      → Dict ℤ (List ℤ)
      → Run (List (Text × List (Owned F)))
  unfolding calc_inherit_strategies
  one_loop hostname hosts tpls tpl2 [] = some []
  one_loop hostname hosts tpls tpl2 ((host_id, tpl_ids) ∷ hid_tids) =
      one_strategies_of hostname (get host_id hosts) (calc_inherit_strategies tpls tpl_ids tpl2)
        (one_loop hostname hosts tpls tpl2 hid_tids)

  -- Hbs.GetStrategiesOne.
  unfoldable pub get_strategies_one :
      Text
      → Dict ℤ (List ℤ)
      → Dict ℤ Text
      → Dict ℤ Template
      → Dict ℤ (Option (Owned F))
      → Run (List (Text × List (Owned F)))
  unfolding one_loop tpl2_strategies
  get_strategies_one hostname [] hosts tpls strategies = some []
  get_strategies_one hostname (h ∷ hid_tids) [] tpls strategies = some []
  get_strategies_one hostname (h ∷ hid_tids) (host ∷ hosts) [] strategies = some []
  get_strategies_one hostname (h ∷ hid_tids) (host ∷ hosts) (t ∷ tpls) [] = some []
  get_strategies_one hostname (h ∷ hid_tids) (host ∷ hosts) (t ∷ tpls) (s ∷ strategies) =
      one_loop hostname (host ∷ hosts) (t ∷ tpls) (tpl2_strategies (s ∷ strategies)) (h ∷ hid_tids)
