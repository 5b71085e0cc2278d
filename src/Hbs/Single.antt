-- ===== src/Hbs/Single.antt =====
-- modules/hbs/rpc/hbs.go: what GetStrategiesOne answers, in whatever order the hosts are walked.
use falcon_plus.Base.{
  ◌≡◌, refl, ap, sym, ◌∙◌, subst, ◌≢◌, ◌⊎◌, Option, some, List, [], ◌∷◌, All, Run, Bool-cases,
  Option-cases, inl, inr, arith,
}
use mathlib.Core.Option.{some-injective}
use falcon_plus.Base.Int.{ℤ}
use falcon_plus.Base.Text.{Text, eq_text, eq_text_iff}
use falcon_plus.Base.Dict.{Dict, get, int_eq, text_eq}
use falcon_plus.Hbs.Templates.{Template}
use falcon_plus.Hbs.Inherit.{Owned, tpl2_strategies, calc_inherit_strategies}
use falcon_plus.Hbs.One.{one_or, one_strategies_of, one_loop, get_strategies_one}
use falcon_plus.Hbs.Owned.{Values, HasTpl, tpl2_loop-HasTpl}
use falcon_plus.Hbs.Strategies.{calc_inherit_strategies-IsAnswer}

module _ {F : Type 0} (hostname : Text) (hosts : Dict ℤ Text) (tpls : Dict ℤ Template)
    (tpl2 : Dict ℤ (List (Owned F))) where
  -- A host of the name whose templates give the strategies.
  abbrev pub IsFor : ℤ × List ℤ → List (Owned F) → Type 0
  IsFor (host_id, tpl_ids) ss =
      (get host_id hosts ≡ some hostname) × (calc_inherit_strategies tpls tpl_ids tpl2 ≡ some ss)

  abbrev pub AnyFor : Dict ℤ (List ℤ) → List (Owned F) → Type 0
  AnyFor [] ss = ⊥
  AnyFor (h ∷ hid_tids) ss = IsFor h ss ⊎ AnyFor hid_tids ss

  -- A host of the name has no strategies.
  abbrev pub IsBare : ℤ × List ℤ → Type 0
  IsBare (host_id, tpl_ids) =
      get host_id hosts ≡ some hostname → calc_inherit_strategies tpls tpl_ids tpl2 ≡ some []

  -- The answer is empty, and no host of the name has strategies; or it is those of one such host.
  abbrev pub IsOne : Dict ℤ (List ℤ) → Run (List (Text × List (Owned F))) → Type 0
  IsOne hid_tids run =
      ((run ≡ some []) × All IsBare hid_tids)
      ⊎ ((ss : List (Owned F)) × (run ≡ some ((hostname, ss) ∷ []))
          × (ss ≢ [])
          × AnyFor hid_tids ss)

  passed :
      (h : ℤ × List ℤ) (hid_tids : Dict ℤ (List ℤ)) (run : Run (List (Text × List (Owned F))))
      → IsBare h
      → IsOne hid_tids run
      → IsOne (h ∷ hid_tids) run
  passed h hid_tids run b (inl (e, bare)) = inl (e, (b, bare))
  passed h hid_tids run b (inr (ss, e, some_here, any)) = inr (ss, e, some_here, inr any)

  one_or-IsOne :
      (host_id : ℤ) (tpl_ids : List ℤ) (hid_tids : Dict ℤ (List ℤ)) (name : Text)
      (ss : List (Owned F)) (rest : Run (List (Text × List (Owned F))))
      → get host_id hosts ≡ some name
      → calc_inherit_strategies tpls tpl_ids tpl2 ≡ some ss
      → IsOne hid_tids rest
      → IsOne ((host_id, tpl_ids) ∷ hid_tids) (one_or hostname name ss rest)
  one_or-IsOne host_id tpl_ids hid_tids name [] rest e found one =
      passed (host_id, tpl_ids) hid_tids rest (λ _. found) one
  one_or-IsOne host_id tpl_ids hid_tids name (s ∷ ss) rest e found one =
      elim (Bool-cases (eq_text hostname name)) [
        | inl same ↦
            let is_name = (eq_text_iff hostname name).0 same in
            rw same (
              inr (
                s ∷ ss,
                ap (λ n. some ((n, s ∷ ss) ∷ [])) (sym is_name),
                (λ n. ground arith),
                inl (e ∙ ap some (sym is_name), found),
              ))
        | inr other ↦ rw other (
            passed (host_id, tpl_ids) hid_tids rest
              (λ e'. absurd (
                ground (
                  arith,
                  eq_text_iff hostname name,
                  some-injective name hostname (sym e ∙ e'),
                  other,
                )))
              one)
      ]

  one_loop-IsOne :
      (hid_tids : Dict ℤ (List ℤ))
      → Values (All HasTpl) tpl2
      → IsOne hid_tids (one_loop hostname hosts tpls tpl2 hid_tids)
  unfolding one_loop
  one_loop-IsOne [] h = inl (refl, tt)
  one_loop-IsOne ((host_id, tpl_ids) ∷ hid_tids) h =
      let rest = one_loop-IsOne hid_tids h in
      let (out, found, once) = calc_inherit_strategies-IsAnswer tpls tpl_ids tpl2 h in
      elim (Option-cases (get host_id hosts)) [
        | inl e ↦
            subst (IsOne ((host_id, tpl_ids) ∷ hid_tids))
              (sym (
                ap
                  (λ o.
                    one_strategies_of hostname o (calc_inherit_strategies tpls tpl_ids tpl2)
                      (one_loop hostname hosts tpls tpl2 hid_tids))
                  e))
              (passed (host_id, tpl_ids) hid_tids _ (λ e'. absurd (ground (arith, sym e ∙ e')))
                rest)
        | inr (name, e) ↦
            subst (IsOne ((host_id, tpl_ids) ∷ hid_tids))
              (sym (
                ap
                  (λ o.
                    one_strategies_of hostname o (calc_inherit_strategies tpls tpl_ids tpl2)
                      (one_loop hostname hosts tpls tpl2 hid_tids))
                  e
                ∙ ap
                    (λ ss.
                      one_strategies_of hostname (some name) ss
                        (one_loop hostname hosts tpls tpl2 hid_tids))
                    found))
              (one_or-IsOne host_id tpl_ids hid_tids name out _ e found rest)
      ]

module _ {F : Type 0} where
  All-IsBare :
      (hostname : Text) (tpls : Dict ℤ Template) (tpl2 : Dict ℤ (List (Owned F)))
      (hid_tids : Dict ℤ (List ℤ))
      → All (IsBare hostname [] tpls tpl2) hid_tids
  unfolding get
  All-IsBare hostname tpls tpl2 [] = tt
  All-IsBare hostname tpls tpl2 (h ∷ hid_tids) =
      ((λ e. absurd (ground (arith, e))), All-IsBare hostname tpls tpl2 hid_tids)

  -- With maps of templates and of strategies that are not empty, GetStrategiesOne returns without
  -- a panic in whatever order it walks the hosts. Either its answer is empty and
  -- CalcInheritStrategies gives no strategies for any host of the name, or its answer is one
  -- entry, with the name and the strategies, at least one, that CalcInheritStrategies gives for a
  -- host of the name.
  pub get_strategies_one-IsOne :
      (hostname : Text) (hid_tids : Dict ℤ (List ℤ)) (hosts : Dict ℤ Text) (t : ℤ × Template)
      (tpls : Dict ℤ Template) (s : ℤ × Option (Owned F)) (strategies : Dict ℤ (Option (Owned F)))
      → IsOne hostname hosts
          (t ∷ tpls)
          (tpl2_strategies (s ∷ strategies))
          hid_tids
          (get_strategies_one hostname hid_tids hosts (t ∷ tpls) (s ∷ strategies))
  unfolding get_strategies_one tpl2_strategies
  get_strategies_one-IsOne hostname [] hosts t tpls s strategies = inl (refl, tt)
  get_strategies_one-IsOne hostname (h ∷ hid_tids) [] t tpls s strategies =
      inl (refl, All-IsBare hostname (t ∷ tpls) (tpl2_strategies (s ∷ strategies)) (h ∷ hid_tids))
  get_strategies_one-IsOne hostname (h ∷ hid_tids) (host ∷ hosts) t tpls s strategies =
      one_loop-IsOne hostname (host ∷ hosts) (t ∷ tpls) (tpl2_strategies (s ∷ strategies))
        (h ∷ hid_tids) (tpl2_loop-HasTpl (s ∷ strategies) [] tt)
