-- ===== src/Judge/Match/Once.antt =====
-- modules/judge/store/judge.go: CheckExpression, which meets an expression under several keys.
use falcon_plus.Base.{
  ◌≡◌, refl, ap, inl, inr, false, some, List, [], ◌∷◌, ◌++◌, Run, ◌>>=◌, Bool-cases, Option-cases,
  if◌then◌else◌,
}
use falcon_plus.Base.Int.{ℤ}
use falcon_plus.Base.Text.{Text}
use falcon_plus.Base.Dict.{get, text_eq}
use falcon_plus.Base.Float.{Float64}
use falcon_plus.Judge.Model.{JudgeItem, Expression}
use falcon_plus.Judge.Alarm.State.{State, Env}
use falcon_plus.Judge.Match.Related.{filter_related_expressions, build_keys_from_metric_and_tags}
use falcon_plus.Judge.Match.Check.{
  handled, judge_item_with_expression, check_related, exps_of, check_keys, check_expression,
}

module _ {F : Type 0} where
  -- The first expression of each id that is not among the ids.
  abbrev pub fresh : List ℤ → List (Expression F) → List (Expression F)
  fresh ids [] = []
  fresh ids (e ∷ es) =
      let skipped = fresh ids es in
      let taken = e ∷ fresh (e.id ∷ ids) es in if handled e.id ids then skipped else taken

  -- The ids that are handled afterwards.
  abbrev handled_after : List ℤ → List (Expression F) → List ℤ
  handled_after ids [] = ids
  handled_after ids (e ∷ es) =
      let skipped = handled_after ids es in
      let taken = handled_after (e.id ∷ ids) es in if handled e.id ids then skipped else taken

  -- No id stands twice, and none of those before.
  abbrev pub IsOnce : List ℤ → List (Expression F) → Type 0
  IsOnce ids [] = Unit {0}
  IsOnce ids (e ∷ es) = (handled e.id ids ≡ false) × IsOnce (e.id ∷ ids) es

  fresh-IsOnce : (ids : List ℤ) (es : List (Expression F)) → IsOnce ids (fresh ids es)
  fresh-IsOnce ids [] = tt
  fresh-IsOnce ids (e ∷ es) = elim (Bool-cases (handled e.id ids)) [
    | inl old ↦ rw old (fresh-IsOnce ids es)
    | inr new ↦ rw new (new, fresh-IsOnce (e.id ∷ ids) es)
  ]

  fresh-append :
      (ids : List ℤ) (xs ys : List (Expression F))
      → fresh ids (xs ++ ys) ≡ fresh ids xs ++ fresh (handled_after ids xs) ys
  fresh-append ids [] ys = refl
  fresh-append ids (e ∷ es) ys = elim (Bool-cases (handled e.id ids)) [
    | inl old ↦ rw old (fresh-append ids es ys)
    | inr new ↦ rw new (ap (◌∷◌ e) (fresh-append (e.id ∷ ids) es ys))
  ]

module _ {F : Type 0} ⦃f : Float64 F⦄ (env : Env F) (l : List (JudgeItem F)) (item : JudgeItem F)
    (now : ℤ) where
  abbrev pub judge_all : List (Expression F) → State F → Run (State F)
  judge_all [] s = some s
  judge_all (e ∷ es) s = judge_item_with_expression env l e item now s >>= judge_all es

  -- What the keys of the point lead to, key by key.
  abbrev pub all_related : List Text → List (Expression F)
  all_related [] = []
  all_related (key ∷ keys) =
      filter_related_expressions (exps_of env (get key env.expression_map)) item ++ all_related keys

  judge_all-append :
      (xs ys : List (Expression F)) (s : State F)
      → judge_all (xs ++ ys) s ≡ (judge_all xs s >>= judge_all ys)
  judge_all-append [] ys s = refl
  judge_all-append (e ∷ es) ys s =
      elim (Option-cases (judge_item_with_expression env l e item now s)) [
        | inl panics ↦ rw panics refl
        | inr (s', run) ↦ rw run (judge_all-append es ys s')
      ]

  check_related_lem :
      (es : List (Expression F)) (ids : List ℤ) (s : State F)
      → check_related env es l item now ids s
        ≡ (judge_all (fresh ids es) s >>= λ s'. some (handled_after ids es, s'))
  unfolding check_related
  check_related_lem [] ids s = refl
  check_related_lem (e ∷ es) ids s = elim (Bool-cases (handled e.id ids)) [
    | inl old ↦ rw old (check_related_lem es ids s)
    | inr new ↦ elim (Option-cases (judge_item_with_expression env l e item now s)) [
      | inl panics ↦ rw (new, panics) refl
      | inr (s', run) ↦ rw (new, run) (check_related_lem es (e.id ∷ ids) s')
    ]
  ]

  check_keys_lem :
      (keys : List Text) (ids : List ℤ) (s : State F)
      → check_keys env keys l item now ids s ≡ judge_all (fresh ids (all_related keys)) s
  unfolding check_keys
  check_keys_lem [] ids s = refl
  check_keys_lem (key ∷ keys) ids s =
      let es = filter_related_expressions (exps_of env (get key env.expression_map)) item in
      rw (check_related_lem es ids s, fresh-append ids es (all_related keys))
        (rw (judge_all-append (fresh ids es) (fresh (handled_after ids es) (all_related keys)) s)
          (elim (Option-cases (judge_all (fresh ids es) s)) [
            | inl panics ↦ rw panics refl
            | inr (s', run) ↦ rw run (check_keys_lem keys (handled_after ids es) s')
          ]))

  -- CheckExpression judges exactly a list of expressions in which no id stands twice, namely the
  -- first expression of each id among those that the keys of the point lead to and that are
  -- related to it, in the order of the keys.
  pub check_expression-IsOnce :
      (s : State F)
      → (es : List (Expression F)) × IsOnce [] es
        × (es ≡ fresh [] (all_related (build_keys_from_metric_and_tags item)))
        × (check_expression env l item now s ≡ judge_all es s)
  unfolding check_expression
  check_expression-IsOnce s =
      let related = all_related (build_keys_from_metric_and_tags item) in
      (
        fresh [] related,
        fresh-IsOnce [] related,
        refl,
        check_keys_lem (build_keys_from_metric_and_tags item) [] s,
      )
