-- ===== src/Hbs/Answers.antt =====
-- modules/hbs/rpc/hbs.go: what CalcInheritStrategies and GetStrategies answer.
use falcon_plus.Base.{
  ◌≡◌, refl, ap, ◌∙◌, inl, inr, false, not, ◌||◌, none, some, List, [], ◌∷◌, ◌++◌, map, All, Run,
  ◌>>=◌, if◌then◌else◌, Bool-cases, arith,
}
use falcon_plus.Base.Int.{ℤ, eqb_ℤ, eqb_ℤ_iff}
use falcon_plus.Base.Text.{Text}
use falcon_plus.Base.Dict.{Dict, get, int_eq, text_eq}
use falcon_plus.Hbs.Templates.{Template}
use falcon_plus.Hbs.Inherit.{
  Owned, Collected, slice_int_contains, take_strategy, take_strategies, take_bucket,
}
use falcon_plus.Hbs.Owned.{Values, HasTpl}

-- Each id once.
abbrev pub AreOnce : List ℤ → Type 0
AreOnce [] = Unit {0}
AreOnce (i ∷ is) = (slice_int_contains is i ≡ false) × AreOnce is

contains-append :
    (is : List ℤ) (i j : ℤ)
    → slice_int_contains (is ++ j ∷ []) i ≡ (slice_int_contains is i || eqb_ℤ j i)
contains-append [] i j = ground arith
contains-append (k ∷ is) i j = ground (arith, contains-append is i j)

append-AreOnce :
    (is : List ℤ) (j : ℤ) → AreOnce is → slice_int_contains is j ≡ false → AreOnce (is ++ j ∷ [])
append-AreOnce [] j h n = (refl, tt)
append-AreOnce (i ∷ is) j h n =
    let apart : eqb_ℤ j i ≡ false = ground (arith, n, eqb_ℤ_iff i j, eqb_ℤ_iff j i) in
    let others : slice_int_contains is j ≡ false = ground (arith, n) in
    (contains-append is i j ∙ ground (arith, h.0, apart), append-AreOnce is j h.1 others)

module _ {F : Type 0} where
  abbrev pub ids_of : List (Owned F) → List ℤ
  ids_of out = map (λ s. s.0.id) out

  -- The ids that were seen are those of the strategies so far, each once.
  abbrev pub Kept : Collected F → Type 0
  Kept (ids, out) =
      ((i : ℤ) → slice_int_contains ids i ≡ slice_int_contains (ids_of out) i)
      × AreOnce (ids_of out)

  abbrev pub Keeps : Run (Collected F) → Type 0
  Keeps run = (c : Collected F) × (run ≡ some c) × Kept c

  ids_of-append :
      (out : List (Owned F)) (s : Owned F) → ids_of (out ++ s ∷ []) ≡ ids_of out ++ s.0.id ∷ []
  ids_of-append [] s = refl
  ids_of-append (x ∷ out) s = ap (◌∷◌ x.0.id) (ids_of-append out s)

  pub then-Keeps :
      (run : Run (Collected F)) (next : Collected F → Run (Collected F))
      → Keeps run
      → ((c : Collected F) → Kept c → Keeps (next c))
      → Keeps (run >>= next)
  then-Keeps run next (c, e, k) h = let (c', e', k') = h c k in (c', rw e e', k')

module _ {F : Type 0} (all_tpls : Dict ℤ Template) (last_tid : ℤ) where
  take_strategy-Keeps :
      (s : Owned F) (c : Collected F)
      → HasTpl s
      → Kept c
      → Keeps (take_strategy all_tpls last_tid s c)
  take_strategy-Keeps (s, none) (ids, out) (tpl, e) k = absurd (ground arith)
  take_strategy-Keeps (s, some t) (ids, out) h k = elim (Bool-cases (slice_int_contains ids s.id)) [
    | inl seen ↦ ((ids, out), rw seen refl, k)
    | inr fresh_id ↦
        let val : Owned F =
          (s, if not (eqb_ℤ t.id last_tid) then get last_tid all_tpls else some t) in
        let unseen : slice_int_contains (ids_of out) s.id ≡ false = ground (arith, k.0 s.id) in
        (
          (s.id ∷ ids, out ++ val ∷ []),
          rw fresh_id refl,
          (
            (λ i.
                rw (ids_of-append out val, contains-append (ids_of out) i s.id)
                  (ground (arith, k.0 i))),
            rw (ids_of-append out val) (append-AreOnce (ids_of out) s.id k.1 unseen),
          ),
        )
  ]

  take_strategies-Keeps :
      (ss : List (Owned F)) (c : Collected F)
      → All HasTpl ss
      → Kept c
      → Keeps (take_strategies all_tpls last_tid ss c)
  unfolding take_strategies
  take_strategies-Keeps [] c h k = (c, refl, k)
  take_strategies-Keeps (s ∷ ss) c h k =
      then-Keeps _ (take_strategies all_tpls last_tid ss) (take_strategy-Keeps s c h.0 k)
        (λ c' k'. take_strategies-Keeps ss c' h.1 k')

  pub take_bucket-Keeps :
      (stras : Dict Text (List (Owned F))) (c : Collected F)
      → Values (All HasTpl) stras
      → Kept c
      → Keeps (take_bucket all_tpls last_tid stras c)
  unfolding take_bucket
  take_bucket-Keeps [] c h k = (c, refl, k)
  take_bucket-Keeps ((id, ss) ∷ stras) c h k =
      then-Keeps _ (take_bucket all_tpls last_tid stras) (take_strategies-Keeps ss c h.0 k)
        (λ c' k'. take_bucket-Keeps stras c' h.1 k')
