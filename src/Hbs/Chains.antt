-- ===== src/Hbs/Chains.antt =====
-- modules/hbs/cache/strategies.go: ParentIds against the chain of parents.
use falcon_plus.Base.{
  ℕ, zero, suc, ◌≤◌, ◌<◌, ◌≡◌, refl, subst, sym, ap, ◌∙◌, ◌⊎◌, inl, inr, true, false, Option, none,
  some, List, [], ◌∷◌, ◌++◌, length, Bool-cases, Option-cases, arith,
}
use mathlib.Core.List.{append_assoc, append-nil, reverse, reverse-cons}
use falcon_plus.Base.Int.{ℤ, pos, leb_ℤ}
use falcon_plus.Base.Dict.{Dict, get, int_eq}
use falcon_plus.Hbs.Templates.{Template, parent_loop, parent_ids, descending}

-- The templates from one up to the last that has a parent in the map, each the child of the next.
pub data IsChain (tpls : Dict ℤ Template) : ℤ → List ℤ → Type 0 where
  no_id : {tid : ℤ} → leb_ℤ tid (pos 0) ≡ true → IsChain tpls tid []
  missing : {tid : ℤ} → get tid tpls ≡ none → IsChain tpls tid []
  link :
      {tid : ℤ} {ids : List ℤ} (t : Template)
      → leb_ℤ tid (pos 0) ≡ false
      → get tid tpls ≡ some t
      → IsChain tpls t.parent_id ids
      → IsChain tpls tid (tid ∷ ids)

-- The loop finds a chain that is short enough, or there is none.
abbrev Finds : ℕ → Dict ℤ Template → ℤ → List ℤ → Option (List ℤ) → Type 0
Finds n tpls tid ret run =
    ((ids : List ℤ) × IsChain tpls tid ids × (length ids < n) × (run ≡ some (ret ++ ids)))
    ⊎ (((ids : List ℤ) → IsChain tpls tid ids → n ≤ length ids) × (run ≡ none))

parent_loop-Finds :
    (n : ℕ) (tpls : Dict ℤ Template) (tid : ℤ) (ret : List ℤ)
    → Finds n tpls tid ret (parent_loop n tpls tid ret)
unfolding parent_loop
parent_loop-Finds zero tpls tid ret = inr ((λ ids c. omega arith), refl)
parent_loop-Finds (suc n) tpls tid ret = elim (Bool-cases (leb_ℤ tid (pos 0))) [
  | inl e ↦ inl ([], IsChain.no_id e, omega arith, rw e (ap some (sym (append-nil ret))))
  | inr e ↦ elim (Option-cases (get tid tpls)) [
    | inl absent ↦
        inl
          ([], IsChain.missing absent, omega arith, rw (e, absent) (ap some (sym (append-nil ret))))
    | inr (t, present) ↦ elim (parent_loop-Finds n tpls t.parent_id (ret ++ tid ∷ [])) [
      | inl (ids, c, short, run) ↦ inl (
        tid ∷ ids,
        IsChain.link t e present c,
        omega arith,
        rw (e, present) (run ∙ ap some (append_assoc ret (tid ∷ []) ids)),
      )
      | inr (long, run) ↦ inr ((λ ids c. longer t e present long ids c), rw (e, present) run)
    ]
  ]
]
  where
    longer :
        (t : Template)
        → leb_ℤ tid (pos 0) ≡ false
        → get tid tpls ≡ some t
        → ((ids : List ℤ) → IsChain tpls t.parent_id ids → n ≤ length ids)
        → (ids : List ℤ) → IsChain tpls tid ids
        → suc n ≤ length ids
    longer t e present long _ (IsChain.no_id h) = absurd (ground arith)
    longer t e present long _ (IsChain.missing h) = absurd (ground (arith, h, present))
    longer t e present long _ (IsChain.link {ids = ids} t' h present' c) =
        let same : t'.parent_id ≡ t.parent_id = ground (arith, present, present') in
        let bound = long ids (subst (λ p. IsChain tpls p ids) same c) in omega (arith, bound)

descending-reverse : (ids : List ℤ) → descending ids ≡ reverse ids
unfolding descending
descending-reverse [] = refl
descending-reverse (i ∷ is) = rw (reverse-cons i is, descending-reverse is) refl

-- ParentIds gives the template and its ancestors, oldest first, where their chain has fewer than
-- 10 templates, and nothing where no chain is that short.
pub parent_ids-IsChain :
    (tpls : Dict ℤ Template) (tid : ℤ)
    → ((ids : List ℤ) × IsChain tpls tid ids
        × (length ids < 10)
        × (parent_ids tpls tid ≡ reverse ids))
      ⊎ (((ids : List ℤ) → IsChain tpls tid ids → 10 ≤ length ids) × (parent_ids tpls tid ≡ []))
unfolding parent_ids
parent_ids-IsChain tpls tid = elim (parent_loop-Finds 10 tpls tid []) [
  | inl (ids, c, short, run) ↦ inl (ids, c, short, rw run (descending-reverse ids))
  | inr (long, run) ↦ inr (long, rw run refl)
]
