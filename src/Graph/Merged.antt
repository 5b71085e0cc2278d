-- ===== src/Graph/Merged.antt =====
-- modules/graph/api/graph.go: the loops of Query that merge the cached points and format the result.
use falcon_plus.Base.{
  ℕ, zero, suc, ◌+◌, ◌*◌, ◌≤◌, ◌<◌, ◌≡◌, refl, ap, sym, ◌∙◌, subst, ◌⊎◌, inl, inr, true, false, not,
  some, List, [], ◌∷◌, ◌++◌, map, length, set, get_elem?, length-append, length-set, ltb,
  if◌then◌else◌, Bool-cases, arith,
}
use falcon_plus.Base.Int.{ℤ, pos, eqb_ℤ, eqb_ℤ_iff}
use falcon_plus.Base.Word.{add64, add64_pos, two63}
use falcon_plus.Base.Float.{Float64}
use falcon_plus.Graph.Query.{RrdData, Sources, merge_cached, format_result}
use falcon_plus.Graph.Consec.{
  times-suc, Consec, Has, Consec-set, Consec-append, get_elem?-set_self, get_elem?-set_other,
  get_elem?-append, get_elem?-append_end, get_elem?-Has,
}

module _ {F : Type 0} ⦃f : Float64 F⦄ (env : Sources F) (size : ℕ) where
  -- One round of the loop over the cached items.
  abbrev laid : ℕ → RrdData F → List (RrdData F) → List (RrdData F)
  laid idx c merged =
      if ltb idx size
      then (if not (env.is_nan c.value) then set merged idx c else merged)
      else merged ++ c ∷ []

  -- The next cached item goes to the place `p`: to `idx` within the data that were there, or to the end.
  abbrev pub Places : ℕ → ℕ → List (RrdData F) → Type 0
  Places idx p merged =
      ((idx < size) × (size ≡ length merged) × (p ≡ idx)) ⊎ ((size ≤ idx) × (p ≡ length merged))

  length-laid_inside :
      (idx : ℕ) (c : RrdData F) (merged : List (RrdData F))
      → idx < size
      → length (laid idx c merged) ≡ length merged
  length-laid_inside idx c merged h = elim (Bool-cases (env.is_nan c.value)) [
    | inl nan ↦ let e : ltb idx size ≡ true = ground (arith, h) in rw (e, nan) refl
    | inr number ↦
        let e : ltb idx size ≡ true = ground (arith, h) in rw (e, number) (length-set merged idx c)
  ]

  laid_end :
      (idx : ℕ) (c : RrdData F) (merged : List (RrdData F))
      → size ≤ idx
      → laid idx c merged ≡ merged ++ c ∷ []
  laid_end idx c merged h = let e : ltb idx size ≡ false = ground (arith, h) in rw e refl

  Places-laid :
      (idx p : ℕ) (c : RrdData F) (merged : List (RrdData F))
      → Places idx p merged
      → Places (suc idx) (suc p) (laid idx c merged)
  Places-laid idx p c merged (inl (inside, whole, here)) =
      let same = length-laid_inside idx c merged inside in
      elim (Bool-cases (ltb (suc idx) size)) [
        | inl more ↦ inl (ground (arith, more), omega (arith, same, whole), omega (arith, here))
        | inr last ↦ inr (ground (arith, last), ground (arith, same, whole, here, last, inside))
      ]
  Places-laid idx p c merged (inr (past, end)) = inr (
    omega (arith, past),
    rw (laid_end idx c merged past) (omega (arith, length-append merged (c ∷ []), end)),
  )

  laid-below :
      (idx p i : ℕ) (c : RrdData F) (merged : List (RrdData F))
      → Places idx p merged
      → i < p
      → get_elem? (laid idx c merged) i ≡ get_elem? merged i
  laid-below idx p i c merged (inl (inside, whole, here)) h =
      let e : ltb idx size ≡ true = ground (arith, inside) in
      elim (Bool-cases (env.is_nan c.value)) [
        | inl nan ↦ rw (e, nan) refl
        | inr number ↦ rw (e, number) (get_elem?-set_other merged i idx c (omega (arith, here, h)))
      ]
  laid-below idx p i c merged (inr (past, end)) h =
      rw (laid_end idx c merged past) (get_elem?-append merged (c ∷ []) i (omega (arith, end, h)))

  laid_here :
      (idx p : ℕ) (c : RrdData F) (merged : List (RrdData F))
      → Places idx p merged
      → env.is_nan c.value ≡ false
      → get_elem? (laid idx c merged) p ≡ some c
  laid_here idx p c merged (inl (inside, whole, here)) number =
      let e : ltb idx size ≡ true = ground (arith, inside) in
      rw (e, number, here) (get_elem?-set_self merged idx c (omega (arith, whole, inside)))
  laid_here idx p c merged (inr (past, end)) number =
      rw (laid_end idx c merged past, end) (get_elem?-append_end merged c)

  merge_cached-below :
      (cache : List (RrdData F)) (idx p i : ℕ) (merged : List (RrdData F))
      → Places idx p merged
      → i < p
      → get_elem? (merge_cached env size idx cache merged) i ≡ get_elem? merged i
  unfolding merge_cached
  merge_cached-below [] idx p i merged h k = refl
  merge_cached-below (c ∷ cache) idx p i merged h k =
      merge_cached-below cache (suc idx) (suc p) i (laid idx c merged)
        (Places-laid idx p c merged h) (omega (arith, k))
      ∙ laid-below idx p i c merged h k

  -- A cached number is merged.
  pub merge_cached-Has :
      (cache : List (RrdData F)) (idx p : ℕ) (merged : List (RrdData F)) (d : RrdData F)
      → Places idx p merged
      → env.is_nan d.value ≡ false
      → Has d cache
      → Has d (merge_cached env size idx cache merged)
  unfolding merge_cached
  merge_cached-Has [] idx p merged d h number m = absurd m
  merge_cached-Has (c ∷ cache) idx p merged d h number (inl e) = get_elem?-Has _ p d (
      merge_cached-below cache (suc idx) (suc p) p (laid idx c merged)
        (Places-laid idx p c merged h) (omega arith)
      ∙ rw (← e) (laid_here idx p c merged h (rw e number)))
  merge_cached-Has (c ∷ cache) idx p merged d h number (inr m) =
      merge_cached-Has cache (suc idx) (suc p) (laid idx c merged) d (Places-laid idx p c merged h)
        number m

  laid-Consec :
      (s t idx p : ℕ) (c : RrdData F) (merged : List (RrdData F))
      → Places idx p merged
      → Consec s t merged
      → c.timestamp ≡ pos (t + p * s)
      → Consec s t (laid idx c merged)
  laid-Consec s t idx p c merged (inl (inside, whole, here)) h e =
      let test : ltb idx size ≡ true = ground (arith, inside) in
      elim (Bool-cases (env.is_nan c.value)) [
        | inl nan ↦ rw (test, nan) h
        | inr number ↦
            rw (test, number) (Consec-set s t idx merged c h (e ∙ ap (λ i. pos (t + i * s)) here))
      ]
  laid-Consec s t idx p c merged (inr (past, end)) h e =
      rw (laid_end idx c merged past)
        (Consec-append s t merged (c ∷ []) h (e ∙ ap (λ i. pos (t + i * s)) end, tt))

  pub merge_cached-Consec :
      (s t : ℕ) (cache : List (RrdData F)) (idx p : ℕ) (merged : List (RrdData F))
      → Places idx p merged
      → Consec s t merged
      → Consec s (t + p * s) cache
      → Consec s t (merge_cached env size idx cache merged)
  unfolding merge_cached
  merge_cached-Consec s t [] idx p merged h k c = k
  merge_cached-Consec s t (x ∷ cache) idx p merged h k (e, c) =
      let next : t + p * s + s ≡ t + suc p * s = omega (arith, times-suc p s) in
      merge_cached-Consec s t cache (suc idx) (suc p) (laid idx x merged)
        (Places-laid idx p x merged h) (laid-Consec s t idx p x merged h k e)
        (subst (λ u. Consec s u cache) next c)

module _ {F : Type 0} ⦃f : Float64 F⦄ (env : Sources F) where
  -- The times of an answer: one step after another.
  abbrev pub grid : ℕ → ℤ → ℤ → List ℤ
  grid zero step ts = []
  grid (suc n) step ts = ts ∷ grid n step (add64 ts step)

  abbrev pub times_of : List (RrdData F) → List ℤ
  times_of l = map (λ d. d.timestamp) l

  pub format_result-grid :
      (n : ℕ) (step ts : ℤ) (l : List (RrdData F))
      → times_of (format_result env n step ts l) ≡ grid n step ts
  unfolding format_result
  format_result-grid zero step ts l = refl
  format_result-grid (suc n) step ts [] = ap (◌∷◌ ts) (format_result-grid n step (add64 ts step) [])
  format_result-grid (suc n) step ts (d ∷ l) = elim (Bool-cases (eqb_ℤ ts d.timestamp)) [
    | inl same ↦
        let e : d.timestamp ≡ ts = sym ((eqb_ℤ_iff ts d.timestamp).0 same) in
        rw (same, format_result-grid n step (add64 ts step) l)
          (ap (λ u. u ∷ grid n step (add64 ts step)) e)
    | inr other ↦ rw (other, format_result-grid n step (add64 ts step) (d ∷ l)) refl
  ]

  -- What stands in the list, and within the size of the answer, is in the answer.
  pub format_result-place :
      (n s t : ℕ) (l : List (RrdData F)) (i : ℕ) (d : RrdData F)
      → t + n * s < two63
      → Consec s t l
      → i < n
      → get_elem? l i ≡ some d
      → get_elem? (format_result env n (pos s) (pos t) l) i ≡ some d
  unfolding format_result
  format_result-place zero s t l i d b h k e = absurd (omega (arith, k))
  format_result-place (suc n) s t [] i d b h k e = absurd (ground (arith, e))
  format_result-place (suc n) s t (x ∷ l) i d b (here, h) k e =
      let fits : t + s < two63 = omega (arith, b, times-suc n s) in
      let next : add64 (pos t) (pos s) ≡ pos (t + s) = add64_pos t s fits in
      let same : eqb_ℤ (pos t) x.timestamp ≡ true = (eqb_ℤ_iff (pos t) x.timestamp).1 (sym here) in
      elim i
          as (λ i.
            i < suc n
            → get_elem? (x ∷ l) i ≡ some d
            → get_elem? (format_result env (suc n) (pos s) (pos t) (x ∷ l)) i ≡ some d) [
              | zero ↦ λ k e. rw same e
              | suc i ↦ λ k e.
                  rw (same, next)
                    (format_result-place n s (t + s) l i d (omega (arith, b, times-suc n s)) h
                      (omega (arith, k)) e)
            ]
        k e
