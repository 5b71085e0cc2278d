-- ===== src/Graph/Joined.antt =====
-- modules/graph/api/graph.go: where the cached points of Query join the data of the rrd file.
use falcon_plus.Base.{
  ℕ, suc, ◌+◌, ◌-◌, ◌*◌, ◌≤◌, ◌<◌, ◌≡◌, refl, ap, sym, ◌∙◌, subst, inl, inr, false, Option, none,
  some, List, [], ◌∷◌, ◌++◌, length, length-append, ltb, Run, ◌>>=◌, Bool-cases, arith,
}
use mathlib.Core.List.{append-nil}
use falcon_plus.Base.Int.{ℤ, pos}
use falcon_plus.Base.Word.{add64, add64_pos, two63}
use falcon_plus.Base.Float.{Float64}
use falcon_plus.Graph.Query.{
  RrdData, Sources, junction, after_junction, rounds, missing_loop, merge_cached, joined,
  do_merging,
}
use falcon_plus.Graph.Consec.{
  times-suc, lt_of_times, times-zero, next_place, Consec, Has, Consec-append,
}
use falcon_plus.Graph.Merged.{Places, merge_cached-Has, merge_cached-Consec}
use falcon_plus.Graph.Filled.{fits_round, junction-Joins, missing_loop-Fills, missing_loop-none}

module _ {F : Type 0} ⦃f : Float64 F⦄ (env : Sources F) where
  -- The merged data are consecutive and hold each cached number.
  abbrev pub Merges : ℕ → ℕ → List (RrdData F) → Run (List (RrdData F)) → Type 0
  Merges s a cache run =
      (k : ℕ) × (l : List (RrdData F)) × (run ≡ some l)
      × Consec s (a + k * s) l
      × ((d : RrdData F) → env.is_nan d.value ≡ false → Has d cache → Has d l)

  starts :
      (idx : ℕ) (merged : List (RrdData F))
      → idx ≤ length merged
      → Places env (length merged) idx idx merged
  starts idx merged h = elim (Bool-cases (ltb idx (length merged))) [
    | inl inside ↦ inl (ground (arith, inside), refl, refl)
    | inr past ↦ inr (ground (arith, past), ground (arith, past, h))
  ]

  -- With no gap.
  Merges-at :
      (s a c idx k : ℕ) (v : ℕ) (merged cache : List (RrdData F)) (x : RrdData F)
      → x.timestamp ≡ pos c
      → c ≤ v
      → Consec s (a + k * s) merged
      → Consec s (a + k * s + idx * s) (x ∷ cache)
      → idx ≤ length merged
      → Merges s a (x ∷ cache) (
          missing_loop env (rounds (pos v) (pos c)) (pos c) (pos s) (pos v) >>= λ missing.
          some (merge_cached env (length merged) idx (x ∷ cache) (merged ++ missing)))
  Merges-at s a c idx k v merged cache x e past h hc inside = (
    k,
    merge_cached env (length merged) idx (x ∷ cache) (merged ++ []),
    rw (missing_loop-none env _ s v c past) refl,
    rw (append-nil merged) (
        merge_cached-Consec env (length merged) s (a + k * s) (x ∷ cache) idx idx merged
          (starts idx merged inside) h hc),
    λ d number m. rw (append-nil merged) (
        merge_cached-Has env (length merged) (x ∷ cache) idx idx merged d (starts idx merged inside)
          number m),
  )

  -- With a gap of `g` times behind the data.
  Merges-after :
      (s a i g : ℕ) (merged cache : List (RrdData F)) (x : RrdData F)
      → 0 < s
      → suc i ≡ length merged
      → a + (suc i + g) * s < two63
      → Consec s a merged
      → Consec s (a + (suc i + g) * s) (x ∷ cache)
      → Merges s a (x ∷ cache) (
          missing_loop env
            (rounds (pos (a + i * s + s)) (pos (a + (suc i + g) * s)))
            (pos (a + (suc i + g) * s))
            (pos s)
            (pos (a + i * s + s))
          >>= λ missing.
              some (merge_cached env (length merged) (suc i) (x ∷ cache) (merged ++ missing)))
  Merges-after s a i g merged cache x p whole bound h hc =
      let u : ℕ = a + i * s + s in
      let end : a + i * s + s + g * s ≡ a + (suc i + g) * s = grind arith in
      let from : a + length merged * s ≡ a + i * s + s =
        rw (← whole) (omega (arith, times-suc i s)) in
      let (l, run, filled, size) =
        missing_loop-Fills env (rounds (pos u) (pos (u + g * s))) s u g p
          (omega (arith, bound, end)) (fits_round s u g p) in
      let all : Consec s a (merged ++ l) =
        Consec-append s a merged l h (subst (λ v. Consec s v l) (sym from) filled) in
      let here : suc i + g ≡ length (merged ++ l) =
        omega (arith, length-append merged l, whole, size) in
      let places : Places env (length merged) (suc i) (suc i + g) (merged ++ l) =
        inr (omega (arith, whole), here) in
      let run' : missing_loop env (rounds (pos u) (pos (a + (suc i + g) * s)))
            (pos (a + (suc i + g) * s)) (pos s) (pos u)
          ≡ some l =
        subst (λ v. missing_loop env (rounds (pos u) (pos v)) (pos v) (pos s) (pos u) ≡ some l) end
          run in
      let zero_times : a + 0 * s ≡ a = omega arith in
      (
        0,
        merge_cached env (length merged) (suc i) (x ∷ cache) (merged ++ l),
        rw run' refl,
        subst (λ v. Consec s v (merge_cached env (length merged) (suc i) (x ∷ cache) (merged ++ l)))
            (sym zero_times)
            (merge_cached-Consec env (length merged) s a (x ∷ cache) (suc i) (suc i + g)
              (merged ++ l) places all hc),
        λ d number m.
            merge_cached-Has env (length merged) (x ∷ cache) (suc i) (suc i + g) (merged ++ l) d
              places number m,
      )

  pub do_merging-Merges :
      (s a k : ℕ) (merged cache : List (RrdData F)) (x : RrdData F)
      → 0 < s
      → a + k * s + s < two63
      → Consec s a merged
      → Consec s (a + k * s) (x ∷ cache)
      → Merges s a (x ∷ cache) (do_merging env (pos s) (x ∷ cache) merged)
  unfolding do_merging
  do_merging-Merges s a k merged cache x p bound h hc =
      let c : ℕ = a + k * s in
      let next : add64 (pos c) (pos s) ≡ pos (c + s) = add64_pos c s bound in
      let first_c : a + 0 * s ≡ a = omega arith in
      let all = x ∷ cache in
      let at_c : do_merging env (pos s) all merged
          ≡ joined env (pos s) all merged (pos c)
              (after_junction (pos c) (junction (pos c) merged)) =
        ap (λ ts. joined env (pos s) all merged ts (after_junction ts (junction ts merged))) hc.0 in
      let on = λ (idx : ℕ) (v : ℤ).
        missing_loop env (rounds v (pos c)) (pos c) (pos s) v >>= λ missing.
        some (merge_cached env (length merged) idx all (merged ++ missing)) in
      let found_at = λ (o : Option (ℕ × ℤ)) (e : junction (pos c) merged ≡ o).
        at_c ∙ ap (λ o. joined env (pos s) all merged (pos c) (after_junction (pos c) o)) e in
      let merges = λ (run : Run (List (RrdData F))). Merges s a all run in
      elim (junction-Joins s a c merged h) [
        | inl (nowhere, edge) ↦
            subst merges (sym (found_at none nowhere ∙ ap (on 0) next)) (elim edge [
              | inl empty ↦
                  Merges-at s a c 0 k (c + s) merged cache x hc.0 (omega arith) (rw empty tt)
                    (let same : c ≡ c + 0 * s = omega arith in subst (λ v. Consec s v all) same hc)
                    (omega arith)
              | inr early ↦
                  let none_before : k ≡ 0 = times-zero k s p (omega (arith, early)) in
                  Merges-at s a c 0 0 (c + s) merged cache x hc.0 (omega arith)
                    (subst (λ v. Consec s v merged) (sym first_c) h)
                    (let same : a + k * s ≡ a + 0 * s + 0 * s = rw none_before (omega arith) in
                      subst (λ v. Consec s v all) same hc)
                    (omega arith)
            ])
        | inr (i, found, inside, before, edge) ↦
            let below : i < k = lt_of_times i k s (omega (arith, before)) in
            let step_on : add64 (pos (a + i * s)) (pos s) ≡ pos (a + i * s + s) =
              add64_pos (a + i * s) s (omega (arith, bound, before)) in
            subst merges
              (sym (found_at (some (i, pos (a + i * s))) found ∙ ap (on (suc i)) step_on))
              (elim edge [
                | inl whole ↦
                    let g : ℕ = k - suc i in
                    let gap : k ≡ suc i + g = omega (arith, below) in
                    let fits : a + (suc i + g) * s < two63 =
                      subst (λ v. a + v * s < two63) gap (omega (arith, bound)) in
                    subst
                      (λ v. merges (
                        missing_loop env (rounds (pos (a + i * s + s)) (pos (a + v * s)))
                          (pos (a + v * s)) (pos s) (pos (a + i * s + s))
                        >>= λ missing.
                            some
                              (merge_cached env (length merged) (suc i) all (merged ++ missing))))
                      (sym gap)
                      (Merges-after s a i g merged cache x p whole fits h
                        (subst (λ v. Consec s (a + v * s) all) gap hc))
                | inr near ↦
                    let same_k : k ≡ suc i = next_place i k s p below (omega (arith, near)) in
                    Merges-at s a c (suc i) 0 (a + i * s + s) merged cache x hc.0
                      (omega (arith, near, times-suc i s))
                      (subst (λ v. Consec s v merged) (sym first_c) h)
                      (let same : a + k * s ≡ a + 0 * s + suc i * s = rw same_k (omega arith) in
                        subst (λ v. Consec s v all) same hc)
                      (omega (arith, inside))
              ])
      ]
