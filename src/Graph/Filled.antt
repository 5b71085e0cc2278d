-- ===== src/Graph/Filled.antt =====
-- modules/graph/api/graph.go: the junction that Query finds, and the times that it fills up behind it.
use falcon_plus.Base.{
  ℕ, zero, suc, ◌+◌, ◌*◌, ◌≤◌, ◌<◌, ◌≡◌, refl, ap, ◌∙◌, ◌⊎◌, inl, inr, true, false, none, some,
  List, [], ◌∷◌, length, Run, Bool-cases, arith,
}
use falcon_plus.Base.Int.{pos, ltb_ℤ, ◌-ℤ◌}
use falcon_plus.Base.Word.{add64, add64_pos, two63}
use falcon_plus.Base.Float.{Float64}
use falcon_plus.Graph.Query.{RrdData, Sources, at_time, junction, rounds, missing_loop}
use falcon_plus.Graph.Consec.{times-suc, le-times, Consec}

module _ {F : Type 0} where
  -- What the search for the junction finds in consecutive data.
  abbrev pub Joins : ℕ → ℕ → ℕ → List (RrdData F) → Type 0
  Joins s t c l =
      ((junction (pos c) l ≡ none) × ((l ≡ []) ⊎ (c ≤ t)))
      ⊎ ((i : ℕ) × (junction (pos c) l ≡ some (i, pos (t + i * s)))
          × (i < length l)
          × (t + i * s < c)
          × ((suc i ≡ length l) ⊎ (c ≤ t + suc i * s)))

  pub junction-Joins : (s t c : ℕ) (l : List (RrdData F)) → Consec s t l → Joins s t c l
  unfolding junction
  junction-Joins s t c [] h = inl (refl, inl refl)
  junction-Joins s t c (d ∷ l) (e, h) = elim (junction-Joins s (t + s) c l h) [
    | inl (nowhere, edge) ↦ elim (Bool-cases (ltb_ℤ d.timestamp (pos c))) [
      | inl before ↦ inr (
        0,
        rw (nowhere, before)
            (let same : t ≡ t + 0 * s = omega arith in ap (λ u. some (0, u)) (e ∙ ap pos same)),
        omega arith,
        ground (arith, e, before),
        edge_here edge,
      )
      | inr after ↦ inl (rw (nowhere, after) refl, inr (ground (arith, e, after)))
    ]
    | inr (i, found, inside, before, edge) ↦
        let same : t + s + i * s ≡ t + suc i * s = omega (arith, times-suc i s) in
        inr (
          suc i,
          rw found (ap (λ u. some (suc i, pos u)) same),
          omega (arith, inside),
          omega (arith, before, same),
          edge_later i edge,
        )
  ]
    where
      edge_here : (l ≡ []) ⊎ (c ≤ t + s) → (1 ≡ suc (length l)) ⊎ (c ≤ t + 1 * s)
      edge_here (inl none_left) = inl (rw none_left refl)
      edge_here (inr near) = inr (omega (arith, near))

      edge_later :
          (i : ℕ)
          → (suc i ≡ length l) ⊎ (c ≤ t + s + suc i * s)
          → (suc (suc i) ≡ suc (length l)) ⊎ (c ≤ t + suc (suc i) * s)
      edge_later i (inl whole) = inl (ap suc whole)
      edge_later i (inr near) = inr (omega (arith, near, times-suc (suc i) s))

pub fits_round : (s u g : ℕ) → 0 < s → g < rounds (pos u) (pos (u + g * s))
unfolding ◌-ℤ◌
fits_round s u g p = ground (arith, le-times g s p)

module _ {F : Type 0} ⦃f : Float64 F⦄ (env : Sources F) where
  -- The loop ends, with a value for each time that is missing.
  abbrev pub Fills : ℕ → ℕ → ℕ → Run (List (RrdData F)) → Type 0
  Fills s u g run = (l : List (RrdData F)) × (run ≡ some l) × Consec s u l × (length l ≡ g)

  pub missing_loop-Fills :
      (n s u g : ℕ)
      → 0 < s
      → u + g * s < two63
      → g < n
      → Fills s u g (missing_loop env n (pos (u + g * s)) (pos s) (pos u))
  unfolding missing_loop
  missing_loop-Fills zero s u g p b h = absurd (omega (arith, h))
  missing_loop-Fills (suc n) s u zero p b h =
      let past : ltb_ℤ (pos u) (pos (u + 0 * s)) ≡ false = ground arith in
      ([], rw past refl, tt, refl)
  missing_loop-Fills (suc n) s u (suc g) p b h =
      let same : u + s + g * s ≡ u + suc g * s = omega (arith, times-suc g s) in
      let next : add64 (pos u) (pos s) ≡ pos (u + s) =
        add64_pos u s (omega (arith, b, times-suc g s)) in
      let more : ltb_ℤ (pos u) (pos (u + suc g * s)) ≡ true = ground (arith, times-suc g s, p) in
      let (l, run, c, size) =
        missing_loop-Fills n s (u + s) g p (omega (arith, b, same)) (omega (arith, h)) in
      (at_time (pos u) env.nan ∷ l, rw (more, next, ← same, run) refl, (refl, c), ap suc size)

  pub missing_loop-none :
      (n s v c : ℕ) → c ≤ v → missing_loop env (suc n) (pos c) (pos s) (pos v) ≡ some []
  unfolding missing_loop
  missing_loop-none n s v c h =
      let past : ltb_ℤ (pos v) (pos c) ≡ false = ground (arith, h) in rw past refl
