-- ===== src/Graph/Ranged.antt =====
-- modules/graph/api/graph.go: the cached points of Query in the range of times that was asked for.
use falcon_plus.Base.{
  ℕ, zero, suc, ◌+◌, ◌*◌, ◌≤◌, ◌<◌, ◌≡◌, refl, ap, sym, ◌∙◌, subst, inl, inr, true, false, some,
  List, [], ◌∷◌, All, Run, ◌>>=◌, if◌then◌else◌, Bool-cases, arith,
}
use falcon_plus.Base.Int.{ℤ, pos, leb_ℤ, eqb_ℤ, eqb_ℤ_iff}
use falcon_plus.Base.Word.{add64, add64_pos, two63}
use falcon_plus.Base.Float.{Float64}
use falcon_plus.Graph.Linked.{GraphItem}
use falcon_plus.Graph.Query.{RrdData, Sources, at_time, in_range, within, gauge_value, cache_loop}
use falcon_plus.Graph.Consec.{times-suc, Consec, Has}

module _ {F : Type 0} where
  within-past :
      (s a b t : ℕ) (l : List (RrdData F)) → b < t → Consec s t l → within (pos a) (pos b) l ≡ []
  unfolding within
  within-past s a b t [] p h = refl
  within-past s a b t (d ∷ l) p (e, h) =
      let out : in_range (pos a) (pos b) d.timestamp ≡ false = ground (arith, e, p) in
      rw out (within-past s a b (t + s) l (omega (arith, p)) h)

  pub within-Consec :
      (s a b t : ℕ) (l : List (RrdData F))
      → a ≤ t
      → Consec s t l
      → Consec s t (within (pos a) (pos b) l)
  unfolding within
  within-Consec s a b t [] p h = tt
  within-Consec s a b t (d ∷ l) p (e, h) =
      elim (Bool-cases (in_range (pos a) (pos b) d.timestamp)) [
        | inl inside ↦ rw inside (e, within-Consec s a b (t + s) l (omega (arith, p)) h)
        | inr outside ↦
            let past : b < t = ground (arith, e, p, outside) in
            rw (outside, within-past s a b (t + s) l (omega (arith, past)) h) tt
      ]

  pub within-Consec_from :
      (s a b t g : ℕ) (l : List (RrdData F))
      → 0 < s
      → a ≡ t + g * s
      → Consec s t l
      → Consec s a (within (pos a) (pos b) l)
  unfolding within
  within-Consec_from s a b t zero l p e h =
      let same : t ≡ a = omega (arith, e) in
      within-Consec s a b a l (omega arith) (subst (λ u. Consec s u l) same h)
  within-Consec_from s a b t (suc g) [] p e h = tt
  within-Consec_from s a b t (suc g) (d ∷ l) p e (here, h) =
      let before : t < a = omega (arith, e, times-suc g s, p) in
      let out : in_range (pos a) (pos b) d.timestamp ≡ false = ground (arith, here, before) in
      rw out (within-Consec_from s a b (t + s) g l p (omega (arith, e, times-suc g s)) h)

  pub within-Has :
      (start_ts end_ts : ℤ) (d : RrdData F) (l : List (RrdData F))
      → in_range start_ts end_ts d.timestamp ≡ true
      → Has d l
      → Has d (within start_ts end_ts l)
  unfolding within
  within-Has start_ts end_ts d [] inside m = absurd m
  within-Has start_ts end_ts d (x ∷ l) inside (inl e) =
      let inside' : in_range start_ts end_ts x.timestamp ≡ true =
        subst (λ y. in_range start_ts end_ts y.timestamp ≡ true) (sym e) inside in
      rw inside' (inl e)
  within-Has start_ts end_ts d (x ∷ l) inside (inr m) =
      elim (Bool-cases (in_range start_ts end_ts x.timestamp)) [
        | inl keep ↦ rw keep (inr (within-Has start_ts end_ts d l inside m))
        | inr drop ↦ rw drop (within-Has start_ts end_ts d l inside m)
      ]

  -- Points in rising order of time, on the times `t`, `t + s`, and so on.
  abbrev pub Lined : ℕ → ℕ → List (GraphItem F) → Type 0
  Lined s t [] = Unit {0}
  Lined s t (i ∷ items) = (g : ℕ) × (i.timestamp ≡ pos (t + g * s)) × Lined s (t + g * s + s) items

  abbrev pub datum_of : GraphItem F → RrdData F
  datum_of i = at_time i.timestamp i.value

module _ {F : Type 0} ⦃f : Float64 F⦄ (env : Sources F) where
  -- The loop ends with those of some data that are in range: consecutive ones, with each point.
  abbrev pub Formats : ℕ → ℕ → ℕ → ℕ → List (GraphItem F) → Run (List (RrdData F)) → Type 0
  Formats s a b t items run =
      (full : List (RrdData F)) × (run ≡ some (within (pos a) (pos b) full))
      × Consec s t full
      × All (λ i. Has (datum_of i) full) items

  keep_later :
      (d : RrdData F) (full : List (RrdData F)) (items : List (GraphItem F))
      → All (λ i. Has (datum_of i) full) items
      → All (λ i. Has (datum_of i) (d ∷ full)) items
  keep_later d full [] h = tt
  keep_later d full (i ∷ items) h = (inr h.0, keep_later d full items h.1)

  Formats-next :
      (s a b t : ℕ) (val : F) (items items' : List (GraphItem F)) (rest : Run (List (RrdData F)))
      → Formats s a b (t + s) items' rest
      → ((full : List (RrdData F))
          → All (λ i. Has (datum_of i) full) items'
          → All (λ i. Has (datum_of i) (at_time (pos t) val ∷ full)) items)
      → Formats s a b t items (
          rest >>= λ cache.
          some (if in_range (pos a) (pos b) (pos t) then at_time (pos t) val ∷ cache else cache))
  unfolding within
  Formats-next s a b t val items items' rest (full, run, c, has) keep =
      (at_time (pos t) val ∷ full, rw run refl, (refl, c), keep full has)

  pub gauge_loop-Formats :
      (n s a b t e : ℕ) (items : List (GraphItem F))
      → 0 < s
      → e + s < two63
      → 0 < n
      → e + 1 < t + n
      → Lined s t items
      → All (λ i. leb_ℤ i.timestamp (pos e) ≡ true) items
      → Formats s a b t items (
          cache_loop env n
            (λ u. leb_ℤ u (pos e))
            (gauge_value env)
            (pos a)
            (pos b)
            (pos s)
            (pos t)
            items)
  unfolding cache_loop within
  gauge_loop-Formats zero s a b t e items p fits q fuel lined bounded = absurd (omega (arith, q))
  gauge_loop-Formats (suc n) s a b t e [] p fits q fuel lined bounded =
      elim (Bool-cases (leb_ℤ (pos t) (pos e))) [
        | inr past ↦ ([], rw past refl, tt, tt)
        | inl more ↦
            let next : add64 (pos t) (pos s) ≡ pos (t + s) =
              add64_pos t s (ground (arith, more, fits)) in
            rw (more, next)
              (Formats-next s a b t env.nan [] [] _
                (gauge_loop-Formats n s a b (t + s) e [] p fits (ground (arith, more, fuel))
                  (omega (arith, p, fuel)) tt tt)
                (λ full h. tt))
      ]
  gauge_loop-Formats (suc n) s a b t e (i ∷ items) p fits q fuel (zero, ie, lined) bounded =
      let here : i.timestamp ≡ pos t =
        ie ∙ ap pos (let same : t + 0 * s ≡ t = omega arith in same) in
      let low : t ≤ e = ground (arith, here, bounded.0) in
      let more : leb_ℤ (pos t) (pos e) ≡ true = ground (arith, low) in
      let next : add64 (pos t) (pos s) ≡ pos (t + s) = add64_pos t s (omega (arith, low, fits)) in
      let found : eqb_ℤ (pos t) i.timestamp ≡ true = (eqb_ℤ_iff (pos t) i.timestamp).1 (sym here) in
      let lined' : Lined s (t + s) items =
        subst (λ u. Lined s u items) (let same : t + 0 * s + s ≡ t + s = omega arith in same)
          lined in
      rw (more, next, found)
        (Formats-next s a b t i.value (i ∷ items) items _
          (gauge_loop-Formats n s a b (t + s) e items p fits (omega (arith, low, fuel))
            (omega (arith, p, fuel)) lined' bounded.1)
          (λ full h. (
            inl (ap (λ u. at_time u i.value) (sym here)),
            keep_later (at_time (pos t) i.value) full items h,
          )))
  gauge_loop-Formats (suc n) s a b t e (i ∷ items) p fits q fuel (suc g, ie, lined) bounded =
      let far : t < t + suc g * s = omega (arith, times-suc g s, p) in
      let low : t ≤ e = ground (arith, ie, far, bounded.0) in
      let more : leb_ℤ (pos t) (pos e) ≡ true = ground (arith, low) in
      let next : add64 (pos t) (pos s) ≡ pos (t + s) = add64_pos t s (omega (arith, low, fits)) in
      let other : eqb_ℤ (pos t) i.timestamp ≡ false = ground (arith, ie, far) in
      let same : t + suc g * s ≡ t + s + g * s = omega (arith, times-suc g s) in
      let lined' : Lined s (t + s) (i ∷ items) =
        (g, ie ∙ ap pos same, subst (λ u. Lined s (u + s) items) same lined) in
      rw (more, next, other)
        (Formats-next s a b t env.nan (i ∷ items) (i ∷ items) _
          (gauge_loop-Formats n s a b (t + s) e (i ∷ items) p fits (omega (arith, low, fuel))
            (omega (arith, p, fuel)) lined' bounded)
          (λ full h. keep_later (at_time (pos t) env.nan) full (i ∷ items) h))
