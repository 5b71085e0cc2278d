-- ===== src/Graph/Formatted.antt =====
-- modules/graph/api/graph.go: the formatted answer of Query holds each time once, and what was merged.
use falcon_plus.Base.{
  ℕ, zero, suc, ◌+◌, ◌-◌, ◌*◌, ◌/◌, ◌≤◌, ◌<◌, ◌≡◌, refl, ap, sym, ◌∙◌, subst, ◌⊎◌, inl, inr, true,
  false, some, List, [], ◌∷◌, get_elem?, All, Run, ◌>>=◌, arith,
}
use native.Mathlib.Nat.{div-mul-le_self, div-le_self}
use falcon_plus.Base.Int.{pos, leb_ℤ, eqb_ℤ, ◌-ℤ◌}
use falcon_plus.Base.Word.{add64, add64_pos, sub64_pos, quot_ℤ, two63}
use falcon_plus.Base.Text.{codes, eq_text}
use falcon_plus.Base.Float.{Float64}
use falcon_plus.Graph.Linked.{GraphItem, last_of}
use falcon_plus.Graph.Query.{RrdData, Sources, in_range, rounds, format_result, ret_size}
use falcon_plus.Graph.Consec.{times-suc, times_add, le-div, Consec, Has, get_elem?-Has}
use falcon_plus.Graph.Merged.{grid, times_of, format_result-grid, format_result-place}
use falcon_plus.Graph.Ranged.{Lined}

module _ {F : Type 0} where
  abbrev pub HasItem : GraphItem F → List (GraphItem F) → Type 0
  HasItem i [] = ⊥
  HasItem i (x ∷ items) = (x ≡ i) ⊎ HasItem i items

  pub All-HasItem :
      (P : GraphItem F → Type 0) (i : GraphItem F) (items : List (GraphItem F))
      → All P items
      → HasItem i items
      → P i
  All-HasItem P i [] h m = absurd m
  All-HasItem P i (x ∷ items) h (inl e) = subst P e h.0
  All-HasItem P i (x ∷ items) h (inr m) = All-HasItem P i items h.1 m

  pub Lined-bounded :
      (s t e : ℕ) (items : List (GraphItem F)) (last : GraphItem F)
      → Lined s t items
      → last_of items ≡ some last
      → last.timestamp ≡ pos e
      → All (λ i. leb_ℤ i.timestamp (pos e) ≡ true) items
  Lined-bounded s t e [] last h l at_e = tt
  Lined-bounded s t e (i ∷ []) last h l at_e =
      let same : i ≡ last = ground (arith, l) in
      (subst (λ x. leb_ℤ x.timestamp (pos e) ≡ true) (sym same) (rw at_e (ground arith)), tt)
  Lined-bounded s t e (i ∷ j ∷ items) last (g, ie, (g', je, h)) l at_e =
      let rest = Lined-bounded s (t + g * s + s) e (j ∷ items) last (g', je, h) l at_e in
      (ground (arith, rest.0, ie, je), rest)

  -- Where a member of consecutive data stands.
  Has-place :
      (s t : ℕ) (d : RrdData F) (l : List (RrdData F))
      → Consec s t l
      → Has d l
      → (i : ℕ) × (get_elem? l i ≡ some d) × (d.timestamp ≡ pos (t + i * s))
  Has-place s t d [] h m = absurd m
  Has-place s t d (x ∷ l) (e, h) (inl same) = (
    0,
    ap some same,
    subst (λ y. y.timestamp ≡ pos (t + 0 * s)) same
        (e ∙ ap pos (let z : t ≡ t + 0 * s = omega arith in z)),
  )
  Has-place s t d (x ∷ l) (e, h) (inr m) =
      let (i, at_i, time) = Has-place s (t + s) d l h m in
      (
        suc i,
        at_i,
        time ∙ ap pos (let z : t + s + i * s ≡ t + suc i * s = omega (arith, times-suc i s) in z),
      )

pub enough_rounds : (t e : ℕ) → t ≤ e → e + 1 < t + rounds (pos t) (pos e)
unfolding ◌-ℤ◌
enough_rounds t e h = ground (arith, h)

pub room :
    (s a b t e k : ℕ)
    → b + s < two63
    → e + s < two63
    → a ≤ b
    → t ≤ e
    → (k ≡ 0) ⊎ (a + k * s ≡ t)
    → a + k * s + s < two63
room s a b t e k fits fits' o low (inl z) = rw z (omega (arith, fits, o))
room s a b t e k fits fits' o low (inr at_t) = omega (arith, at_t, fits', low)

module _ {F : Type 0} ⦃f : Float64 F⦄ (env : Sources F) where
  -- Data that start `k` times later are in the answer, within its size.
  format_result-Has :
      (k n s t i : ℕ) (l : List (RrdData F)) (d : RrdData F)
      → 0 < s
      → t + n * s < two63
      → Consec s (t + k * s) l
      → k + i < n
      → get_elem? l i ≡ some d
      → Has d (format_result env n (pos s) (pos t) l)
  unfolding format_result
  format_result-Has zero n s t i l d p b h k e =
      let same : t + 0 * s ≡ t = omega arith in
      get_elem?-Has _ i d (
        format_result-place env n s t l i d b (subst (λ u. Consec s u l) same h) (omega (arith, k))
          e)
  format_result-Has (suc k) zero s t i l d p b h j e = absurd (omega (arith, j))
  format_result-Has (suc k) (suc n) s t i [] d p b h j e = absurd (ground (arith, e))
  format_result-Has (suc k) (suc n) s t i (x ∷ l) d p b (here, h) j e =
      let same : t + suc k * s ≡ t + s + k * s = omega (arith, times-suc k s) in
      let later : eqb_ℤ (pos t) x.timestamp ≡ false = ground (arith, here, times-suc k s, p) in
      let next : add64 (pos t) (pos s) ≡ pos (t + s) =
        add64_pos t s (omega (arith, b, times-suc n s)) in
      let h' : Consec s (t + s + k * s) (x ∷ l) =
        (here ∙ ap pos same, subst (λ u. Consec s (u + s) l) same h) in
      rw (later, next)
        (inr (
          format_result-Has k n s (t + s) i (x ∷ l) d p (omega (arith, b, times-suc n s)) h'
            (omega (arith, j)) e))

  -- The size of the answer for a gauge.
  ret_size-gauge :
      (a b s : ℕ)
      → 0 < s
      → a ≤ b
      → b + s < two63
      → ret_size env (codes "GAUGE") (pos a) (pos b) (pos s) ≡ some ((b - a) / s + 1)
  unfolding ret_size quot_ℤ eq_text
  ret_size-gauge a b s p o fits =
      let less : (b - a) / s ≤ b - a = div-le_self (b - a) s in
      rw
        (
          sub64_pos b a o (omega (arith, fits)),
          add64_pos ((b - a) / s) 1 (omega (arith, less, fits, p, o)),
        )
        refl

  -- The answer: each time once, and a given datum among the data.
  abbrev pub Answers : ℕ → ℕ → ℕ → RrdData F → Run (List (RrdData F)) → Type 0
  Answers a b s d run =
      (l : List (RrdData F)) × (run ≡ some l)
      × (times_of env l ≡ grid env ((b - a) / s + 1) (pos s) (pos a))
      × Has d l

  pub format_result-Answers :
      (a b s k : ℕ) (l : List (RrdData F)) (d : RrdData F)
      → 0 < s
      → a ≤ b
      → b + s < two63
      → Consec s (a + k * s) l
      → in_range (pos a) (pos b) d.timestamp ≡ true
      → Has d l
      → Answers a b s d (
          ret_size env (codes "GAUGE") (pos a) (pos b) (pos s) >>= λ size.
          some (format_result env size (pos s) (pos a) l))
  format_result-Answers a b s k l d p o fits h inside m =
      let n : ℕ = (b - a) / s + 1 in
      let (i, at_i, time) = Has-place s (a + k * s) d l h m in
      let low : a + k * s + i * s ≤ b = ground (arith, inside, time) in
      let place : k + i ≤ (b - a) / s =
        le-div (k + i) (b - a) s p (omega (arith, low, times_add k i s)) in
      let whole : (b - a) / s * s ≤ b - a = div-mul-le_self (b - a) s in
      let bound : a + n * s < two63 = omega (arith, whole, fits, o, times_add ((b - a) / s) 1 s) in
      (
        format_result env n (pos s) (pos a) l,
        rw (ret_size-gauge a b s p o fits) refl,
        format_result-grid env n (pos s) (pos a) l,
        format_result-Has k n s a i l d p bound h (omega (arith, place)) at_i,
      )
