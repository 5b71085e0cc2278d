-- ===== src/Graph/Consec.antt =====
-- modules/graph/api/graph.go: lists of data at consecutive times, under the loops of Query.
use falcon_plus.Base.{
  ℕ, zero, suc, ◌+◌, ◌*◌, ◌/◌, ◌≤◌, ◌<◌, ◌≡◌, refl, ap, ◌∙◌, subst, ◌⊎◌, inl, inr, some, List, [],
  ◌∷◌, ◌++◌, length, set, get_elem?, arith,
}
use native.Mathlib.Nat.{le_of_mul-le-mul_right}
use falcon_plus.Base.Int.{pos}
use falcon_plus.Graph.Query.{RrdData}

-- The next time of a loop.
pub times-suc : (i s : ℕ) → suc i * s ≡ i * s + s
times-suc i s = grind arith

pub times_add : (i k s : ℕ) → (i + k) * s ≡ i * s + k * s
times_add i k s = grind arith

pub lt_of_times : (i k s : ℕ) → i * s < k * s → i < k
lt_of_times i k s h = grind arith

pub next_place : (i k s : ℕ) → 0 < s → i < k → k * s ≤ suc i * s → k ≡ suc i
next_place i k s p b h = omega (arith, le_of_mul-le-mul_right h p)

pub le-times : (g s : ℕ) → 0 < s → g ≤ g * s
le-times g s p = grind arith

pub times-zero : (k s : ℕ) → 0 < s → k * s ≤ 0 → k ≡ 0
times-zero k s p h = grind arith

pub le-div : (m x s : ℕ) → 0 < s → m * s ≤ x → m ≤ x / s
le-div m x s p h = grind arith

module _ {F : Type 0} where
  -- The data stand at `t`, `t + s`, and so on.
  abbrev pub Consec : ℕ → ℕ → List (RrdData F) → Type 0
  Consec s t [] = Unit {0}
  Consec s t (d ∷ ds) = (d.timestamp ≡ pos t) × Consec s (t + s) ds

  abbrev pub Has : RrdData F → List (RrdData F) → Type 0
  Has d [] = ⊥
  Has d (x ∷ l) = (x ≡ d) ⊎ Has d l

  pub Consec-set :
      (s t i : ℕ) (l : List (RrdData F)) (d : RrdData F)
      → Consec s t l
      → d.timestamp ≡ pos (t + i * s)
      → Consec s t (set l i d)
  Consec-set s t i [] d h e = tt
  Consec-set s t zero (x ∷ l) d h e = (e ∙ ap pos (omega arith), h.1)
  Consec-set s t (suc i) (x ∷ l) d h e =
      let same : t + suc i * s ≡ t + s + i * s = omega (arith, times-suc i s) in
      (h.0, Consec-set s (t + s) i l d h.1 (e ∙ ap pos same))

  pub Consec-append :
      (s t : ℕ) (l m : List (RrdData F))
      → Consec s t l
      → Consec s (t + length l * s) m
      → Consec s t (l ++ m)
  Consec-append s t [] m h k =
      subst (λ u. Consec s u m) (let e : t + 0 * s ≡ t = omega arith in e) k
  Consec-append s t (x ∷ l) m h k =
      let same : t + suc (length l) * s ≡ t + s + length l * s =
        omega (arith, times-suc (length l) s) in
      (h.0, Consec-append s (t + s) l m h.1 (subst (λ u. Consec s u m) same k))

  pub get_elem?-set_self :
      (l : List (RrdData F)) (i : ℕ) (d : RrdData F)
      → i < length l
      → get_elem? (set l i d) i ≡ some d
  get_elem?-set_self [] i d h = absurd (omega arith)
  get_elem?-set_self (x ∷ l) zero d h = refl
  get_elem?-set_self (x ∷ l) (suc i) d h = get_elem?-set_self l i d (omega arith)

  pub get_elem?-set_other :
      (l : List (RrdData F)) (i j : ℕ) (d : RrdData F)
      → i < j
      → get_elem? (set l j d) i ≡ get_elem? l i
  get_elem?-set_other [] i j d h = refl
  get_elem?-set_other (x ∷ l) i zero d h = absurd (omega arith)
  get_elem?-set_other (x ∷ l) zero (suc j) d h = refl
  get_elem?-set_other (x ∷ l) (suc i) (suc j) d h = get_elem?-set_other l i j d (omega arith)

  pub get_elem?-append :
      (l m : List (RrdData F)) (i : ℕ) → i < length l → get_elem? (l ++ m) i ≡ get_elem? l i
  get_elem?-append [] m i h = absurd (omega arith)
  get_elem?-append (x ∷ l) m zero h = refl
  get_elem?-append (x ∷ l) m (suc i) h = get_elem?-append l m i (omega arith)

  pub get_elem?-append_end :
      (l : List (RrdData F)) (d : RrdData F) → get_elem? (l ++ d ∷ []) (length l) ≡ some d
  get_elem?-append_end [] d = refl
  get_elem?-append_end (x ∷ l) d = get_elem?-append_end l d

  pub get_elem?-Has :
      (l : List (RrdData F)) (i : ℕ) (d : RrdData F) → get_elem? l i ≡ some d → Has d l
  get_elem?-Has [] i d h = absurd (ground (arith, h))
  get_elem?-Has (x ∷ l) zero d h = inl (ground (arith, h))
  get_elem?-Has (x ∷ l) (suc i) d h = inr (get_elem?-Has l i d h)
