-- ===== src/Base/Dict.antt =====
-- Go maps as association lists, generic in the key.
use falcon_plus.Base.Tests.{if◌then◌else◌}
use falcon_plus.Base.Text.{Text, eq_text, eq_text_iff}
use falcon_plus.Base.Int.{ℤ, eqb_ℤ, eqb_ℤ_iff}
use mathlib.Core.Path.{◌≡◌, refl}
use mathlib.Core.Logic.{◌↔◌}
use mathlib.Core.Bool.{Bool, true}
use mathlib.Core.Option.{Option, none, some}
use mathlib.Core.List.{List, [], ◌∷◌}
use native.Mathlib.Omega.{arith}

-- A type of keys, with its test of equality.
pub record Key {ℓ} (K : Type ℓ) : Type ℓ where
  pub same : K → K → Bool
  pub same_iff : (j k : K) → (same j k ≡ true) ↔ (j ≡ k)

instance abbrev pub int_eq : Key ℤ
int_eq = record { same = eqb_ℤ; same_iff = eqb_ℤ_iff }

instance abbrev pub text_eq : Key Text
text_eq = record { same = eq_text; same_iff = eq_text_iff }

-- A map holds each key at most once; the list's order stands for the order of a `range` loop.
abbrev pub Dict {ℓ κ} : Type ℓ → Type κ → Type (ℓ ⊔ κ)
Dict K V = List (K × V)

module _ {ℓ κ} {K : Type ℓ} {V : Type κ} ⦃e : Key K⦄ where
  -- v, ok := m[k]
  unfoldable pub get : K → Dict K V → Option V
  get k [] = none
  get k ((j, v) ∷ m) = if e.same j k then some v else get k m

  -- m[k] = v
  unfoldable pub put : K → V → Dict K V → Dict K V
  put k v [] = (k, v) ∷ []
  put k v ((j, w) ∷ m) = if e.same j k then (k, v) ∷ m else (j, w) ∷ put k v m

  -- delete(m, k)
  unfoldable pub delete : K → Dict K V → Dict K V
  delete k [] = []
  delete k ((j, w) ∷ m) = if e.same j k then delete k m else (j, w) ∷ delete k m

  pub get-put :
      (k j : K) (v : V) (m : Dict K V)
      → get j (put k v m) ≡ (if e.same k j then some v else get j m)
  unfolding get put
  get-put k j v [] = refl
  get-put k j v ((i, w) ∷ m) =
      ground (arith, e.same_iff k j, e.same_iff i k, e.same_iff i j, get-put k j v m)

  pub get-put_self : (k : K) (v : V) (m : Dict K V) → get k (put k v m) ≡ some v
  get-put_self k v m = ground (arith, get-put k k v m, e.same_iff k k)

  pub get-put_ne : (k j : K) (v : V) (m : Dict K V) → ¬ (k ≡ j) → get j (put k v m) ≡ get j m
  get-put_ne k j v m h = ground (arith, get-put k j v m, e.same_iff k j)

  pub get-delete :
      (k j : K) (m : Dict K V) → get j (delete k m) ≡ (if e.same k j then none else get j m)
  unfolding get delete
  get-delete k j [] = ground arith
  get-delete k j ((i, w) ∷ m) =
      ground (arith, e.same_iff k j, e.same_iff i k, e.same_iff i j, get-delete k j m)
