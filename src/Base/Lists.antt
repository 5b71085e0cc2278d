-- ===== src/Base/Lists.antt =====
-- Lists measured and indexed by native numbers, under the library's names.
use Prim.Native.Nat.{ℕ, zero, suc, ◌+◌, ◌≤◌, ◌<◌, min}
use mathlib.Core.Path.{◌≡◌, refl, ap}
use mathlib.Core.Option.{Option, none, some}
use falcon_plus.Base.Tests.{eqb, if◌then◌else◌}
use mathlib.Core.List.{List, [], ◌∷◌, ◌++◌, map}
use native.Mathlib.Omega.{arith}

module _ {ℓ} {A : Type ℓ} where
  abbrev pub length : List A → ℕ
  length [] = 0
  length (x ∷ xs) = suc (length xs)

  pub length-append : (xs ys : List A) → length (xs ++ ys) ≡ length xs + length ys
  length-append [] ys = omega arith
  length-append (x ∷ xs) ys = omega (arith, length-append xs ys)

module _ {ℓ} {A : Type ℓ} where
  abbrev pub take : ℕ → List A → List A
  take zero xs = []
  take (suc n) [] = []
  take (suc n) (x ∷ xs) = x ∷ take n xs

  abbrev pub drop : ℕ → List A → List A
  drop zero xs = xs
  drop (suc n) [] = []
  drop (suc n) (x ∷ xs) = drop n xs

  pub length-take : (n : ℕ) (xs : List A) → length (take n xs) ≡ min n (length xs)
  length-take zero xs = omega arith
  length-take (suc n) [] = omega arith
  length-take (suc n) (x ∷ xs) = omega (arith, length-take n xs)

module _ {ℓ} {A : Type ℓ} where
  -- A predicate by recursion computes to tuples, which the tactics read and build.
  abbrev pub All {κ} : (A → Type κ) → List A → Type κ
  All P [] = Unit
  All P (x ∷ xs) = P x × All P xs

  pub take_of_length-le : (n : ℕ) (l : List A) → length l ≤ n → take n l ≡ l
  take_of_length-le zero [] h = refl
  take_of_length-le (suc _) [] h = refl
  take_of_length-le zero (_ ∷ _) h = absurd (omega arith)
  take_of_length-le (suc n) (a ∷ l) h = rw (take_of_length-le n l (omega arith)) refl

  pub take_self : (xs : List A) → take (length xs) xs ≡ xs
  take_self xs = take_of_length-le (length xs) xs (omega arith)

module _ {ℓ} {A : Type ℓ} where
  abbrev pub get_elem? : List A → ℕ → Option A
  get_elem? [] i = none
  get_elem? (x ∷ xs) zero = some x
  get_elem? (x ∷ xs) (suc i) = get_elem? xs i

  abbrev pub set : List A → ℕ → A → List A
  set [] i v = []
  set (x ∷ xs) zero v = v ∷ xs
  set (x ∷ xs) (suc i) v = x ∷ set xs i v

  pub length-set : (l : List A) (i : ℕ) (v : A) → length (set l i v) ≡ length l
  length-set [] i v = refl
  length-set (_ ∷ _) zero v = refl
  length-set (_ ∷ l) (suc i) v = ap suc (length-set l i v)

  pub get_elem?-length : (l : List A) (i : ℕ) → i < length l → (v : A) × (get_elem? l i ≡ some v)
  get_elem?-length [] i h = absurd (omega arith)
  get_elem?-length (x ∷ l) zero h = (x, refl)
  get_elem?-length (x ∷ l) (suc i) h = get_elem?-length l i (omega arith)

  pub get_elem?-set :
      (l : List A) (i j : ℕ) (v : A)
      → i < length l
      → get_elem? (set l i v) j ≡ (if eqb i j then some v else get_elem? l j)
  get_elem?-set [] i j v h = absurd (omega arith)
  get_elem?-set (x ∷ l) zero zero v h = ground arith
  get_elem?-set (x ∷ l) zero (suc j) v h = ground arith
  get_elem?-set (x ∷ l) (suc i) zero v h = ground arith
  get_elem?-set (x ∷ l) (suc i) (suc j) v h = ground (arith, get_elem?-set l i j v)

  abbrev pub replicate : ℕ → A → List A
  replicate zero a = []
  replicate (suc n) a = a ∷ replicate n a

  pub length-replicate : (n : ℕ) (a : A) → length (replicate n a) ≡ n
  length-replicate zero a = refl
  length-replicate (suc n) a = ap suc (length-replicate n a)

  pub get_elem?-replicate : (n i : ℕ) (a : A) → i < n → get_elem? (replicate n a) i ≡ some a
  get_elem?-replicate zero i a h = absurd (omega arith)
  get_elem?-replicate (suc n) zero a h = refl
  get_elem?-replicate (suc n) (suc i) a h = get_elem?-replicate n i a (omega arith)

pub All-append {ℓ κ} :
    {A : Type ℓ} (P : A → Type κ) (xs ys : List A) → All P xs → All P ys → All P (xs ++ ys)
All-append P [] ys h k = k
All-append P (x ∷ xs) ys h k = (h.0, All-append P xs ys h.1 k)

pub All-map {ℓ κ μ} :
    {A : Type ℓ} {B : Type κ} (P : B → Type μ) (g : A → B) (xs : List A)
    → ((x : A) → P (g x))
    → All P (map g xs)
All-map P g [] h = tt
All-map P g (x ∷ xs) h = (h x, All-map P g xs h)

pub All-imp {ℓ κ μ} :
    {A : Type ℓ} (P : A → Type κ) (R : A → Type μ) (xs : List A)
    → ((x : A) → P x → R x)
    → All P xs
    → All R xs
All-imp P R [] g h = tt
All-imp P R (x ∷ xs) g h = (g x h.0, All-imp P R xs g h.1)
