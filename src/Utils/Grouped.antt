-- ===== src/Utils/Grouped.antt =====
-- Lists filed under keys, as a loop that appends to the entries of a map files them.
use falcon_plus.Base.{
  ◌≡◌, refl, ap, ◌∙◌, sym, ◌≢◌, inl, inr, Option, none, some, List, [], ◌∷◌, ◌++◌, Bool-cases,
  if_both, if◌then◌else◌, arith,
}
use mathlib.Core.List.{append-nil}
use falcon_plus.Base.Text.{Text, eq_text, eq_text_iff}
use falcon_plus.Base.Dict.{Dict, get, put, get-put, text_eq}

module _ {A : Type 0} where
  abbrev pub appended : A → Option (List A) → List A
  appended x none = x ∷ []
  appended x (some l) = l ++ (x ∷ [])

  -- `m[key] = append(m[key], x)`, with its test of `exists`.
  unfoldable pub file_under : Text → A → Dict Text (List A) → Dict Text (List A)
  file_under key x m = put key (appended x (get key m)) m

  -- What a map lists under a key.
  abbrev pub listed : Option (List A) → List A
  listed none = []
  listed (some l) = l

  -- The values of the pairs with the key, in their order.
  abbrev pub under : Text → List (Text × A) → List A
  under key [] = []
  under key ((k, x) ∷ pairs) =
      let rest = under key pairs in if eq_text k key then x ∷ rest else rest

  pub under-append :
      (key : Text) (xs ys : List (Text × A)) → under key (xs ++ ys) ≡ under key xs ++ under key ys
  under-append key [] ys = refl
  under-append key ((k, x) ∷ xs) ys = ground (arith, under-append key xs ys)

  pub appended-listed : (x : A) (o : Option (List A)) → appended x o ≡ listed o ++ (x ∷ [])
  appended-listed x none = refl
  appended-listed x (some l) = refl

  pub file_under_lem :
      (key k : Text) (x : A) (m : Dict Text (List A))
      → listed (get key (file_under k x m)) ≡ listed (get key m) ++ under key ((k, x) ∷ [])
  unfolding file_under
  file_under_lem key k x m =
      rw (get-put k key (appended x (get k m)) m) (elim (Bool-cases (eq_text k key)) [
        | inl same ↦ rw same (
            appended-listed x (get k m)
            ∙ ap (λ z. listed (get z m) ++ (x ∷ [])) ((eq_text_iff k key).0 same))
        | inr other ↦ rw other (sym (append-nil (listed (get key m))))
      ])

module _ {A : Type 0} where
  -- The key has no group.
  abbrev pub Missing : Text → Dict Text (List A) → Type 0
  Missing key [] = Unit {0}
  Missing key ((k, ds) ∷ m) = (key ≢ k) × Missing key m

  -- Each key has one group, and no group is empty.
  abbrev pub AreGroups : Dict Text (List A) → Type 0
  AreGroups [] = Unit {0}
  AreGroups ((k, ds) ∷ m) = Missing k m × (ds ≢ []) × AreGroups m

  put-Missing :
      (key k : Text) (ds : List A) (m : Dict Text (List A))
      → key ≢ k
      → Missing key m
      → Missing key (put k ds m)
  unfolding put
  put-Missing key k ds [] n h = (n, tt)
  put-Missing key k ds ((j, es) ∷ m) n h =
      if_both (Missing key) (eq_text j k) (n, h.1) (h.0, put-Missing key k ds m n h.1)

  pub put-AreGroups :
      (k : Text) (ds : List A) (m : Dict Text (List A))
      → ds ≢ []
      → AreGroups m
      → AreGroups (put k ds m)
  unfolding put
  put-AreGroups k ds [] n h = (tt, n, tt)
  put-AreGroups k ds ((j, es) ∷ m) n h = elim (Bool-cases (eq_text j k)) [
    | inl same ↦ rw same (ground (arith, eq_text_iff j k), n, h.2)
    | inr other ↦ rw other (
      put-Missing j k ds m (ground (arith, eq_text_iff j k)) h.0,
      h.1,
      put-AreGroups k ds m n h.2,
    )
  ]

  pub appended-not-nil : (x : A) (o : Option (List A)) → appended x o ≢ []
  appended-not-nil x none e = ground arith
  appended-not-nil x (some []) e = ground arith
  appended-not-nil x (some (y ∷ ys)) e = ground arith

  pub file_under-AreGroups :
      (key : Text) (x : A) (m : Dict Text (List A)) → AreGroups m → AreGroups (file_under key x m)
  unfolding file_under
  file_under-AreGroups key x m h =
      put-AreGroups key (appended x (get key m)) m (appended-not-nil x (get key m)) h
