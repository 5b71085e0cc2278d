-- ===== src/Hbs/Overrides.antt =====
-- modules/hbs/rpc/hbs.go: which strategies a bucket of templates has, the younger overriding the older.
use falcon_plus.Base.{
  Bool, true, false, ◌&&◌, ◌++◌, All, sym, ◌≢◌, ◌≡◌, refl, subst, ap, ◌∙◌, inl, inr, Option, none,
  some, List, [], ◌∷◌, if◌then◌else◌, Bool-cases, arith,
}
use falcon_plus.Base.Int.{ℤ}
use falcon_plus.Base.Text.{Text, codes, eq_text, eq_text_iff, eq_text-append}
use falcon_plus.Base.Strings.{Without}
use falcon_plus.Utils.Tags.{sorted_tags}
use mathlib.Core.List.{append-nil, append_assoc}
use falcon_plus.Base.Dict.{Dict, get, put, get-put, int_eq, text_eq}
use falcon_plus.Utils.Grouped.{
  listed, file_under, file_under_lem, Missing, AreGroups, file_under-AreGroups,
}
use falcon_plus.Hbs.Inherit.{Owned, uuid, tid_stras, overlay, bucket_stras_map}

abbrev pub or_else : {A : Type 0} → Option A → Option A → Option A
or_else none other = other
or_else (some x) other = some x

or_else_assoc : {A : Type 0} (a b c : Option A) → or_else a (or_else b c) ≡ or_else (or_else a b) c
or_else_assoc none b c = refl
or_else_assoc (some x) b c = refl

or_else-none : {A : Type 0} (a : Option A) → or_else a none ≡ a
or_else-none none = refl
or_else-none (some x) = refl

eq_text-slash :
    (m m' t t' : Text)
    → Without b'/' m
    → Without b'/' m'
    → eq_text (m ++ (codes "/tags:" ++ t)) (m' ++ (codes "/tags:" ++ t'))
      ≡ (eq_text m m' && eq_text t t')
unfolding eq_text
eq_text-slash [] [] t t' h h' = eq_text-append (codes "/tags:") t t'
eq_text-slash [] (y ∷ m') t t' h h' = ground (arith, h'.0)
eq_text-slash (x ∷ m) [] t t' h h' = ground (arith, h.0)
eq_text-slash (x ∷ m) (y ∷ m') t t' h h' = ground (arith, eq_text-slash m m' t t' h.1 h'.1)

place :
    {A : Type 0} (b : Bool) (s : A) (l r : List A)
    → (l ++ (if b then s ∷ [] else [])) ++ r ≡ l ++ (if b then s ∷ r else r)
place true s l r = append_assoc l (s ∷ []) r
place false s l r = ap (λ z. z ++ r) (append-nil l)

-- A list, if it has anything.
abbrev pub if_any : {A : Type 0} → List A → Option (List A)
if_any [] = none
if_any (x ∷ l) = some (x ∷ l)

if_any-some : {A : Type 0} (l : List A) → l ≢ [] → if_any l ≡ some l
if_any-some [] h = absurd (h refl)
if_any-some (x ∷ l) h = refl

module _ {F : Type 0} where
  get-Missing : (id : Text) (m : Dict Text (List (Owned F))) → Missing id m → get id m ≡ none
  unfolding get
  get-Missing id [] h = refl
  get-Missing id ((j, ss) ∷ m) h = ground (arith, eq_text_iff j id, get-Missing id m h.1)

  tid_stras-AreGroups :
      (stras : List (Owned F)) (m : Dict Text (List (Owned F)))
      → AreGroups m
      → AreGroups (tid_stras stras m)
  unfolding tid_stras
  tid_stras-AreGroups [] m h = h
  tid_stras-AreGroups (s ∷ stras) m h =
      tid_stras-AreGroups stras (file_under (uuid s) s m) (file_under-AreGroups (uuid s) s m h)

  get-overlay :
      (id : Text) (stras m : Dict Text (List (Owned F)))
      → AreGroups stras
      → get id (overlay stras m) ≡ or_else (get id stras) (get id m)
  unfolding overlay get
  get-overlay id [] m h = refl
  get-overlay id ((j, ss) ∷ stras) m (lone, some_here, h) =
      get-overlay id stras (put j ss m) h ∙ ap (or_else (get id stras)) (get-put j id ss m) ∙ at_id
    where
      at_id :
          or_else (get id stras) (if eq_text j id then some ss else get id m)
          ≡ or_else (if eq_text j id then some ss else get id stras) (get id m)
      at_id = elim (Bool-cases (eq_text j id)) [
        | inl same ↦
            let is_id = (eq_text_iff j id).0 same in
            rw (same, get-Missing id stras (subst (λ k. Missing k stras) is_id lone)) refl
        | inr other ↦ rw other refl
      ]

  -- The strategies with the metric and the tags of another one.
  abbrev pub alike : Owned F → Owned F → Bool
  alike k s = eq_text s.0.metric k.0.metric && eq_text (sorted_tags s.0.tags) (sorted_tags k.0.tags)

  abbrev pub all_alike : Owned F → List (Owned F) → List (Owned F)
  all_alike k [] = []
  all_alike k (s ∷ stras) = let rest = all_alike k stras in if alike k s then s ∷ rest else rest

  -- Metrics without a slash, so that the text of a uuid tells its metric from its tags.
  abbrev pub HasPlainMetric : Owned F → Type 0
  HasPlainMetric s = Without b'/' s.0.metric

  uuid-alike :
      (k s : Owned F) → HasPlainMetric k → HasPlainMetric s → eq_text (uuid s) (uuid k) ≡ alike k s
  uuid-alike k s h h' =
      eq_text-append (codes "metric:") _ _
      ∙ eq_text-slash s.0.metric k.0.metric (sorted_tags s.0.tags) (sorted_tags k.0.tags) h' h

  listed-tid_stras :
      (k : Owned F) (stras : List (Owned F)) (m : Dict Text (List (Owned F)))
      → HasPlainMetric k
      → All HasPlainMetric stras
      → listed (get (uuid k) (tid_stras stras m)) ≡ listed (get (uuid k) m) ++ all_alike k stras
  unfolding tid_stras
  listed-tid_stras k [] m h hs = sym (append-nil (listed (get (uuid k) m)))
  listed-tid_stras k (s ∷ stras) m h hs =
      listed-tid_stras k stras (file_under (uuid s) s m) h hs.1
      ∙ ap (λ l. l ++ all_alike k stras) (file_under_lem (uuid k) (uuid s) s m)
      ∙ ap (λ b. (listed (get (uuid k) m) ++ (if b then s ∷ [] else [])) ++ all_alike k stras)
          (uuid-alike k s h hs.0)
      ∙ place (alike k s) s (listed (get (uuid k) m)) (all_alike k stras)

  get-if_any :
      (id : Text) (m : Dict Text (List (Owned F)))
      → AreGroups m
      → get id m ≡ if_any (listed (get id m))
  unfolding get
  get-if_any id [] h = refl
  get-if_any id ((j, ss) ∷ m) (lone, some_here, h) = elim (Bool-cases (eq_text j id)) [
    | inl same ↦ rw same (sym (if_any-some ss some_here))
    | inr other ↦ rw other (get-if_any id m h)
  ]

  -- The strategies of one template that are alike.
  abbrev pub own : Dict ℤ (List (Owned F)) → Owned F → ℤ → Option (List (Owned F))
  own tpl2 k tid = if_any (all_alike k (listed (get tid tpl2)))

  -- Those of the last template of the bucket that has any.
  abbrev pub youngest : Dict ℤ (List (Owned F)) → Owned F → List ℤ → Option (List (Owned F))
  youngest tpl2 k [] = none
  youngest tpl2 k (tid ∷ bucket) = or_else (youngest tpl2 k bucket) (own tpl2 k tid)

  abbrev pub ArePlain : Dict ℤ (List (Owned F)) → List ℤ → Type 0
  ArePlain tpl2 bucket = All (λ tid. All HasPlainMetric (listed (get tid tpl2))) bucket

  get-tid_stras :
      (k : Owned F) (stras : List (Owned F))
      → HasPlainMetric k
      → All HasPlainMetric stras
      → get (uuid k) (tid_stras stras []) ≡ if_any (all_alike k stras)
  unfolding get
  get-tid_stras k stras h hs =
      get-if_any (uuid k) (tid_stras stras []) (tid_stras-AreGroups stras [] tt)
      ∙ ap if_any (listed-tid_stras k stras [] h hs)

  bucket_stras_map_after :
      (tpl2 : Dict ℤ (List (Owned F))) (k : Owned F) (bucket : List ℤ)
      (m : Dict Text (List (Owned F)))
      → HasPlainMetric k
      → ArePlain tpl2 bucket
      → get (uuid k) (bucket_stras_map tpl2 bucket m)
        ≡ or_else (youngest tpl2 k bucket) (get (uuid k) m)
  unfolding bucket_stras_map
  bucket_stras_map_after tpl2 k [] m h hs = refl
  bucket_stras_map_after tpl2 k (tid ∷ bucket) m h hs =
      let stras = tid_stras (listed (get tid tpl2)) [] in
      bucket_stras_map_after tpl2 k bucket (overlay stras m) h hs.1
      ∙ ap (or_else (youngest tpl2 k bucket)) (
          get-overlay (uuid k) stras m (tid_stras-AreGroups (listed (get tid tpl2)) [] tt)
          ∙ ap (λ o. or_else o (get (uuid k) m)) (get-tid_stras k (listed (get tid tpl2)) h hs.0))
      ∙ or_else_assoc (youngest tpl2 k bucket) (own tpl2 k tid) (get (uuid k) m)

  -- For a strategy, and templates in a bucket all of whose strategies, like it, have a metric
  -- without a slash: what the bucket has under the uuid of the strategy are exactly the strategies
  -- with its metric and its sorted tags of the last template in the bucket that has any, in their
  -- order, and nothing where none has any.
  pub bucket_stras_map-youngest :
      (tpl2 : Dict ℤ (List (Owned F))) (k : Owned F) (bucket : List ℤ)
      → HasPlainMetric k
      → ArePlain tpl2 bucket
      → get (uuid k) (bucket_stras_map tpl2 bucket []) ≡ youngest tpl2 k bucket
  unfolding get
  bucket_stras_map-youngest tpl2 k bucket h hs =
      bucket_stras_map_after tpl2 k bucket [] h hs ∙ or_else-none (youngest tpl2 k bucket)
