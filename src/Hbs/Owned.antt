-- ===== src/Hbs/Owned.antt =====
-- modules/hbs/rpc/hbs.go: the templates that the strategies in the maps have.
use falcon_plus.Base.{◌≡◌, refl, Option, none, some, List, [], ◌∷◌, All, All-append, if_both}
use falcon_plus.Base.Int.{ℤ}
use falcon_plus.Base.Text.{Text}
use falcon_plus.Base.Dict.{Dict, Key, get, put, int_eq, text_eq}
use falcon_plus.Utils.Grouped.{appended, file_under, listed}
use falcon_plus.Hbs.Templates.{Template}
use falcon_plus.Hbs.Inherit.{Owned, tpl2_loop, uuid, tid_stras, overlay, bucket_stras_map}

module _ {K V : Type 0} ⦃e : Key K⦄ (R : V → Type 0) where
  -- Each value of a map.
  abbrev pub Values : Dict K V → Type 0
  Values m = All (λ p. R p.1) m

  put-Values : (k : K) (v : V) (m : Dict K V) → R v → Values m → Values (put k v m)
  unfolding put
  put-Values k v [] r h = (r, tt)
  put-Values k v ((j, w) ∷ m) r h =
      if_both Values (e.same j k) (r, h.1) (h.0, put-Values k v m r h.1)

module _ {K A : Type 0} ⦃e : Key K⦄ (P : A → Type 0) where
  listed-Values : (k : K) (m : Dict K (List A)) → Values (All P) m → All P (listed (get k m))
  unfolding get
  listed-Values k [] h = tt
  listed-Values k ((j, w) ∷ m) h =
      if_both (λ o. All P (listed o)) (e.same j k) h.0 (listed-Values k m h.1)

module _ {A : Type 0} (P : A → Type 0) where
  appended-All : (x : A) (o : Option (List A)) → P x → All P (listed o) → All P (appended x o)
  appended-All x none p h = (p, tt)
  appended-All x (some l) p h = All-append P l (x ∷ []) h (p, tt)

module _ {F : Type 0} where
  -- The strategy has a template.
  abbrev pub HasTpl : Owned F → Type 0
  HasTpl s = (tpl : Template) × (s.1 ≡ some tpl)

  pub tpl2_loop-HasTpl :
      (strategies : Dict ℤ (Option (Owned F))) (ret : Dict ℤ (List (Owned F)))
      → Values (All HasTpl) ret
      → Values (All HasTpl) (tpl2_loop strategies ret)
  unfolding tpl2_loop
  tpl2_loop-HasTpl [] ret h = h
  tpl2_loop-HasTpl ((id, none) ∷ strategies) ret h = tpl2_loop-HasTpl strategies ret h
  tpl2_loop-HasTpl ((id, some (s, none)) ∷ strategies) ret h = tpl2_loop-HasTpl strategies ret h
  tpl2_loop-HasTpl ((id, some (s, some tpl)) ∷ strategies) ret h = tpl2_loop-HasTpl strategies _ (
      put-Values (All HasTpl) tpl.id _ ret
        (appended-All HasTpl (s, some tpl) (get tpl.id ret) (tpl, refl)
          (listed-Values HasTpl tpl.id ret h))
        h)

  tid_stras-HasTpl :
      (stras : List (Owned F)) (m : Dict Text (List (Owned F)))
      → All HasTpl stras
      → Values (All HasTpl) m
      → Values (All HasTpl) (tid_stras stras m)
  unfolding tid_stras file_under
  tid_stras-HasTpl [] m a h = h
  tid_stras-HasTpl (s ∷ stras) m a h = tid_stras-HasTpl stras _ a.1 (
      put-Values (All HasTpl) (uuid s) _ m
        (appended-All HasTpl s (get (uuid s) m) a.0 (listed-Values HasTpl (uuid s) m h)) h)

  overlay-HasTpl :
      (stras m : Dict Text (List (Owned F)))
      → Values (All HasTpl) stras
      → Values (All HasTpl) m
      → Values (All HasTpl) (overlay stras m)
  unfolding overlay
  overlay-HasTpl [] m a h = h
  overlay-HasTpl ((id, ss) ∷ stras) m a h =
      overlay-HasTpl stras (put id ss m) a.1 (put-Values (All HasTpl) id ss m a.0 h)

  pub bucket_stras_map-HasTpl :
      (tpl2 : Dict ℤ (List (Owned F))) (bucket : List ℤ) (m : Dict Text (List (Owned F)))
      → Values (All HasTpl) tpl2
      → Values (All HasTpl) m
      → Values (All HasTpl) (bucket_stras_map tpl2 bucket m)
  unfolding bucket_stras_map
  bucket_stras_map-HasTpl tpl2 [] m a h = h
  bucket_stras_map-HasTpl tpl2 (tid ∷ bucket) m a h =
      let stras = tid_stras (listed (get tid tpl2)) [] in
      bucket_stras_map-HasTpl tpl2 bucket (overlay stras m) a (
        overlay-HasTpl stras m
          (tid_stras-HasTpl (listed (get tid tpl2)) [] (listed-Values HasTpl tid tpl2 a) tt) h)
