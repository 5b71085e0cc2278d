-- ===== src/Hbs/Inherit.antt =====
-- modules/hbs/rpc/hbs.go: Tpl2Strategies, CalcInheritStrategies and GetStrategies. The template pointer of a
-- strategy stands beside it.
use falcon_plus.Base.{
  ℕ, suc, Bool, true, false, not, ◌&&◌, Option, none, some, List, [], ◌∷◌, ◌++◌, eqb, Run, ◌>>=◌,
  if◌then◌else◌,
}
use falcon_plus.Base.Int.{ℤ, eqb_ℤ}
use falcon_plus.Base.Text.{Text, codes}
use falcon_plus.Base.Dict.{Dict, get, put, int_eq, text_eq}
use falcon_plus.Utils.Tags.{sorted_tags}
use falcon_plus.Utils.Grouped.{appended, file_under, listed}
use falcon_plus.Judge.Model.{Strategy}
use falcon_plus.Hbs.Templates.{Template, parent_ids}

abbrev pub Owned : Type 0 → Type 0
Owned F = Strategy F × Option Template

-- exists_by_id, and the strategies so far.
abbrev pub Collected : Type 0 → Type 0
Collected F = List ℤ × List (Owned F)

abbrev pub slice_int_contains : List ℤ → ℤ → Bool
slice_int_contains [] target = false
slice_int_contains (b ∷ list) target =
    if eqb_ℤ b target then true else slice_int_contains list target

abbrev pub slice_int_eq : List ℤ → List ℤ → Bool
slice_int_eq [] [] = true
slice_int_eq (x ∷ a) (y ∷ b) = eqb_ℤ x y && slice_int_eq a b
slice_int_eq _ _ = false

abbrev pub slice_int_lt : List ℤ → List ℤ → Bool
slice_int_lt [] b = true
slice_int_lt (i ∷ a) b = if slice_int_contains b i then slice_int_lt a b else false

abbrev pub non_empty : List ℤ → List (List ℤ) → List (List ℤ)
non_empty [] buckets = buckets
non_empty (i ∷ is) buckets = (i ∷ is) ∷ buckets

unfoldable pub tpl_buckets : Dict ℤ Template → List ℤ → List (List ℤ)
unfolding parent_ids
tpl_buckets all_tpls [] = []
tpl_buckets all_tpls (tid ∷ tids) = non_empty (parent_ids all_tpls tid) (tpl_buckets all_tpls tids)

-- The inner loop, from index `j` on.
abbrev pub is_valid : ℕ → List ℤ → ℕ → List (List ℤ) → Bool
is_valid i bucket j [] = true
is_valid i bucket j (other ∷ others) =
    let rest = is_valid i bucket (suc j) others in
    if eqb i j
    then rest
    else if slice_int_eq bucket other
    then true
    else if slice_int_lt bucket other
    then false
    else rest

-- The outer loop, from index `i` on.
unfoldable pub uniq_from : List (List ℤ) → ℕ → List (List ℤ) → List (List ℤ)
uniq_from all i [] = []
uniq_from all i (bucket ∷ buckets) =
    let rest = uniq_from all (suc i) buckets in
    if is_valid i bucket 0 all then bucket ∷ rest else rest

unfoldable pub uniq_tpl_buckets : List (List ℤ) → List (List ℤ)
unfolding uniq_from
uniq_tpl_buckets buckets = uniq_from buckets 0 buckets

module _ {F : Type 0} where
  abbrev pub under_template : Option (Owned F) → Dict ℤ (List (Owned F)) → Dict ℤ (List (Owned F))
  under_template none ret = ret
  under_template (some (s, none)) ret = ret
  under_template (some (s, some tpl)) ret = put tpl.id (appended (s, some tpl) (get tpl.id ret)) ret

  -- The loop, with `ret` so far; a nil strategy, or one without a template, is passed over.
  unfoldable pub tpl2_loop :
      Dict ℤ (Option (Owned F)) → Dict ℤ (List (Owned F)) → Dict ℤ (List (Owned F))
  tpl2_loop [] ret = ret
  tpl2_loop ((id, s) ∷ strategies) ret = tpl2_loop strategies (under_template s ret)

  unfoldable pub tpl2_strategies : Dict ℤ (Option (Owned F)) → Dict ℤ (List (Owned F))
  unfolding tpl2_loop
  tpl2_strategies strategies = tpl2_loop strategies []

  abbrev pub uuid : Owned F → Text
  uuid (s, tpl) = codes "metric:" ++ (s.metric ++ (codes "/tags:" ++ sorted_tags s.tags))

  -- the_tid_stras
  unfoldable pub tid_stras :
      List (Owned F) → Dict Text (List (Owned F)) → Dict Text (List (Owned F))
  unfolding file_under
  tid_stras [] m = m
  tid_stras (s ∷ stras) m = tid_stras stras (file_under (uuid s) s m)

  -- The younger template replaces what the older ones have under the same uuid.
  unfoldable pub overlay :
      Dict Text (List (Owned F)) → Dict Text (List (Owned F)) → Dict Text (List (Owned F))
  overlay [] m = m
  overlay ((id, ss) ∷ stras) m = overlay stras (put id ss m)

  unfoldable pub bucket_stras_map :
      Dict ℤ (List (Owned F)) → List ℤ → Dict Text (List (Owned F)) → Dict Text (List (Owned F))
  unfolding tid_stras overlay
  bucket_stras_map tpl2 [] m = m
  bucket_stras_map tpl2 (tid ∷ bucket) m =
      bucket_stras_map tpl2 bucket (overlay (tid_stras (listed (get tid tpl2)) []) m)

module _ {F : Type 0} (all_tpls : Dict ℤ Template) (last_tid : ℤ) where
  -- A strategy without a template would panic.
  abbrev pub with_last : Strategy F → Option Template → Run (Owned F)
  with_last s none = none
  with_last s (some tpl) =
      some (s, if not (eqb_ℤ tpl.id last_tid) then get last_tid all_tpls else some tpl)

  abbrev pub take_strategy : Owned F → Collected F → Run (Collected F)
  take_strategy (s, tpl) (ids, out) =
      if slice_int_contains ids s.id
      then some (ids, out)
      else (with_last s tpl >>= λ val. some (s.id ∷ ids, out ++ val ∷ []))

  unfoldable pub take_strategies : List (Owned F) → Collected F → Run (Collected F)
  take_strategies [] c = some c
  take_strategies (s ∷ ss) c = take_strategy s c >>= take_strategies ss

  unfoldable pub take_bucket : Dict Text (List (Owned F)) → Collected F → Run (Collected F)
  unfolding take_strategies
  take_bucket [] c = some c
  take_bucket ((id, ss) ∷ stras) c = take_strategies ss c >>= take_bucket stras

-- bucket[len(bucket)-1], which panics on an empty bucket.
abbrev pub last_tid_of : List ℤ → Run ℤ
last_tid_of [] = none
last_tid_of (tid ∷ []) = some tid
last_tid_of (tid ∷ tid' ∷ bucket) = last_tid_of (tid' ∷ bucket)

module _ {F : Type 0} where
  unfoldable pub take_buckets :
      Dict ℤ Template → Dict ℤ (List (Owned F)) → List (List ℤ) → Collected F → Run (Collected F)
  unfolding take_bucket bucket_stras_map
  take_buckets all_tpls tpl2 [] c = some c
  take_buckets all_tpls tpl2 (bucket ∷ buckets) c = last_tid_of bucket >>= λ last_tid.
      take_bucket all_tpls last_tid (bucket_stras_map tpl2 bucket []) c
      >>= take_buckets all_tpls tpl2 buckets

  unfoldable pub calc_inherit_strategies :
      Dict ℤ Template → List ℤ → Dict ℤ (List (Owned F)) → Run (List (Owned F))
  unfolding take_buckets tpl_buckets uniq_tpl_buckets
  calc_inherit_strategies all_tpls tids tpl2 =
      take_buckets all_tpls tpl2 (uniq_tpl_buckets (tpl_buckets all_tpls tids)) ([], []) >>= λ c.
      some c.1

  abbrev pub with_host :
      Text → List (Owned F) → List (Text × List (Owned F)) → List (Text × List (Owned F))
  with_host name [] rest = rest
  with_host name (s ∷ ss) rest = (name, s ∷ ss) ∷ rest

  abbrev pub host_strategies_of :
      Option Text
      → Run (List (Owned F))
      → Run (List (Text × List (Owned F)))
      → Run (List (Text × List (Owned F)))
  host_strategies_of none ss rest = rest
  host_strategies_of (some name) ss rest = ss >>= λ l. rest >>= λ r. some (with_host name l r)

  -- The loop over the hosts; of a host its name is read.
  unfoldable pub host_loop :
      Dict ℤ Text
      → Dict ℤ Template
      → Dict ℤ (List (Owned F))
      → Dict ℤ (List ℤ)
      → Run (List (Text × List (Owned F)))
  unfolding calc_inherit_strategies
  host_loop hosts tpls tpl2 [] = some []
  host_loop hosts tpls tpl2 ((host_id, tpl_ids) ∷ hid_tids) =
      host_strategies_of (get host_id hosts) (calc_inherit_strategies tpls tpl_ids tpl2)
        (host_loop hosts tpls tpl2 hid_tids)

  -- Hbs.GetStrategies, with its early returns on empty maps.
  unfoldable pub get_strategies :
      Dict ℤ (List ℤ)
      → Dict ℤ Text
      → Dict ℤ Template
      → Dict ℤ (Option (Owned F))
      → Run (List (Text × List (Owned F)))
  unfolding host_loop tpl2_strategies
  get_strategies [] hosts tpls strategies = some []
  get_strategies (h ∷ hid_tids) [] tpls strategies = some []
  get_strategies (h ∷ hid_tids) (host ∷ hosts) [] strategies = some []
  get_strategies (h ∷ hid_tids) (host ∷ hosts) (t ∷ tpls) [] = some []
  get_strategies (h ∷ hid_tids) (host ∷ hosts) (t ∷ tpls) (s ∷ strategies) =
      host_loop (host ∷ hosts) (t ∷ tpls) (tpl2_strategies (s ∷ strategies)) (h ∷ hid_tids)
