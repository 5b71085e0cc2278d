-- ===== src/Hbs/Strategies.antt =====
-- modules/hbs/rpc/hbs.go: CalcInheritStrategies and GetStrategies return.
use falcon_plus.Base.{
  ℕ, suc, ◌≡◌, refl, ◌≢◌, Option, some, List, [], ◌∷◌, All, Run, if_both, Option-cases, inl, inr,
  arith,
}
use falcon_plus.Base.Int.{ℤ}
use falcon_plus.Base.Text.{Text}
use falcon_plus.Base.Dict.{Dict, get, int_eq, text_eq}
use falcon_plus.Hbs.Templates.{Template, parent_ids}
use falcon_plus.Hbs.Inherit.{
  Owned, Collected, non_empty, tpl_buckets, is_valid, uniq_from, uniq_tpl_buckets, tpl2_strategies,
  bucket_stras_map, take_bucket, last_tid_of, take_buckets, with_host, calc_inherit_strategies,
  host_loop, get_strategies,
}
use falcon_plus.Hbs.Owned.{Values, HasTpl, tpl2_loop-HasTpl, bucket_stras_map-HasTpl}
use falcon_plus.Hbs.Answers.{AreOnce, ids_of, Kept, Keeps, then-Keeps, take_bucket-Keeps}

abbrev NotNil : List ℤ → Type 0
NotNil bucket = (tid : ℤ) × (last_tid_of bucket ≡ some tid)

last_tid_of-NotNil : (tid : ℤ) (bucket : List ℤ) → NotNil (tid ∷ bucket)
last_tid_of-NotNil tid [] = (tid, refl)
last_tid_of-NotNil tid (tid' ∷ bucket) = last_tid_of-NotNil tid' bucket

non_empty-NotNil :
    (ids : List ℤ) (buckets : List (List ℤ))
    → All NotNil buckets
    → All NotNil (non_empty ids buckets)
non_empty-NotNil [] buckets h = h
non_empty-NotNil (tid ∷ ids) buckets h = (last_tid_of-NotNil tid ids, h)

tpl_buckets-NotNil : (tpls : Dict ℤ Template) (tids : List ℤ) → All NotNil (tpl_buckets tpls tids)
unfolding tpl_buckets
tpl_buckets-NotNil tpls [] = tt
tpl_buckets-NotNil tpls (tid ∷ tids) =
    non_empty-NotNil (parent_ids tpls tid) (tpl_buckets tpls tids) (tpl_buckets-NotNil tpls tids)

uniq_from-NotNil :
    (all : List (List ℤ)) (i : ℕ) (buckets : List (List ℤ))
    → All NotNil buckets
    → All NotNil (uniq_from all i buckets)
unfolding uniq_from
uniq_from-NotNil all i [] h = tt
uniq_from-NotNil all i (bucket ∷ buckets) h =
    if_both (All NotNil) (is_valid i bucket 0 all) (h.0, uniq_from-NotNil all (suc i) buckets h.1)
      (uniq_from-NotNil all (suc i) buckets h.1)

module _ {F : Type 0} where
  take_buckets-Keeps :
      (all_tpls : Dict ℤ Template) (tpl2 : Dict ℤ (List (Owned F))) (buckets : List (List ℤ))
      (c : Collected F)
      → All NotNil buckets
      → Values (All HasTpl) tpl2
      → Kept c
      → Keeps (take_buckets all_tpls tpl2 buckets c)
  unfolding take_buckets
  take_buckets-Keeps all_tpls tpl2 [] c n h k = (c, refl, k)
  take_buckets-Keeps all_tpls tpl2 (bucket ∷ buckets) c ((last_tid, e), n) h k =
      let stras = bucket_stras_map tpl2 bucket [] in
      let (c', run, k') =
        then-Keeps (take_bucket all_tpls last_tid stras c) (take_buckets all_tpls tpl2 buckets)
          (take_bucket-Keeps all_tpls last_tid stras c (bucket_stras_map-HasTpl tpl2 bucket [] h tt)
            k)
          (λ c' k'. take_buckets-Keeps all_tpls tpl2 buckets c' n h k') in
      (c', rw e run, k')

  -- The strategies of a host, each id once.
  abbrev pub IsAnswer : Run (List (Owned F)) → Type 0
  IsAnswer run = (out : List (Owned F)) × (run ≡ some out) × AreOnce (ids_of out)

  pub calc_inherit_strategies-IsAnswer :
      (all_tpls : Dict ℤ Template) (tids : List ℤ) (tpl2 : Dict ℤ (List (Owned F)))
      → Values (All HasTpl) tpl2
      → IsAnswer (calc_inherit_strategies all_tpls tids tpl2)
  unfolding calc_inherit_strategies uniq_tpl_buckets
  calc_inherit_strategies-IsAnswer all_tpls tids tpl2 h =
      let buckets = tpl_buckets all_tpls tids in
      let (c, run, k) =
        take_buckets-Keeps all_tpls tpl2 (uniq_tpl_buckets buckets) ([], [])
          (uniq_from-NotNil buckets 0 buckets (tpl_buckets-NotNil all_tpls tids)) h
          ((λ i. refl), tt) in
      (c.1, rw run refl, k.1)

  -- The answer returns, and each host in it has a strategy and each of its strategies once.
  abbrev pub AreAnswers : List (Text × List (Owned F)) → Type 0
  AreAnswers answers = All (λ h. (h.1 ≢ []) × AreOnce (ids_of h.1)) answers

  with_host-AreAnswers :
      (name : Text) (ss : List (Owned F)) (rest : List (Text × List (Owned F)))
      → AreOnce (ids_of ss)
      → AreAnswers rest
      → AreAnswers (with_host name ss rest)
  with_host-AreAnswers name [] rest o h = h
  with_host-AreAnswers name (s ∷ ss) rest o h = (((λ q. ground (arith, q)), o), h)

  abbrev pub Answers : Run (List (Text × List (Owned F))) → Type 0
  Answers run = (answers : List (Text × List (Owned F))) × (run ≡ some answers) × AreAnswers answers

  pub host_loop-Answers :
      (hosts : Dict ℤ Text) (tpls : Dict ℤ Template) (tpl2 : Dict ℤ (List (Owned F)))
      (hid_tids : Dict ℤ (List ℤ))
      → Values (All HasTpl) tpl2
      → Answers (host_loop hosts tpls tpl2 hid_tids)
  unfolding host_loop
  host_loop-Answers hosts tpls tpl2 [] h = ([], refl, tt)
  host_loop-Answers hosts tpls tpl2 ((host_id, tpl_ids) ∷ hid_tids) h =
      let (rest, run, good) = host_loop-Answers hosts tpls tpl2 hid_tids h in
      let (out, found, once) = calc_inherit_strategies-IsAnswer tpls tpl_ids tpl2 h in
      elim (Option-cases (get host_id hosts)) [
        | inl e ↦ (rest, rw e run, good)
        | inr (name, e) ↦ (
          with_host name out rest,
          rw (e, found, run) refl,
          with_host-AreAnswers name out rest once good,
        )
      ]

  -- On any maps GetStrategies returns without a panic, and each host in its answer has a strategy
  -- and no strategy id twice.
  pub get_strategies-Answers :
      (hid_tids : Dict ℤ (List ℤ)) (hosts : Dict ℤ Text) (tpls : Dict ℤ Template)
      (strategies : Dict ℤ (Option (Owned F)))
      → Answers (get_strategies hid_tids hosts tpls strategies)
  unfolding get_strategies tpl2_strategies
  get_strategies-Answers [] hosts tpls strategies = ([], refl, tt)
  get_strategies-Answers (h ∷ hid_tids) [] tpls strategies = ([], refl, tt)
  get_strategies-Answers (h ∷ hid_tids) (host ∷ hosts) [] strategies = ([], refl, tt)
  get_strategies-Answers (h ∷ hid_tids) (host ∷ hosts) (t ∷ tpls) [] = ([], refl, tt)
  get_strategies-Answers (h ∷ hid_tids) (host ∷ hosts) (t ∷ tpls) (s ∷ strategies) =
      host_loop-Answers (host ∷ hosts) (t ∷ tpls) (tpl2_strategies (s ∷ strategies)) (h ∷ hid_tids)
        (tpl2_loop-HasTpl (s ∷ strategies) [] tt)
