-- ===== src/Nodata/Others.antt =====
-- modules/nodata/judge/judge_cron.go: a round seen from a counter that it does not judge.
use falcon_plus.Base.{
  ◌≡◌, refl, ◌≢◌, Option, none, some, List, [], ◌∷◌, All, if_both, not, ◌||◌, ◌∙◌,
}
use falcon_plus.Base.Int.{ℤ, pos, eqb_ℤ, leb_ℤ, ltb_ℤ}
use falcon_plus.Base.Word.{add64, sub64}
use falcon_plus.Base.Text.{Text, codes, eq_text}
use falcon_plus.Base.Dict.{get, get-put_ne, text_eq}
use falcon_plus.Base.Float.{Float64}
use falcon_plus.Nodata.Status.{
  NodataConfig, DataItem, last_ts, turn_ok, turn_nodata, get_first_item,
}
use falcon_plus.Nodata.Judge.{
  State, Env, get_timeout, f_compare, gen_mock, overdue, by_item, by_config, judge_key, judge,
}

module _ {F : Type 0} ⦃f : Float64 F⦄ (env : Env F) (now : ℤ) (key : Text) where
  abbrev pub Kept : State F → State F → Type 0
  Kept s s' =
      (get key s'.status_map ≡ get key s.status_map) × (get key s'.mock_map ≡ get key s.mock_map)

  module _ (k : Text) (s : State F) (other : k ≢ key) where
    overdue-Kept : (cfg : NodataConfig F) → Kept s (overdue k now cfg s)
    unfolding overdue turn_nodata gen_mock
    overdue-Kept cfg =
        if_both (Kept s) (leb_ℤ (add64 (last_ts k s.status_map) cfg.step) now)
          (get-put_ne k key _ s.status_map other, get-put_ne k key _ s.mock_map other) (refl, refl)

    item-Kept : (cfg : NodataConfig F) (o : Option (DataItem F)) → Kept s (by_item k now cfg o s)
    unfolding turn_ok
    item-Kept cfg none = (refl, refl)
    item-Kept cfg (some item) =
        let last = sub64 now (get_timeout cfg.step) in
        if_both (Kept s) (not (eq_text item.f_status (codes "OK")) || ltb_ℤ item.f_ts last)
          (refl, refl)
          (if_both (Kept s) (eqb_ℤ (f_compare cfg.mock item.value) (pos 0)) (overdue-Kept cfg) (
            if_both (Kept s) (ltb_ℤ item.ts last) (overdue-Kept cfg)
              (get-put_ne k key _ s.status_map other, refl)))

    config-Kept : (o : Option (NodataConfig F)) → Kept s (by_config k now o env.items s)
    config-Kept none = (refl, refl)
    config-Kept (some cfg) = item-Kept cfg (get_first_item k env.items)

    judge_key-Kept : Kept s (judge_key env now k s)
    unfolding judge_key
    judge_key-Kept = config-Kept (get k env.configs)

  -- A round over keys other than a counter leaves the status and the mock of the counter as they
  -- are.
  pub judge-Kept :
      (keys : List Text) (s : State F) → All (λ k. k ≢ key) keys → Kept s (judge env now keys s)
  unfolding judge
  judge-Kept [] s others = (refl, refl)
  judge-Kept (k ∷ keys) s others =
      let here = judge_key-Kept k s others.0 in
      let rest = judge-Kept keys (judge_key env now k s) others.1 in
      (rest.0 ∙ here.0, rest.1 ∙ here.1)
