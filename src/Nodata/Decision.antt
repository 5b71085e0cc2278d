-- ===== src/Nodata/Decision.antt =====
-- modules/nodata/judge/judge_cron.go: what one round decides about a counter.
use falcon_plus.Base.{
  ◌≡◌, refl, ◌⊎◌, inl, inr, true, Option, none, some, Bool-cases, if◌then◌else◌, arith, not, ◌||◌,
}
use falcon_plus.Base.Int.{ℤ, pos, ◌≤ℤ◌, ◌<ℤ◌, eqb_ℤ, eqb_ℤ_iff, leb_ℤ, ltb_ℤ, ◌+ℤ◌}
use falcon_plus.Base.Word.{add64, sub64, int64}
use falcon_plus.Base.Text.{Text, codes, eq_text}
use falcon_plus.Base.Dict.{get, get-put_self, text_eq}
use falcon_plus.Base.Float.{Float64}
use falcon_plus.Nodata.Status.{
  NodataStatus, NodataConfig, DataItem, MetaData, ok, nodata, last_ts, turned_ok, turned_nodata,
  turn_ok, turn_nodata, get_first_item,
}
use falcon_plus.Nodata.Judge.{
  State, Env, gen_ts, get_timeout, f_compare, gen_mock, overdue, judge_key,
}

abbrev pub cnt_of : Option NodataStatus → ℤ
cnt_of none = pos 0
cnt_of (some ns) = ns.cnt

turned_nodata_lem :
    (now : ℤ) (key : Text) (o : Option NodataStatus)
    → ((turned_nodata key now o).status ≡ nodata)
      × ((turned_nodata key now o).ts ≡ now)
      × ((turned_nodata key now o).cnt ≡ add64 (cnt_of o) (pos 1))
unfolding int64 ◌+ℤ◌
turned_nodata_lem now key none = (refl, refl, refl)
turned_nodata_lem now key (some ns) = (refl, refl, refl)

turned_ok_lem :
    (now : ℤ) (key : Text) (o : Option NodataStatus)
    → ((turned_ok key now o).status ≡ ok)
      × ((turned_ok key now o).ts ≡ now)
      × ((turned_ok key now o).cnt ≡ pos 0)
turned_ok_lem now key none = (refl, refl, refl)
turned_ok_lem now key (some ns) = (refl, refl, refl)

module _ {F : Type 0} ⦃f : Float64 F⦄ (now : ℤ) (key : Text) where
  -- The collector fetched the counter lately.
  abbrev pub IsFresh : NodataConfig F → DataItem F → Type 0
  IsFresh cfg item =
      (eq_text item.f_status (codes "OK") ≡ true) × (sub64 now (get_timeout cfg.step) ≤ℤ item.f_ts)

  -- Its newest point is the mock itself, or too old.
  abbrev pub IsMissing : NodataConfig F → DataItem F → Type 0
  IsMissing cfg item =
      (f_compare cfg.mock item.value ≡ pos 0) ⊎ (item.ts <ℤ sub64 now (get_timeout cfg.step))

  abbrev pub IsDue : NodataConfig F → State F → Type 0
  IsDue cfg s = add64 (last_ts key s.status_map) cfg.step ≤ℤ now

  -- The counter is in the state of no data as of now, one round longer, and a mock stands ready.
  pub record Mocked (cfg : NodataConfig F) (s s' : State F) : Type 0 where
    pub turned :
        (ns : NodataStatus) × (get key s'.status_map ≡ some ns)
        × (ns.status ≡ nodata)
        × (ns.ts ≡ now)
        × (ns.cnt ≡ add64 (cnt_of (get key s.status_map)) (pos 1))
    pub mocked :
        (m : MetaData F) × (get key s'.mock_map ≡ some m)
        × (m.timestamp ≡ gen_ts now cfg.step)
        × (m.value ≡ cfg.mock)

  -- The counter is well as of now, and no mock is made.
  pub record Alive (s s' : State F) : Type 0 where
    pub turned :
        (ns : NodataStatus) × (get key s'.status_map ≡ some ns)
        × (ns.status ≡ ok)
        × (ns.ts ≡ now)
        × (ns.cnt ≡ pos 0)
    pub mocks_kept : s'.mock_map ≡ s.mock_map

  abbrev pub Decided : NodataConfig F → DataItem F → State F → State F → Type 0
  Decided cfg item s s' =
      ((IsFresh cfg item × IsMissing cfg item × IsDue cfg s) × Mocked cfg s s')
      ⊎ (((IsFresh cfg item × ¬ IsMissing cfg item) × Alive s s')
          ⊎ ((¬ IsFresh cfg item ⊎ (IsMissing cfg item × ¬ IsDue cfg s)) × (s' ≡ s)))

  overdue-Mocked :
      (cfg : NodataConfig F) (s : State F) → IsDue cfg s → Mocked cfg s (overdue key now cfg s)
  unfolding overdue turn_nodata gen_mock
  overdue-Mocked cfg s due =
      let passed : leb_ℤ (add64 (last_ts key s.status_map) cfg.step) now ≡ true = ground arith in
      rw passed (record {
        turned = (
          turned_nodata key now (get key s.status_map),
          get-put_self key _ s.status_map,
          (turned_nodata_lem now key (get key s.status_map)).0,
          (turned_nodata_lem now key (get key s.status_map)).1,
          (turned_nodata_lem now key (get key s.status_map)).2,
        );
        mocked = (_, get-put_self key _ s.mock_map, refl, refl);
      })

  overdue-Decided :
      (cfg : NodataConfig F) (item : DataItem F) (s : State F)
      → IsFresh cfg item
      → IsMissing cfg item
      → Decided cfg item s (overdue key now cfg s)
  unfolding overdue
  overdue-Decided cfg item s fresh missing =
      elim (Bool-cases (leb_ℤ (add64 (last_ts key s.status_map) cfg.step) now)) [
        | inl due ↦
            let due' : IsDue cfg s = ground (arith, due) in
            inl ((fresh, missing, due'), overdue-Mocked cfg s due')
        | inr early ↦
            let early' : ¬ IsDue cfg s = ground (arith, early) in
            inr (inr (inr (missing, early'), rw early refl))
      ]

  alive-Decided :
      (cfg : NodataConfig F) (item : DataItem F) (s : State F)
      → IsFresh cfg item
      → ¬ IsMissing cfg item
      → Decided cfg item s (record s { status_map = turn_ok key now s.status_map })
  unfolding turn_ok
  alive-Decided cfg item s fresh present = inr (
      inl (
        (fresh, present),
        record {
          turned = (
            _,
            get-put_self key _ s.status_map,
            (turned_ok_lem now key (get key s.status_map)).0,
            (turned_ok_lem now key (get key s.status_map)).1,
            (turned_ok_lem now key (get key s.status_map)).2,
          );
          mocks_kept = refl;
        },
      ))

  present_Decided :
      (cfg : NodataConfig F) (item : DataItem F) (s : State F)
      → IsFresh cfg item
      → Decided cfg item s (
          if eqb_ℤ (f_compare cfg.mock item.value) (pos 0)
          then overdue key now cfg s
          else if ltb_ℤ item.ts (sub64 now (get_timeout cfg.step))
          then overdue key now cfg s
          else record s { status_map = turn_ok key now s.status_map })
  present_Decided cfg item s fresh =
      elim (Bool-cases (eqb_ℤ (f_compare cfg.mock item.value) (pos 0))) [
        | inl mocked ↦ rw mocked (
            overdue-Decided cfg item s fresh
              (inl ((eqb_ℤ_iff (f_compare cfg.mock item.value) (pos 0)).0 mocked)))
        | inr other ↦ elim (Bool-cases (ltb_ℤ item.ts (sub64 now (get_timeout cfg.step)))) [
          | inl late ↦
              rw (other, late) (overdue-Decided cfg item s fresh (inr (ground (arith, late))))
          | inr lately ↦
              rw (other, lately)
                (alive-Decided cfg item s fresh
                  (λ missing. ground (arith, eqb_ℤ_iff (f_compare cfg.mock item.value) (pos 0))))
        ]
      ]

  -- For a counter that is configured and has an item: if it was fetched lately and its newest
  -- point is missing (it is the mock, or too old), a mock with the time genTs is made and the
  -- status turns to no data with a count one higher, as soon as a step has passed since the last
  -- change; if it was fetched lately and the point is there, the status is OK; in all other cases
  -- nothing changes.
  pub judge_key_lem :
      (env : Env F) (cfg : NodataConfig F) (item : DataItem F) (s : State F)
      → get key env.configs ≡ some cfg
      → get_first_item key env.items ≡ some item
      → Decided cfg item s (judge_key env now key s)
  unfolding judge_key
  judge_key_lem env cfg item s configured collected =
      let last = sub64 now (get_timeout cfg.step) in
      rw (configured, collected)
        (elim (Bool-cases (not (eq_text item.f_status (codes "OK")) || ltb_ℤ item.f_ts last)) [
          | inl skipped ↦
              let stale : ¬ IsFresh cfg item = ground (arith, skipped) in
              rw skipped (inr (inr (inl stale, refl)))
          | inr fetched ↦
              let fresh : IsFresh cfg item = ground (arith, fetched) in
              rw fetched (present_Decided cfg item s fresh)
        ])
