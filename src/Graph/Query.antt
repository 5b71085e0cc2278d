-- ===== src/Graph/Query.antt =====
-- modules/graph/api/graph.go: the loops of Query over the cached points and the data of the rrd file.
-- A loop over times takes the number of rounds that it may make: `none` is a panic, or a loop that does
-- not end in these.
use falcon_plus.Base.{
  ℕ, zero, suc, Bool, not, ◌&&◌, ◌||◌, Option, none, some, List, [], ◌∷◌, ◌++◌, length, set, ltb,
  Run, ◌>>=◌, if◌then◌else◌,
}
use falcon_plus.Base.Int.{ℤ, pos, negsuc, pos_part, ◌-ℤ◌, leb_ℤ, ltb_ℤ, eqb_ℤ}
use falcon_plus.Base.Word.{add64, sub64, quot_ℤ}
use falcon_plus.Base.Text.{Text, codes, eq_text}
use falcon_plus.Base.Float.{Float64}
use falcon_plus.Graph.Linked.{GraphItem, last_of}

pub record RrdData (F : Type 0) : Type 0 where
  pub timestamp : ℤ
  pub value : F

pub record GraphQueryParam : Type 0 where
  pub start : ℤ
  pub end : ℤ
  pub consol_fun : Text
  pub endpoint : Text
  pub counter : Text
  pub step : ℤ

pub record GraphQueryResponse (F : Type 0) : Type 0 where
  pub endpoint : Text
  pub counter : Text
  pub ds_type : Text
  pub step : ℤ
  pub values : List (RrdData F)

-- math.NaN and math.IsNaN, the hash of a key, where the files stand, what rrdtool.Fetch reads, and
-- with the migration switched on what the other node answers.
pub record Sources (F : Type 0) : Type 0 where
  pub nan : F
  pub is_nan : F → Bool
  pub hash_key : Text → ℕ
  pub storage : Text
  pub fetch_rrd : (filename md5 cf : Text) → (start end step : ℤ) → List (RrdData F)
  pub migrate_enabled : Bool
  pub remote : GraphQueryParam → List (RrdData F)

abbrev pub in_range : ℤ → ℤ → ℤ → Bool
in_range start_ts end_ts ts = leb_ℤ start_ts ts && leb_ℤ ts end_ts

-- rrdDataIdx once it is one higher, and lastTs.
abbrev pub after_junction : ℤ → Option (ℕ × ℤ) → ℕ × ℤ
after_junction ts none = (0, ts)
after_junction ts (some (i, last)) = (suc i, last)

-- More rounds than a loop from one time to another can make.
abbrev pub rounds : ℤ → ℤ → ℕ
rounds from to = suc (suc (pos_part (to -ℤ from)))

module _ {F : Type 0} where
  abbrev pub at_time : ℤ → F → RrdData F
  at_time ts val = record { timestamp = ts; value = val }

  -- The last index at whose time the data are before `ts`, and that time.
  unfoldable pub junction : ℤ → List (RrdData F) → Option (ℕ × ℤ)
  junction ts [] = none
  junction ts (d ∷ ds) = elim (junction ts ds) [
    | none ↦ if ltb_ℤ d.timestamp ts then some (0, d.timestamp) else none
    | some (i, last) ↦ some (suc i, last)
  ]

  unfoldable pub within : ℤ → ℤ → List (RrdData F) → List (RrdData F)
  within start_ts end_ts [] = []
  within start_ts end_ts (d ∷ ds) =
      let rest = within start_ts end_ts ds in
      if in_range start_ts end_ts d.timestamp then d ∷ rest else rest

module _ {F : Type 0} ⦃f : Float64 F⦄ (env : Sources F) where
  -- A value that is below 0 is none.
  abbrev pub rate_or_nan : F → F
  rate_or_nan val = if f.lt val (f.of_int (pos 0)) then env.nan else val

  -- The value at a time, from the items from itemIdx on, and the items that are left.
  abbrev pub derive_value : ℤ → ℤ → List (GraphItem F) → F × List (GraphItem F)
  derive_value step ts [] = (env.nan, [])
  derive_value step ts (item ∷ []) = (env.nan, item ∷ [])
  derive_value step ts (item ∷ item' ∷ items) =
      if eqb_ℤ ts item.timestamp
      then (
        (rate_or_nan (
            if eqb_ℤ ts (sub64 item'.timestamp step)
            then f.div (f.sub item'.value item.value) (f.of_int step)
            else env.nan)),
        item' ∷ items,
      )
      else (env.nan, item ∷ item' ∷ items)

  abbrev pub gauge_value : ℤ → List (GraphItem F) → F × List (GraphItem F)
  gauge_value ts [] = (env.nan, [])
  gauge_value ts (item ∷ items) =
      if eqb_ℤ ts item.timestamp then (item.value, items) else (env.nan, item ∷ items)

  -- A loop that formats the cached items.
  unfoldable pub cache_loop :
      ℕ
      → (ℤ → Bool)
      → (ℤ → List (GraphItem F) → F × List (GraphItem F))
      → (start_ts end_ts step ts : ℤ) → List (GraphItem F)
      → Run (List (RrdData F))
  cache_loop zero more value start_ts end_ts step ts items = none
  cache_loop (suc n) more value start_ts end_ts step ts items =
      let (val, items') = value ts items in
      let rest = cache_loop n more value start_ts end_ts step (add64 ts step) items' in
      if more ts
      then (rest >>= λ cache.
          some (if in_range start_ts end_ts ts then at_time ts val ∷ cache else cache))
      else some []

  unfoldable pub cache_of :
      Text → (start_ts end_ts step ts item_end_ts : ℤ) → List (GraphItem F) → Run (List (RrdData F))
  cache_of ds_type start_ts end_ts step ts item_end_ts items =
      if eq_text ds_type (codes "DERIVE") || eq_text ds_type (codes "COUNTER")
      then cache_loop (rounds ts item_end_ts) (λ t. ltb_ℤ t item_end_ts) (derive_value step)
          start_ts end_ts step ts items
      else if eq_text ds_type (codes "GAUGE")
      then cache_loop (rounds ts item_end_ts) (λ t. leb_ℤ t item_end_ts) gauge_value start_ts end_ts
          step ts items
      else some []

  -- The loop that fixes what is missing.
  unfoldable pub missing_loop : ℕ → (to step ts : ℤ) → Run (List (RrdData F))
  missing_loop zero to step ts = none
  missing_loop (suc n) to step ts =
      let rest = missing_loop n to step (add64 ts step) in
      if ltb_ℤ ts to then (rest >>= λ more. some (at_time ts env.nan ∷ more)) else some []

  -- The loop over the cached items, of which the next goes to `idx`.
  unfoldable pub merge_cached : ℕ → ℕ → List (RrdData F) → List (RrdData F) → List (RrdData F)
  merge_cached size idx [] merged = merged
  merge_cached size idx (c ∷ cache) merged = merge_cached size (suc idx) cache (
      if ltb idx size
      then (if not (env.is_nan c.value) then set merged idx c else merged)
      else merged ++ c ∷ [])

  -- From the junction on.
  abbrev pub joined :
      ℤ → List (RrdData F) → List (RrdData F) → (ts : ℤ) → ℕ × ℤ → Run (List (RrdData F))
  joined step cache merged ts (idx, last_ts) =
      missing_loop (rounds (add64 last_ts step) ts) ts step (add64 last_ts step) >>= λ missing.
      some (merge_cached (length merged) idx cache (merged ++ missing))

  unfoldable pub do_merging : ℤ → List (RrdData F) → List (RrdData F) → Run (List (RrdData F))
  do_merging step [] merged = some merged
  do_merging step (c ∷ cache) merged =
      joined step (c ∷ cache) merged c.timestamp
        (after_junction c.timestamp (junction c.timestamp merged))

  -- The loop that formats the result.
  unfoldable pub format_result : ℕ → (step ts : ℤ) → List (RrdData F) → List (RrdData F)
  format_result zero step ts merged = []
  format_result (suc n) step ts [] = at_time ts env.nan ∷ format_result n step (add64 ts step) []
  format_result (suc n) step ts (d ∷ merged) =
      let taken = d ∷ format_result n step (add64 ts step) merged in
      let filled = at_time ts env.nan ∷ format_result n step (add64 ts step) (d ∷ merged) in
      if eqb_ℤ ts d.timestamp then taken else filled

  -- make panics on a negative size.
  abbrev pub to_size : ℤ → Run ℕ
  to_size (pos n) = some n
  to_size (negsuc n) = none

  unfoldable pub ret_size : Text → (start_ts end_ts step : ℤ) → Run ℕ
  ret_size ds_type start_ts end_ts step =
      let size = quot_ℤ (sub64 end_ts start_ts) step in
      to_size (if eq_text ds_type (codes "GAUGE") then add64 size (pos 1) else size)

  -- The block `merge`, of at least one item.
  unfoldable pub merge :
      Text
      → (start_ts end_ts step : ℤ) → GraphItem F
      → List (GraphItem F)
      → List (RrdData F)
      → Run (List (RrdData F))
  merge ds_type start_ts end_ts step item items datas = last_of (item ∷ items) >>= λ last.
      cache_of ds_type start_ts end_ts step item.timestamp last.timestamp (item ∷ items)
      >>= λ cache. do_merging step cache (within start_ts end_ts datas) >>= λ merged.
          ret_size ds_type start_ts end_ts step >>= λ size.
          some (format_result size step start_ts merged)

  -- By the cached items.
  abbrev pub merge_or_datas :
      Text
      → (start_ts end_ts step : ℤ) → List (GraphItem F)
      → List (RrdData F)
      → Run (List (RrdData F))
  merge_or_datas ds_type start_ts end_ts step [] datas = some datas
  merge_or_datas ds_type start_ts end_ts step (item ∷ items) datas =
      merge ds_type start_ts end_ts step item items datas
