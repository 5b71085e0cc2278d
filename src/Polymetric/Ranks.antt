-- ===== src/Polymetric/Ranks.antt =====
-- modules/polymetric/cron/poly_worker.go: how the pushed values of GeneralPolyMethods stand to the batch.
use falcon_plus.Base.{
  ℕ, zero, suc, ◌-◌, ◌≤◌, ◌<◌, ◌≡◌, refl, sym, ◌∙◌, inl, inr, ◌⊎◌, false, some, List, [], ◌∷◌, ◌++◌,
  map, length, get_elem?, get_elem?-length, All, Run, arith,
}
use falcon_plus.Base.Int.{pos}
use falcon_plus.Base.Text.{Text, codes}
use falcon_plus.Base.Strings.{split_pair}
use falcon_plus.Base.Dict.{Dict}
use falcon_plus.Base.Float.{Float64, IsOrdered}
use falcon_plus.Transfer.Model.{PolyRequest}
use falcon_plus.Polymetric.Worker.{
  Config, Summary, Output, underscored, sum_from, zero_float, sort_floats, read_summary, summary_of,
  local_data_map, push_changes, push_rest, push_summary, general_poly_methods,
}
use falcon_plus.Polymetric.Sorted.{
  AreNumbers, All-get_elem?, sort_floats-All, sort_floats-All_back, length-sort_floats,
  sort_floats-AreAscending, AreAscending-at,
}

-- The rounded shares of a count stand below it, in the order of the shares.
pub record IsRanked (c : Config) : Type 0 where
  pub half_below : (n : ℕ) → 1 < n → c.half n ≤ c.most n
  pub most_below : (n : ℕ) → 1 < n → c.most n ≤ c.nearly_all n
  pub nearly_all_below : (n : ℕ) → 1 < n → c.nearly_all n < n

module _ {F : Type 0} ⦃f : Float64 F⦄ where
  abbrev pub Among : List F → F → Type 0
  Among [] v = ⊥
  Among (x ∷ l) v = (x ≡ v) ⊎ Among l v

  All-Among : (l m : List F) → ((v : F) → Among l v → Among m v) → All (Among m) l
  All-Among [] m h = tt
  All-Among (x ∷ l) m h = (h x (inl refl), All-Among l m (λ v a. h v (inr a)))

  -- Each value but the sum and the mean is one of the batch, the greatest and the least bound it, and the
  -- percentiles stand between them in their order.
  abbrev pub IsSummary : List F → Summary F → Type 0
  IsSummary values s =
      (All (λ v. f.lt s.max v ≡ false) values × All (λ v. f.lt v s.min ≡ false) values)
      × ((f.lt s.tp50 s.min ≡ false)
          × (f.lt s.tp90 s.tp50 ≡ false)
          × (f.lt s.tp99 s.tp90 ≡ false)
          × (f.lt s.max s.tp99 ≡ false))
      × (Among values s.max
          × Among values s.min
          × Among values s.tp50
          × Among values s.tp90
          × Among values s.tp99)

  All-at :
      (P : F → Type 0) (l : List F) → ((i : ℕ) (v : F) → get_elem? l i ≡ some v → P v) → All P l
  All-at P [] h = tt
  All-at P (x ∷ l) h = (h 0 x refl, All-at P l (λ i v e. h (suc i) v e))

  get_elem?-below : (l : List F) (i : ℕ) (v : F) → get_elem? l i ≡ some v → i < length l
  get_elem?-below [] i v e = cc
  get_elem?-below (x ∷ l) zero v e = omega arith
  get_elem?-below (x ∷ l) (suc i) v e = omega (arith, get_elem?-below l i v e)

  module _ (o : IsOrdered F) (c : Config) (r : IsRanked c) where
    read_summary-IsSummary :
        (total : F) (n : ℕ) (values : List F)
        → AreNumbers values
        → n ≡ length values
        → 1 < n
        → (s : Summary F) × (read_summary c total n (sort_floats values) ≡ some s)
          × IsSummary values s
    read_summary-IsSummary total n values numbers size many =
        let l = sort_floats values in
        let size' : length l ≡ n = length-sort_floats values ∙ sym size in
        let up = sort_floats-AreAscending o values numbers in
        let at_most = r.half_below n many in
        let at_nearly = r.most_below n many in
        let below = r.nearly_all_below n many in
        let (top, top_at) = get_elem?-length l (n - 1) (omega arith) in
        let (bottom, bottom_at) = get_elem?-length l 0 (omega arith) in
        let (p50, p50_at) = get_elem?-length l (c.half n) (omega arith) in
        let (p90, p90_at) = get_elem?-length l (c.most n) (omega arith) in
        let (p99, p99_at) = get_elem?-length l (c.nearly_all n) (omega arith) in
        let ordered =
          λ (i j : ℕ) (v w : F) (h : i ≤ j) (p : get_elem? l i ≡ some v)
              (q : get_elem? l j ≡ some w).
            AreAscending-at o l i j v w up h p q in
        let among : All (Among values) l =
          sort_floats-All (Among values) values (All-Among values values (λ v a. a)) in
        let found = λ (i : ℕ) (v : F) (e : get_elem? l i ≡ some v).
          All-get_elem? (Among values) l i v among e in
        let high =
          All-at (λ v. f.lt top v ≡ false) l
            (λ i v e. ordered i (n - 1) v top (omega (arith, get_elem?-below l i v e)) e top_at) in
        let low =
          All-at (λ v. f.lt v bottom ≡ false) l
            (λ i v e. ordered 0 i bottom v (omega arith) bottom_at e) in
        let s : Summary F = record {
          sum = total;
          avg = f.div total (f.of_int (pos n));
          max = top;
          min = bottom;
          tp50 = p50;
          tp90 = p90;
          tp99 = p99;
        } in
        (
          s,
          rw (top_at, bottom_at, p50_at, p90_at, p99_at) refl,
          (
            (
              sort_floats-All_back (λ v. f.lt top v ≡ false) values high,
              sort_floats-All_back (λ v. f.lt v bottom ≡ false) values low,
            ),
            (
              ordered 0 (c.half n) bottom p50 (omega arith) bottom_at p50_at,
              ordered (c.half n) (c.most n) p50 p90 at_most p50_at p90_at,
              ordered (c.most n) (c.nearly_all n) p90 p99 at_nearly p90_at p99_at,
              ordered (c.nearly_all n) (n - 1) p99 top (omega arith) p99_at top_at,
            ),
            (
              found (n - 1) top top_at,
              found 0 bottom bottom_at,
              found (c.half n) p50 p50_at,
              found (c.most n) p90 p90_at,
              found (c.nearly_all n) p99 p99_at,
            ),
          ),
        )

    pub summary_of-IsSummary :
        (v : F) (values : List F)
        → AreNumbers (v ∷ values)
        → (s : Summary F) × (summary_of c (v ∷ values) ≡ some s) × IsSummary (v ∷ values) s
    unfolding summary_of
    summary_of-IsSummary v [] numbers =
        let same = o.lt_irrefl v in
        let s : Summary F = record {
          sum = v;
          avg = v;
          max = v;
          min = v;
          tp50 = v;
          tp90 = v;
          tp99 = v;
        } in
        (
          s,
          refl,
          (
            ((same, tt), (same, tt)),
            (same, same, same, same),
            (inl refl, inl refl, inl refl, inl refl, inl refl),
          ),
        )
    summary_of-IsSummary v (w ∷ values) numbers =
        read_summary-IsSummary (sum_from zero_float (v ∷ w ∷ values)) (length (v ∷ w ∷ values))
          (v ∷ w ∷ values) numbers refl (omega arith)

    -- The pushes begin with a summary of the batch.
    abbrev pub Summarises :
        (poly_type poly_name metric : Text) → List F → Run (Dict Text F × List (Output F)) → Type 0
    Summarises poly_type poly_name metric values run =
        (s : Summary F) × (history' : Dict Text F) × (out : List (Output F)) × (run
          ≡ some (
            history',
            push_summary (underscored (poly_type ++ (codes "_poly_" ++ poly_name))) metric s ++ out,
          ))
        × IsSummary values s

    -- For a batch that is not empty, of values that are not NaN, a name with three parts, and
    -- shares of a count that stand below it and in their order: GeneralPolyMethods returns, and
    -- its first pushes are a summary whose max is less than no value of the batch, whose min is
    -- greater than none, whose tp50, tp90 and tp99 stand between them in this order, and all of
    -- these five are values of the batch.
    pub general_poly_methods-Summarises :
        (name poly_type poly_name metric : Text) (rest : List Text) (i : PolyRequest F)
        (items : List (PolyRequest F)) (history : Dict Text F)
        → split_pair b'|' b'|' name ≡ poly_type ∷ poly_name ∷ metric ∷ rest
        → AreNumbers (map (λ i'. i'.value) (i ∷ items))
        → Summarises poly_type poly_name metric
            (map (λ i'. i'.value) (i ∷ items))
            (general_poly_methods c name (i ∷ items) history)
    unfolding general_poly_methods
    general_poly_methods-Summarises name poly_type poly_name metric rest i items history parts
          numbers =
        let (s, run, is) = summary_of-IsSummary i.value (map (λ i'. i'.value) items) numbers in
        let end = underscored (poly_type ++ (codes "_poly_" ++ poly_name)) in
        let (history', prome, pushed) = push_changes end metric (local_data_map s) history in
        (
          s,
          history',
          push_rest c poly_type poly_name metric (i ∷ items) s (prome, pushed),
          rw (run, parts) refl,
          is,
        )
