-- ===== src/Polymetric/Worker.antt =====
-- modules/polymetric/cron/poly_worker.go: GeneralPolyMethods.
use falcon_plus.Base.{
  ℕ, ◌-◌, Bool, ◌||◌, Option, none, some, List, [], ◌∷◌, ◌++◌, map, length, get_elem?, Run, ◌>>=◌,
  if◌then◌else◌, eqb,
}
use falcon_plus.Base.Int.{ℤ, pos}
use falcon_plus.Base.Text.{Text, codes, eq_text}
use falcon_plus.Base.Strings.{split_pair}
use falcon_plus.Base.Dict.{Dict, get, put, text_eq}
use falcon_plus.Base.Float.{Float64}
use falcon_plus.Transfer.Model.{PolyRequest}

-- int(float64(n) * 0.5), int(float64(n) * 0.95) and int(float64(n) * 0.99), and what is switched on.
pub record Config : Type 0 where
  pub half : ℕ → ℕ
  pub most : ℕ → ℕ
  pub nearly_all : ℕ → ℕ
  pub prome_enabled : Bool
  pub has_producer : Bool
  pub nump_enabled : Bool

-- The values of GroupPolyMethod.
pub record Summary (F : Type 0) : Type 0 where
  pub sum : F
  pub avg : F
  pub max : F
  pub min : F
  pub tp50 : F
  pub tp90 : F
  pub tp99 : F

-- sender.Push, PushToProme, AsyncPushKafka and RpcCallNumpApi.
pub data Output (F : Type 0) : Type 0 where
  push : (endpoint metric tags : Text) (val : F) (counter_type : Text) (step : ℤ) → Output F
  push_to_prome : (metric poly_name : Text) (data_map : Dict Text F) → Output F
  push_kafka : (poly_type poly_name endpoint counter method : Text) (value : F) → Output F
  call_nump : (metric poly_name : Text) (end_list : List (Text × F)) → Output F

-- strings.Replace(endp, ".", "_", -1)
abbrev pub underscored : Text → Text
underscored s = map (λ c. if eqb c b'.' then b'_' else c) s

-- uniqueResultKey
abbrev pub result_key : Text → Text → Text → Text
result_key end metric method = end ++ (metric ++ (codes "method=" ++ method))

module _ {F : Type 0} ⦃f : Float64 F⦄ where
  abbrev pub zero_float : F
  zero_float = f.of_int (pos 0)

  abbrev pub sum_from : F → List F → F
  sum_from sum [] = sum
  sum_from sum (v ∷ vs) = sum_from (f.add sum v) vs

  -- sort.Float64s
  unfoldable pub insert_float : F → List F → List F
  insert_float x [] = x ∷ []
  insert_float x (y ∷ l) = let rest = insert_float x l in if f.lt y x then y ∷ rest else x ∷ y ∷ l

  unfoldable pub sort_floats : List F → List F
  sort_floats [] = []
  sort_floats (x ∷ l) = insert_float x (sort_floats l)

  -- What is read of the sorted values; an index past the end panics.
  abbrev pub read_summary : Config → F → ℕ → List F → Run (Summary F)
  read_summary c total n l = get_elem? l (n - 1) >>= λ top. get_elem? l 0 >>= λ bottom.
      get_elem? l (c.half n) >>= λ p50. get_elem? l (c.most n) >>= λ p90.
      get_elem? l (c.nearly_all n) >>= λ p99. some (record {
        sum = total;
        avg = f.div total (f.of_int (pos n));
        max = top;
        min = bottom;
        tp50 = p50;
        tp90 = p90;
        tp99 = p99;
      })

  unfoldable pub summary_of : Config → List F → Run (Summary F)
  unfolding sort_floats
  summary_of c [] = none
  summary_of c (v ∷ []) =
      some (record { sum = v; avg = v; max = v; min = v; tp50 = v; tp90 = v; tp99 = v })
  summary_of c (v ∷ w ∷ l) =
      read_summary c (sum_from zero_float (v ∷ w ∷ l)) (length (v ∷ w ∷ l))
        (sort_floats (v ∷ w ∷ l))

  -- singMap, with the empty text for a key that is missing.
  abbrev pub end_of_value : F → List (F × Text) → Text
  end_of_value v [] = []
  end_of_value v ((w, end) ∷ m) = if f.eq w v then end else end_of_value v m

  abbrev pub unless_named : Text → F → Text → List (F × Text) → List (F × Text)
  unless_named [] v end m = (v, end) ∷ m
  unless_named (_ ∷ _) v end m = m

  abbrev pub sing_map : List (PolyRequest F) → List (F × Text) → List (F × Text)
  sing_map [] m = m
  sing_map (i ∷ items) m =
      sing_map items (unless_named (end_of_value i.value m) i.value i.end_point m)

  -- localDataMap
  abbrev pub local_data_map : Summary F → Dict Text F
  local_data_map s =
      (codes "sum", s.sum)
      ∷ (codes "avg", s.avg)
      ∷ (codes "max", s.max)
      ∷ (codes "min", s.min)
      ∷ (codes "tp50", s.tp50)
      ∷ (codes "tp90", s.tp90)
      ∷ (codes "tp99", s.tp99)
      ∷ []

  abbrev pub push_gauge : Text → Text → Text → F → Output F
  push_gauge end metric method value =
      push end metric (codes "method=" ++ method) value (codes "GAUGE") (pos 30)

  abbrev pub push_summary : Text → Text → Summary F → List (Output F)
  push_summary end metric s = map (λ e. push_gauge end metric e.0 e.1) (local_data_map s)

  abbrev pub delta_of : F → Option F → F
  delta_of v none = zero_float
  delta_of v (some last) = f.sub v last

  abbrev pub rate_of : F → Option F → F
  rate_of v none = zero_float
  rate_of v (some last) = if f.eq last zero_float then zero_float else f.div (f.sub v last) last

  -- The loop over localDataMap, on PolyHistoryDataMap, with promeDataMap and the pushes.
  unfoldable pub push_changes :
      (end metric : Text) → Dict Text F → Dict Text F → Dict Text F × Dict Text F × List (Output F)
  push_changes end metric [] history = (history, [], [])
  push_changes end metric ((k, v) ∷ l) history =
      let last = get (result_key end metric k) history in
      let (history', prome, out) =
        push_changes end metric l (put (result_key end metric k) v history) in
      (
        history',
        (k, v)
            ∷ (k ++ codes "_rate", rate_of v last)
            ∷ (k ++ codes "_delta", delta_of v last)
            ∷ prome,
        push_gauge end (metric ++ codes "_rate") k (rate_of v last)
            ∷ push_gauge end (metric ++ codes "_delta") k (delta_of v last)
            ∷ out,
      )

  -- AsyncPushKafka, which wants an endpoint.
  abbrev pub async_push_kafka :
      (poly_type poly_name endpoint counter method : Text) → F → List (Output F)
  async_push_kafka poly_type poly_name [] counter method value = []
  async_push_kafka poly_type poly_name (c ∷ endpoint) counter method value =
      push_kafka poly_type poly_name (c ∷ endpoint) counter method value ∷ []

  abbrev pub push_ends :
      (poly_type poly_name metric : Text) → Summary F → List (F × Text) → List (Output F)
  push_ends poly_type poly_name metric s sing =
      let send = λ (method : Text) (v : F).
        async_push_kafka poly_type poly_name (end_of_value v sing) metric method v in
      send (codes "max") s.max
      ++ (send (codes "min") s.min
          ++ (send (codes "tp50") s.tp50
              ++ (send (codes "tp90") s.tp90 ++ send (codes "tp99") s.tp99)))

  abbrev pub when_on : Bool → List (Output F) → List (Output F)
  when_on enabled out = if enabled then out else []

  -- What is sent once the loop over localDataMap has its pushes and promeDataMap.
  abbrev pub push_rest :
      Config
      → (poly_type poly_name metric : Text) → List (PolyRequest F)
      → Summary F
      → Dict Text F × List (Output F)
      → List (Output F)
  push_rest c poly_type poly_name metric items s (prome, out) =
      out
      ++ (when_on c.prome_enabled (push_to_prome metric poly_name prome ∷ [])
          ++ (when_on c.has_producer (push_ends poly_type poly_name metric s (sing_map items []))
              ++ when_on c.nump_enabled
                  (call_nump metric poly_name (map (λ i. (i.end_point, i.value)) items) ∷ [])))

  -- From the summary on.
  abbrev pub push_all_of :
      Config
      → (poly_type poly_name metric : Text) → List (PolyRequest F)
      → Dict Text F
      → Summary F
      → Dict Text F × List (Output F)
  push_all_of c poly_type poly_name metric items history s =
      let end = underscored (poly_type ++ (codes "_poly_" ++ poly_name)) in
      let (history', prome, pushed) = push_changes end metric (local_data_map s) history in
      (
        history',
        push_summary end metric s ++ push_rest c poly_type poly_name metric items s (prome, pushed),
      )

  -- GeneralPolyMethods, with what PopBackBy hands and PolyHistoryDataMap.
  unfoldable pub general_poly_methods :
      Config → Text → List (PolyRequest F) → Dict Text F → Run (Dict Text F × List (Output F))
  unfolding summary_of push_changes split_pair
  general_poly_methods c name [] history = some (history, [])
  general_poly_methods c name (i ∷ items) history =
      let names = split_pair b'|' b'|' name in
      summary_of c (map (λ i. i.value) (i ∷ items)) >>= λ s. get_elem? names 0 >>= λ poly_type.
      get_elem? names 1 >>= λ poly_name. get_elem? names 2 >>= λ metric.
      some (push_all_of c poly_type poly_name metric (i ∷ items) history s)

  -- WorkerRun: a name of another type does nothing.
  abbrev pub worker_run :
      Config → Text → List (PolyRequest F) → Dict Text F → Run (Dict Text F × List (Output F))
  worker_run c name items history = get_elem? (split_pair b'|' b'|' name) 0 >>= λ poly_type.
      if eq_text poly_type (codes "ams_tag") || eq_text poly_type (codes "falcon_group")
      then general_poly_methods c name items history
      else some (history, [])
