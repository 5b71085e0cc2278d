-- ===== src/Polymetric/Changes.antt =====
-- modules/polymetric/cron/poly_worker.go: the rates and deltas of two batches of one name.
use falcon_plus.Base.{
  ◌≡◌, refl, ap, ◌∙◌, Bool, true, false, not, ◌&&◌, some, List, [], ◌∷◌, ◌++◌, map, All, Run,
  if◌then◌else◌, arith,
}
use falcon_plus.Base.Text.{eq_text-append, Text, codes, eq_text, eq_text_iff}
use falcon_plus.Base.Strings.{split_pair}
use falcon_plus.Base.Dict.{Dict, get, put, text_eq, get-put, get-put_self}
use falcon_plus.Base.Float.{Float64, IsOrdered}
use falcon_plus.Transfer.Model.{PolyRequest}
use falcon_plus.Polymetric.Worker.{
  Config, Summary, Output, underscored, result_key, zero_float, push_gauge, push_changes,
  local_data_map, push_summary, summary_of, push_rest, general_poly_methods,
}
use falcon_plus.Polymetric.Sorted.{AreNumbers}
use falcon_plus.Polymetric.Ranks.{IsRanked, summary_of-IsSummary}

eq_text-result_key :
    (end metric j k : Text)
    → eq_text (result_key end metric j) (result_key end metric k) ≡ eq_text j k
eq_text-result_key end metric j k =
    eq_text-append end _ _ ∙ eq_text-append metric _ _ ∙ eq_text-append (codes "method=") j k

-- A method with its values in a batch and in the next one.
abbrev pub Methods : Type 0 → Type 0
Methods F = List (Text × F × F)

module _ {F : Type 0} where
  abbrev pub olds : Methods F → Dict Text F
  olds ms = map (λ m. (m.0, m.1)) ms

  abbrev pub news : Methods F → Dict Text F
  news ms = map (λ m. (m.0, m.2)) ms

  abbrev lacks : Text → Methods F → Bool
  lacks k [] = true
  lacks k (m ∷ ms) = not (eq_text m.0 k) && lacks k ms

  abbrev apart : Methods F → Bool
  apart [] = true
  apart (m ∷ ms) = lacks m.0 ms && apart ms

module _ {F : Type 0} (end metric : Text) where
  abbrev Remembers : Dict Text F → Dict Text F → Type 0
  Remembers history l = All (λ e. get (result_key end metric e.0) history ≡ some e.1) l

  get-put_other :
      (j k : Text) (v : F) (history : Dict Text F)
      → eq_text j k ≡ false
      → get (result_key end metric k) (put (result_key end metric j) v history)
        ≡ get (result_key end metric k) history
  get-put_other j k v history n =
      get-put (result_key end metric j) (result_key end metric k) v history
      ∙ ap (λ (b : Bool). if b then some v else get (result_key end metric k) history)
          (eq_text-result_key end metric j k ∙ n)

  put-Remembers :
      (j : Text) (v : F) (history : Dict Text F) (ms : Methods F)
      → lacks j ms ≡ true
      → Remembers history (olds ms)
      → Remembers (put (result_key end metric j) v history) (olds ms)
  put-Remembers j v history [] n h = tt
  put-Remembers j v history (m ∷ ms) n h =
      let other : eq_text j m.0 ≡ false = ground (arith, n, eq_text_iff j m.0, eq_text_iff m.0 j) in
      (get-put_other j m.0 v history other ∙ h.0, put-Remembers j v history ms (ground arith) h.1)

module _ {F : Type 0} ⦃f : Float64 F⦄ (end metric : Text) where
  -- The pushes of one method whose value was v and is v'.
  abbrev pub pushes_between : Text × F × F → List (Output F) → List (Output F)
  pushes_between (k, v, v') out =
      push_gauge end (metric ++ codes "_rate") k
        (if f.eq v zero_float then zero_float else f.div (f.sub v' v) v)
      ∷ push_gauge end (metric ++ codes "_delta") k (f.sub v' v)
      ∷ out

  abbrev pub changes : Methods F → List (Output F)
  changes [] = []
  changes (m ∷ ms) = pushes_between m (changes ms)

  -- A method that is not pushed keeps its value.
  push_changes-get :
      (k : Text) (ms : Methods F) (history : Dict Text F)
      → lacks k ms ≡ true
      → get (result_key end metric k) (push_changes end metric (news ms) history).0
        ≡ get (result_key end metric k) history
  unfolding push_changes
  push_changes-get k [] history n = refl
  push_changes-get k (m ∷ ms) history n =
      push_changes-get k ms (put (result_key end metric m.0) m.2 history) (ground arith)
      ∙ get-put_other end metric m.0 k m.2 history (ground arith)

  push_changes-Remembers :
      (ms : Methods F) (history : Dict Text F)
      → apart ms ≡ true
      → Remembers end metric (push_changes end metric (news ms) history).0 (news ms)
  unfolding push_changes
  push_changes-Remembers [] history d = tt
  push_changes-Remembers (m ∷ ms) history d =
      let key = result_key end metric m.0 in
      (
        push_changes-get m.0 ms (put key m.2 history) (ground arith) ∙ get-put_self key m.2 history,
        push_changes-Remembers ms (put key m.2 history) (ground arith),
      )

  push_changes-changes :
      (ms : Methods F) (history : Dict Text F)
      → apart ms ≡ true
      → Remembers end metric history (olds ms)
      → (push_changes end metric (news ms) history).2 ≡ changes ms
  unfolding push_changes
  push_changes-changes [] history d h = refl
  push_changes-changes (m ∷ ms) history d h =
      let rest =
        push_changes-changes ms (put (result_key end metric m.0) m.2 history) (ground arith)
          (put-Remembers end metric m.0 m.2 history ms (ground arith) h.1) in
      rw (h.0, rest) refl

module _ {F : Type 0} where
  -- The methods with their values in two summaries.
  abbrev pub methods : Summary F → Summary F → Methods F
  methods s s' =
      (codes "sum", s.sum, s'.sum)
      ∷ (codes "avg", s.avg, s'.avg)
      ∷ (codes "max", s.max, s'.max)
      ∷ (codes "min", s.min, s'.min)
      ∷ (codes "tp50", s.tp50, s'.tp50)
      ∷ (codes "tp90", s.tp90, s'.tp90)
      ∷ (codes "tp99", s.tp99, s'.tp99)
      ∷ []

  methods-apart : (s s' : Summary F) → apart (methods s s') ≡ true
  unfolding eq_text
  methods-apart s s' = refl

module _ {F : Type 0} ⦃f : Float64 F⦄ (o : IsOrdered F) (c : Config) (r : IsRanked c) where
  -- The run pushes a summary and then given changes.
  abbrev pub Pushes :
      Text → Text → Summary F → List (Output F) → Run (Dict Text F × List (Output F)) → Type 0
  Pushes end metric s changed run =
      (history' : Dict Text F) × (out : List (Output F)) × (run
        ≡ some (history', push_summary end metric s ++ (changed ++ out)))

  general_poly_methods_run :
      (name poly_type poly_name metric : Text) (rest : List Text) (i : PolyRequest F)
      (items : List (PolyRequest F)) (history : Dict Text F)
      → split_pair b'|' b'|' name ≡ poly_type ∷ poly_name ∷ metric ∷ rest
      → AreNumbers (map (λ x. x.value) (i ∷ items))
      → let end = underscored (poly_type ++ (codes "_poly_" ++ poly_name)) in
        (s : Summary F) × (out : List (Output F)) × (summary_of c (map (λ x. x.value) (i ∷ items))
          ≡ some s)
        × (general_poly_methods c name (i ∷ items) history
            ≡ some (
              (push_changes end metric (local_data_map s) history).0,
              push_summary end metric s
                  ++ ((push_changes end metric (local_data_map s) history).2 ++ out),
            ))
  unfolding general_poly_methods
  general_poly_methods_run name poly_type poly_name metric rest i items history parts numbers =
      let (s, run, _) = summary_of-IsSummary o c r i.value (map (λ x. x.value) items) numbers in
      let end = underscored (poly_type ++ (codes "_poly_" ++ poly_name)) in
      let (_, prome, _) = push_changes end metric (local_data_map s) history in
      (
        s,
        push_rest c poly_type poly_name metric (i ∷ items) s (prome, []),
        run,
        rw (run, parts) refl,
      )

  -- For two batches of one name that are not empty, under the same conditions, the second run from
  -- the history that the first one leaves: both return, and behind its summary the second pushes,
  -- for each of the seven methods, its change against the first and the rate of it, 0 where the
  -- first value is equal to 0; what the history held before does not matter.
  pub general_poly_methods-changes :
      (name poly_type poly_name metric : Text) (rest : List Text) (i j : PolyRequest F)
      (items later : List (PolyRequest F)) (history : Dict Text F)
      → split_pair b'|' b'|' name ≡ poly_type ∷ poly_name ∷ metric ∷ rest
      → AreNumbers (map (λ x. x.value) (i ∷ items))
      → AreNumbers (map (λ x. x.value) (j ∷ later))
      → let end = underscored (poly_type ++ (codes "_poly_" ++ poly_name)) in
        (s s' : Summary F) × (history' : Dict Text F) × (out : List (Output F)) × (summary_of c
            (map (λ x. x.value) (i ∷ items))
          ≡ some s)
        × (summary_of c (map (λ x. x.value) (j ∷ later)) ≡ some s')
        × (general_poly_methods c name (i ∷ items) history ≡ some (history', out))
        × Pushes end metric s'
            (changes end metric (methods s s'))
            (general_poly_methods c name (j ∷ later) history')
  general_poly_methods-changes name poly_type poly_name metric rest i j items later history parts
        numbers numbers' =
      let end = underscored (poly_type ++ (codes "_poly_" ++ poly_name)) in
      let (s, out, sum, run) =
        general_poly_methods_run name poly_type poly_name metric rest i items history parts
          numbers in
      let history' = (push_changes end metric (local_data_map s) history).0 in
      let (s', out', sum', run') =
        general_poly_methods_run name poly_type poly_name metric rest j later history' parts
          numbers' in
      let known = push_changes-Remembers end metric (methods s s) history (methods-apart s s) in
      let same =
        push_changes-changes end metric (methods s s') history' (methods-apart s s') known in
      let history_after = (push_changes end metric (local_data_map s') history').0 in
      let shown = λ (l : List (Output F)). push_summary end metric s' ++ (l ++ out') in
      let pushed : Pushes end metric s' (changes end metric (methods s s'))
          (general_poly_methods c name (j ∷ later) history') =
        (history_after, out', run' ∙ ap (λ l. some (history_after, shown l)) same) in
      (s, s', history', _, sum, sum', run, pushed)
