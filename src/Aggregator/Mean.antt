-- ===== src/Aggregator/Mean.antt =====
-- modules/aggregator/cron/run.go: the mean of an expression over the hosts of a group.
use falcon_plus.Base.{
  ℕ, suc, ◌+◌, ◌≡◌, refl, ap, ◌∙◌, inl, inr, Bool, true, false, Option, none, some, List, [], ◌∷◌,
  map, foldl, length, Run, ◌>>=◌, eqb, if◌then◌else◌, Option-cases, arith,
}
use falcon_plus.Base.Int.{pos}
use falcon_plus.Base.Text.{Text, codes, eq_text}
use falcon_plus.Base.Dict.{Dict, text_eq}
use falcon_plus.Base.Float.{Float64}
use falcon_plus.Aggregator.Compute.{with_value}
use falcon_plus.Aggregator.Printed.{Term, counter_of, operator_of, text_of}
use falcon_plus.Aggregator.Meaning.{Mode, mode_text, IsNumeral, total, judged, compute-total}
use falcon_plus.Aggregator.Worker.{Sums, Side, zero_value, host_sums, push_value, aggregate}

-- The side of an expression as it is written, and "$#".
abbrev pub written : Bool → Text → List Term → Mode → Side
written grouped c ts mode = record {
  text = text_of grouped c ts (mode_text mode);
  need = true;
  parsed = record {
    operands = c ∷ map counter_of ts;
    operators = map operator_of ts;
    compute_mode = mode_text mode;
  };
}

abbrev pub all_hosts : Side
all_hosts = record {
  text = codes "$#";
  need = false;
  parsed = record { operands = []; operators = []; compute_mode = [] };
}

module _ {F : Type 0} ⦃f : Float64 F⦄ (parse_float : Text → F × Bool) where
  abbrev pub host_value : Text → List Term → Mode → Dict Text F → Text → Option F
  host_value c ts mode vals host =
      total host vals c ts >>= λ sum. some (judged (λ s. (parse_float s).0) mode sum)

  -- The values of the hosts that have all counters.
  abbrev pub values_of : Text → List Term → Mode → Dict Text F → List Text → List F
  values_of c ts mode vals [] = []
  values_of c ts mode vals (host ∷ hosts) =
      with_value (host_value c ts mode vals host) (values_of c ts mode vals hosts)

  -- Their mean; nothing where there is none.
  abbrev pub mean : List F → Option F
  mean vs =
      if f.eq (f.of_int (pos (length vs))) (f.of_int (pos 0))
      then none
      else if eqb (length vs) 0
      then none
      else some (f.div (foldl f.add (f.of_int (pos 0)) vs) (f.of_int (pos (length vs))))

  abbrev with_count : F → F → ℕ → Run (Sums F)
  with_count n d k = some (record { numerator = n; denominator = d; valid_count = k })

  -- The loop over the hosts ends with the sum of the values and their number.
  abbrev SumsUp : Run (Sums F) → F → ℕ → List F → Type 0
  SumsUp run n k vs =
      (d : F) × (run
        ≡ some
            (record { numerator = foldl f.add n vs; denominator = d; valid_count = k + length vs }))

  host_sums-values :
      (grouped : Bool) (c : Text) (ts : List Term) (mode : Mode) (vals : Dict Text F)
      (hosts : List Text) (n d : F) (k : ℕ)
      → IsNumeral mode
      → SumsUp
          (host_sums parse_float
            (written grouped c ts mode)
            all_hosts
            vals
            hosts
            (record { numerator = n; denominator = d; valid_count = k }))
          n
          k
          (values_of c ts mode vals hosts)
  unfolding host_sums
  host_sums-values grouped c ts mode vals [] n d k h =
      let counted : k ≡ k + 0 = omega arith in (d, ap (with_count n d) counted)
  host_sums-values grouped c ts mode vals (host ∷ hosts) n d k h =
      let run = compute-total host vals (λ s. (parse_float s).0) c ts mode h in
      elim (Option-cases (total host vals c ts)) [
        | inl e ↦
            let (d', rest) = host_sums-values grouped c ts mode vals hosts n d k h in
            (d', rw (run, e) rest)
        | inr (sum, e) ↦
            let v = judged (λ s. (parse_float s).0) mode sum in
            let (d', rest) =
              host_sums-values grouped c ts mode vals hosts (f.add n v)
                (f.add d (zero_value parse_float)) (suc k) h in
            let vs = values_of c ts mode vals hosts in
            let counted : suc k + length vs ≡ k + suc (length vs) = omega arith in
            (d', rw (run, e) (rest ∙ ap (with_count (foldl f.add (f.add n v) vs) d') counted))
      ]

  -- For a written expression over $#, the loop of WorkerRun and what follows it give the mean of the
  -- values, where there is one.
  pub aggregate-mean :
      (grouped : Bool) (c : Text) (ts : List Term) (mode : Mode) (vals : Dict Text F)
      (hosts : List Text)
      → IsNumeral mode
      → aggregate parse_float (written grouped c ts mode) all_hosts hosts vals
        ≡ some (mean (values_of c ts mode vals hosts))
  unfolding aggregate push_value eq_text
  aggregate-mean grouped c ts mode vals hosts h =
      let (d, run) =
        host_sums-values grouped c ts mode vals hosts (f.of_int (pos 0)) (f.of_int (pos 0)) 0 h in
      let count : 0 + length (values_of c ts mode vals hosts)
          ≡ length (values_of c ts mode vals hosts) =
        omega arith in
      rw (run, count) refl
