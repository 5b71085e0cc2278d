-- ===== src/Aggregator/Meaning.antt =====
-- modules/aggregator/cron/computer.go: what compute answers for an expression as it is written.
use falcon_plus.Base.{
  ℕ, suc, ◌≡◌, refl, ap, ◌≢◌, inl, inr, ◌⊎◌, Bool, true, false, Option, none, some, List, [], ◌∷◌,
  ◌++◌, map, length, All, ◌>>=◌, eqb, if◌then◌else◌, Option-cases, ◌≤◌, ◌<◌, arith,
}
use falcon_plus.Base.Int.{pos}
use falcon_plus.Base.Text.{Text, codes, eq_text}
use falcon_plus.Base.Dict.{Dict, get, text_eq}
use falcon_plus.Base.Float.{Float64}
use falcon_plus.Aggregator.Compute.{
  is_sign, is_figure, run_of, after_run, find_match, query_operands, sum_operands, compared,
  compare_sum, with_mode, compute,
}
use falcon_plus.Aggregator.Printed.{Term, plus, minus, counter_of, operator_of}

pub data Order : Type 0 where
  above : Order
  below : Order
  equal : Order
  at_least : Order
  at_most : Order

abbrev pub sign_of : Order → Text
sign_of above = codes ">"
sign_of below = codes "<"
sign_of equal = codes "="
sign_of at_least = codes ">="
sign_of at_most = codes "<="

-- What stands behind the counters: nothing, or a comparison with a number.
pub data Mode : Type 0 where
  sum_itself : Mode
  against : Order → Text → Mode

abbrev pub mode_text : Mode → Text
mode_text sum_itself = []
mode_text (against o num) = sign_of o ++ num

-- Figures, and at least one.
abbrev pub IsNumeral : Mode → Type 0
IsNumeral sum_itself = Unit {0}
IsNumeral (against o num) = (num ≢ []) × All (λ c. is_figure c ≡ true) num

run_of-figures : (num : Text) → All (λ c. is_figure c ≡ true) num → run_of is_figure num ≡ num
unfolding run_of
run_of-figures [] h = refl
run_of-figures (x ∷ num) h = rw (h.0, run_of-figures num h.1) refl

figure_is_no_sign : (c : ℕ) → is_figure c ≡ true → is_sign c ≡ false
figure_is_no_sign c h = ground (arith, h)

match_one :
    (x c : ℕ) (num : Text)
    → is_sign x ≡ true
    → is_figure c ≡ true
    → All (λ c. is_figure c ≡ true) num
    → find_match (x ∷ c ∷ num) ≡ some (x ∷ [], c ∷ num)
unfolding find_match run_of after_run
match_one x c num s h a = rw (s, figure_is_no_sign c h, h, run_of-figures num a) refl

module _ {F : Type 0} ⦃f : Float64 F⦄ (host : Text) (vals : Dict Text F) where
  abbrev pub value_at : Text → Option F
  value_at c = get (host ++ c) vals

  -- The terms added and subtracted from left to right; nothing where a counter has no value.
  abbrev pub total_from : F → List Term → Option F
  total_from sum [] = some sum
  total_from sum (plus c ∷ ts) = value_at c >>= λ v. total_from (f.add sum v) ts
  total_from sum (minus c ∷ ts) = value_at c >>= λ v. total_from (f.sub sum v) ts

  abbrev pub total : Text → List Term → Option F
  total c ts = value_at c >>= λ v. total_from v ts

module _ {F : Type 0} ⦃f : Float64 F⦄ where
  abbrev pub holds : Order → F → F → Bool
  holds above sum num = f.lt num sum
  holds below sum num = f.lt sum num
  holds equal sum num = f.eq sum num
  holds at_least sum num = f.le num sum
  holds at_most sum num = f.le sum num

  -- The sum, or 1 where the comparison holds and 0 elsewhere.
  abbrev pub judged : (Text → F) → Mode → F → F
  judged parse_float sum_itself sum = sum
  judged parse_float (against o num) sum =
      if holds o sum (parse_float num) then f.of_int (pos 1) else f.of_int (pos 0)

  compared-holds : (o : Order) (sum num : F) → compared (sign_of o) sum num ≡ holds o sum num
  unfolding compared eq_text
  compared-holds above sum num = ground arith
  compared-holds below sum num = ground arith
  compared-holds equal sum num = ground arith
  compared-holds at_least sum num = ground arith
  compared-holds at_most sum num = ground arith

match_two :
    (x y c : ℕ) (num : Text)
    → is_sign x ≡ true
    → is_sign y ≡ true
    → is_figure c ≡ true
    → All (λ c. is_figure c ≡ true) num
    → find_match (x ∷ y ∷ c ∷ num) ≡ some (x ∷ y ∷ [], c ∷ num)
unfolding find_match run_of after_run
match_two x y c num s r h a = rw (s, r, figure_is_no_sign c h, h, run_of-figures num a) refl

find_match-mode :
    (o : Order) (num : Text)
    → IsNumeral (against o num)
    → find_match (mode_text (against o num)) ≡ some (sign_of o, num)
find_match-mode o [] h = absurd (h.0 refl)
find_match-mode above (c ∷ num) h = match_one b'>' c num refl h.1.0 h.1.1
find_match-mode below (c ∷ num) h = match_one b'<' c num refl h.1.0 h.1.1
find_match-mode equal (c ∷ num) h = match_one b'=' c num refl h.1.0 h.1.1
find_match-mode at_least (c ∷ num) h = match_two b'>' b'=' c num refl refl h.1.0 h.1.1
find_match-mode at_most (c ∷ num) h = match_two b'<' b'=' c num refl refl h.1.0 h.1.1

module _ {F : Type 0} ⦃f : Float64 F⦄ (parse_float : Text → F) where
  compare_sum-holds :
      (o : Order) (num : Text) (sum : F)
      → IsNumeral (against o num)
      → compare_sum parse_float sum (mode_text (against o num))
        ≡ some (holds o sum (parse_float num))
  unfolding compare_sum
  compare_sum-holds o num sum h =
      rw (find_match-mode o num h) (ap some (compared-holds o sum (parse_float num)))

  with_mode-judged :
      (mode : Mode) (sum : F)
      → IsNumeral mode
      → with_mode parse_float sum (mode_text mode) ≡ some (some (judged parse_float mode sum))
  with_mode-judged sum_itself sum h = refl
  with_mode-judged (against above num) sum h = rw (compare_sum-holds above num sum h) refl
  with_mode-judged (against below num) sum h = rw (compare_sum-holds below num sum h) refl
  with_mode-judged (against equal num) sum h = rw (compare_sum-holds equal num sum h) refl
  with_mode-judged (against at_least num) sum h = rw (compare_sum-holds at_least num sum h) refl
  with_mode-judged (against at_most num) sum h = rw (compare_sum-holds at_most num sum h) refl

module _ {F : Type 0} ⦃f : Float64 F⦄ (host : Text) (vals : Dict Text F) where
  -- All values are there and the loop adds them up, or one is missing.
  abbrev Reads : List Term → Type 0
  Reads ts =
      let vs = query_operands (map counter_of ts) host vals in
      ((length vs ≡ length ts)
        × ((sum : F)
            → (s : F) × (sum_operands sum vs (map operator_of ts) ≡ some s)
              × (total_from host vals sum ts ≡ some s)))
      ⊎ ((length vs < length ts) × ((sum : F) → total_from host vals sum ts ≡ none))

  Reads-at_most :
      (ts : List Term)
      → Reads ts
      → length (query_operands (map counter_of ts) host vals) ≤ length ts
  Reads-at_most ts (inl (same, sums)) = omega (arith, same)
  Reads-at_most ts (inr (fewer, missing)) = omega (arith, fewer)

  Reads-plus :
      (c : Text) (v : F) (ts : List Term)
      → get (host ++ c) vals ≡ some v
      → Reads ts
      → Reads (plus c ∷ ts)
  unfolding query_operands sum_operands eq_text
  Reads-plus c v ts e (inl (same, sums)) = inl (
    rw e (ap suc same),
    λ sum. let (s, run, meant) = sums (f.add sum v) in (s, rw e run, rw e meant),
  )
  Reads-plus c v ts e (inr (fewer, missing)) =
      inr (rw e (omega (arith, fewer)), λ sum. rw e (missing (f.add sum v)))

  Reads-minus :
      (c : Text) (v : F) (ts : List Term)
      → get (host ++ c) vals ≡ some v
      → Reads ts
      → Reads (minus c ∷ ts)
  unfolding query_operands sum_operands eq_text
  Reads-minus c v ts e (inl (same, sums)) = inl (
    rw e (ap suc same),
    λ sum. let (s, run, meant) = sums (f.sub sum v) in (s, rw e run, rw e meant),
  )
  Reads-minus c v ts e (inr (fewer, missing)) =
      inr (rw e (omega (arith, fewer)), λ sum. rw e (missing (f.sub sum v)))

  term_missing :
      (t : Term) (ts : List Term)
      → get (host ++ counter_of t) vals ≡ none
      → Reads ts
      → Reads (t ∷ ts)
  unfolding query_operands
  term_missing (plus c) ts e r =
      let most = Reads-at_most ts r in inr (rw e (omega (arith, most)), λ sum. rw e refl)
  term_missing (minus c) ts e r =
      let most = Reads-at_most ts r in inr (rw e (omega (arith, most)), λ sum. rw e refl)

  Reads-terms : (ts : List Term) → Reads ts
  unfolding query_operands sum_operands
  Reads-terms [] = inl (refl, λ sum. (sum, refl, refl))
  Reads-terms (plus c ∷ ts) = elim (Option-cases (get (host ++ c) vals)) [
    | inl e ↦ term_missing (plus c) ts e (Reads-terms ts)
    | inr (v, e) ↦ Reads-plus c v ts e (Reads-terms ts)
  ]
  Reads-terms (minus c ∷ ts) = elim (Option-cases (get (host ++ c) vals)) [
    | inl e ↦ term_missing (minus c) ts e (Reads-terms ts)
    | inr (v, e) ↦ Reads-minus c v ts e (Reads-terms ts)
  ]

  length-counters : (ts : List Term) → length (map counter_of ts) ≡ length ts
  length-counters [] = refl
  length-counters (t ∷ ts) = ap suc (length-counters ts)

  -- compute.
  pub compute-total :
      (parse_float : Text → F) (c : Text) (ts : List Term) (mode : Mode)
      → IsNumeral mode
      → compute parse_float (c ∷ map counter_of ts) (map operator_of ts) (mode_text mode) host vals
        ≡ some (total host vals c ts >>= λ sum. some (judged parse_float mode sum))
  unfolding compute query_operands
  compute-total parse_float c ts mode h =
      let some_operand : eqb (suc (length (map counter_of ts))) 0 ≡ false = ground arith in
      elim (Option-cases (get (host ++ c) vals)) [
        | inl e ↦
            let most = Reads-at_most ts (Reads-terms ts) in
            let short : eqb (length (query_operands (map counter_of ts) host vals))
                  (suc (length (map counter_of ts)))
                ≡ false =
              ground (arith, most, length-counters ts) in
            rw (some_operand, e, short) refl
        | inr (v, e) ↦ elim (Reads-terms ts) [
          | inl (same, sums) ↦
              let (s, run, meant) = sums v in
              let full : eqb (suc (length (query_operands (map counter_of ts) host vals)))
                    (suc (length (map counter_of ts)))
                  ≡ true =
                ground (arith, same, length-counters ts) in
              rw (some_operand, e, full, run, meant, with_mode-judged parse_float mode s h) refl
          | inr (fewer, missing) ↦
              let short : eqb (suc (length (query_operands (map counter_of ts) host vals)))
                    (suc (length (map counter_of ts)))
                  ≡ false =
                ground (arith, fewer, length-counters ts) in
              rw (some_operand, e, short, missing v) refl
        ]
      ]
