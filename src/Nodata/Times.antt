-- ===== src/Nodata/Times.antt =====
-- modules/nodata/judge/judge_cron.go: the time that a mock is given.
use falcon_plus.Base.{
  false, ap, ◌∙◌, if◌then◌else◌, ℕ, ◌+◌, ◌-◌, ◌*◌, ◌%◌, ◌/◌, ◌≤◌, ◌<◌, ◌≡◌, arith,
}
use native.Mathlib.Nat.{mod-lt, mul-mod_right, mul-sub, div-add-mod, add-zero}
use falcon_plus.Base.Int.{ltb_ℤ, pos}
use falcon_plus.Base.Word.{two63, sub64_pos, mul64_pos, sub64, mul64, rem_ℤ}
use falcon_plus.Nodata.Judge.{gen_ts}

aligned :
    (now step : ℕ)
    → 1 ≤ step
    → 3 * step ≤ now
    → now < two63
    → gen_ts (pos now) (pos step) ≡ pos (now - now % step - 2 * step)
unfolding gen_ts rem_ℤ
aligned now step h1 h3 b =
    let positive : ltb_ℤ (pos step) (pos 1) ≡ false = ground arith in
    let small : now % step < step = mod-lt now (omega arith) in
    ap
      (λ c.
        let step' = if c then pos 60 else pos step in
        sub64 (sub64 (pos now) (rem_ℤ (pos now) step')) (mul64 (pos 2) step'))
      positive
    ∙ (ap (λ k. sub64 (sub64 (pos now) (pos (now % k))) (mul64 (pos 2) (pos step))) (add-zero step)
        ∙ (ap (λ z. sub64 z (mul64 (pos 2) (pos step))) (sub64_pos now (now % step) (omega arith) b)
            ∙ (ap (λ z. sub64 (pos (now - now % step)) z) (mul64_pos 2 step (omega arith))
                ∙ sub64_pos (now - now % step) (2 * step) (omega arith) (omega arith))))

-- For a step of at least 1 and a time of at least three steps, within int64, a mock stands at a
-- multiple of the step, at least two and less than three steps before now.
pub gen_ts-Aligned :
    (now step : ℕ)
    → 1 ≤ step
    → 3 * step ≤ now
    → now < two63
    → (t : ℕ) × (gen_ts (pos now) (pos step) ≡ pos t)
      × (t % step ≡ 0)
      × (t + 2 * step ≤ now)
      × (now < t + 3 * step)
gen_ts-Aligned now step h1 h3 b =
    let small : now % step < step = mod-lt now (omega arith) in
    let split = div-add-mod now step in
    let multiple : now - now % step - 2 * step ≡ step * (now / step - 2) =
      omega (arith, mul-sub step (now / step) 2) in
    (
      now - now % step - 2 * step,
      aligned now step h1 h3 b,
      ap (λ z. z % step) multiple ∙ mul-mod_right step (now / step - 2),
      omega arith,
      omega arith,
    )
