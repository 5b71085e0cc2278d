-- ===== src/Transfer/Aligned.antt =====
-- modules/transfer/sender/sender.go: alignTs and convert2GraphItem, and
-- receiver/rpc/rpc_transfer.go: the time of a report.
use falcon_plus.Base.{
  ℕ, ◌+◌, ◌-◌, ◌*◌, ◌%◌, ◌/◌, ◌≤◌, ◌<◌, ◌≡◌, refl, ap, ◌∙◌, ◌⊎◌, inl, inr, Bool, true, false, ◌||◌,
  Bool-cases, some, if◌then◌else◌, ltb, arith,
}
use native.Mathlib.Nat.{mod-lt, div-add-mod', mul-mod_left}
use falcon_plus.Base.Int.{ℤ, pos, negsuc, ltb_ℤ, leb_ℤ, eqb_ℤ, ◌-ℤ◌}
use falcon_plus.Base.Word.{
  two63, InInt64, sub64, add64, mul64, rem_ℤ, sub64_pos, mul64_pos, add64_pos, int64_exact,
  rem_ℤ-pos,
}
use falcon_plus.Base.Text.{Text, codes, eq_text}
use falcon_plus.Graph.Linked.{GraphItem}
use falcon_plus.Transfer.Model.{MetricValue, MetaData}
use falcon_plus.Transfer.Receive.{gauge, counter_type_name, derive, recv_timestamp}
use falcon_plus.Transfer.Queues.{Cluster}
use falcon_plus.Transfer.Send.{align_ts, step_of, ds_type_of, graph_item, convert2_graph_item}

-- The last multiple of the period that is not after `n`.
abbrev pub IsAligned : ℕ → ℕ → ℕ → Type 0
IsAligned n k t = (t % k ≡ 0) × (t ≤ n) × (n < t + k)

align_ts-IsAligned :
    (n k : ℕ)
    → 1 ≤ k
    → n < two63
    → (t : ℕ) × (align_ts (pos n) (pos k) ≡ some (pos t)) × IsAligned n k t
unfolding align_ts rem_ℤ
align_ts-IsAligned n k h b =
    let below : n % k < k = mod-lt n (omega arith) in
    let division = div-add-mod' n k in
    let whole : n - n % k ≡ n / k * k = ground (arith, division) in
    let nonzero : eqb_ℤ (pos k) (pos 0) ≡ false = ground arith in
    (
      n - n % k,
      rw (nonzero, rem_ℤ-pos n k) (ap some (sub64_pos n (n % k) (ground (arith, division)) b)),
      (ap (λ w. w % k) whole ∙ mul-mod_left (n / k) k, omega arith, omega (arith, below)),
    )

ds_type_of-supported :
    (type : Text)
    → (type ≡ counter_type_name) ⊎ (type ≡ gauge) ⊎ (type ≡ derive)
    → (ds_type min : Text) × (ds_type_of type ≡ some (ds_type, min))
      × ((ds_type ≡ gauge) ⊎ (ds_type ≡ derive))
unfolding ds_type_of eq_text
ds_type_of-supported type (inl e) = (derive, codes "0", rw e refl, inr refl)
ds_type_of-supported type (inr (inl e)) = (gauge, codes "U", rw e refl, inl refl)
ds_type_of-supported type (inr (inr e)) = (derive, codes "0", rw e refl, inr refl)

if_pos_pos :
    (k m : ℕ) → (if ltb_ℤ (pos k) (pos m) then pos m else pos k) ≡ pos (if ltb k m then m else k)
if_pos_pos k m = ground arith

-- For a time, a step and a MinStep of at least 1 that are natural and in range, and one of the
-- three types, convert2GraphItem gives a point of type GAUGE or DERIVE, with a step of its own
-- step and MinStep at least, a heartbeat of twice the step, and as its time the last multiple of
-- the step not after the time of the point.
pub convert2_graph_item-IsAligned :
    {F : Type 0} (c : Cluster) (d : MetaData F) (n k m : ℕ)
    → d.timestamp ≡ pos n
    → d.step ≡ pos k
    → c.min_step ≡ pos m
    → 1 ≤ m
    → n < two63
    → k * 2 < two63
    → m * 2 < two63
    → (d.counter_type ≡ counter_type_name) ⊎ (d.counter_type ≡ gauge) ⊎ (d.counter_type ≡ derive)
    → (g : GraphItem F) × (step t : ℕ) × (convert2_graph_item c d ≡ some (some g))
      × ((g.ds_type ≡ gauge) ⊎ (g.ds_type ≡ derive))
      × (g.step ≡ pos step)
      × (k ≤ step)
      × (m ≤ step)
      × (g.heartbeat ≡ pos (step * 2))
      × (g.timestamp ≡ pos t)
      × IsAligned n step t
unfolding convert2_graph_item
convert2_graph_item-IsAligned c d n k m time own least one b kb mb type =
    let step = if ltb k m then m else k in
    let chosen : step_of c d.step ≡ pos step = rw (own, least) (if_pos_pos k m) in
    let large : (1 ≤ step) × (k ≤ step) × (m ≤ step) × (step * 2 < two63) = ground arith in
    let (ds_type, min, typed, which) = ds_type_of-supported d.counter_type type in
    let (t, aligned, near) = align_ts-IsAligned n step large.0 b in
    (
      graph_item d (pos step) (pos t) ds_type min,
      step,
      t,
      rw (typed, chosen, time, aligned) refl,
      which,
      refl,
      large.1,
      large.2,
      mul64_pos step 2 large.3,
      refl,
      near,
    )

in_range : (a b : ℕ) → a + b < two63 → InInt64 (pos a -ℤ pos b)
unfolding ◌-ℤ◌
in_range a b h = ground arith

-- Whether a time is not positive, or more than the margin away.
abbrev is_far : ℕ → ℕ → ℤ → Bool
is_far now margin ts =
    leb_ℤ ts (pos 0) || ltb_ℤ (pos (now + margin)) ts || ltb_ℤ ts (pos now -ℤ pos margin)

replaced_lem :
    (now margin : ℕ) (ts : ℤ)
    → (t : ℕ) × ((if is_far now margin ts then pos now else ts) ≡ pos t)
      × (t ≤ now + margin)
      × (now ≤ t + margin)
unfolding ◌-ℤ◌
replaced_lem now margin (negsuc n) =
    let far : is_far now margin (negsuc n) ≡ true = ground arith in
    (now, rw far refl, omega arith, omega arith)
replaced_lem now margin (pos n) = elim (Bool-cases (is_far now margin (pos n))) [
  | inl far ↦ (now, rw far refl, omega arith, omega arith)
  | inr near ↦ (n, rw near refl, ground arith, ground arith)
]

-- For a present and a step that are natural, with three steps after the present in range, the time
-- taken for a report is within three steps of the present.
pub recv_timestamp-within :
    {F : Type 0} (now step : ℕ) (v : MetricValue F)
    → v.step ≡ pos step
    → now + 3 * step < two63
    → (t : ℕ) × (recv_timestamp (pos now) v ≡ pos t) × (t ≤ now + 3 * step) × (now ≤ t + 3 * step)
unfolding recv_timestamp
recv_timestamp-within now step v e b =
    let margin : mul64 (pos 3) v.step ≡ pos (3 * step) = rw e (mul64_pos 3 step (omega arith)) in
    let after : add64 (pos now) (pos (3 * step)) ≡ pos (now + 3 * step) =
      add64_pos now (3 * step) b in
    let before : sub64 (pos now) (pos (3 * step)) ≡ pos now -ℤ pos (3 * step) =
      int64_exact (pos now -ℤ pos (3 * step)) (in_range now (3 * step) b) in
    rw (margin, after, before) (replaced_lem now (3 * step) v.timestamp)
