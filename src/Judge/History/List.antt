-- ===== src/Judge/History/List.antt =====
-- modules/judge/store/linkedlist.go: SafeLinkedList. Each method takes the lock for its whole body,
-- so it is one step; container/list's list is a list, its front first.
use falcon_plus.Base.{
  ℕ, zero, suc, ◌-◌, Bool, true, false, not, ◌||◌, Option, none, some, List, [], ◌∷◌, length, eqb,
  if◌then◌else◌, Run, ◌>>=◌,
}
use falcon_plus.Base.Int.{ℤ, pos, leb_ℤ, ltb_ℤ, ◌-ℤ◌, pos_part}
use falcon_plus.Base.Word.{add64, sub64, int64}
use falcon_plus.Base.Float.{Float64}
use falcon_plus.Judge.Model.{JudgeItem, HistoryData}

abbrev pub is_gauge : ℕ → Bool
is_gauge c = eqb c b'G' || eqb c b'g'

module _ {F : Type 0} where
  abbrev pub drop_last : List (JudgeItem F) → List (JudgeItem F)
  drop_last [] = []
  drop_last (x ∷ []) = []
  drop_last (x ∷ y ∷ ys) = x ∷ drop_last (y ∷ ys)

  -- The loop `this.L.Remove(this.L.Back())`; on an empty list `Back` is nil and `Remove` panics.
  unfoldable pub remove_backs : ℕ → List (JudgeItem F) → Run (List (JudgeItem F))
  remove_backs zero l = some l
  remove_backs (suc n) [] = none
  remove_backs (suc n) (x ∷ xs) = remove_backs n (drop_last (x ∷ xs))

  unfoldable pub is_invalid : JudgeItem F → List (JudgeItem F) → Bool
  is_invalid v [] = false
  is_invalid v (front ∷ _) = leb_ℤ v.timestamp front.timestamp || leb_ℤ v.timestamp (pos 0)

  -- The new list, and whether the point is to be judged.
  unfoldable pub push_front_and_maintain :
      JudgeItem F → ℤ → List (JudgeItem F) → Run (List (JudgeItem F) × Bool)
  unfolding is_invalid remove_backs ◌-ℤ◌
  push_front_and_maintain v max_count l =
      let sz = suc (length l) in
      if is_invalid v l
      then some (l, false)
      else if leb_ℤ (pos sz) max_count
      then some (v ∷ l, true)
      else remove_backs (pos_part (pos sz -ℤ max_count)) (v ∷ l) >>= λ l'. some (l', true)

module _ {F : Type 0} ⦃f : Float64 F⦄ where
  abbrev pub point : JudgeItem F → HistoryData F
  point x = record { timestamp = x.timestamp; value = x.value }

  -- The change from `y` to the newer `x`, a second.
  unfoldable pub rate : JudgeItem F → JudgeItem F → HistoryData F
  rate x y = record {
    timestamp = x.timestamp;
    value = f.div (f.sub x.value y.value) (f.of_int (sub64 x.timestamp y.timestamp));
  }

  -- `limit` points from the front on; a step past the back reads through nil.
  unfoldable pub gauge_walk : ℕ → List (JudgeItem F) → Run (List (HistoryData F))
  gauge_walk zero l = some []
  gauge_walk (suc n) [] = none
  gauge_walk (suc n) (x ∷ xs) = gauge_walk n xs >>= λ vs. some (point x ∷ vs)

  unfoldable pub counter_walk : ℕ → List (JudgeItem F) → Run (List (HistoryData F))
  counter_walk zero l = some []
  counter_walk (suc n) (x ∷ y ∷ ys) = counter_walk n (y ∷ ys) >>= λ vs. some (rate x y ∷ vs)
  counter_walk (suc n) _ = none

  -- The deferred `recover` gives the zero results.
  abbrev pub recovered : Bool → Run (List (HistoryData F)) → List (HistoryData F) × Bool
  recovered enough none = ([], false)
  recovered enough (some vs) = (vs, enough)

  unfoldable pub gauge_history : ℤ → List (JudgeItem F) → List (HistoryData F) × Bool
  unfolding gauge_walk
  gauge_history limit l =
      let short = ltb_ℤ (pos (length l)) limit in
      recovered (not short) (gauge_walk (if short then length l else pos_part limit) l)

  unfoldable pub counter_history : ℤ → List (JudgeItem F) → List (HistoryData F) × Bool
  unfolding counter_walk rate int64
  counter_history limit l =
      let short = ltb_ℤ (pos (length l)) (add64 limit (pos 1)) in
      recovered (not short) (counter_walk (if short then length l - 1 else pos_part limit) l)

  -- `firstItem.JudgeType[0]` panics on the empty string.
  abbrev pub first_byte : JudgeItem F → Option ℕ
  first_byte x = elim x.judge_type [ [] ↦ none | c ∷ _ ↦ some c ]

  abbrev by_type : Option ℕ → ℤ → List (JudgeItem F) → List (HistoryData F) × Bool
  by_type none limit l = ([], false)
  by_type (some c) limit l = if is_gauge c then gauge_history limit l else counter_history limit l

  abbrev from_front : ℤ → List (JudgeItem F) → List (HistoryData F) × Bool
  from_front limit [] = ([], false)
  from_front limit (first ∷ rest) = by_type (first_byte first) limit (first ∷ rest)

  -- HistoryData: at most `limit` points, newest first, and whether there were enough.
  unfoldable pub history_data : ℤ → List (JudgeItem F) → List (HistoryData F) × Bool
  unfolding gauge_history counter_history
  history_data limit l = if ltb_ℤ limit (pos 1) then ([], false) else from_front limit l
