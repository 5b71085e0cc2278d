-- ===== src/Graph/Wait.antt =====
-- modules/graph/store/store.go: the time of getWts.
use falcon_plus.Base.{ℕ, ◌+◌, ◌-◌, ◌%◌, ◌≤◌, ◌<◌, ◌≡◌, ap, ◌∙◌, arith}
use native.Mathlib.Nat.{mod-lt}
use falcon_plus.Base.Int.{pos}
use falcon_plus.Base.Word.{two63, sub64, sub64_pos, add64_pos}
use falcon_plus.Base.Text.{Text}
use falcon_plus.Graph.Receive.{cache_time, get_wts}

-- Where now plus the cache time is within int64, getWts gives a time after now and at most one
-- cache time later.
pub get_wts-within :
    (hash_key : Text → ℕ) (key : Text) (now : ℕ)
    → now + cache_time < two63
    → (t : ℕ) × (get_wts hash_key key (pos now) ≡ pos t) × (now < t) × (t ≤ now + cache_time)
unfolding get_wts
get_wts-within hash_key key now b =
    let below : hash_key key % cache_time < cache_time = mod-lt (hash_key key) (omega arith) in
    (
      now + cache_time - hash_key key % cache_time,
      ap (λ z. sub64 z (pos (hash_key key % cache_time))) (add64_pos now cache_time b)
          ∙ sub64_pos (now + cache_time) (hash_key key % cache_time) (omega arith) b,
      omega arith,
      omega arith,
    )
