-- ===== src/Graph/Cached.antt =====
-- modules/graph/index/cache.go: a row of the database and what its cached text is read as.
use falcon_plus.Base.{ℕ, ◌<◌, ◌≡◌, refl, inr, none, some, arith}
use falcon_plus.Base.Int.{ℤ, pos}
use falcon_plus.Base.Word.{two63}
use falcon_plus.Base.Text.{Text}
use falcon_plus.Base.Strings.{split, Without, split_first, split-Without}
use falcon_plus.Base.Number.{itoa, decimal, decimal-Digits, Digits-Without, atoi-decimal}
use falcon_plus.Base.Dict.{get, put, text_eq, get-put_self}
use falcon_plus.Graph.Index.{
  Index, Tables, counter_key, type_step_text, read_type_step, get_counter_from_cache,
}

read-type_step_text :
    (ds_type : Text) (n : ℕ)
    → Without b'_' ds_type
    → n < two63
    → read_type_step (split b'_' (type_step_text ds_type (pos n))) ≡ some (some (ds_type, pos n))
unfolding itoa
read-type_step_text ds_type n h k =
    let figures = Digits-Without b'_' (decimal n) (inr (omega arith)) (decimal-Digits n) in
    rw
      (
        split_first b'_' ds_type (decimal n) h,
        split-Without b'_' (decimal n) figures,
        atoi-decimal n k,
      )
      refl

module _ {F : Type 0} (db : Tables) where
  -- For a counter that is not cached and whose row has a type without an underscore and a natural
  -- step that fits in an int64, GetCounterFromCache answers the type and the step of the row, and,
  -- called again on the state it leaves, the same from the text it cached.
  pub get_counter_from_cache-again :
      (id : ℤ) (counter : Text) (ds_type : Text) (n : ℕ) (x : Index F)
      → Without b'_' ds_type
      → n < two63
      → db.type_and_step id counter ≡ some (ds_type, pos n)
      → get (counter_key id counter) x.counters ≡ none
      → (x' : Index F) × (get_counter_from_cache db id counter x ≡ some (some (ds_type, pos n), x'))
        × (get_counter_from_cache db id counter x' ≡ some (some (ds_type, pos n), x'))
  unfolding get_counter_from_cache
  get_counter_from_cache-again id counter ds_type n x h k row missing =
      let key = counter_key id counter in
      let text = type_step_text ds_type (pos n) in
      let x' : Index F = record x { counters = put key text x.counters } in
      (
        x',
        rw (missing, row) refl,
        rw (get-put_self key text x.counters, read-type_step_text ds_type n h k) refl,
      )
