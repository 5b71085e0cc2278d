-- ===== src/Judge/Items/Maps.antt =====
-- modules/judge/store/history.go: JudgeItemMap and HistoryBigMap; modules/judge/rpc/receiver.go:
-- Send; modules/judge/cron/cleaner.go: cleanStale.
use falcon_plus.Base.{
  Bool, true, false, Option, none, some, List, [], ◌∷◌, ◌++◌, map, if◌then◌else◌, Run, ◌>>=◌,
}
use falcon_plus.Base.Int.{ℤ, pos, leb_ℤ, ltb_ℤ}
use falcon_plus.Base.Word.{sub64}
use falcon_plus.Base.Text.{Text, codes}
use falcon_plus.Base.Strings.{slice}
use falcon_plus.Base.Dict.{Dict, get, put, delete, text_eq}
use falcon_plus.Base.Float.{Float64}
use falcon_plus.Judge.Model.{JudgeItem}
use falcon_plus.Judge.History.List.{push_front_and_maintain}
use falcon_plus.Judge.Alarm.State.{State, Env}
use falcon_plus.Judge.Match.Check.{primary_key, check_need_judge, judge}

-- One JudgeItemMap: the lists by the key of their counter.
abbrev pub ItemMap : Type 0 → Type 0
ItemMap F = Dict Text (List (JudgeItem F))

-- HistoryBigMap: the maps by the first two digits of the key.
abbrev pub BigMap : Type 0 → Type 0
BigMap F = Dict Text (ItemMap F)

module _ {F : Type 0} where
  unfoldable pub batch_delete : List Text → ItemMap F → ItemMap F
  batch_delete [] m = m
  batch_delete (k ∷ ks) m = batch_delete ks (delete k m)

  -- The front of a list is older than `before`; an empty list is not stale.
  abbrev pub is_stale : ℤ → List (JudgeItem F) → Bool
  is_stale before [] = false
  is_stale before (front ∷ _) = ltb_ℤ front.timestamp before

  unfoldable pub stale_keys : ℤ → ItemMap F → List Text
  stale_keys before [] = []
  stale_keys before ((k, l) ∷ m) =
      let rest = stale_keys before m in if is_stale before l then k ∷ rest else rest

  unfoldable pub clean_stale : ℤ → ItemMap F → ItemMap F
  unfolding batch_delete stale_keys delete
  clean_stale before m = batch_delete (stale_keys before m) m

  -- The loops over the 256 prefixes in cleanStale, `now` being the time; a week is 604800 seconds.
  unfoldable pub clean_all : ℤ → BigMap F → BigMap F
  unfolding clean_stale
  clean_all now big = map (λ e. (e.0, clean_stale (sub64 now (pos 604800)) e.1)) big

abbrev pub hex_digits : List Text
hex_digits = map (λ c. c ∷ []) (codes "0123456789abcdef")

module _ {F : Type 0} where
  new_shards : List Text → List Text → BigMap F
  new_shards [] all = []
  new_shards (d ∷ ds) all = map (λ e. (d ++ e, [])) all ++ new_shards ds all

  -- InitHistoryBigMap
  unfoldable pub init_history_big_map : BigMap F
  unfolding new_shards
  init_history_big_map = new_shards hex_digits hex_digits

abbrev pub if_any : {A B : Type 0} → List A → B → B → B
if_any [] empty other = empty
if_any (_ ∷ _) empty other = other

module _ {F : Type 0} ⦃f : Float64 F⦄ (env : Env F) where
  -- The list is changed in place, before the judge looks at it.
  abbrev pub pushed :
      Text
      → JudgeItem F
      → ℤ
      → ItemMap F
      → State F
      → List (JudgeItem F) × Bool
      → Run (ItemMap F × State F)
  pushed key val now m s (l, false) = some (put key l m, s)
  pushed key val now m s (l, true) = judge env l val now s >>= λ s'. some (put key l m, s')

  abbrev pub push_to :
      Text
      → JudgeItem F
      → ℤ
      → ItemMap F
      → State F
      → Option (List (JudgeItem F))
      → Run (ItemMap F × State F)
  push_to key val now m s none = pushed key val now m s (val ∷ [], true)
  push_to key val now m s (some l) =
      push_front_and_maintain val env.remain l >>= pushed key val now m s

  unfoldable pub item_map_push :
      Text → JudgeItem F → ℤ → ItemMap F → State F → Run (ItemMap F × State F)
  item_map_push key val now m s = push_to key val now m s (get key m)

  -- A prefix with no map gives a nil pointer, on which the push panics.
  abbrev pub push_in_shard :
      Text
      → Text
      → JudgeItem F
      → ℤ
      → BigMap F
      → State F
      → Option (ItemMap F)
      → Run (BigMap F × State F)
  push_in_shard prefix key val now big s none = none
  push_in_shard prefix key val now big s (some m) = do
    (m', s') ← item_map_push key val now m s
    some (put prefix m' big, s')

  -- The part of Send's loop after the guards.
  unfoldable pub store_item : JudgeItem F → ℤ → BigMap F → State F → Run (BigMap F × State F)
  unfolding item_map_push
  store_item item now big s = do
    let key = primary_key env item
    prefix ← slice 0 2 key
    push_in_shard prefix key item now big s (get prefix big)

  -- One round of Send's loop: a point with no time, or with no strategy for its metric, is skipped.
  unfoldable pub send_item : JudgeItem F → ℤ → BigMap F → State F → Run (BigMap F × State F)
  unfolding store_item
  send_item item now big s =
      if leb_ℤ item.timestamp (pos 0)
      then some (big, s)
      else (let (ss, s') = check_need_judge env item.endpoint item.metric s in
          if_any ss (some (big, s')) (store_item item now big s'))

  -- Judge.Send, `now` being the time at which it begins.
  unfoldable pub send : List (JudgeItem F) → ℤ → BigMap F → State F → Run (BigMap F × State F)
  unfolding send_item
  send [] now big s = some (big, s)
  send (item ∷ items) now big s = do (big', s') ← send_item item now big s; send items now big' s'
