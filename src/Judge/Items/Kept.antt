-- ===== src/Judge/Items/Kept.antt =====
-- modules/judge/rpc/receiver.go: what Send keeps of the lists and of the memory.
use falcon_plus.Base.{
  ℕ, ◌≤◌, ◌≡◌, refl, subst, inl, inr, Bool, true, false, Option, none, some, List, [], ◌∷◌, Run,
  Option-cases, if_both, arith, ap, ◌∙◌,
}
use falcon_plus.Utils.Tags.{pk}
use falcon_plus.Base.Int.{ℤ, pos, leb_ℤ}
use falcon_plus.Base.Text.{Text, eq_text}
use falcon_plus.Base.Strings.{slice}
use falcon_plus.Base.Dict.{get, put, get-put, text_eq}
use falcon_plus.Base.Float.{Float64}
use falcon_plus.Judge.Model.{JudgeItem}
use falcon_plus.Judge.History.List.{push_front_and_maintain}
use falcon_plus.Judge.History.Push.{IsHistory, push-IsHistory}
use falcon_plus.Judge.Alarm.State.{State, Env}
use falcon_plus.Judge.Match.Check.{primary_key, check_need_judge}
use falcon_plus.Judge.Match.Total.{IsHealthy}
use falcon_plus.Judge.Match.Returns.{HbsParses, judge-Fine, check_need_judge-Supplied}
use falcon_plus.Judge.Items.Maps.{
  ItemMap, BigMap, pushed, item_map_push, push_in_shard, store_item, send_item, send, if_any,
}

if_any_both : {A B : Type 0} (P : B → Type 0) (l : List A) {x y : B} → P x → P y → P (if_any l x y)
if_any_both P [] p q = p
if_any_both P (_ ∷ _) p q = q

module _ {F : Type 0} (max : ℕ) where
  abbrev pub ListKept : Option (List (JudgeItem F)) → Type 0
  ListKept none = Unit {0}
  ListKept (some l) = IsHistory max l

  abbrev pub MapKept : Option (ItemMap F) → Type 0
  MapKept none = Unit {0}
  MapKept (some m) = (key : Text) → ListKept (get key m)

  -- Every list, in every map, is in falling order of time and holds at most `max` points.
  unfoldable pub BigKept : BigMap F → Type 0
  BigKept big = (prefix : Text) → MapKept (get prefix big)

  put-ListKept :
      (key : Text) (l : List (JudgeItem F)) (m : ItemMap F)
      → IsHistory max l
      → MapKept (some m)
      → MapKept (some (put key l m))
  put-ListKept key l m h kept k =
      rw (get-put key k l m) (if_both ListKept (eq_text key k) h (kept k))

  put-BigKept :
      (prefix : Text) (m : ItemMap F) (big : BigMap F)
      → MapKept (some m)
      → BigKept big
      → BigKept (put prefix m big)
  unfolding BigKept
  put-BigKept prefix m big h kept p =
      rw (get-put prefix p m big) (if_both MapKept (eq_text prefix p) h (kept p))

module _ {F : Type 0} ⦃f : Float64 F⦄ (env : Env F) where
  -- Every key that MD5 makes has its first two bytes, and there is a map for them.
  unfoldable pub HasShards : BigMap F → Type 0
  HasShards big =
      (raw : Text)
      → (p : Text) × (slice 0 2 (env.md5 raw) ≡ some p) × ((m : ItemMap F) × (get p big ≡ some m))

  put-HasShards :
      (prefix : Text) (m : ItemMap F) (big : BigMap F)
      → HasShards big
      → HasShards (put prefix m big)
  unfolding HasShards
  put-HasShards prefix m big h raw =
      let (p, sliced, shard) = h raw in
      (
        p,
        sliced,
        rw (get-put prefix p m big)
            (if_both (λ o. (x : ItemMap F) × (o ≡ some x)) (eq_text prefix p) (m, refl) shard),
      )

  -- Strategies that parse, no expressions, and room for `max` points of each counter.
  pub record Usable (max : ℕ) : Type 0 where
    pub parses : HbsParses env
    pub no_expressions : env.expression_map ≡ []
    pub remains : env.remain ≡ pos max
    pub positive : 1 ≤ max

  -- What a run of the store leaves: a healthy judge and kept lists.
  pub record Stored (max : ℕ) (r : BigMap F × State F) : Type 0 where
    pub kept : BigKept max r.0
    pub shards : HasShards r.0
    pub healthy : IsHealthy r.1

  -- A run that does not panic and leaves the store as it should be.
  abbrev pub Stores : ℕ → Run (BigMap F × State F) → Type 0
  Stores max run = (r : BigMap F × State F) × (run ≡ some r) × Stored max r

  pushed_fine :
      (max : ℕ) (key : Text) (val : JudgeItem F) (now : ℤ) (m : ItemMap F) (s : State F)
      (p : List (JudgeItem F) × Bool)
      → Usable max
      → IsHistory max p.0
      → MapKept max (some m)
      → IsHealthy s
      → (r : ItemMap F × State F) × (pushed env key val now m s p ≡ some r)
        × MapKept max (some r.0)
        × IsHealthy r.1
  pushed_fine max key val now m s (l, false) u h kept healthy =
      ((put key l m, s), refl, put-ListKept max key l m h kept, healthy)
  pushed_fine max key val now m s (l, true) u h kept healthy =
      let (s', run, healthy') = judge-Fine env u.parses u.no_expressions l val now s healthy in
      ((put key l m, s'), rw run refl, put-ListKept max key l m h kept, healthy')

  item_map_push_fine :
      (max : ℕ) (key : Text) (val : JudgeItem F) (now : ℤ) (m : ItemMap F) (s : State F)
      → Usable max
      → MapKept max (some m)
      → IsHealthy s
      → (r : ItemMap F × State F) × (item_map_push env key val now m s ≡ some r)
        × MapKept max (some r.0)
        × IsHealthy r.1
  unfolding item_map_push
  item_map_push_fine max key val now m s u kept healthy = elim (Option-cases (get key m)) [
    | inl new ↦ rw new (
        pushed_fine max key val now m s (val ∷ [], true) u
          (record { descending = (tt, tt); bounded = omega (arith, u.positive) }) kept healthy)
    | inr (l, old) ↦
        let (r, run, h) = push-IsHistory val max l (subst (ListKept max) old (kept key)) in
        let run' : push_front_and_maintain val env.remain l ≡ some r =
          ap (λ z. push_front_and_maintain val z l) u.remains ∙ run in
        rw (old, run') (pushed_fine max key val now m s r u h kept healthy)
  ]

  Stored-shard :
      (max : ℕ) (key : Text) (item : JudgeItem F) (now : ℤ) (big : BigMap F) (s : State F)
      → Usable max
      → Stored max (big, s)
      → (p : Text) (m : ItemMap F) → get p big ≡ some m
      → (r : BigMap F × State F) × (push_in_shard env p key item now big s (some m) ≡ some r)
        × Stored max r
  unfolding BigKept
  Stored-shard max key item now big s u st p m found =
      let ((m', s'), run, kept, healthy) =
        item_map_push_fine max key item now m s u (subst (MapKept max) found (st.kept p))
          st.healthy in
      (
        (put p m' big, s'),
        rw run refl,
        record {
          kept = put-BigKept max p m' big kept st.kept;
          shards = put-HasShards p m' big st.shards;
          healthy = healthy;
        },
      )

  store_item_fine :
      (max : ℕ) (item : JudgeItem F) (now : ℤ) (big : BigMap F) (s : State F)
      → Usable max
      → Stored max (big, s)
      → Stores max (store_item env item now big s)
  unfolding store_item primary_key HasShards
  store_item_fine max item now big s u st =
      let (p, sliced, shard) = st.shards (pk item.endpoint item.metric item.tags) in
      let (m, found) = shard in
      rw (sliced, found) (Stored-shard max (primary_key env item) item now big s u st p m found)

  send_item_fine :
      (max : ℕ) (item : JudgeItem F) (now : ℤ) (big : BigMap F) (s : State F)
      → Usable max
      → Stored max (big, s)
      → Stores max (send_item env item now big s)
  unfolding send_item
  send_item_fine max item now big s u st =
      let (_, healthy) =
        check_need_judge-Supplied env u.parses item.endpoint item.metric s st.healthy in
      let st' : Stored max (big, (check_need_judge env item.endpoint item.metric s).1) = record {
        kept = st.kept;
        shards = st.shards;
        healthy = healthy;
      } in
      if_both (Stores max) (leb_ℤ item.timestamp (pos 0)) ((big, s), refl, st)
        (if_any_both (Stores max) (check_need_judge env item.endpoint item.metric s).0
          ((big, (check_need_judge env item.endpoint item.metric s).1), refl, st')
          (store_item_fine max item now big _ u st'))

  -- With strategies that parse, no expression, and a map for each prefix of a digest, Judge.Send
  -- of any points returns, and afterwards each counter's list is in falling order of time and
  -- within the bound, every prefix has its map, and the memory is healthy.
  pub send_fine :
      (max : ℕ) (items : List (JudgeItem F)) (now : ℤ) (big : BigMap F) (s : State F)
      → Usable max
      → Stored max (big, s)
      → Stores max (send env items now big s)
  unfolding send
  send_fine max [] now big s u st = ((big, s), refl, st)
  send_fine max (item ∷ items) now big s u st =
      let ((big', s'), run, st') = send_item_fine max item now big s u st in
      let (r, run', st'') = send_fine max items now big' s' u st' in (r, rw run run', st'')
