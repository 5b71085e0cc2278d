-- ===== src/Judge/Union/Gather.antt =====
-- modules/judge/store/union_judge.go: SetAndJudge, and modules/judge/rpc/receiver.go: UnionJudge. An
-- event is freshly decoded for each call, so it stands beside its EventChain; the map of a combined
-- alarm holds the event as SetAndJudge leaves it, since it holds the pointer.
use falcon_plus.Base.{
  ℕ, suc, Bool, true, false, not, Option, none, some, List, [], ◌∷◌, ◌++◌, map, length, eqb,
  if◌then◌else◌, Run, ◌>>=◌,
}
use falcon_plus.Base.Int.{ℤ, pos, leb_ℤ, ltb_ℤ}
use falcon_plus.Base.Word.{add64, sub64}
use falcon_plus.Base.Text.{Text, eq_text}
use falcon_plus.Base.Number.{itoa}
use falcon_plus.Base.Dict.{Dict, get, put, text_eq}
use falcon_plus.Base.Float.{Float64}
use falcon_plus.Utils.Tags.{text_before, counter}
use falcon_plus.Judge.Model.{Event, Strategy, Status, ok, max_step}
use falcon_plus.Judge.Alarm.State.{State, Env, Chain, nil, link}
use falcon_plus.Judge.Alarm.Send.{send_event}
use falcon_plus.Judge.Match.Check.{answered}

-- A map of the last event of each member, by its counter.
abbrev pub Members : Type 0 → Type 0
Members F = Dict Text (Event F × Chain F)

abbrev pub is_recovered : Status → Bool
is_recovered ok = true
is_recovered _ = false

module _ {F : Type 0} where
  -- The loop over `this.M`: the events that are OK, and those of the other members.
  unfoldable pub ok_num : Members F → ℕ
  ok_num [] = 0
  ok_num ((k, (e, c)) ∷ m) = let rest = ok_num m in if is_recovered e.status then suc rest else rest

  unfoldable pub e_chain : Text → Members F → Chain F
  e_chain key [] = nil
  e_chain key ((k, (e, c)) ∷ m) =
      let rest = e_chain key m in if eq_text key k then rest else link e c rest

  abbrev pub at_step : Event F → ℤ → Event F
  at_step e step = record e { current_step = step }

module _ {F : Type 0} ⦃f : Float64 F⦄ (env : Env F) where
  unfoldable pub get_one_union_strategy : ℤ → List (Strategy F)
  get_one_union_strategy id = answered env (env.hbs_union_strategies id)

  -- UnionLastEvents.Set and sendEvent, and the members with the event as it was sent.
  unfoldable pub send_union :
      Text → Event F → Chain F → Text → Members F → State F → Run (Members F × State F)
  send_union key e chain id m s =
      send_event env e chain (record s { union_last_events = put id e s.union_last_events })
      >>= λ s'. some (put key (e, chain) m, s')

  abbrev pub kept : Text → Event F → Chain F → Members F → State F → Run (Members F × State F)
  kept key e chain m s = some (put key (e, chain) m, s)

  -- All members are alarmed, after the last event of the combined alarm.
  abbrev pub all_alarmed :
      Text
      → Event F
      → Chain F
      → Text
      → ℤ
      → Members F
      → State F
      → Option (Event F)
      → Run (Members F × State F)
  all_alarmed key e chain id now m s none = send_union key e chain id m s
  all_alarmed key e chain id now m s (some last) =
      if is_recovered last.status
      then send_union key (at_step e (pos 1)) chain id m s
      else (max_step last >>= λ most.
          if leb_ℤ most last.current_step
          then kept key e chain m s
          else if ltb_ℤ (sub64 now last.event_time) env.min_interval
          then kept key e chain m s
          else send_union key (at_step e (add64 last.current_step (pos 1))) chain id m s)

  abbrev pub judge_members :
      Text → Event F → ℤ → ℤ → ℕ → Members F → State F → Run (Members F × State F)
  judge_members key e union_id now s_nums m s =
      if not (eqb s_nums (length m))
      then some (m, s)
      else if eqb (ok_num m) s_nums
      then send_union key e (e_chain key m) (itoa union_id) m s
      else if eqb (ok_num m) 0
      then all_alarmed key e (e_chain key m) (itoa union_id) now m s
          (get (itoa union_id) s.union_last_events)
      else kept key e (e_chain key m) m s

  -- `event.Strategy.UnionStrategyId` reads through the pointer to the strategy.
  abbrev pub by_strategy :
      Text → Event F → ℤ → Members F → State F → Option (Strategy F) → Run (Members F × State F)
  by_strategy key e now m s none = none
  by_strategy key e now m s (some st) =
      judge_members key e st.union_strategy_id now
        (length (get_one_union_strategy st.union_strategy_id)) (put key (e, nil) m) s

  unfoldable pub set_and_judge :
      Text → Event F → ℤ → Members F → State F → Run (Members F × State F)
  unfolding ok_num e_chain send_union get_one_union_strategy
  set_and_judge key e now m s = by_strategy key e now m s e.strategy

-- sort.Strings
unfoldable pub insert_text : Text → List Text → List Text
insert_text x [] = x ∷ []
insert_text x (y ∷ ys) =
    let rest = insert_text x ys in if text_before y x then y ∷ rest else x ∷ y ∷ ys

unfoldable pub sort_texts : List Text → List Text
unfolding insert_text
sort_texts [] = []
sort_texts (x ∷ xs) = insert_text x (sort_texts xs)

abbrev concat_texts : List Text → Text
concat_texts [] = []
concat_texts (x ∷ xs) = x ++ concat_texts xs

module _ {F : Type 0} where
  -- The key of UnionJudgeHistoryMap: the counters of all members, sorted, in one text.
  unfoldable pub union_key : List (Strategy F) → Text
  unfolding sort_texts
  union_key sts = concat_texts (sort_texts ([] ∷ map (λ st. counter st.metric st.tags) sts))

  -- A new UnionJudge is empty.
  abbrev pub members_or_new : Option (Members F) → Members F
  members_or_new none = []
  members_or_new (some m) = m

module _ {F : Type 0} ⦃f : Float64 F⦄ (env : Env F) where
  abbrev pub union_by_strategy :
      Event F
      → ℤ
      → Dict Text (Members F)
      → State F
      → Option (Strategy F)
      → Run (Dict Text (Members F) × State F)
  union_by_strategy e now h s none = none
  union_by_strategy e now h s (some st) =
      if leb_ℤ st.union_strategy_id (pos 0)
      then some (h, s)
      else (let id = union_key (get_one_union_strategy env st.union_strategy_id) in
          set_and_judge env (counter st.metric st.tags) e now (members_or_new (get id h)) s >>= λ r.
          some (put id r.0 h, r.1))

  -- Judge.UnionJudge, `h` being UnionJudgeHistoryMap; for an event of no combined strategy it is an
  -- error that changes nothing.
  unfoldable pub union_judge :
      Event F → ℤ → Dict Text (Members F) → State F → Run (Dict Text (Members F) × State F)
  unfolding set_and_judge union_key
  union_judge e now h s = union_by_strategy e now h s e.strategy
