-- ===== src/Judge/Union/Decision.antt =====
-- modules/judge/store/union_judge.go: when SetAndJudge sends a combined alarm.
use falcon_plus.Base.{
  ℕ, ◌≤◌, ◌≡◌, ◌≢◌, ◌↔◌, refl, sym, subst, ◌⊎◌, inl, inr, true, false, Option, none, some, [], ◌∷◌,
  length, eqb, Bool-cases, Run, arith,
}
use falcon_plus.Base.Int.{ℤ, pos, leb_ℤ, ltb_ℤ, ◌≤ℤ◌, ◌<ℤ◌}
use falcon_plus.Base.Word.{add64, sub64}
use falcon_plus.Base.Text.{Text}
use falcon_plus.Base.Number.{itoa}
use falcon_plus.Base.Dict.{get, put, text_eq}
use falcon_plus.Base.Float.{Float64}
use falcon_plus.Judge.Model.{Event, Strategy, Status, unset, problem, ok, max_step}
use falcon_plus.Judge.Alarm.State.{State, Env, Chain, nil}
use falcon_plus.Judge.Union.Gather.{
  Members, is_recovered, ok_num, e_chain, at_step, get_one_union_strategy, send_union, all_alarmed,
  judge_members, by_strategy, set_and_judge,
}

is_recovered_iff : (st : Status) → (is_recovered st ≡ true) ↔ (st ≡ ok)
is_recovered_iff ok = (λ _. refl, λ _. refl)
is_recovered_iff problem = ground arith
is_recovered_iff unset = ground arith

module _ {F : Type 0} where
  -- The last event of each member is a recovery, or of none.
  abbrev pub Recovered : Members F → Type 0
  Recovered [] = Unit {0}
  Recovered ((k, (e, c)) ∷ m) = (e.status ≡ ok) × Recovered m

  abbrev pub Alarmed : Members F → Type 0
  Alarmed [] = Unit {0}
  Alarmed ((k, (e, c)) ∷ m) = (e.status ≢ ok) × Alarmed m

  ok_num-le-length : (m : Members F) → ok_num m ≤ length m
  unfolding ok_num
  ok_num-le-length [] = omega arith
  ok_num-le-length ((k, (e, c)) ∷ m) = ground (arith, ok_num-le-length m)

  ok_num-Recovered : (m : Members F) → (ok_num m ≡ length m) ↔ Recovered m
  unfolding ok_num
  ok_num-Recovered [] = (λ _. tt, λ _. refl)
  ok_num-Recovered ((k, (e, c)) ∷ m) =
      ground (arith, is_recovered_iff e.status, ok_num-Recovered m, ok_num-le-length m)

  ok_num-Alarmed : (m : Members F) → (ok_num m ≡ 0) ↔ Alarmed m
  unfolding ok_num
  ok_num-Alarmed [] = (λ _. tt, λ _. refl)
  ok_num-Alarmed ((k, (e, c)) ∷ m) = ground (arith, is_recovered_iff e.status, ok_num-Alarmed m)

module _ {F : Type 0} ⦃f : Float64 F⦄ (env : Env F) (e : Event F) (now : ℤ) where
  -- The step of an alarm of all members, after the last event of the combined alarm.
  abbrev pub DueAfter : Option (Event F) → ℤ → Type 0
  DueAfter none step = step ≡ e.current_step
  DueAfter (some last) step =
      ((last.status ≡ ok) × (step ≡ pos 1))
      ⊎ ((last.status ≢ ok)
          × ((most : ℤ) × (max_step last ≡ some most) × (last.current_step <ℤ most))
          × (env.min_interval ≤ℤ sub64 now last.event_time)
          × (step ≡ add64 last.current_step (pos 1)))

  -- What is sent: with an event of each of `n` members, a recovery of all, or an alarm of all.
  abbrev pub Sends : ℕ → Members F → Option (Event F) → ℤ → Type 0
  Sends n m last step =
      (length m ≡ n) × ((Recovered m × (step ≡ e.current_step)) ⊎ (Alarmed m × DueAfter last step))

  -- The combined alarm has no last event, or one that knows its MaxStep.
  abbrev pub KnowsMaxStep : Option (Event F) → Type 0
  KnowsMaxStep none = Unit {0}
  KnowsMaxStep (some last) = (most : ℤ) × (max_step last ≡ some most)

  abbrev pub Outcome : Text → Text → ℕ → Members F → State F → Run (Members F × State F) → Type 0
  Outcome key id n m s r =
      ((step : ℤ) × Sends n m (get id s.union_last_events) step
        × (r ≡ send_union env key (at_step e step) (e_chain key m) id m s))
      ⊎ (((step : ℤ) → ¬ Sends n m (get id s.union_last_events) step)
          × ((m' : Members F) × (r ≡ some (m', s))))

  alarmed_due :
      (key id : Text) (m : Members F) (s : State F) (chain : Chain F) (o : Option (Event F))
      → KnowsMaxStep o
      → ((step : ℤ) × DueAfter o step
          × (all_alarmed env key e chain id now m s o
              ≡ send_union env key (at_step e step) chain id m s))
        ⊎ (((step : ℤ) → ¬ DueAfter o step)
            × ((m' : Members F) × (all_alarmed env key e chain id now m s o ≡ some (m', s))))
  alarmed_due key id m s chain none w = inl (e.current_step, refl, refl)
  alarmed_due key id m s chain (some last) (most, known) =
      elim (Bool-cases (is_recovered last.status)) [
        | inl e1 ↦ inl (pos 1, inl ((is_recovered_iff last.status).0 e1, refl), rw e1)
        | inr e1 ↦ elim (Bool-cases (leb_ℤ most last.current_step)) [
          | inl e2 ↦ inr (no_due e1 (inl e2), (put key (e, chain) m, rw (e1, known, e2)))
          | inr e2 ↦ elim (Bool-cases (ltb_ℤ (sub64 now last.event_time) env.min_interval)) [
            | inl e3 ↦ inr (no_due e1 (inr e3), (put key (e, chain) m, rw (e1, known, e2, e3)))
            | inr e3 ↦ inl (
              add64 last.current_step (pos 1),
              inr (not_recovered e1, (most, known, ground arith), ground arith, refl),
              rw (e1, known, e2, e3),
            )
          ]
        ]
      ]
    where
      not_recovered : is_recovered last.status ≡ false → last.status ≢ ok
      not_recovered h q = ground (arith, is_recovered_iff last.status)

      no_due :
          is_recovered last.status ≡ false
          → ((leb_ℤ most last.current_step ≡ true)
              ⊎ (ltb_ℤ (sub64 now last.event_time) env.min_interval ≡ true))
          → (step : ℤ) → ¬ DueAfter (some last) step
      no_due h1 h2 step (inl due) = ground (arith, is_recovered_iff last.status)
      no_due h1 h2 step (inr (r, (most', known', below), spaced, due)) =
          let same : most ≡ most' = ground (arith, known, known') in
          elim h2 [ inl reached ↦ ground arith | inr early ↦ ground arith ]

  judge_members-Outcome :
      (key : Text) (union_id : ℤ) (n : ℕ) (m : Members F) (s : State F)
      → KnowsMaxStep (get (itoa union_id) s.union_last_events)
      → Outcome key (itoa union_id) n m s (judge_members env key e union_id now n m s)
  judge_members-Outcome key union_id n m s w = elim (Bool-cases (eqb n (length m))) [
    | inr e0 ↦ inr ((λ step sent. ground arith), (m, rw e0))
    | inl e0 ↦ elim (Bool-cases (eqb (ok_num m) n)) [
      | inl e1 ↦ inl (
        e.current_step,
        (ground arith, inl ((ok_num-Recovered m).0 (ground arith), refl)),
        rw (e0, e1),
      )
      | inr e1 ↦ elim (Bool-cases (eqb (ok_num m) 0)) [
        | inl e2 ↦ elim (alarmed_due key (itoa union_id) m s (e_chain key m) last w) [
          | inl (step, due, sent) ↦ inl (
            step,
            (ground arith, inr ((ok_num-Alarmed m).0 (ground arith), due)),
            rw (e0, e1, e2) sent,
          )
          | inr (not_due, (m', same)) ↦
              inr ((λ step sent. none_due e1 not_due step sent), (m', rw (e0, e1, e2) same))
        ]
        | inr e2 ↦ inr (mixed e1 e2, (put key (e, e_chain key m) m, rw (e0, e1, e2)))
      ]
    ]
  ]
    where
      last : Option (Event F)
      last = get (itoa union_id) s.union_last_events

      none_due :
          eqb (ok_num m) n ≡ false
          → ((step : ℤ) → ¬ DueAfter last step)
          → (step : ℤ) → ¬ Sends n m last step
      none_due e1 h step (all, inl (r, same)) = ground (arith, (ok_num-Recovered m).1 r)
      none_due e1 h step (all, inr (a, due)) = h step due

      mixed :
          eqb (ok_num m) n ≡ false → eqb (ok_num m) 0 ≡ false → (step : ℤ) → ¬ Sends n m last step
      mixed e1 e2 step (all, inl (r, same)) = ground (arith, (ok_num-Recovered m).1 r)
      mixed e1 e2 step (all, inr (a, due)) = ground (arith, (ok_num-Alarmed m).1 a)

  -- For an event of a combined strategy whose last event, if any, knows its MaxStep: SetAndJudge
  -- sends the event, with exactly the step of the protocol, when the members that it remembers,
  -- one for each counter, are as many as the strategies of the combined one, and all of their
  -- events are recoveries, or none is one and the alarm is due after the last event; in all other
  -- cases it sends nothing and changes nothing that the judge remembers but the members.
  pub set_and_judge-Outcome :
      (key : Text) (m : Members F) (s : State F) (st : Strategy F)
      → e.strategy ≡ some st
      → KnowsMaxStep (get (itoa st.union_strategy_id) s.union_last_events)
      → Outcome key
          (itoa st.union_strategy_id)
          (length (get_one_union_strategy env st.union_strategy_id))
          (put key (e, nil) m)
          s
          (set_and_judge env key e now m s)
  unfolding set_and_judge
  set_and_judge-Outcome key m s st h w =
      subst
        (λ o.
          Outcome key (itoa st.union_strategy_id)
            (length (get_one_union_strategy env st.union_strategy_id)) (put key (e, nil) m) s
            (by_strategy env key e now m s o))
        (sym h)
        (judge_members-Outcome key st.union_strategy_id
          (length (get_one_union_strategy env st.union_strategy_id)) (put key (e, nil) m) s w)
