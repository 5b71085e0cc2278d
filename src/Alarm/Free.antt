-- ===== src/Alarm/Free.antt =====
-- modules/alarm/cron: the users of GenerateUserMap are not blocked, and neither are those of what is pushed for them.
use falcon_plus.Base.{
  ◌⊎◌, inl, inr, ◌≡◌, refl, sym, subst, inl, inr, Bool, true, false, List, [], ◌∷◌, map, All,
  All-append, if_both, Bool-cases,
}
use falcon_plus.Base.Int.{ℤ, pos, ltb_ℤ, eqb_ℤ}
use falcon_plus.Base.Text.{Text, codes, eq_text}
use falcon_plus.Base.Strings.{split}
use falcon_plus.Base.Dict.{Dict, put, text_eq}
use falcon_plus.Alarm.Users.{
  User, Action, Blocks, put_users, users_of_teams, get_users, is_blocked, common_filter_block,
  with_group, generate_user_map,
}
use falcon_plus.Alarm.Consume.{
  Incoming, status_text, Push, write_sms, write_phone, write_im, write_im_card, write_mail,
  push_user_sms, push_user_mail, push_user_im, Portal, unless_nobody, pushes_if, mail_address,
  high_pushes, user_sms, user_mail, user_im, low_pushes, pushes_of,
}

-- Each user stands under his name.
abbrev pub AreNamed : Dict Text User → Type 0
AreNamed users = All (λ u. u.1.name ≡ u.0) users

put-AreNamed : (user : User) (m : Dict Text User) → AreNamed m → AreNamed (put user.name user m)
unfolding put
put-AreNamed user [] h = (refl, tt)
put-AreNamed user ((name, u) ∷ m) h =
    if_both AreNamed (eq_text name user.name) (refl, h.1) (h.0, put-AreNamed user m h.1)

put_users-AreNamed :
    (users : List User) (m : Dict Text User) → AreNamed m → AreNamed (put_users users m)
put_users-AreNamed [] m h = h
put_users-AreNamed (user ∷ users) m h =
    put_users-AreNamed users (put user.name user m) (put-AreNamed user m h)

users_of_teams-AreNamed :
    (users_of : Text → List User) (teams : List Text) (m : Dict Text User)
    → AreNamed m
    → AreNamed (users_of_teams users_of teams m)
unfolding users_of_teams
users_of_teams-AreNamed users_of [] m h = h
users_of_teams-AreNamed users_of (team ∷ teams) m h =
    users_of_teams-AreNamed users_of teams _
      (if_both AreNamed (eq_text team []) h (put_users-AreNamed (users_of team) m h))

with_group-AreNamed :
    (group : Text) (users : Dict Text User) → AreNamed users → AreNamed (with_group group users)
with_group-AreNamed [] users h = h
with_group-AreNamed (c ∷ group) users h =
    put-AreNamed (record { name = c ∷ group; email = []; phone = c ∷ group }) users h

-- The user is one of a map's.
abbrev pub HasUser : Dict Text User → User → Type 0
HasUser [] user = ⊥
HasUser (u ∷ users) user = (u.1 ≡ user) ⊎ HasUser users user

All-HasUser :
    (users known : Dict Text User)
    → ((user : User) → HasUser users user → HasUser known user)
    → All (λ u. HasUser known u.1) users
All-HasUser [] known h = tt
All-HasUser (u ∷ users) known h =
    (h u.1 (inl refl), All-HasUser users known (λ user a. h user (inr a)))

-- The users of an action, muted or not.
abbrev pub users_of_action : (Text → List User) → Action → Dict Text User
users_of_action users_of action = with_group action.lark_group_id (get_users users_of action.uic)

module _ (blocks : Blocks) (endpoint met : Text) (known : Dict Text User) where
  -- The name is not blocked for the metric, on the endpoint or everywhere.
  abbrev pub IsFree : Text → Type 0
  IsFree name = is_blocked blocks endpoint met name ≡ false

  abbrev pub AreFree : Dict Text User → Type 0
  AreFree users = All (λ u. (u.1.name ≡ u.0) × IsFree u.0 × HasUser known u.1) users

  common_filter_block-AreFree :
      (users : Dict Text User)
      → AreNamed users
      → All (λ u. HasUser known u.1) users
      → AreFree (common_filter_block blocks endpoint met users)
  unfolding common_filter_block
  common_filter_block-AreFree [] h k = tt
  common_filter_block-AreFree ((name, user) ∷ users) h k =
      elim (Bool-cases (is_blocked blocks endpoint met name)) [
        | inl blocked ↦ rw blocked (common_filter_block-AreFree users h.1 k.1)
        | inr free ↦ rw free ((h.0, free, k.0), common_filter_block-AreFree users h.1 k.1)
      ]

  -- A push is for free users alone; a mail, for the address of such a user of the action.
  abbrev pub IsForFree : Push → Type 0
  IsForFree (write_sms tos content) = All IsFree tos
  IsForFree (write_phone tos content) = All IsFree tos
  IsForFree (write_im tos content) = All IsFree tos
  IsForFree (write_im_card to content) = IsFree to
  IsForFree (write_mail tos subject content) =
      All (λ to. (name : Text) × (to ≡ mail_address name) × IsFree name) tos
  IsForFree (push_user_sms dto) = IsFree dto.phone
  IsForFree (push_user_mail dto) =
      (user : User) × HasUser known user × (dto.email ≡ user.email) × IsFree user.name
  IsForFree (push_user_im dto) = IsFree dto.im

  abbrev pub AreForFree : List Push → Type 0
  AreForFree pushes = All IsForFree pushes

  unless_nobody-AreForFree :
      (tos : List Text) (push : Push) → IsForFree push → AreForFree (unless_nobody tos push)
  unless_nobody-AreForFree [] push h = tt
  unless_nobody-AreForFree (to ∷ tos) push h = (h, tt)

  pushes_if-AreForFree :
      (test : Bool) (pushes : List Push) → AreForFree pushes → AreForFree (pushes_if test pushes)
  pushes_if-AreForFree test pushes h = if_both AreForFree test h tt

  names-IsFree : (users : Dict Text User) → AreFree users → All IsFree (map (λ u. u.0) users)
  names-IsFree [] h = tt
  names-IsFree (u ∷ users) h = (h.0.1, names-IsFree users h.1)

  mails-IsFree :
      (users : Dict Text User)
      → AreFree users
      → All
          (λ to. (name : Text) × (to ≡ mail_address name) × IsFree name)
          (map (λ u. mail_address u.0) users)
  mails-IsFree [] h = tt
  mails-IsFree (u ∷ users) h = ((u.0, refl, h.0.1), mails-IsFree users h.1)

  each-AreForFree :
      (push : Text × User → Push) (users : Dict Text User)
      → ((u : Text × User) → (u.1.name ≡ u.0) × IsFree u.0 × HasUser known u.1 → IsForFree (push u))
      → AreFree users
      → AreForFree (map push users)
  each-AreForFree push [] keep h = tt
  each-AreForFree push (u ∷ users) keep h = (keep u h.0, each-AreForFree push users keep h.1)

  module _ {F : Type 0} (portal : Portal F) (e : Incoming F) (amstag grps : Text) where
    high_pushes-AreForFree :
        (users : Dict Text User) (level : ℤ)
        → AreFree users
        → AreForFree (high_pushes portal e amstag grps users level)
    high_pushes-AreForFree users level h =
        let names = map (λ u. u.0) users in
        let mails = map (λ u. mail_address u.0) users in
        let sms = portal.sms_content e amstag grps in
        let free = names-IsFree users h in
        let texts = unless_nobody-AreForFree names (write_sms names sms) free in
        let calls =
          unless_nobody-AreForFree names (write_phone names (portal.phone_content e)) free in
        let problems = eq_text (status_text e.event.status) (codes "PROBLEM") in
        All-append IsForFree _ _ (pushes_if-AreForFree (ltb_ℤ level (pos 3)) _ texts) (
          All-append IsForFree _ _
            (pushes_if-AreForFree (eqb_ℤ level (pos 9)) _
              (All-append IsForFree _ _ texts (pushes_if-AreForFree problems _ calls)))
            (All-append IsForFree _ _
              (each-AreForFree (λ u. write_im_card u.0 (portal.card_content u.0 e amstag grps))
                users (λ u k. k.1) h)
              (unless_nobody-AreForFree mails
                (write_mail mails sms (portal.mail_content e amstag grps)) (mails-IsFree users h))))

    low_pushes-AreForFree :
        (m : Text) (users : Dict Text User) (level : ℤ)
        → AreFree users
        → AreForFree (low_pushes portal e amstag grps m users level)
    low_pushes-AreForFree m users level h =
        All-append IsForFree _ _
          (pushes_if-AreForFree (ltb_ℤ level (pos 3)) _ (
            each-AreForFree (λ u. user_sms portal e amstag grps m level u.1) users
              (λ u k. subst IsFree (sym k.0) k.1) h))
          (All-append IsForFree _ _
            (each-AreForFree (λ u. user_im portal e amstag grps m level u) users
              (λ u k. subst IsFree (sym k.0) k.1) h)
            (each-AreForFree (λ u. user_mail portal e amstag grps m level u.1) users
              (λ u k. (u.1, k.2, refl, subst IsFree (sym k.0) k.1)) h))

    pub pushes_of-AreForFree :
        (is_high : Bool) (users : Dict Text User) (level : ℤ)
        → AreFree users
        → AreForFree (pushes_of portal e amstag grps is_high met users level)
    pushes_of-AreForFree true users level h = high_pushes-AreForFree users level h
    pushes_of-AreForFree false users level h = low_pushes-AreForFree met users level h

pub generate_user_map-AreFree :
    (blocks : Blocks) (endpoint met : Text) (users_of : Text → List User) (action : Action)
    → AreFree blocks endpoint met
        (users_of_action users_of action)
        (generate_user_map users_of blocks endpoint met action)
unfolding generate_user_map get_users
generate_user_map-AreFree blocks endpoint met users_of action =
    let known = users_of_action users_of action in
    common_filter_block-AreFree blocks endpoint met known known
      (with_group-AreNamed action.lark_group_id _
        (users_of_teams-AreNamed users_of (split b',' action.uic) [] tt))
      (All-HasUser known known (λ user a. a))
