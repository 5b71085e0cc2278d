-- ===== src/Alarm/Consume.antt =====
-- modules/alarm/cron/event_consumer.go: consume; modules/alarm/cron/callback.go: HandleCallback; common/
-- model/event.go: what they read of an event. The requests are parameters, as are the texts of
-- modules/alarm/cron/builder.go.
use falcon_plus.Base.{
  Bool, true, false, ◌&&◌, Option, none, some, List, [], ◌∷◌, ◌++◌, map, Run, ◌>>=◌, if◌then◌else◌,
}
use falcon_plus.Base.Int.{ℤ, pos, leb_ℤ, ltb_ℤ, eqb_ℤ}
use falcon_plus.Base.Text.{Text, codes, eq_text}
use falcon_plus.Base.Dict.{Dict}
use falcon_plus.Judge.Model.{Event, Strategy, Expression, Status, unset, problem, ok, priority}
use falcon_plus.Hbs.Templates.{Template}
use falcon_plus.Alarm.Model.{MailDto, SmsDto, ImDto}
use falcon_plus.Alarm.Users.{User, Action, Blocks, get_users, generate_user_map}

-- An event with the template pointer of its strategy, and its chain.
pub record Incoming (F : Type 0) : Type 0 where
  pub event : Event F
  pub tpl : Option Template
  pub event_chain : List (Event F)

module _ {F : Type 0} where
  abbrev pub action_of : Option (Expression F) → Option (Strategy F) → Option Template → Run ℤ
  action_of (some x) s tpl = some x.action_id
  action_of none none tpl = none
  action_of none (some s) none = none
  action_of none (some s) (some tpl) = some tpl.action_id

  unfoldable pub action_id : Incoming F → Run ℤ
  action_id e = action_of e.event.expression e.event.strategy e.tpl

  abbrev pub tpl_of : Option (Strategy F) → Option Template → Run ℤ
  tpl_of none tpl = some (pos 0)
  tpl_of (some s) none = none
  tpl_of (some s) (some tpl) = some tpl.id

  unfoldable pub tpl_id : Incoming F → Run ℤ
  tpl_id e = tpl_of e.event.strategy e.tpl

  -- The metric of a strategy, with those of the chain behind it.
  unfoldable pub chain_metric : Text → List (Event F) → Run Text
  chain_metric os [] = some os
  chain_metric os (e ∷ chain) = e.strategy >>= λ s. chain_metric (os ++ (b',' ∷ s.metric)) chain

  abbrev pub metric_of : Option (Strategy F) → Option (Expression F) → List (Event F) → Run Text
  metric_of (some s) x chain = chain_metric s.metric chain
  metric_of none none chain = none
  metric_of none (some x) chain = some x.metric

  unfoldable pub metric : Incoming F → Run Text
  unfolding chain_metric
  metric e = metric_of e.event.strategy e.event.expression e.event_chain

abbrev pub status_text : Status → Text
status_text unset = []
status_text problem = codes "PROBLEM"
status_text ok = codes "OK"

-- What is pushed to Redis: to the queues of the senders, and to those of the combiners.
pub data Push : Type 0 where
  write_sms : (tos : List Text) (content : Text) → Push
  write_phone : (tos : List Text) (content : Text) → Push
  write_im : (tos : List Text) (content : Text) → Push
  write_im_card : (to content : Text) → Push
  write_mail : (tos : List Text) (subject content : Text) → Push
  push_user_sms : SmsDto → Push
  push_user_mail : MailDto → Push
  push_user_im : ImDto → Push

-- The api, and builder.go, whose texts read the strategy of the event.
pub record Portal (F : Type 0) : Type 0 where
  pub get_action : ℤ → Option Action
  pub get_endpoint_tpl_groups : ℤ → Text → Text
  pub get_ams_tag : Text → Text
  pub users_of : Text → List User
  pub callback : Incoming F → Action → Text → Text
  pub sms_content : Incoming F → Text → Text → Text
  pub mail_content : Incoming F → Text → Text → Text
  pub im_content : Incoming F → Text
  pub phone_content : Incoming F → Text
  pub card_content : Text → Incoming F → Text → Text → Text

-- A message to nobody is not written.
abbrev pub unless_nobody : List Text → Push → List Push
unless_nobody [] push = []
unless_nobody (to ∷ tos) push = push ∷ []

abbrev pub pushes_if : Bool → List Push → List Push
pushes_if test pushes = if test then pushes else []

-- BYTEMAIL
abbrev pub mail_address : Text → Text
mail_address name = name ++ codes "@xxx.com"

module _ {F : Type 0} (portal : Portal F) (e : Incoming F) (amstag grps : Text) where
  abbrev pub cards_of : Dict Text User → List Push
  cards_of users = map (λ u. write_im_card u.0 (portal.card_content u.0 e amstag grps)) users

  -- consumeHighEvents, for users and a priority.
  abbrev pub high_pushes : Dict Text User → ℤ → List Push
  high_pushes users level =
      let names = map (λ u. u.0) users in
      let mails = map (λ u. mail_address u.0) users in
      let sms = unless_nobody names (write_sms names (portal.sms_content e amstag grps)) in
      let phone = unless_nobody names (write_phone names (portal.phone_content e)) in
      pushes_if (ltb_ℤ level (pos 3)) sms
      ++ (pushes_if (eqb_ℤ level (pos 9))
            (sms ++ pushes_if (eq_text (status_text e.event.status) (codes "PROBLEM")) phone)
          ++ (cards_of users
              ++ unless_nobody mails (
                  write_mail mails (portal.sms_content e amstag grps)
                    (portal.mail_content e amstag grps))))

  abbrev pub user_sms : Text → ℤ → User → Push
  user_sms met level user = push_user_sms (record {
    priority = level;
    metric = met;
    content = portal.sms_content e amstag grps;
    phone = user.name;
    status = status_text e.event.status;
  })

  abbrev pub user_mail : Text → ℤ → User → Push
  user_mail met level user = push_user_mail (record {
    priority = level;
    metric = met;
    subject = portal.sms_content e amstag grps;
    content = portal.mail_content e amstag grps;
    email = user.email;
    status = status_text e.event.status;
  })

  abbrev pub user_im : Text → ℤ → Text × User → Push
  user_im met level (name, user) = push_user_im (record {
    priority = level;
    metric = met;
    content = portal.mail_content e amstag grps;
    im = user.name;
    name = user.name;
    status = status_text e.event.status;
    lark_card_content = portal.card_content name e amstag grps;
  })

  -- consumeLowEvents: ParseUserSms, ParseUserIm and ParseUserMail.
  abbrev pub low_pushes : Text → Dict Text User → ℤ → List Push
  low_pushes met users level =
      pushes_if (ltb_ℤ level (pos 3)) (map (λ u. user_sms met level u.1) users)
      ++ (map (λ u. user_im met level u) users ++ map (λ u. user_mail met level u.1) users)

  abbrev pub pushes_of : Bool → Text → Dict Text User → ℤ → List Push
  pushes_of true met users level = high_pushes users level
  pushes_of false met users level = low_pushes met users level

  -- Both functions, with their guard; a text of an event without a strategy panics.
  unfoldable pub consume_events : Blocks → Bool → Action → Run (List Push)
  consume_events blocks is_high action =
      if eq_text action.uic [] && eq_text action.lark_group_id []
      then some []
      else (e.event.strategy >>= λ _. metric e >>= λ met. priority e.event >>= λ level. some (
          pushes_of is_high met
            (generate_user_map portal.users_of blocks e.event.endpoint met action) level))

  -- ParseTeams: the names of the users, whether they are blocked or not.
  abbrev pub before_callback : Action → List Text → List Text → List Push
  before_callback action names mails =
      pushes_if action.before_callback_sms (
        unless_nobody names (write_sms names (portal.sms_content e amstag grps))
        ++ unless_nobody names (write_im names (portal.im_content e)))
      ++ pushes_if action.before_callback_mail (
          unless_nobody mails (
            write_mail mails (portal.sms_content e amstag grps)
              (portal.mail_content e amstag grps)))

  abbrev pub after_callback : Action → Text → List Text → List Text → List Push
  after_callback action message names mails =
      pushes_if action.after_callback_sms (
        unless_nobody names (write_sms names message)
        ++ unless_nobody names (write_im names message))
      ++ pushes_if action.after_callback_mail
          (unless_nobody mails (write_mail mails message message))

  -- What Callback reads of the event for its request.
  abbrev pub request_of : Action → Run Text
  request_of action =
      if eq_text action.url []
      then some []
      else (metric e >>= λ met. priority e.event >>= λ level. some met)

  -- HandleCallback.
  unfoldable pub handle_callback : Action → Run (List Push)
  handle_callback action =
      let names = map (λ u. u.1.name) (get_users portal.users_of action.uic) in
      let mails = map (λ u. mail_address u.1.name) (get_users portal.users_of action.uic) in
      let message = portal.callback e action grps in
      if eq_text action.uic []
      then (request_of action >>= λ _. some [])
      else (e.event.strategy >>= λ _. metric e >>= λ _. request_of action >>= λ _.
          some (before_callback action names mails ++ after_callback action message names mails))

module _ {F : Type 0} (portal : Portal F) (blocks : Blocks) where
  abbrev pub handle_if : Bool → Run (List Push) → Run (List Push)
  handle_if called pushes = if called then pushes else some []

  abbrev pub consume_action : Incoming F → Bool → Action → ℤ → Run (List Push)
  consume_action e is_high action tpl =
      let grps = portal.get_endpoint_tpl_groups tpl e.event.endpoint in
      let amstag = portal.get_ams_tag e.event.endpoint in
      handle_if action.callback (handle_callback portal e amstag grps action) >>= λ called.
      consume_events portal e amstag grps blocks is_high action >>= λ pushes.
      some (called ++ pushes)

  abbrev pub consume_found : Incoming F → Bool → Option Action → Run (List Push)
  consume_found e is_high none = some []
  consume_found e is_high (some action) = tpl_id e >>= consume_action e is_high action

  -- consume.
  unfoldable pub consume : Incoming F → Bool → Run (List Push)
  consume e is_high = action_id e >>= λ id.
      if leb_ℤ id (pos 0) then some [] else consume_found e is_high (portal.get_action id)
