-- ===== src/Alarm/Combine.antt =====
-- modules/alarm/cron/combiner.go: combineMail, combineIM and combineSms, with the loops that empty the
-- queues in Redis. JSON, the dashboard and Redis are parameters.
use falcon_plus.Base.{
  ℕ, ◌||◌, Option, none, some, List, [], ◌∷◌, ◌++◌, map, length, get_elem?, Run, ◌>>=◌,
  if◌then◌else◌,
}
use falcon_plus.Base.Int.{ℤ, pos}
use falcon_plus.Base.Text.{Text, codes, eq_text}
use falcon_plus.Base.Strings.{split_pair, join}
use falcon_plus.Base.Number.{itoa}
use falcon_plus.Base.Dict.{Dict}
use falcon_plus.Utils.Grouped.{file_under}
use falcon_plus.Alarm.Model.{
  MailDto, SmsDto, ImDto, Message, write_mail, write_sms, write_im, write_im_card,
}

-- What RPOP answers: an element of the queue, or an error other than that of an empty queue.
pub data Answer : Type 0 where
  element : Text → Answer
  failure : Answer

-- json.Unmarshal of each kind, api.LinkToSMS with `none` for an error, and Config().Api.Dashboard.
pub record Site : Type 0 where
  pub read_mail : Text → Option MailDto
  pub read_sms : Text → Option SmsDto
  pub read_im : Text → Option ImDto
  pub link_to_sms : Text → Option Text
  pub dashboard : Text

module _ {A : Type 0} where
  abbrev pub with_read : Option A → List A → List A
  with_read none ds = ds
  with_read (some d) ds = d ∷ ds

  -- The loop of popAll: an element that is empty, "nil" or no JSON is passed over; the loop ends when
  -- the queue is empty or Redis fails, with what the queue has left.
  unfoldable pub pop_all_dto : (Text → Option A) → List Answer → List A × List Answer
  pop_all_dto read [] = ([], [])
  pop_all_dto read (failure ∷ queue) = ([], queue)
  pop_all_dto read (element reply ∷ queue) =
      let (ds, rest) = pop_all_dto read queue in
      if eq_text reply [] || eq_text reply (codes "nil")
      then (ds, rest)
      else (with_read (read reply) ds, rest)

  -- The loop that fills dtoMap.
  unfoldable pub grouped : (A → Text) → List A → Dict Text (List A) → Dict Text (List A)
  unfolding file_under
  grouped key [] m = m
  grouped key (d ∷ ds) m = grouped key ds (file_under (key d) d m)

  -- One message for each group, `arr[0]` being read first: an empty group would panic.
  unfoldable pub write_groups : (A → List A → Message) → Dict Text (List A) → Run (List Message)
  write_groups write [] = some []
  write_groups write ((k, []) ∷ groups) = none
  write_groups write ((k, d ∷ ds) ∷ groups) =
      write_groups write groups >>= λ out. some (write d ds ∷ out)

  -- The body that the three functions share: no groups where there is nothing to combine.
  unfoldable pub combine : (A → Text) → (A → List A → Message) → List A → Run (List Message)
  unfolding grouped write_groups
  combine key write ds = write_groups write (grouped key ds [])

-- "%d%s%s%s"
abbrev pub dto_key : ℤ → Text → Text → Text → Text
dto_key priority status to metric = itoa priority ++ (status ++ (to ++ metric))

-- "[P%d][%s] %d %s"
abbrev pub title : ℤ → Text → ℕ → Text → Text
title priority status size metric =
    codes "[P"
    ++ (itoa priority
        ++ (codes "][" ++ (status ++ (codes "] " ++ (itoa (pos size) ++ (b' ' ∷ metric))))))

abbrev pub mail_key : MailDto → Text
mail_key d = dto_key d.priority d.status d.email d.metric

abbrev pub mail_of : MailDto → List MailDto → Message
mail_of d [] = write_mail d.email d.subject d.content
mail_of d (e ∷ ds) =
    write_mail d.email (title d.priority d.status (length (d ∷ e ∷ ds)) d.metric)
      (join (13 ∷ 10 ∷ []) (map (λ x. x.content) (d ∷ e ∷ ds)))

-- t[2] of the parts of the first content between "][", or nothing.
abbrev third : Option Text → Text
third none = []
third (some s) = s

abbrev pub example_of : Text → Text
example_of first = third (get_elem? (split_pair b']' b'[' first) 2)

module _ (env : Site) where
  abbrev pub detail_text : Text → Text → Option Text → Text
  detail_text head eg none = head ++ (codes ".  e.g. " ++ (eg ++ codes ". detail in email"))
  detail_text head eg (some []) = head ++ (codes ".  e.g. " ++ (eg ++ codes ". detail in email"))
  detail_text head eg (some (c ∷ path)) =
      head
      ++ (codes " e.g. "
          ++ (eg
              ++ (b' ' ∷ (env.dashboard ++ (codes "/portal/links/" ++ ((c ∷ path) ++ codes " "))))))

  -- The text of several messages: a link to all of them, or a note where there is none.
  abbrev pub linked_text : ℤ → Text → Text → Text → List Text → Text
  linked_text priority status metric first contents =
      detail_text (title priority status (length contents) metric) (example_of first)
        (env.link_to_sms (join (codes ",,") contents))

  abbrev pub sms_of : SmsDto → List SmsDto → Message
  sms_of d [] = write_sms d.phone d.content
  sms_of d (e ∷ ds) =
      write_sms d.phone
        (linked_text d.priority d.status d.metric d.content (map (λ x. x.content) (d ∷ e ∷ ds)))

  abbrev pub im_of : ImDto → List ImDto → Message
  im_of d [] = write_im_card d.im d.lark_card_content
  im_of d (e ∷ ds) =
      write_im d.im
        (linked_text d.priority d.status d.metric d.content (map (λ x. x.content) (d ∷ e ∷ ds)))

abbrev pub sms_key : SmsDto → Text
sms_key d = dto_key d.priority d.status d.phone d.metric

abbrev pub im_key : ImDto → Text
im_key d = dto_key d.priority d.status d.im d.metric

module _ (env : Site) where
  -- What is written, and what the queue has left.
  unfoldable pub combine_mail : List Answer → Run (List Message × List Answer)
  unfolding pop_all_dto combine
  combine_mail queue =
      let (ds, rest) = pop_all_dto env.read_mail queue in
      combine mail_key mail_of ds >>= λ out. some (out, rest)

  unfoldable pub combine_sms : List Answer → Run (List Message × List Answer)
  unfolding pop_all_dto combine
  combine_sms queue =
      let (ds, rest) = pop_all_dto env.read_sms queue in
      combine sms_key (sms_of env) ds >>= λ out. some (out, rest)

  unfoldable pub combine_im : List Answer → Run (List Message × List Answer)
  unfolding pop_all_dto combine
  combine_im queue =
      let (ds, rest) = pop_all_dto env.read_im queue in
      combine im_key (im_of env) ds >>= λ out. some (out, rest)
