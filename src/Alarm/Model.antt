-- ===== src/Alarm/Model.antt =====
-- modules/alarm/cron/model.go: what is to be combined; modules/alarm/model and redi/msg_writer.go: what
-- is put in the queues of the senders.
use falcon_plus.Base.Int.{ℤ}
use falcon_plus.Base.Text.{Text}

pub record MailDto : Type 0 where
  pub priority : ℤ
  pub metric : Text
  pub subject : Text
  pub content : Text
  pub email : Text
  pub status : Text

pub record SmsDto : Type 0 where
  pub priority : ℤ
  pub metric : Text
  pub content : Text
  pub phone : Text
  pub status : Text

pub record ImDto : Type 0 where
  pub priority : ℤ
  pub metric : Text
  pub content : Text
  pub im : Text
  pub name : Text
  pub status : Text
  pub lark_card_content : Text

-- A push to the queue of the mails, of the short messages, or of the IM messages, plain or as a card.
pub data Message : Type 0 where
  write_mail : (to subject content : Text) → Message
  write_sms : (to content : Text) → Message
  write_im : (to content : Text) → Message
  write_im_card : (to content : Text) → Message
