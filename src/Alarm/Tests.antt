-- ===== src/Alarm/Tests.antt =====
-- The combiners at concrete inputs.
use falcon_plus.Base.{false, none, some, List, [], ◌∷◌}
use falcon_plus.Base.Int.{ℤ, pos}
use falcon_plus.Base.Text.{codes}
use falcon_plus.Alarm.Combine.{
  Answer, element, failure, Site, mail_key, mail_of, sms_key, sms_of, im_key, im_of, combine_mail,
  combine_sms, combine_im,
}
use falcon_plus.Alarm.Delivered.{Combines, combine-Combines}
use falcon_plus.Judge.Model.{Event, Strategy, problem}
use falcon_plus.Hbs.Templates.{Template}
use falcon_plus.Alarm.Users.{Action, Blocks}
use falcon_plus.Alarm.Consume.{Incoming, Portal}

-- JSON that only knows one mail, whose subject is the text.
abbrev office : Site
office = record {
  read_mail = λ s. some (record {
    priority = pos 4;
    metric = codes "load";
    subject = s;
    content = s;
    email = codes "ops@corp";
    status = codes "PROBLEM";
  });
  read_sms = λ s. none;
  read_im = λ s. none;
  link_to_sms = λ s. none;
  dashboard = codes "http://dash";
}

abbrev three : List Answer
three = element (codes "a") ∷ element (codes "nil") ∷ element (codes "b") ∷ failure ∷ []

combine-Combines_example :
    Combines office three office.read_mail mail_key mail_of (combine_mail office three)
    × Combines office three office.read_sms sms_key (sms_of office) (combine_sms office three)
    × Combines office three office.read_im im_key (im_of office) (combine_im office three)
combine-Combines_example = combine-Combines office three

abbrev busy : Strategy ℤ
busy = record {
  id = pos 1;
  metric = codes "load";
  tags = [];
  func = codes "all(#3)";
  operator = codes ">";
  right_value = pos 5;
  max_step = pos 3;
  priority = pos 1;
  note = [];
  union_strategy_id = pos 0;
}

abbrev base_template : Template
base_template = record {
  id = pos 2;
  name = codes "base";
  parent_id = pos 0;
  action_id = pos 7;
  creator = codes "root";
}

abbrev fired : Event ℤ
fired = record {
  id = codes "s_1_web1";
  strategy = some busy;
  expression = none;
  status = problem;
  endpoint = codes "web1";
  left_value = pos 9;
  current_step = pos 1;
  event_time = pos 60;
  pushed_tags = [];
}

abbrev alarm : Incoming ℤ
alarm = record { event = fired; tpl = some base_template; event_chain = [] }

abbrev on_call : Action
on_call = record {
  uic = codes "ops,dba";
  lark_group_id = [];
  url = [];
  callback = false;
  before_callback_sms = false;
  before_callback_mail = false;
  after_callback_sms = false;
  after_callback_mail = false;
}

-- Each team is two users, one of whom is muted for load on web1.
abbrev desk : Portal ℤ
desk = record {
  get_action = λ id. some on_call;
  get_endpoint_tpl_groups = λ tpl endpoint. codes "prod";
  get_ams_tag = λ endpoint. [];
  users_of = λ team.
      record { name = codes "ann"; email = codes "ann@corp"; phone = [] }
      ∷ record { name = codes "bob"; email = codes "bob@corp"; phone = [] }
      ∷ [];
  callback = λ e action grps. [];
  sms_content = λ e amstag grps. codes "load is high";
  mail_content = λ e amstag grps. codes "load is high";
  im_content = λ e. codes "load is high";
  phone_content = λ e. codes "load is high";
  card_content = λ user e amstag grps. codes "load is high";
}

abbrev muted : Blocks
muted = (codes "single_block_monitor_bob_web1_load", codes "1") ∷ []
