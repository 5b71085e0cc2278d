-- ===== src/Alarm/Users.antt =====
-- modules/alarm/api/uic.go: GetUsers; modules/alarm/cron/block.go: CommonFilterBlock; modules/alarm/cron/
-- event_consumer.go: GenerateUserMap; modules/alarm/cron/get_block_monitor.go: GetBlockMonitors.
use falcon_plus.Base.{
  Bool, true, false, ◌||◌, Option, none, some, List, [], ◌∷◌, ◌++◌, if◌then◌else◌,
}
use falcon_plus.Base.Text.{Text, codes, eq_text}
use falcon_plus.Base.Strings.{split}
use falcon_plus.Base.Dict.{Dict, get, put, delete, text_eq}

pub record User : Type 0 where
  pub name : Text
  pub email : Text
  pub phone : Text

-- api.Action; what the source keeps as an integer and tests against 1 is a Boolean.
pub record Action : Type 0 where
  pub uic : Text
  pub lark_group_id : Text
  pub url : Text
  pub callback : Bool
  pub before_callback_sms : Bool
  pub before_callback_mail : Bool
  pub after_callback_sms : Bool
  pub after_callback_mail : Bool

-- BlockMonitorCounter
abbrev pub Blocks : Type 0
Blocks = Dict Text Text

abbrev pub put_users : List User → Dict Text User → Dict Text User
put_users [] m = m
put_users (user ∷ users) m = put_users users (put user.name user m)

-- The loop of GetUsers; UsersOf is a request that is cached, with no users where it fails.
unfoldable pub users_of_teams : (Text → List User) → List Text → Dict Text User → Dict Text User
users_of_teams users_of [] m = m
users_of_teams users_of (team ∷ teams) m =
    users_of_teams users_of teams (if eq_text team [] then m else put_users (users_of team) m)

unfoldable pub get_users : (Text → List User) → Text → Dict Text User
unfolding users_of_teams
get_users users_of teams = users_of_teams users_of (split b',' teams) []

-- "%s%s_%s" with BLOCK_MONITOR_KEY_PREFIX
abbrev pub block_key : Text → Text → Text
block_key user_name counter = codes "single_block_monitor_" ++ (user_name ++ (b'_' ∷ counter))

abbrev pub is_there : Option Text → Bool
is_there none = false
is_there (some _) = true

abbrev pub is_blocked : Blocks → Text → Text → Text → Bool
is_blocked blocks endpoint metric user_name =
    is_there (get (block_key user_name (endpoint ++ (b'_' ∷ metric))) blocks)
    || is_there (get (block_key user_name metric) blocks)

unfoldable pub common_filter_block : Blocks → Text → Text → Dict Text User → Dict Text User
common_filter_block blocks endpoint metric [] = []
common_filter_block blocks endpoint metric ((name, user) ∷ users) =
    let rest = common_filter_block blocks endpoint metric users in
    if is_blocked blocks endpoint metric name then rest else (name, user) ∷ rest

abbrev pub with_group : Text → Dict Text User → Dict Text User
with_group [] users = users
with_group (c ∷ group) users =
    put (c ∷ group) (record { name = c ∷ group; email = []; phone = c ∷ group }) users

unfoldable pub generate_user_map :
    (Text → List User) → Blocks → Text → Text → Action → Dict Text User
unfolding get_users common_filter_block
generate_user_map users_of blocks endpoint metric action =
    common_filter_block blocks endpoint metric
      (with_group action.lark_group_id (get_users users_of action.uic))

-- GET of a key, which is empty where the key is gone or the request fails: the test of the error reads
-- the one of SMEMBERS.
abbrev pub monitored : Text → Text → Blocks → Blocks
monitored item [] blocks = delete item blocks
monitored item (c ∷ reply) blocks = put item (c ∷ reply) blocks

-- GetBlockMonitors, with the answer of SMEMBERS and of each GET.
unfoldable pub get_block_monitors : List Text → (Text → Text) → Blocks → Blocks
get_block_monitors [] reply blocks = blocks
get_block_monitors (item ∷ items) reply blocks =
    get_block_monitors items reply (monitored item (reply item) blocks)
