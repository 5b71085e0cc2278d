-- ===== src/Hbs/Agents.antt =====
-- modules/hbs/rpc/agent.go: ReportStatus; modules/hbs/cache/agents.go: the agents that report.
use falcon_plus.Base.{
  ℕ, Bool, ◌&&◌, Option, none, some, List, [], ◌∷◌, ◌++◌, map, Run, ◌>>=◌, if◌then◌else◌,
}
use falcon_plus.Base.Int.{ℤ, pos, leb_ℤ, ltb_ℤ}
use falcon_plus.Base.Word.{sub64, mul64}
use falcon_plus.Base.Text.{Text, eq_text}
use falcon_plus.Base.Dict.{Dict, get, put, delete, text_eq}

pub record AgentReportRequest : Type 0 where
  pub hostname : Text
  pub ip : Text
  pub agent_version : Text
  pub plugin_version : Text
  pub in_upgrading : Bool

pub record AgentUpgradeArgs : Type 0 where
  pub type : ℤ
  pub wget_url : Text
  pub version : Text
  pub bin_file_md5 : Text
  pub cfg_file_md5 : Text

pub record AgentUpdateInfo : Type 0 where
  pub last_update : ℤ
  pub report_request : AgentReportRequest

-- SCARD, SADD and SREM of the set of the agents that upgrade, and EXPIRE; none is an error.
pub record Redis (S : Type 0) : Type 0 where
  pub scard : S → Option ℕ
  pub sadd : Text → S → Option S
  pub srem : Text → S → S
  pub expire : S → S

-- NewAgentUpgradeArgs and AgentUpdateQueueLength.
pub record Upgrade : Type 0 where
  pub args : AgentUpgradeArgs
  pub queue_length : ℤ

-- NowAgentVersionMap, Agents, what was written to the database, and the set in Redis.
pub record Fleet (S : Type 0) : Type 0 where
  pub version_map : Dict Text Text
  pub agents : Dict Text AgentUpdateInfo
  pub inserted : List AgentUpdateInfo
  pub upgrade_set : S

pub record AgentUpgradeRpcResponse : Type 0 where
  pub code : ℤ
  pub args : Option AgentUpgradeArgs

abbrev pub answer : Option AgentUpgradeArgs → AgentUpgradeRpcResponse
answer args = record { code = pos 0; args = args }

-- What redis.Int answers where the command fails.
abbrev pub count_or_zero : Option ℕ → ℤ
count_or_zero none = pos 0
count_or_zero (some n) = pos n

abbrev pub insert_new :
    Option AgentUpdateInfo → AgentUpdateInfo → List AgentUpdateInfo → List AgentUpdateInfo
insert_new none val inserted = inserted ++ val ∷ []
insert_new (some _) val inserted = inserted

module _ {S : Type 0} where
  -- SafeAgents.Put
  unfoldable pub put_agent : ℤ → AgentReportRequest → Fleet S → Fleet S
  put_agent now req x =
      let val : AgentUpdateInfo = record { last_update = now; report_request = req } in
      record x {
        agents = put req.hostname val x.agents;
        inserted = insert_new (get req.hostname x.agents) val x.inserted;
      }

  abbrev pub added : Redis S → Upgrade → Option S → Fleet S → AgentUpgradeRpcResponse × Fleet S
  added redis u none x = (answer none, x)
  added redis u (some s) x = (answer (some u.args), record x { upgrade_set = redis.expire s })

  -- An agent with another version than the new one.
  abbrev pub send_args :
      Redis S → Upgrade → AgentReportRequest → Fleet S → AgentUpgradeRpcResponse × Fleet S
  send_args redis u args x =
      let in_upgrade_num = count_or_zero (redis.scard x.upgrade_set) in
      if args.in_upgrading
      then (answer none, x)
      else if leb_ℤ (pos 0) in_upgrade_num && ltb_ℤ in_upgrade_num u.queue_length
      then added redis u (redis.sadd args.hostname x.upgrade_set) x
      else (answer none, x)

  abbrev pub upgraded :
      Redis S → Upgrade → AgentReportRequest → Fleet S → AgentUpgradeRpcResponse × Fleet S
  upgraded redis u args x =
      if eq_text u.args.version []
      then (answer none, x)
      else if eq_text args.agent_version u.args.version
      then (answer none, record x { upgrade_set = redis.srem args.hostname x.upgrade_set })
      else send_args redis u args x

  -- ReportStatus; the agent is put by a goroutine.
  unfoldable pub report_status :
      Redis S → Upgrade → ℤ → AgentReportRequest → Fleet S → AgentUpgradeRpcResponse × Fleet S
  report_status redis u now args x =
      if eq_text args.hostname []
      then (record { code = pos 1; args = none }, x)
      else upgraded redis u args (
          put_agent now args
            (record x { version_map = put args.hostname args.agent_version x.version_map }))

  -- deleteStaleAgents, whose second look at a host that is gone panics.
  abbrev pub delete_stale : ℤ → AgentUpdateInfo → Fleet S → Fleet S
  delete_stale before curr x =
      if ltb_ℤ curr.last_update before
      then record x {
        version_map = delete curr.report_request.hostname x.version_map;
        agents = delete curr.report_request.hostname x.agents;
      }
      else x

  unfoldable pub delete_stale_keys : List Text → ℤ → Fleet S → Run (Fleet S)
  delete_stale_keys [] before x = some x
  delete_stale_keys (key ∷ keys) before x =
      get key x.agents >>= λ curr. delete_stale_keys keys before (delete_stale before curr x)

  unfoldable pub delete_stale_agents : ℤ → ℤ → Fleet S → Run (Fleet S)
  unfolding delete_stale_keys
  delete_stale_agents now map_clean_interval x =
      delete_stale_keys (map (λ e. e.0) x.agents) (sub64 now (mul64 (pos 600) map_clean_interval)) x
