-- ===== src/Hbs/Upgrades.antt =====
-- modules/hbs/rpc/agent.go: how many agents ReportStatus lets upgrade, and that each one's turn comes.
use falcon_plus.Base.{
  ℕ, suc, ◌≤◌, ◌<◌, ◌≡◌, refl, ap, sym, ◌∙◌, inl, inr, true, false, ◌&&◌, none, some, List, [], ◌∷◌,
  All, if◌then◌else◌, Bool-cases, if_both, arith,
}
use falcon_plus.Base.Int.{ℤ, pos, leb_ℤ, ltb_ℤ}
use falcon_plus.Base.Text.{Text, eq_text, eq_text_iff}
use falcon_plus.Hbs.Agents.{
  AgentReportRequest, Redis, Upgrade, Fleet, AgentUpgradeRpcResponse, answer, count_or_zero,
  put_agent, added, send_args, report_status,
}

-- What Redis documents of its sets: SCARD counts the members, SADD adds one member at most, SREM adds none
-- and undoes an SADD of the same member, and EXPIRE removes none before its time.
pub record KeepsSet {S : Type 0} (redis : Redis S) (size : S → ℕ) : Type 0 where
  pub scard-size : (s : S) → redis.scard s ≡ some (size s)
  pub sadd-size :
      (host : Text) (s : S)
      → (s' : S) × (redis.sadd host s ≡ some s')
        × (size s' ≤ suc (size s))
        × (size (redis.srem host (redis.expire s')) ≤ size s)
  pub srem-size : (host : Text) (s : S) → size (redis.srem host s) ≤ size s
  pub expire-size : (s : S) → size (redis.expire s) ≤ size s

room-below :
    (c q : ℤ) (n k : ℕ) → c ≡ pos n → q ≡ pos k → (leb_ℤ (pos 0) c && ltb_ℤ c q) ≡ true → n < k
room-below c q n k a b h =
    let h' : (leb_ℤ (pos 0) (pos n) && ltb_ℤ (pos n) (pos k)) ≡ true =
      ap (λ z. leb_ℤ (pos 0) z && ltb_ℤ z (pos k)) (sym a)
      ∙ ap (λ z. leb_ℤ (pos 0) c && ltb_ℤ c z) (sym b)
      ∙ h in
    ground arith

room-above :
    (c q : ℤ) (n k : ℕ) → c ≡ pos n → q ≡ pos k → n < k → (leb_ℤ (pos 0) c && ltb_ℤ c q) ≡ true
room-above c q n k a b h = rw (a, b) (ground arith)

module _ {S : Type 0} (redis : Redis S) (u : Upgrade) where
  -- The replies to the reports, each at its time, and the fleet behind them.
  abbrev pub reports : List (ℤ × AgentReportRequest) → Fleet S → Fleet S
  reports [] x = x
  reports ((now, args) ∷ rest) x = reports rest (report_status redis u now args x).1

  -- Each agent reports, and, once it was upgraded, reports with the new version.
  abbrev pub done : AgentReportRequest → AgentReportRequest
  done args = record args { agent_version = u.args.version }

  abbrev pub turns : List (ℤ × AgentReportRequest) → Fleet S → List AgentUpgradeRpcResponse
  turns [] x = []
  turns ((now, args) ∷ rest) x =
      let (reply, x') = report_status redis u now args x in
      reply ∷ turns rest (report_status redis u now (done args) x').1

  -- A report of an agent that is to upgrade.
  abbrev pub IsOld : ℤ × AgentReportRequest → Type 0
  IsOld (now, args) =
      (eq_text args.hostname [] ≡ false)
      × (eq_text args.agent_version u.args.version ≡ false)
      × (args.in_upgrading ≡ false)

  module _ (size : S → ℕ) (laws : KeepsSet redis size) where
    abbrev Within : ℕ → AgentUpgradeRpcResponse × Fleet S → Type 0
    Within limit r = size r.1.upgrade_set ≤ limit

    count-size : (s : S) → count_or_zero (redis.scard s) ≡ pos (size s)
    count-size s = ap count_or_zero (laws.scard-size s)

    added-Within :
        (limit : ℕ) (host : Text) (x : Fleet S)
        → size x.upgrade_set < limit
        → Within limit (added redis u (redis.sadd host x.upgrade_set) x)
    added-Within limit host x h =
        let (s', run, more, _) = laws.sadd-size host x.upgrade_set in
        rw run (omega (arith, laws.expire-size s', more, h))

    send_args-Within :
        (limit : ℕ) (args : AgentReportRequest) (x : Fleet S)
        → u.queue_length ≡ pos limit
        → size x.upgrade_set ≤ limit
        → Within limit (send_args redis u args x)
    send_args-Within limit args x e h =
        let count = count_or_zero (redis.scard x.upgrade_set) in
        let test = leb_ℤ (pos 0) count && ltb_ℤ count u.queue_length in
        let added_run = added redis u (redis.sadd args.hostname x.upgrade_set) x in
        let sent : Within limit (if test then added_run else (answer none, x)) =
          elim (Bool-cases test) [
            | inl free ↦ rw free (
                added-Within limit args.hostname x
                  (room-below count u.queue_length _ limit (count-size x.upgrade_set) e free))
            | inr full ↦ rw full h
          ] in
        if_both (Within limit) args.in_upgrading h sent

    report_status-Within :
        (limit : ℕ) (now : ℤ) (args : AgentReportRequest) (x : Fleet S)
        → u.queue_length ≡ pos limit
        → size x.upgrade_set ≤ limit
        → Within limit (report_status redis u now args x)
    unfolding report_status put_agent
    report_status-Within limit now args x e h =
        if_both (Within limit) (eq_text args.hostname []) h (
          if_both (Within limit) (eq_text u.args.version []) h (
            if_both (Within limit) (eq_text args.agent_version u.args.version)
              (omega (arith, laws.srem-size args.hostname x.upgrade_set, h))
              (send_args-Within limit args _ e h)))

    -- With a Redis that answers and keeps its set as it documents, and reports that are handled
    -- one after another: if at most AgentUpdateQueueLength hosts are in the set of the agents that
    -- upgrade, there are no more after any reports.
    pub reports-within :
        (limit : ℕ) (rs : List (ℤ × AgentReportRequest)) (x : Fleet S)
        → u.queue_length ≡ pos limit
        → size x.upgrade_set ≤ limit
        → size (reports rs x).upgrade_set ≤ limit
    reports-within limit [] x e h = h
    reports-within limit ((now, args) ∷ rs) x e h =
        reports-within limit rs (report_status redis u now args x).1 e
          (report_status-Within limit now args x e h)

    -- An old agent for whom there is room is sent the arguments, and its place is free again once it was upgraded.
    turn :
        (limit : ℕ) (now : ℤ) (args : AgentReportRequest) (x : Fleet S)
        → u.queue_length ≡ pos limit
        → eq_text u.args.version [] ≡ false
        → IsOld (now, args)
        → size x.upgrade_set < limit
        → let (reply, x') = report_status redis u now args x in
          (reply.args ≡ some u.args)
          × (size (report_status redis u now (done args) x').1.upgrade_set ≤ size x.upgrade_set)
    unfolding report_status put_agent
    turn limit now args x e new old h =
        let (s', run, _, back) = laws.sadd-size args.hostname x.upgrade_set in
        let free =
          room-above (count_or_zero (redis.scard x.upgrade_set)) u.queue_length (size x.upgrade_set)
            limit (count-size x.upgrade_set) e h in
        let same : eq_text u.args.version u.args.version ≡ true =
          (eq_text_iff u.args.version u.args.version).1 refl in
        rw (old.0, new, old.1, old.2, free, run, same) (refl, back)

    -- With a Redis that answers and keeps its set as it documents, a new version, and room in the
    -- set: if each of some agents that have a host name, are of another version and do not say
    -- that they are upgrading reports, and then reports with the new version before the next one
    -- does, each of them is sent the arguments of the upgrade at its first report.
    pub turns_sent :
        (limit : ℕ) (rs : List (ℤ × AgentReportRequest)) (x : Fleet S)
        → u.queue_length ≡ pos limit
        → eq_text u.args.version [] ≡ false
        → All IsOld rs
        → size x.upgrade_set < limit
        → All (λ r. r.args ≡ some u.args) (turns rs x)
    turns_sent limit [] x e new old h = tt
    turns_sent limit ((now, args) ∷ rs) x e new old h =
        let (_, x') = report_status redis u now args x in
        let (sent, back) = turn limit now args x e new old.0 h in
        (
          sent,
          turns_sent limit rs (report_status redis u now (done args) x').1 e new old.1
              (omega (arith, back, h)),
        )
