-- ===== src/Hbs/Tests.antt =====
-- Templates and strategies at concrete inputs.
use falcon_plus.Base.{
  ◌≡◌, refl, ◌≤◌, ◌<◌, ◌⊎◌, false, Option, some, List, [], ◌∷◌, length, All, if◌then◌else◌, arith,
}
use mathlib.Core.List.{reverse}
use falcon_plus.Base.Int.{ℤ, pos}
use falcon_plus.Base.Text.{Text, codes, eq_text, eq_text_iff}
use falcon_plus.Base.Dict.{Dict, get, put, int_eq, text_eq}
use falcon_plus.Base.Float.{fixed_float}
use falcon_plus.Judge.Model.{Strategy}
use falcon_plus.Hbs.Templates.{Template, parent_ids}
use falcon_plus.Hbs.Inherit.{Owned, uuid, bucket_stras_map, tpl2_strategies, get_strategies}
use falcon_plus.Hbs.Chains.{IsChain, parent_ids-IsChain}
use falcon_plus.Hbs.Overrides.{HasPlainMetric, youngest, bucket_stras_map-youngest}
use falcon_plus.Hbs.Strategies.{Answers, get_strategies-Answers}
use falcon_plus.Hbs.Agents.{AgentReportRequest, Redis, Upgrade, Fleet}
use falcon_plus.Hbs.Upgrades.{KeepsSet, reports, reports-within, turns, turns_sent}
use falcon_plus.Hbs.One.{get_strategies_one}
use falcon_plus.Hbs.Single.{IsOne, get_strategies_one-IsOne}

abbrev base : Template
base = record {
  id = pos 1;
  name = codes "base";
  parent_id = pos 0;
  action_id = pos 0;
  creator = codes "root";
}

abbrev web : Template
web = record base { id = pos 2; name = codes "web"; parent_id = pos 1 }

abbrev templates : Dict ℤ Template
templates = (pos 1, base) ∷ (pos 2, web) ∷ []

abbrev low_idle : Strategy ℤ
low_idle = record {
  id = pos 7;
  metric = codes "cpu.idle";
  tags = [];
  func = codes "all(#2)";
  operator = codes "<";
  right_value = pos 10;
  max_step = pos 3;
  priority = pos 1;
  note = codes "idle";
  union_strategy_id = pos 0;
}

abbrev strategies : Dict ℤ (Option (Owned ℤ))
strategies =
    (pos 7, some (low_idle, some base))
    ∷ (pos 8, some (record low_idle { id = pos 8 }, some web))
    ∷ []

parent_ids-IsChain_example :
    ((ids : List ℤ) × IsChain templates (pos 2) ids
      × (length ids < 10)
      × (parent_ids templates (pos 2) ≡ reverse ids))
    ⊎ (((ids : List ℤ) → IsChain templates (pos 2) ids → 10 ≤ length ids)
        × (parent_ids templates (pos 2) ≡ []))
parent_ids-IsChain_example = parent_ids-IsChain templates (pos 2)

idle-HasPlainMetric : HasPlainMetric (low_idle, some base)
idle-HasPlainMetric = (
  ground arith,
  (
    ground arith,
    (
      ground arith,
      (ground arith, (ground arith, (ground arith, (ground arith, (ground arith, tt))))),
    ),
  ),
)

bucket_stras_map-youngest_example :
    get
      (uuid (low_idle, some base))
      (bucket_stras_map (tpl2_strategies strategies) (pos 1 ∷ pos 2 ∷ []) [])
    ≡ youngest (tpl2_strategies strategies) (low_idle, some base) (pos 1 ∷ pos 2 ∷ [])
unfolding tpl2_strategies get put falcon_plus.Hbs.Inherit.tpl2_loop
bucket_stras_map-youngest_example =
    bucket_stras_map-youngest (tpl2_strategies strategies) (low_idle, some base)
      (pos 1 ∷ pos 2 ∷ []) idle-HasPlainMetric
      ((idle-HasPlainMetric, tt), ((idle-HasPlainMetric, tt), tt))

get_strategies-Answers_example :
    Answers
      (get_strategies ((pos 5, pos 2 ∷ []) ∷ []) ((pos 5, codes "web1") ∷ []) templates strategies)
get_strategies-Answers_example =
    get_strategies-Answers ((pos 5, pos 2 ∷ []) ∷ []) ((pos 5, codes "web1") ∷ []) templates
      strategies

get_strategies_one-IsOne_example :
    IsOne
      (codes "web1")
      ((pos 5, codes "web1") ∷ [])
      templates
      (tpl2_strategies strategies)
      ((pos 5, pos 2 ∷ []) ∷ [])
      (get_strategies_one
        (codes "web1")
        ((pos 5, pos 2 ∷ []) ∷ [])
        ((pos 5, codes "web1") ∷ [])
        templates
        strategies)
get_strategies_one-IsOne_example =
    get_strategies_one-IsOne (codes "web1") ((pos 5, pos 2 ∷ []) ∷ []) ((pos 5, codes "web1") ∷ [])
      (pos 1, base) ((pos 2, web) ∷ []) (pos 7, some (low_idle, some base))
      ((pos 8, some (record low_idle { id = pos 8 }, some web)) ∷ [])

-- A set of hosts as a list.
abbrev without : Text → List Text → List Text
without host [] = []
without host (h ∷ hosts) =
    let rest = without host hosts in if eq_text h host then rest else h ∷ rest

abbrev listed_set : Redis (List Text)
listed_set = record {
  scard = λ hosts. some (length hosts);
  sadd = λ host hosts. some (host ∷ without host hosts);
  srem = without;
  expire = λ hosts. hosts;
}

length-without : (host : Text) (hosts : List Text) → length (without host hosts) ≤ length hosts
length-without host [] = omega arith
length-without host (h ∷ hosts) = ground (arith, length-without host hosts)

without_self :
    (host : Text) (hosts : List Text)
    → length (without host (host ∷ without host hosts)) ≤ length hosts
without_self host hosts =
    rw ((eq_text_iff host host).1 refl)
      (omega (arith, length-without host (without host hosts), length-without host hosts))

listed_set-KeepsSet : KeepsSet listed_set length
listed_set-KeepsSet = record {
  scard-size = λ s. refl;
  sadd-size = λ host s.
      (host ∷ without host s, refl, omega (arith, length-without host s), without_self host s);
  srem-size = length-without;
  expire-size = λ s. omega arith;
}

abbrev next_version : Upgrade
next_version = record {
  args = record {
    type = pos 2;
    wget_url = codes "http://get";
    version = codes "2.0";
    bin_file_md5 = codes "b";
    cfg_file_md5 = codes "c";
  };
  queue_length = pos 1;
}

abbrev no_agents : Fleet (List Text)
no_agents = record { version_map = []; agents = []; inserted = []; upgrade_set = [] }

abbrev report_of : Text → AgentReportRequest
report_of host = record {
  hostname = host;
  ip = codes "10.0.0.1";
  agent_version = codes "1.0";
  plugin_version = [];
  in_upgrading = false;
}

abbrev two_reports : List (ℤ × AgentReportRequest)
two_reports = (pos 60, report_of (codes "web1")) ∷ (pos 61, report_of (codes "web2")) ∷ []

reports-within_example :
    length (reports listed_set next_version two_reports no_agents).upgrade_set ≤ 1
reports-within_example =
    reports-within listed_set next_version length listed_set-KeepsSet 1 two_reports no_agents refl
      (omega arith)

turns_sent_example :
    All (λ r. r.args ≡ some next_version.args) (turns listed_set next_version two_reports no_agents)
unfolding eq_text
turns_sent_example =
    turns_sent listed_set next_version length listed_set-KeepsSet 1 two_reports no_agents refl refl
      ((refl, refl, refl), ((refl, refl, refl), tt)) (omega arith)
