-- ===== src/Nodata/Tests.antt =====
-- The judge of nodata at concrete inputs.
use falcon_plus.Base.{◌≢◌, refl, ap, ℕ, [], ◌∷◌, arith}
use falcon_plus.Base.Int.{ℤ, pos}
use falcon_plus.Base.Text.{Text, codes, eq_text}
use falcon_plus.Base.Dict.{get}
use falcon_plus.Base.Float.{fixed_float}
use falcon_plus.Nodata.Status.{NodataConfig, DataItem, get_first_item}
use falcon_plus.Nodata.Judge.{State, Env, judge_key}
use falcon_plus.Nodata.Decision.{Decided, judge_key_lem}

abbrev alive_config : NodataConfig ℤ
alive_config = record {
  id = pos 1;
  name = codes "agent.alive";
  obj_type = codes "host";
  endpoint = codes "web1";
  metric = codes "agent.alive";
  tags = [];
  ds_type = codes "GAUGE";
  step = pos 60;
  mock = pos 0;
}

abbrev last_seen : DataItem ℤ
last_seen = record { ts = pos 5400; value = pos 1000000; f_status = codes "OK"; f_ts = pos 5990 }

abbrev site : Env ℤ
site = record {
  configs = (codes "web1/agent.alive", alive_config) ∷ [];
  items = (codes "web1/agent.alive", last_seen ∷ []) ∷ [];
}

abbrev unknown : State ℤ
unknown = record { status_map = []; mock_map = [] }

judge_key_lem_example :
    Decided
      (pos 6000)
      (codes "web1/agent.alive")
      alive_config
      last_seen
      unknown
      (judge_key site (pos 6000) (codes "web1/agent.alive") unknown)
unfolding get get_first_item eq_text
judge_key_lem_example =
    judge_key_lem (pos 6000) (codes "web1/agent.alive") site alive_config last_seen unknown refl
      refl

abbrev first_code : Text → ℕ
first_code [] = 0
first_code (c ∷ _) = c

differ : codes "web1/agent.alive" ≢ codes "db1/agent.alive"
differ e = omega (arith, ap first_code e)
