-- ===== src/Graph/Tests.antt =====
-- The graph module at concrete inputs.
use falcon_plus.Base.{ℕ, ◌≡◌, refl, inl, inr, true, false, none, some, List, [], ◌∷◌, arith}
use falcon_plus.Base.Int.{ℤ, pos}
use falcon_plus.Base.Text.{Text, codes}
use falcon_plus.Graph.Linked.{GraphItem, SafeLinkedList, pop_all, push_all}
use falcon_plus.Graph.Restore.{push_all-pop_all}
use falcon_plus.Graph.Store.{GraphItemMap, find, init_graph_items}
use falcon_plus.Graph.Runs.{
  Operation, set_list, remove_list, push_item, pop_items, run_all, after_all,
  init_graph_items-run_all,
}
use falcon_plus.Graph.Refines.{IsSized, Holds, init_graph_items-Holds}
use falcon_plus.Graph.Receive.{State, Env, handle_items}
use falcon_plus.Graph.Ordered.{IsOrdered, KeepsOrder, handle_items-KeepsOrder}
use falcon_plus.Base.Float.{fixed_float}
use falcon_plus.Base.Dict.{get}
use falcon_plus.Utils.Tags.{counter}
use falcon_plus.Graph.Index.{
  Index, Tables, checksum, receive_item, update_index_incr, get_counter_from_cache,
  get_type_and_step,
}
use falcon_plus.Graph.Indexed.{get_type_and_step-received}
use falcon_plus.Graph.Cached.{get_counter_from_cache-again}
use falcon_plus.Graph.Query.{RrdData, Sources, merge}
use falcon_plus.Graph.Ranged.{datum_of}
use falcon_plus.Graph.Formatted.{Answers}
use falcon_plus.Graph.Fresh.{merge-Fresh}

abbrev load : ℕ → GraphItem ℤ
load time = record {
  endpoint = codes "web1";
  metric = codes "load";
  tags = [];
  value = pos 2;
  timestamp = pos time;
  ds_type = codes "GAUGE";
  step = pos 60;
  heartbeat = pos 120;
  min = codes "U";
  max = codes "U";
}

abbrev waiting : SafeLinkedList ℤ
waiting = record { flag = 0; l = load 120 ∷ load 60 ∷ [] }

-- A hash that looks at the first byte of a key.
abbrev first_code : Text → ℕ
first_code [] = 0
first_code (c ∷ _) = c

abbrev empty : GraphItemMap ℤ
empty = init_graph_items 2

push_all-pop_all_example :
    (items : List (GraphItem ℤ)) × (pop_all waiting ≡ some (items, record { flag = 0; l = [] }))
    × (push_all items (record { flag = 0; l = load 180 ∷ [] })
        ≡ some (record { flag = 0; l = load 180 ∷ load 120 ∷ load 60 ∷ [] }))
push_all-pop_all_example = push_all-pop_all waiting (load 180 ∷ [])

abbrev day : List (Operation ℤ)
day =
    push_item (codes "k1") (load 60) true
    ∷ push_item (codes "k1") (load 120) false
    ∷ set_list (codes "k2") waiting
    ∷ pop_items (codes "k1")
    ∷ remove_list (codes "k3")
    ∷ []

empty-Holds : IsSized empty × Holds first_code empty (λ _. none)
empty-Holds = init_graph_items-Holds first_code 2 (omega arith)

init_graph_items-run_all_example :
    (this : GraphItemMap ℤ) × (run_all first_code day (init_graph_items 1800) ≡ some this)
    × ((key : Text) → find first_code key this ≡ some (after_all day (λ _. none) key))
init_graph_items-run_all_example = init_graph_items-run_all first_code 1800 day (omega arith)

abbrev site : Env ℤ
site = record {
  hash_key = first_code;
  md5 = λ raw. raw;
  runes = λ str. str;
  is_print = λ rune. true;
  push_front_violently = λ n item l. item ∷ l;
  rrd_missing = λ checksum ds_type step. false;
}

abbrev started : State ℤ
started = record { graph_items = empty; history = []; received = [] }

started-IsOrdered : IsOrdered site started
started-IsOrdered = record {
  sized = empty-Holds.0;
  lists = ((λ _. none), empty-Holds.1, λ key. tt);
}

handle_items-KeepsOrder_example :
    KeepsOrder site
      (handle_items site (some (load 60) ∷ none ∷ some (load 60) ∷ some (load 120) ∷ []) started)
handle_items-KeepsOrder_example =
    handle_items-KeepsOrder site (some (load 60) ∷ none ∷ some (load 60) ∷ some (load 120) ∷ [])
      started started-IsOrdered

-- A database with one endpoint and one counter of it.
abbrev tables : Tables
tables = record {
  md5 = λ raw. raw;
  endpoint_id = λ endpoint. some (pos 3);
  type_and_step = λ id counter. some (codes "GAUGE", pos 60);
  is_rrd_file_exist = λ uuid ds_type step. true;
}

abbrev no_index : Index ℤ
no_index = record { indexed = []; un_indexed = []; endpoints = []; counters = [] }

get_type_and_step-received_example :
    get_type_and_step tables (codes "web1") (counter (codes "load") []) (
      update_index_incr tables
        (receive_item tables (some (load 60)) (checksum tables (load 60)) no_index))
    ≡ some (
      some (codes "GAUGE", pos 60),
      update_index_incr tables
          (receive_item tables (some (load 60)) (checksum tables (load 60)) no_index),
    )
unfolding get
get_type_and_step-received_example = get_type_and_step-received tables (load 60) no_index refl refl

get_counter_from_cache-again_example :
    (x' : Index ℤ) × (get_counter_from_cache tables (pos 3) (codes "load") no_index
      ≡ some (some (codes "GAUGE", pos 60), x'))
    × (get_counter_from_cache tables (pos 3) (codes "load") x'
        ≡ some (some (codes "GAUGE", pos 60), x'))
unfolding get
get_counter_from_cache-again_example =
    get_counter_from_cache-again tables (pos 3) (codes "load") (codes "GAUGE") 60 no_index
      (
        (λ e. omega arith),
        ((λ e. omega arith), ((λ e. omega arith), ((λ e. omega arith), ((λ e. omega arith), tt)))),
      )
      (omega arith) refl refl

-- A disk with one archived point of each counter.
abbrev disk : Sources ℤ
disk = record {
  nan = pos 0;
  is_nan = λ value. false;
  hash_key = first_code;
  storage = codes "/data";
  fetch_rrd = λ filename md5 cf start end step. record { timestamp = start; value = pos 1 } ∷ [];
  migrate_enabled = false;
  remote = λ param. [];
}

abbrev archived : List (RrdData ℤ)
archived = record { timestamp = pos 0; value = pos 1 } ∷ []

merge-Fresh_example :
    Answers disk 0 120 60
      (datum_of (load 120))
      (merge disk (codes "GAUGE") (pos 0) (pos 120) (pos 60) (load 60) (load 120 ∷ []) archived)
merge-Fresh_example =
    merge-Fresh disk 60 0 120 60 1 120 (load 60) (load 120) (load 120) (load 120 ∷ []) archived
      (omega arith) (omega arith) (omega arith) (omega arith) (inr (omega arith)) refl (0, refl, tt)
      refl refl (refl, tt) (inr (inl refl)) refl refl
