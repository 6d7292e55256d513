-- ===== src/Screens/Overview.antt =====
-- pages/Dashboard.tsx: the first page. The code after an `await` is a step of its own. The texts of
-- the page leave out their leading symbols, and the time of an event is an argument. Starting and
-- stopping an operation is Background's; here is what the page itself records of it.
pub mod Shown
pub mod Flashing
use lsmkv_enterprise.Common.{
  ℕ, zero, suc, ◌+◌, ◌-◌, ◌*◌, ◌/◌, ◌%◌, Bool, true, false, ◌&&◌, ◌||◌, not, Option, none, some,
  List, [], ◌∷◌, ◌++◌, Text, text, decimal, ◌==◌, nat_eq, text_eq, ltb, if◌then◌else◌, length,
  filter, take, trim,
}
use lsmkv_enterprise.Failure.{
  NodeState, healthy, suspect, unreachable, recovering, rebalancing, NodeRuntimeState, ClusterEvent,
  failure_injected,
}
use lsmkv_enterprise.Background.{LoadParams}
use lsmkv_enterprise.JsMap.{JsMap, JsSet}
use lsmkv_enterprise.JsMap

pub data EventLevel : Type 0 where
  ok warn err : EventLevel

pub record RecentEvent : Type 0 where
  pub time : Text
  pub msg : Text
  pub level : EventLevel

pub data LoadPreset : Type 0 where
  light medium heavy custom : LoadPreset

unfoldable pub load_preset : LoadPreset → LoadParams → LoadParams
load_preset light own = record { writes = 25; reads = 25; deletes = 10; parallelism = 3 }
load_preset medium own = record { writes = 100; reads = 100; deletes = 40; parallelism = 5 }
load_preset heavy own = record { writes = 300; reads = 300; deletes = 100; parallelism = 10 }
load_preset custom own = own

unfoldable pub fmt_uptime : ℕ → Text
fmt_uptime s =
    let h = s / 3600 in
    let m = (s % 3600) / 60 in
    let sec = s % 60 in decimal h ++ text "h " ++ decimal m ++ text "m " ++ decimal sec ++ text "s"

pub record Overview : Type 0 where
  pub uptime : ℕ
  pub events : List RecentEvent
  pub key_input : Text
  pub value_input : Text
  pub key_result : Option Text
  pub key_error : Option Text
  pub key_loading : Bool
  pub preset : LoadPreset
  pub own_params : LoadParams  -- `custom`
  pub prev_states : JsMap ℕ NodeState
  pub flash_ids : JsSet
  pub refreshes : ℕ  -- the calls of `triggerRefresh`

abbrev first_event : Text → RecentEvent
first_event msg = record { time = text "—"; msg = msg; level = ok }

abbrev pub opened_overview : Overview
opened_overview = record {
  uptime = 0;
  events = first_event (text "Cluster started") ∷ first_event (text "Replication in sync") ∷ [];
  key_input = [];
  value_input = [];
  key_result = none;
  key_error = none;
  key_loading = false;
  preset = medium;
  own_params = record { writes = 50; reads = 50; deletes = 10; parallelism = 5 };
  prev_states = [];
  flash_ids = [];
  refreshes = 0;
}

unfoldable pub push_event : Text → Text → EventLevel → Overview → Overview
push_event time msg level p = record p {
  events = record { time = time; msg = msg; level = level } ∷ take 11 p.events;
}

unfoldable pub event_level_of : ClusterEvent → EventLevel
event_level_of ev = elim ev.type [
  | failure_injected ↦ err
  | _ ↦ elim ev.node_state [
    | some unreachable ↦ err
    | some suspect ↦ warn
    | some rebalancing ↦ warn
    | _ ↦ ok
  ]
]

unfoldable pub show_event : Text → ClusterEvent → Overview → Overview
show_event time ev p = push_event time ev.message (event_level_of ev) p

abbrev triggered : Overview → Overview
triggered p = record p { refreshes = suc p.refreshes }

-- Before and after `await startLoadGeneration(params)`.
unfoldable pub load_begun : Text → Overview → Overview
load_begun time p =
    let params = load_preset p.preset p.own_params in
    push_event time
      (text "Load started — "
        ++ decimal params.writes
        ++ text "W + "
        ++ decimal params.reads
        ++ text "R + "
        ++ decimal params.deletes
        ++ text "D")
      ok p

unfoldable pub load_ended : Overview → Overview
load_ended p = triggered p

-- What a control adds to the events when its operation has ended, on `count` nodes.
pub data Control : Type 0 where
  stop_load add_node remove_node flush compact : Control
  snapshot : Text → Control

unfoldable pub control_ended : Text → ℕ → Control → Overview → Overview
control_ended time count stop_load p = push_event time (text "Load generation stopped") warn p
control_ended time count add_node p =
    push_event time (text "Node added: node" ++ decimal count) ok p
control_ended time count remove_node p =
    push_event time (text "Node removed: node" ++ decimal (count - 1)) warn p
control_ended time count flush p = push_event time (text "MemTable flush triggered") ok p
control_ended time count compact p = push_event time (text "Compaction triggered") ok p
control_ended time count (snapshot name) p =
    push_event time (text "Snapshot created: " ++ name) ok p

-- The reply to a request about a key: the key and value of the backend, or an exception's message.
pub data KeyReply : Type 0 where
  replied : Text → Text → KeyReply
  failed_with : Text → KeyReply

pub data KeyAction : Type 0 where
  set_key get_key delete_key : KeyAction

abbrev is_blank : Text → Bool
is_blank [] = true
is_blank (c ∷ s) = false

-- The guard of each handler.
unfoldable pub may_start : KeyAction → Overview → Bool
may_start set_key p = not (is_blank (trim p.key_input) || is_blank (trim p.value_input))
may_start get_key p = not (is_blank (trim p.key_input))
may_start delete_key p = not (is_blank (trim p.key_input))

-- A handler up to its `await`.
unfoldable pub key_begun : KeyAction → Overview → Overview
key_begun a p =
    if may_start a p
    then record p { key_loading = true; key_error = none; key_result = none }
    else p

abbrev in_quotes : Text → Text
in_quotes s = text "\"" ++ s ++ text "\""

abbrev key_caught : Text → Overview → Overview
key_caught message p = record p { key_error = some message; key_loading = false }

-- A handler after its `await`, with its `finally`. `seen` is the key's input when it was called.
unfoldable pub key_replied : Text → KeyAction → Text → KeyReply → Overview → Overview
key_replied time a seen (failed_with message) p = key_caught message p
key_replied time set_key seen (replied key value) p =
    let q = push_event time (text "SET " ++ key) ok (record p {
      key_result = some (text "Stored: " ++ in_quotes key ++ text " = " ++ in_quotes value);
    }) in
    record q { key_input = []; value_input = []; key_loading = false; refreshes = suc q.refreshes }
key_replied time get_key seen (replied key value) p =
    let q =
      push_event time (text "GET " ++ key ++ text " → " ++ value) ok
        (record p { key_result = some (in_quotes key ++ text " = " ++ in_quotes value) }) in
    record q { key_loading = false }
key_replied time delete_key seen (replied key value) p =
    let q =
      push_event time (text "DEL " ++ trim seen) warn
        (record p { key_result = some (text "Deleted: " ++ in_quotes (trim seen)) }) in
    record q { key_input = []; key_loading = false; refreshes = suc q.refreshes }

unfoldable pub uptime_tick : Overview → Overview
uptime_tick p = record p { uptime = suc p.uptime }

unfoldable pub uptime_synced : Option ℕ → Overview → Overview
uptime_synced none p = p
uptime_synced (some seconds) p = record p { uptime = seconds }

abbrev state_code : NodeState → ℕ
state_code healthy = 0
state_code suspect = 1
state_code unreachable = 2
state_code recovering = 3
state_code rebalancing = 4

abbrev pub changed : Option NodeState → NodeState → Bool
changed none state = false
changed (some prev) state = not (state_code prev == state_code state)

-- The loop of the effect on the nodes, with the ids found so far.
unfoldable pub flash_loop :
    List NodeRuntimeState → JsMap ℕ NodeState → JsSet → JsMap ℕ NodeState × JsSet
flash_loop [] prev flashing = (prev, flashing)
flash_loop (n ∷ ns) prev flashing =
    flash_loop ns (JsMap.set n.id n.state prev)
      (if changed (JsMap.get n.id prev) n.state then JsMap.add n.id flashing else flashing)

abbrev pub or_same : JsSet → JsSet → JsSet
or_same old [] = old
or_same old (id ∷ ids) = id ∷ ids

unfoldable pub flash_effect : List NodeRuntimeState → Overview → Overview
flash_effect nodes p =
    let (prev, flashing) = flash_loop nodes p.prev_states [] in
    record p { prev_states = prev; flash_ids = or_same p.flash_ids flashing }

unfoldable pub flash_over : Overview → Overview
flash_over p = record p { flash_ids = [] }

pub data OverallStatus : Type 0 where
  all_healthy suspected degraded : OverallStatus

abbrev pub is_up : NodeRuntimeState → Bool
is_up n = elim n.state [ healthy ↦ true | _ ↦ false ]

abbrev pub is_down : NodeRuntimeState → Bool
is_down n = elim n.state [ unreachable ↦ true | _ ↦ false ]

unfoldable pub cluster_status : List NodeRuntimeState → OverallStatus
cluster_status nodes =
    let healthy_count = length (filter is_up nodes) in
    let down_count = length (filter is_down nodes) in
    if ltb 0 down_count
    then degraded
    else (if ltb healthy_count (length nodes) then suspected else all_healthy)
