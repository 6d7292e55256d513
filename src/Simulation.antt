-- ===== src/Simulation.antt =====
-- dashboard/frontend/src/services/simulation.ts: the injection of failures and the recovery of
-- nodes. A timer fires at its due time, in the order of the due times and, at one time, of the
-- `setTimeout` calls. Requests to the backend are fire-and-forget: they are the list `requests`.
pub mod Outcomes
use lsmkv_enterprise.Common.{
  ℕ, suc, ◌+◌, ◌*◌, Bool, true, false, Option, none, some, List, [], ◌∷◌, ◌++◌, map, Text, text,
  decimal, leb, ltb, ◌==◌, nat_eq, if◌then◌else◌,
}
use lsmkv_enterprise.Failure.{
  NodeState, healthy, suspect, unreachable, recovering, rebalancing, FailureType, node_crash,
  heartbeat_timeout, disk_full, high_cpu, high_latency, network_partition, wal_corruption,
  sstable_corruption, readonly_disk, NodeFailure, ClusterEventType, node_state_changed,
  failure_injected, node_recovered, partition_created, partition_healed, rebalance_started,
  rebalance_completed, ClusterEvent, NodeRuntimeState, NetworkPartition, failure_labels,
}
use lsmkv_enterprise.EventBus.{Bus, emit}

unfoldable pub node_name : ℕ → Text
node_name id = text "node" ++ decimal id

-- Milliseconds, in the tenths of `NodeRuntimeState`.
abbrev pub ms : ℕ → ℕ
ms n = 10 * n

pub record FailureBehavior : Type 0 where
  pub final_state : NodeState
  pub lag_ms : ℕ
  pub cpu_boost : ℕ
  pub crash_after_ms : Option ℕ
  pub rebalance_after_ms : Option ℕ

abbrev hard : ℕ → ℕ → FailureBehavior
hard crash rebalance = record {
  final_state = unreachable;
  lag_ms = ms 9999;
  cpu_boost = 0;
  crash_after_ms = some crash;
  rebalance_after_ms = some rebalance;
}

abbrev soft : ℕ → ℕ → FailureBehavior
soft lag cpu = record {
  final_state = suspect;
  lag_ms = ms lag;
  cpu_boost = cpu;
  crash_after_ms = none;
  rebalance_after_ms = none;
}

abbrev pub failure_behaviors : FailureType → FailureBehavior
failure_behaviors node_crash = hard 2000 5000
failure_behaviors heartbeat_timeout = hard 2500 6000
failure_behaviors disk_full = hard 3000 6500
failure_behaviors wal_corruption = hard 2000 5000
failure_behaviors high_cpu = soft 120 55
failure_behaviors high_latency = soft 350 10
failure_behaviors sstable_corruption = soft 200 25
failure_behaviors readonly_disk = soft 80 5
failure_behaviors network_partition = soft 500 0

-- `BACKEND_FAILURE_MAP`; a type that it lacks is not sent.
unfoldable pub backend_failure_map : FailureType → Option Text
backend_failure_map node_crash = some (text "crash")
backend_failure_map heartbeat_timeout = some (text "heartbeat_timeout")
backend_failure_map high_latency = some (text "high_latency")
backend_failure_map high_cpu = some (text "high_cpu")
backend_failure_map _ = none

pub data Request : Type 0 where
  inject : ℕ → Text → Request
  recover : ℕ → Request
  partition heal : ℕ → ℕ → Request

-- The callbacks that are given to `setTimeout`.
pub data Action : Type 0 where
  crashes : ℕ → FailureType → Action
  rebalances rejoins : ℕ → Action

pub record Timer : Type 0 where
  pub due : ℕ
  pub action : Action

pub record World : Type 0 where
  pub nodes : List NodeRuntimeState
  pub bus : Bus
  pub timers : List Timer  -- by due time
  pub requests : List Request

unfoldable pub update_node :
    ℕ → (NodeRuntimeState → NodeRuntimeState) → List NodeRuntimeState → List NodeRuntimeState
update_node node_id patch prev = map (λ n. if n.id == node_id then patch n else n) prev

-- After the timers that are due no later.
unfoldable pub enqueue : Timer → List Timer → List Timer
enqueue t [] = t ∷ []
enqueue t (u ∷ us) = if leb u.due t.due then u ∷ enqueue t us else t ∷ u ∷ us

abbrev pub set_timeout : ℕ → Option ℕ → Action → List Timer → List Timer
set_timeout now none action ts = ts
set_timeout now (some delay) action ts = enqueue (record { due = now + delay; action = action }) ts

abbrev event :
    ClusterEventType → ℕ → Option NodeState → Option NodeFailure → Text → ℕ → ClusterEvent
event type node_id state failure message now = record {
  type = type;
  node_id = some node_id;
  node_state = state;
  failure = failure;
  partition = none;
  message = message;
  timestamp = now;
}

unfoldable pub inject_backend : ℕ → FailureType → List Request → List Request
inject_backend node_id type rs = elim (backend_failure_map type) [
  | none ↦ rs
  | some name ↦ rs ++ inject node_id name ∷ []
]

abbrev pub suspected : NodeFailure → FailureBehavior → NodeRuntimeState → NodeRuntimeState
suspected failure behavior n = record n {
  state = suspect;
  active_failure = some failure;
  lag_ms = some behavior.lag_ms;
  cpu_boost = some behavior.cpu_boost;
}

abbrev pub failure_of : ℕ → ℕ → FailureType → NodeFailure
failure_of now node_id type = record {
  node_id = node_id;
  type = type;
  started_at = now;
  label = failure_labels type;
}

unfoldable pub inject_failure : ℕ → ℕ → FailureType → World → World
inject_failure now node_id type w =
    let name = node_name node_id in
    let label = failure_labels type in
    let behavior = failure_behaviors type in
    let failure = failure_of now node_id type in
    record w {
      requests = inject_backend node_id type w.requests;
      nodes = update_node node_id (suspected failure behavior) w.nodes;
      bus =
          emit now
            (event node_state_changed node_id (some suspect) none
              (name ++ (text " entering SUSPECT state — " ++ (label ++ text " detected"))) now)
            (emit now
              (event failure_injected node_id none (some failure)
                (text "[FAULT INJECTED] " ++ (name ++ (text ": " ++ label))) now)
              w.bus);
      timers =
          set_timeout now behavior.rebalance_after_ms (rebalances node_id)
            (set_timeout now behavior.crash_after_ms (crashes node_id type) w.timers);
    }

abbrev pub crashed : NodeRuntimeState → NodeRuntimeState
crashed n = record n { state = unreachable; lag_ms = some (ms 9999); cpu_boost = some 0 }

abbrev pub moved : NodeRuntimeState → NodeRuntimeState
moved n = record n { state = rebalancing }

abbrev pub returning : NodeRuntimeState → NodeRuntimeState
returning n = record n {
  state = recovering;
  lag_ms = some (ms 120);
  cpu_boost = some 0;
  active_failure = none;
}

-- `lagMs: 1 + nodeId * 0.8`.
abbrev pub rejoined : ℕ → NodeRuntimeState → NodeRuntimeState
rejoined node_id n = record n {
  state = healthy;
  lag_ms = some (ms 1 + 8 * node_id);
  cpu_boost = some 0;
}

unfoldable pub recover_node : ℕ → ℕ → World → World
recover_node now node_id w = record w {
  requests = w.requests ++ recover node_id ∷ [];
  nodes = update_node node_id returning w.nodes;
  bus =
      emit now
        (event node_recovered node_id (some recovering) none
          (node_name node_id ++ text " recovering — rejoining cluster") now)
        w.bus;
  timers = set_timeout now (some 3500) (rejoins node_id) w.timers;
}

-- A callback, at its due time.
unfoldable pub run_action : ℕ → Action → World → World
run_action now (crashes node_id type) w = record w {
  nodes = update_node node_id crashed w.nodes;
  bus =
      emit now
        (event node_state_changed node_id (some unreachable) none
          (node_name node_id
            ++ (text " UNREACHABLE — "
                ++ (failure_labels type ++ text " caused node to stop responding")))
          now)
        w.bus;
}
run_action now (rebalances node_id) w = record w {
  nodes = update_node node_id moved w.nodes;
  bus =
      emit now
        (event rebalance_started node_id none none
          (text "Rebalancing started — redistributing keys from " ++ node_name node_id) now)
        w.bus;
}
run_action now (rejoins node_id) w = record w {
  nodes = update_node node_id (rejoined node_id) w.nodes;
  bus =
      emit now
        (event rebalance_completed node_id none none
          (text "Rebalancing complete — " ++ (node_name node_id ++ text " integrated")) now)
        (emit now
          (event node_state_changed node_id (some healthy) none
            (node_name node_id ++ text " HEALTHY — fully rejoined the cluster") now)
          w.bus);
}

-- The timers that are due by `until` fire, in order; the rest stay.
unfoldable pub fire_timers : ℕ → List Timer → World → World
fire_timers until [] w = record w { timers = [] }
fire_timers until (t ∷ ts) w =
    let fired = fire_timers until ts (run_action t.due t.action w) in
    if leb t.due until then fired else record w { timers = t ∷ ts }

unfoldable pub advance : ℕ → World → World
advance until w = fire_timers until w.timers w

abbrev link_event : ClusterEventType → Text → ℕ → ClusterEvent
link_event type message now = record {
  type = type;
  node_id = none;
  node_state = none;
  failure = none;
  partition = none;
  message = message;
  timestamp = now;
}

unfoldable pub create_partition : ℕ → ℕ → ℕ → World → World × NetworkPartition
create_partition now from to w = (
  record w {
    bus =
        emit now
          (link_event partition_created
            (text "Network partition: "
              ++ (node_name from ++ (text " ✕ " ++ (node_name to ++ text " — packets dropping"))))
            now)
          w.bus;
    requests = w.requests ++ partition from to ∷ [];
  },
  record { from = from; to = to; started_at = now },
)

unfoldable pub heal_partition : ℕ → ℕ → ℕ → World → World
heal_partition now from to w = record w {
  bus =
      emit now
        (link_event partition_healed
          (text "Partition healed: "
            ++ (node_name from ++ (text " ↔ " ++ (node_name to ++ text " — link restored"))))
          now)
        w.bus;
  requests = w.requests ++ heal from to ∷ [];
}
