-- ===== src/Context.antt =====
-- dashboard/frontend/src/context/ClusterContext.tsx: the nodes and partitions of the dashboard,
-- and the replay of their history. A callback closes over the state of the last render: that is
-- the argument `seen`, and it may be older than the state that the callback changes.
pub mod Numbering
pub mod Partitions
pub mod Replay
use lsmkv_enterprise.Common.{
  ℕ, zero, suc, ◌+◌, ◌-◌, ◌*◌, Bool, true, false, ◌&&◌, ◌||◌, not, Option, none, some, List, [],
  ◌∷◌, ◌++◌, Text, text, decimal, ℤ, pos, negsuc, ◌==◌, nat_eq, ltb, leb, min, if◌then◌else◌,
  length, get_elem?, take, slice_last, drop_last, filter, any,
}
use lsmkv_enterprise.Failure.{NodeState, healthy, FailureType, NodeRuntimeState, NetworkPartition}
use lsmkv_enterprise.EventBus.{empty}
use lsmkv_enterprise.Simulation.{
  World, node_name, ms, inject_failure, recover_node, create_partition, heal_partition,
}

pub record ClusterSnapshot : Type 0 where
  pub time : ℕ
  pub nodes : List NodeRuntimeState
  pub partitions : List NetworkPartition
  pub label : Text

-- The posts of `addNode` and `removeNode`, with the address.
pub data Post : Type 0 where
  add removal : Text → Post

pub record Cluster : Type 0 where
  pub world : World  -- the nodes, the event bus, the timers and the requests
  pub partitions : List NetworkPartition
  pub history : List ClusterSnapshot
  pub replay_mode : Bool
  pub replay_index : Option ℕ
  pub replay_snapshot : Option ClusterSnapshot
  pub posts : List Post

abbrev pub max_history : ℕ
max_history = 200

unfoldable pub record_snapshot : ℕ → Text → Cluster → Cluster → Cluster
record_snapshot now label seen c =
    let snap : ClusterSnapshot = record {
      time = now;
      nodes = seen.world.nodes;
      partitions = seen.partitions;
      label = label;
    } in
    let next = c.history ++ snap ∷ [] in
    record c {
      history = if ltb max_history (length next) then slice_last max_history next else next;
    }

unfoldable pub start_replay : ℕ → Cluster → Cluster
start_replay index c = record c { replay_mode = true; replay_index = some index }

unfoldable pub stop_replay : Cluster → Cluster
stop_replay c = record c { replay_mode = false; replay_index = none; replay_snapshot = none }

-- `Math.max(0, Math.min(count - 1, prev + delta))`, also for a count of 0.
abbrev pub clamp_index : ℕ → ℕ → ℤ → ℕ
clamp_index count prev (pos d) = min (count - 1) (prev + d)
clamp_index count prev (negsuc d) = min (count - 1) (prev - suc d)

unfoldable pub step_replay : ℤ → Cluster → Cluster
step_replay delta c = elim c.replay_index [
  | none ↦ c
  | some prev ↦
      let next = clamp_index (length c.history) prev delta in
      record c { replay_index = some next; replay_snapshot = get_elem? c.history next }
]

-- The effect that runs when the index, the mode or the history changed.
unfoldable pub replay_effect : Cluster → Cluster
replay_effect c = elim c.replay_index [
  | none ↦ c
  | some i ↦ if c.replay_mode then record c { replay_snapshot = get_elem? c.history i } else c
]

-- What the pages see: the snapshot while replaying, else the live state.
unfoldable pub effective_nodes : Cluster → List NodeRuntimeState
effective_nodes c = elim c.replay_snapshot [
  | none ↦ c.world.nodes
  | some snap ↦ if c.replay_mode then snap.nodes else c.world.nodes
]

unfoldable pub effective_partitions : Cluster → List NetworkPartition
effective_partitions c = elim c.replay_snapshot [
  | none ↦ c.partitions
  | some snap ↦ if c.replay_mode then snap.partitions else c.partitions
]

-- The literal that `addNode` and `syncNodes` push: `lagMs: 1 + newId * 0.8`.
abbrev pub new_node : ℕ → NodeRuntimeState
new_node id = record {
  id = id;
  name = node_name id;
  state = healthy;
  active_failure = none;
  lag_ms = some (ms 1 + 8 * id);
  cpu_boost = some 0;
}

-- What `ClusterProvider` starts from; its three literals are `new_node` of 0, 1 and 2.
abbrev pub initial_cluster : Cluster
initial_cluster = record {
  world = record {
    nodes = new_node 0 ∷ new_node 1 ∷ new_node 2 ∷ [];
    bus = empty;
    timers = [];
    requests = [];
  };
  partitions = [];
  history = [];
  replay_mode = false;
  replay_index = none;
  replay_snapshot = none;
  posts = [];
}

-- `while (newNodes.length < count) newNodes.push(…)`, on fuel.
unfoldable pub grow : ℕ → ℕ → List NodeRuntimeState → List NodeRuntimeState
grow zero count ns = ns
grow (suc fuel) count ns =
    let more = grow fuel count (ns ++ new_node (length ns) ∷ []) in
    if ltb (length ns) count then more else ns

-- The update that `syncNodes` makes for `count` backend nodes: `count` rounds are enough.
unfoldable pub sync_nodes : ℕ → List NodeRuntimeState → List NodeRuntimeState
sync_nodes count prev =
    let grown = grow count count prev in
    if length prev == count
    then prev
    else (if ltb count (length grown) then take count grown else grown)

abbrev pub with_nodes : List NodeRuntimeState → Cluster → Cluster
with_nodes ns c = let w : World = c.world in record c { world = record w { nodes = ns } }

unfoldable pub dispatch_failure : ℕ → ℕ → FailureType → Cluster → Cluster
dispatch_failure now node_id type c = record c { world = inject_failure now node_id type c.world }

unfoldable pub dispatch_recover : ℕ → ℕ → Cluster → Cluster
dispatch_recover now node_id c = record c { world = recover_node now node_id c.world }

abbrev pub is_healthy : NodeState → Bool
is_healthy healthy = true
is_healthy _ = false

unfoldable pub recover_each : ℕ → List NodeRuntimeState → World → World
recover_each now [] w = w
recover_each now (n ∷ ns) w =
    recover_each now ns (if is_healthy n.state then w else recover_node now n.id w)

unfoldable pub dispatch_recover_all : ℕ → Cluster → Cluster → Cluster
dispatch_recover_all now seen c = record c {
  world = recover_each now seen.world.nodes c.world;
  partitions = [];
}

-- The test that the callbacks share: the two ends, either way round.
abbrev pub joins : ℕ → ℕ → NetworkPartition → Bool
joins a b p = (p.from == a && p.to == b) || (p.from == b && p.to == a)

unfoldable pub is_partitioned : ℕ → ℕ → Cluster → Bool
is_partitioned a b c = any (joins a b) c.partitions

unfoldable pub dispatch_partition : ℕ → ℕ → ℕ → Cluster → Cluster → Cluster
dispatch_partition now from to seen c =
    if any (joins from to) seen.partitions
    then c
    else (let (w, p) = create_partition now from to c.world in
        record c { world = w; partitions = c.partitions ++ p ∷ [] })

unfoldable pub dispatch_heal_partition : ℕ → ℕ → ℕ → Cluster → Cluster
dispatch_heal_partition now from to c = record c {
  world = heal_partition now from to c.world;
  partitions = filter (λ p. not (joins from to p)) c.partitions;
}

-- `node${id}:700${id + 1}`.
unfoldable pub address : ℕ → Text
address id = text "node" ++ (decimal id ++ (text ":700" ++ decimal (id + 1)))

-- At most 6 nodes. The sync that `addNode` and `removeNode` schedule is a `sync_nodes` of its own.
unfoldable pub add_node : Cluster → Cluster → Cluster
add_node seen c =
    let new_id = length seen.world.nodes in
    let added = with_nodes (c.world.nodes ++ new_node new_id ∷ []) c in
    if leb 6 new_id then c else record added { posts = c.posts ++ add (address new_id) ∷ [] }

-- At least 3 nodes.
unfoldable pub remove_node : Cluster → Cluster → Cluster
remove_node seen c =
    let target_id = length seen.world.nodes - 1 in
    let kept =
      filter (λ (p : NetworkPartition). not (p.from == target_id) && not (p.to == target_id))
        c.partitions in
    let removed = with_nodes (drop_last c.world.nodes) c in
    if leb (length seen.world.nodes) 3
    then c
    else record removed { partitions = kept; posts = c.posts ++ removal (address target_id) ∷ [] }
