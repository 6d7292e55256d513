-- ===== src/Screens/StoragePage.antt =====
-- pages/Storage.tsx: the nodes that the page shows and its list of events. `_evId` is a field, and the
-- time of an event is an argument. Sizes are in ten-thousandths of a megabyte.
pub mod Nodes
use lsmkv_enterprise.Common.{
  ℕ, suc, ◌+◌, ◌-◌, min, Bool, true, false, Option, none, some, List, [], ◌∷◌, ◌++◌, map, Text,
  text, decimal, ◌==◌, nat_eq, ltb, if◌then◌else◌, length, get_elem?, take, find,
}
use lsmkv_enterprise.Failure.{NodeState, unreachable, NodeRuntimeState}
use lsmkv_enterprise.Api.{NodeStorage, SstableLevel, SnapshotRecord}
use lsmkv_enterprise.Sync.{NodeColor, node_colors}

pub data StorageEventType : Type 0 where
  flush_start flush_done compact_start compact_done snapshot : StorageEventType

pub record StorageEvent : Type 0 where
  pub id : ℕ
  pub ts : Text
  pub type : StorageEventType
  pub label : Text
  pub node : Text

pub record StoragePage : Type 0 where
  pub selected_node_id : ℕ
  pub events : List StorageEvent
  pub event_id : ℕ
  pub nodes : List NodeStorage
  pub prev_snap_count : ℕ
  pub refreshes : ℕ  -- the calls of `triggerRefresh`

abbrev empty_level : ℕ → SstableLevel
empty_level level = record { level = level; count = 0; size_mb = 0 }

unfoldable pub make_fallback_node : ℕ → NodeStorage
make_fallback_node id =
    let c = node_colors id in
    record {
      id = id;
      name = text "node" ++ decimal id;
      port = 7001 + id;
      color = c.color;
      hex = c.hex;
      key_count = none;
      memtable = record { size = none; entries = none; max_mb = 640000 };
      wal = record { size = none; segments = none };
      sstables = empty_level 0 ∷ empty_level 1 ∷ empty_level 2 ∷ [];
      compaction_queue = none;
      compaction_runs = none;
      bloom_hit_rate = none;
      write_amplification = none;
      read_amplification = none;
      total_disk = none;
    }

abbrev pub or_fallback : ℕ → Option NodeStorage → NodeStorage
or_fallback id none = make_fallback_node id
or_fallback id (some n) = n

abbrev pub backend_node : List NodeStorage → NodeRuntimeState → NodeStorage
backend_node nodes rn = or_fallback rn.id (find (λ n. n.id == rn.id) nodes)

unfoldable pub all_nodes : List NodeStorage → List NodeRuntimeState → List NodeStorage
all_nodes nodes runtime = map (backend_node nodes) runtime

-- On a cluster with a node, `safeId` and the node that is shown.
unfoldable pub safe_id : ℕ → List NodeStorage → ℕ
safe_id selected nodes = min selected (length nodes - 1)

unfoldable pub shown_node : ℕ → List NodeStorage → NodeStorage
shown_node selected nodes =
    or_fallback (safe_id selected nodes) (get_elem? nodes (safe_id selected nodes))

unfoldable pub storage_changed : List NodeStorage → StoragePage → StoragePage
storage_changed [] p = p
storage_changed (n ∷ ns) p = record p { nodes = n ∷ ns }

abbrev pub storage_event : ℕ → Text → StorageEventType → Text → Text → StorageEvent
storage_event id ts type label node = record {
  id = id;
  ts = ts;
  type = type;
  label = label;
  node = node;
}

-- The two events of an operation go before the others, of which 20 in all stay.
abbrev two_events :
    Text → StorageEventType → Text → StorageEventType → Text → Text → StoragePage → StoragePage
two_events ts first first_label second second_label node p = record p {
  events = take 20 (
      storage_event p.event_id ts first first_label node
      ∷ storage_event (suc p.event_id) ts second second_label node
      ∷ p.events);
  event_id = p.event_id + 2;
  refreshes = suc p.refreshes;
}

-- After `await startFlush()` and `await startCompact()`, with the name of the node.
unfoldable pub flush_complete : Text → Text → StoragePage → StoragePage
flush_complete ts node p =
    two_events ts flush_start (text "Flush Started") flush_done (text "Flush Finished") node p

unfoldable pub compact_complete : Text → Text → StoragePage → StoragePage
compact_complete ts node p =
    two_events ts compact_start (text "Compaction Started") compact_done
      (text "Compaction Finished") node p

abbrev pub newest_name : List SnapshotRecord → Text
newest_name [] = []
newest_name (s ∷ snapshots) = s.name

unfoldable pub snapshots_changed : Text → List SnapshotRecord → StoragePage → StoragePage
snapshots_changed ts snapshots p =
    if ltb p.prev_snap_count (length snapshots)
    then record p {
      events = take 20 (
          storage_event p.event_id ts snapshot (text "Snapshot Created: " ++ newest_name snapshots)
            (text "all nodes")
          ∷ p.events);
      event_id = suc p.event_id;
      prev_snap_count = length snapshots;
    }
    else record p { prev_snap_count = length snapshots }
