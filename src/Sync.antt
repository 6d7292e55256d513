-- ===== src/Sync.antt =====
-- dashboard/frontend/src/store/syncEngine.ts: one round of the polling loop, and the registry of the
-- callbacks that `triggerRefresh` calls.
pub mod Rounds
pub mod Mounting
use lsmkv_enterprise.Common.{
  ℕ, zero, suc, ◌+◌, Bool, true, false, Option, none, some, List, [], ◌∷◌, ◌++◌, map, Text, text,
  ◌==◌, nat_eq, if◌then◌else◌, filter,
}
use lsmkv_enterprise.Api.{ClusterInfo, NodeInfo, ReplicationStatus, NodeStorage, SnapshotRecord}
use lsmkv_enterprise.ClusterStore.{ClusterStoreState, ClusterStore, set_state}
use lsmkv_enterprise.JsMap

-- `PromiseSettledResult`.
pub data Settled {ℓ} (A : Type ℓ) : Type ℓ where
  fulfilled : A → Settled A
  rejected : Settled A

-- The storage reply is only cast to a list: `malformed` has no `map`, which throws.
pub data StorageReply : Type 0 where
  nodes : List NodeStorage → StorageReply
  malformed : StorageReply

pub record Replies : Type 0 where
  pub cluster : Settled ClusterInfo
  pub node_infos : Settled (List NodeInfo)
  pub replication : Settled ReplicationStatus
  pub storage : Settled StorageReply
  pub snapshots : Settled (List SnapshotRecord)

pub record NodeColor : Type 0 where
  pub color : Text
  pub hex : Text

-- `NODE_COLORS[id]`, with the defaults of a missing id.
unfoldable pub node_colors : ℕ → NodeColor
node_colors zero = record { color = text "bg-blue-400"; hex = text "#60a5fa" }
node_colors (suc zero) = record { color = text "bg-green-400"; hex = text "#4ade80" }
node_colors (suc (suc zero)) = record { color = text "bg-yellow-400"; hex = text "#facc15" }
node_colors (suc (suc (suc zero))) = record { color = text "bg-purple-400"; hex = text "#c084fc" }
node_colors (suc (suc (suc (suc zero)))) = record {
  color = text "bg-pink-400";
  hex = text "#f472b6";
}
node_colors (suc (suc (suc (suc (suc zero))))) = record {
  color = text "bg-cyan-400";
  hex = text "#2dd4bf";
}
node_colors (suc (suc (suc (suc (suc (suc n)))))) = record {
  color = text "bg-zinc-400";
  hex = text "#a1a1aa";
}

abbrev pub colored : NodeStorage → NodeStorage
colored n = let c : NodeColor = node_colors n.id in record n { color = c.color; hex = c.hex }

abbrev pub or_current {ℓ} : {A : Type ℓ} → Settled A → A → A
or_current (fulfilled a) current = a
or_current rejected current = current

abbrev pub or_current_some {ℓ} : {A : Type ℓ} → Settled A → Option A → Option A
or_current_some (fulfilled a) current = some a
or_current_some rejected current = current

abbrev pub is_fulfilled {ℓ} : {A : Type ℓ} → Settled A → Bool
is_fulfilled (fulfilled a) = true
is_fulfilled rejected = false

-- The new storage data; `none` if computing it throws.
unfoldable pub merge_storage : Settled StorageReply → List NodeStorage → Option (List NodeStorage)
merge_storage rejected current = some current
merge_storage (fulfilled malformed) current = none
merge_storage (fulfilled (nodes ns)) current = some (map colored ns)

abbrev pub merged : ℕ → Replies → List NodeStorage → ClusterStoreState → ClusterStoreState
merged now r storage current = record {
  cluster_info = or_current_some r.cluster current.cluster_info;
  node_infos = or_current r.node_infos current.node_infos;
  replication_data = or_current_some r.replication current.replication_data;
  storage_data = storage;
  snapshots = or_current r.snapshots current.snapshots;
  last_sync_at = some now;
  last_sync_epoch = current.last_sync_epoch + 1;
  connected = is_fulfilled r.cluster;
}

-- One round, once every fetch is settled.
unfoldable pub do_refresh : ℕ → Replies → ClusterStore → ClusterStore
do_refresh now r s = elim (merge_storage r.storage s.state.storage_data) [
  | none ↦ set_state (λ current. record current { connected = false }) s
  | some storage ↦ set_state (merged now r storage) s
]

-- A mounted `useSyncEngine`: its `refresh`, and the variable `mounted` that it closes over.
pub record Engine : Type 0 where
  pub id : ℕ
  pub mounted : Bool

pub record Registry : Type 0 where
  pub refreshers : List Engine
  pub intervals : List ℕ  -- the engines whose interval runs
  pub refreshes : List ℕ  -- the engines that started a round

abbrev run_refresh : Engine → List ℕ → List ℕ
run_refresh e rs = if e.mounted then rs ++ e.id ∷ [] else rs

abbrev pub run_all : List Engine → List ℕ → List ℕ
run_all [] rs = rs
run_all (e ∷ es) rs = run_all es (run_refresh e rs)

unfoldable pub trigger_refresh : Registry → Registry
trigger_refresh g = record g { refreshes = run_all g.refreshers g.refreshes }

unfoldable pub mount : ℕ → Registry → Registry
mount id g = record {
  refreshers = g.refreshers ++ record { id = id; mounted = true } ∷ [];
  intervals = g.intervals ++ id ∷ [];
  refreshes = g.refreshes ++ id ∷ [];
}

-- `_refreshers.splice(_refreshers.indexOf(refresh), 1)`, if it is there.
unfoldable pub unregister : ℕ → List Engine → List Engine
unregister id [] = []
unregister id (e ∷ es) = if e.id == id then es else e ∷ unregister id es

unfoldable pub unmount : ℕ → Registry → Registry
unmount id g = record g {
  refreshers = unregister id g.refreshers;
  intervals = JsMap.remove id g.intervals;
}
