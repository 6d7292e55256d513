-- ===== src/ClusterStore.antt =====
-- dashboard/frontend/src/store/clusterStore.ts: the backend's state as the pages see it. Listeners
-- are numbers; their calls, with the state that they get, are the list `calls`.
use lsmkv_enterprise.Common.{ℕ, Bool, false, Option, none, List, [], ◌++◌, map}
use lsmkv_enterprise.Api.{ClusterInfo, NodeInfo, ReplicationStatus, NodeStorage, SnapshotRecord}
use lsmkv_enterprise.JsMap.{JsSet}
use lsmkv_enterprise.JsMap

pub record ClusterStoreState : Type 0 where
  pub cluster_info : Option ClusterInfo
  pub node_infos : List NodeInfo
  pub replication_data : Option ReplicationStatus
  pub storage_data : List NodeStorage
  pub snapshots : List SnapshotRecord
  pub last_sync_at : Option ℕ
  pub last_sync_epoch : ℕ
  pub connected : Bool

abbrev pub initial : ClusterStoreState
initial = record {
  cluster_info = none;
  node_infos = [];
  replication_data = none;
  storage_data = [];
  snapshots = [];
  last_sync_at = none;
  last_sync_epoch = 0;
  connected = false;
}

pub record ClusterStore : Type 0 where
  pub state : ClusterStoreState
  pub listeners : JsSet
  pub calls : List (ℕ × ClusterStoreState)

-- `{ ...this._state, ...partial }` is the function `partial`.
unfoldable pub set_state : (ClusterStoreState → ClusterStoreState) → ClusterStore → ClusterStore
set_state partial s =
    let next = partial s.state in
    record s { state = next; calls = s.calls ++ map (λ fn. (fn, next)) s.listeners }

unfoldable pub subscribe : ℕ → ClusterStore → ClusterStore
subscribe fn s = record s { listeners = JsMap.add fn s.listeners }

unfoldable pub unsubscribe : ℕ → ClusterStore → ClusterStore
unsubscribe fn s = record s { listeners = JsMap.remove fn s.listeners }
