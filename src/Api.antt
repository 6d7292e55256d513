-- ===== src/Api.antt =====
-- The payloads of the backend's replies: dashboard/frontend/src/api/cluster.ts, api/live.ts,
-- types/storage.ts and the snapshot type of store/clusterStore.ts. Sizes in MB and rates are in
-- ten-thousandths, times in milliseconds in thousandths, angles in thousandths of a degree.
use lsmkv_enterprise.Common.{ℕ, Bool, Option, List, Text}

pub data ClusterStatus : Type 0 where
  healthy degraded critical : ClusterStatus

pub record ClusterInfo : Type 0 where
  pub node_count : ℕ
  pub key_count : ℕ
  pub replication_factor : ℕ
  pub virtual_nodes : ℕ
  pub uptime_seconds : ℕ
  pub status : ClusterStatus

pub data NodeStatus : Type 0 where
  healthy dead unknown : NodeStatus

pub record NodeInfo : Type 0 where
  pub id : ℕ
  pub addr : Text
  pub host : Text
  pub port : ℕ
  pub status : NodeStatus
  pub key_count : ℕ
  pub memtable_mb : ℕ
  pub wal_mb : ℕ
  pub disk_mb : ℕ
  pub angle : ℕ
  pub metrics_live : Option Bool

pub data NodeRole : Type 0 where
  primary replica : NodeRole

pub record ReplicationNode : Type 0 where
  pub id : ℕ
  pub name : Text
  pub addr : Text
  pub role : NodeRole
  pub lag_ms : ℕ
  pub synced : Bool

pub record ReplicationStatus : Type 0 where
  pub replication_factor : ℕ
  pub quorum : ℕ
  pub nodes : List ReplicationNode

pub record SstableLevel : Type 0 where
  pub level : ℕ
  pub count : ℕ
  pub size_mb : ℕ

pub record MemtableStats : Type 0 where
  pub size : Option ℕ
  pub entries : Option ℕ
  pub max_mb : ℕ

pub record WalStats : Type 0 where
  pub size : Option ℕ
  pub segments : Option ℕ

pub record NodeStorage : Type 0 where
  pub id : ℕ
  pub name : Text
  pub port : ℕ
  pub color : Text
  pub hex : Text
  pub key_count : Option ℕ
  pub memtable : MemtableStats
  pub wal : WalStats
  pub sstables : List SstableLevel
  pub compaction_queue : Option ℕ
  pub compaction_runs : Option ℕ
  pub bloom_hit_rate : Option ℕ
  pub write_amplification : Option ℕ
  pub read_amplification : Option ℕ
  pub total_disk : Option ℕ

pub data SnapshotStatus : Type 0 where
  ready creating restoring : SnapshotStatus

pub record SnapshotRecord : Type 0 where
  pub id : Text
  pub name : Text
  pub created_at : Text
  pub size_mb : ℕ
  pub status : SnapshotStatus
  pub node_count : ℕ
