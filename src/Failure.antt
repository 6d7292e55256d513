-- ===== src/Failure.antt =====
-- dashboard/frontend/src/types/failure.ts: the states of a node, the failures and the events.
use lsmkv_enterprise.Common.{ℕ, Option, Text, text}

pub data NodeState : Type 0 where
  healthy suspect unreachable recovering rebalancing : NodeState

pub data FailureType : Type 0 where
  node_crash heartbeat_timeout disk_full high_cpu high_latency network_partition : FailureType
  wal_corruption sstable_corruption readonly_disk : FailureType

pub record NodeFailure : Type 0 where
  pub node_id : ℕ
  pub type : FailureType
  pub started_at : ℕ
  pub label : Text

pub record NetworkPartition : Type 0 where
  pub from : ℕ
  pub to : ℕ
  pub started_at : ℕ

pub data ClusterEventType : Type 0 where
  node_state_changed failure_injected node_recovered : ClusterEventType
  partition_created partition_healed rebalance_started rebalance_completed : ClusterEventType

pub record ClusterEvent : Type 0 where
  pub type : ClusterEventType
  pub node_id : Option ℕ
  pub node_state : Option NodeState
  pub failure : Option NodeFailure
  pub partition : Option NetworkPartition
  pub message : Text
  pub timestamp : ℕ

-- `lagMs` is in tenths of a millisecond: the source's values have at most one decimal.
pub record NodeRuntimeState : Type 0 where
  pub id : ℕ
  pub name : Text
  pub state : NodeState
  pub active_failure : Option NodeFailure
  pub lag_ms : Option ℕ
  pub cpu_boost : Option ℕ

unfoldable pub failure_labels : FailureType → Text
failure_labels node_crash = text "Node Crash"
failure_labels heartbeat_timeout = text "Heartbeat Timeout"
failure_labels disk_full = text "Disk Full"
failure_labels high_cpu = text "High CPU"
failure_labels high_latency = text "High Latency"
failure_labels network_partition = text "Network Partition"
failure_labels wal_corruption = text "WAL Corruption"
failure_labels sstable_corruption = text "SSTable Corruption"
failure_labels readonly_disk = text "Read-only Disk"
