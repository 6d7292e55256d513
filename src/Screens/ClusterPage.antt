-- ===== src/Screens/ClusterPage.antt =====
-- pages/Cluster.tsx: the nodes of the cluster with what the backend knows of them, and the badge. The
-- round trip times are in tenths of a millisecond.
pub mod Badge
use lsmkv_enterprise.Common.{
  ℕ, zero, suc, ◌+◌, ◌*◌, ◌%◌, Bool, true, false, Option, none, some, List, [], ◌∷◌, ◌++◌, map,
  Text, text, ◌==◌, nat_eq, if◌then◌else◌, length, filter, find, starts_with, ◌&&◌,
}
use lsmkv_enterprise.Failure.{NodeState, healthy, NodeRuntimeState}
use lsmkv_enterprise.Api.{ClusterInfo, NodeInfo}
use lsmkv_enterprise.Operations.{Operation, is_running}

pub record ClusterView : Type 0 where
  pub cluster_info : Option ClusterInfo
  pub node_infos : List NodeInfo
  pub uptime : ℕ
  pub loading : Bool

abbrev pub opened_cluster : ClusterView
opened_cluster = record { cluster_info = none; node_infos = []; uptime = 0; loading = true }

unfoldable pub info_changed : Option ClusterInfo → ClusterView → ClusterView
info_changed none v = v
info_changed (some info) v = record v {
  cluster_info = some info;
  uptime = info.uptime_seconds;
  loading = false;
}

unfoldable pub infos_changed : List NodeInfo → ClusterView → ClusterView
infos_changed [] v = v
infos_changed (n ∷ infos) v = record v { node_infos = n ∷ infos; loading = false }

unfoldable pub second_passes : ClusterView → ClusterView
second_passes v = record v { uptime = suc v.uptime }

pub record DisplayNode : Type 0 where
  pub id : ℕ
  pub state : NodeState
  pub host : Text
  pub port : ℕ
  pub key_count : ℕ
  pub memtable_mb : ℕ
  pub wal_mb : ℕ
  pub disk_mb : ℕ
  pub rtt : List ℕ
  pub metrics_live : Bool

unfoldable pub rtt_between : ℕ → ℕ → ℕ
rtt_between i j = if i == j then 0 else 35 + ((i + j) % 3) * 5

-- The row of a place, for the places from `j` on.
unfoldable pub rtt_row : ℕ → ℕ → List NodeRuntimeState → List ℕ
rtt_row i j [] = []
rtt_row i j (n ∷ nodes) = rtt_between i j ∷ rtt_row i (suc j) nodes

abbrev live_flag : Option Bool → Bool
live_flag none = false
live_flag (some b) = b

abbrev pub display_node :
    ℕ → NodeRuntimeState → Option NodeInfo → List NodeRuntimeState → DisplayNode
display_node i rn none runtime = record {
  id = rn.id;
  state = rn.state;
  host = text "localhost";
  port = 7001 + rn.id;
  key_count = 0;
  memtable_mb = 0;
  wal_mb = 0;
  disk_mb = 0;
  rtt = rtt_row i 0 runtime;
  metrics_live = false;
}
display_node i rn (some api) runtime = record {
  id = rn.id;
  state = rn.state;
  host = api.host;
  port = api.port;
  key_count = api.key_count;
  memtable_mb = api.memtable_mb;
  wal_mb = api.wal_mb;
  disk_mb = api.disk_mb;
  rtt = rtt_row i 0 runtime;
  metrics_live = live_flag api.metrics_live;
}

unfoldable pub display_from :
    ℕ → List NodeRuntimeState → List NodeInfo → List NodeRuntimeState → List DisplayNode
display_from i [] infos runtime = []
display_from i (rn ∷ nodes) infos runtime =
    display_node i rn (find (λ ni. ni.id == rn.id) infos) runtime
    ∷ display_from (suc i) nodes infos runtime

unfoldable pub display_nodes : List NodeInfo → List NodeRuntimeState → List DisplayNode
display_nodes infos runtime = display_from 0 runtime infos runtime

unfoldable pub sum_key_counts : List DisplayNode → ℕ
sum_key_counts [] = 0
sum_key_counts (n ∷ nodes) = n.key_count + sum_key_counts nodes

unfoldable pub total_key_count : ClusterView → List NodeRuntimeState → ℕ
total_key_count v runtime = elim v.cluster_info [
  | none ↦ sum_key_counts (display_nodes v.node_infos runtime)
  | some info ↦ info.key_count
]

pub data ClusterBadge : Type 0 where
  healthy_badge critical_badge degraded_badge : ClusterBadge

abbrev pub counts_healthy : NodeRuntimeState → Bool
counts_healthy n = elim n.state [ healthy ↦ true | _ ↦ false ]

unfoldable pub cluster_badge : List NodeRuntimeState → ClusterBadge
cluster_badge nodes =
    let healthy_count = length (filter counts_healthy nodes) in
    if healthy_count == length nodes
    then healthy_badge
    else (if healthy_count == 0 then critical_badge else degraded_badge)

abbrev runs_with : Text → Operation → Bool
runs_with prefix o = starts_with prefix o.id && is_running o.status

unfoldable pub add_op : List Operation → Option Operation
add_op ops = find (runs_with (text "add-node-")) ops

unfoldable pub remove_op : List Operation → Option Operation
remove_op ops = find (runs_with (text "remove-node-")) ops
