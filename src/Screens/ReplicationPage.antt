-- ===== src/Screens/ReplicationPage.antt =====
-- pages/Replication.tsx: the status of the replicas, with what stands in for it before the backend has
-- answered. A lag is in thousandths of a millisecond. The lag that is drawn, with its random part, is
-- not modelled.
pub mod Extension
use lsmkv_enterprise.Common.{
  ℕ, zero, suc, ◌+◌, ◌*◌, Bool, true, false, Option, none, some, List, [], ◌∷◌, ◌++◌, Text, text,
  decimal, ◌==◌, nat_eq, ltb, if◌then◌else◌, length, find,
}
use lsmkv_enterprise.Failure.{NodeRuntimeState}
use lsmkv_enterprise.Api.{NodeRole, primary, replica, ReplicationNode, ReplicationStatus}

pub record ReplicationView : Type 0 where
  pub data_shown : ReplicationStatus
  pub backend_online : Bool

abbrev pub role_at : ℕ → NodeRole
role_at zero = primary
role_at (suc i) = replica

abbrev placeholder : ℕ → ℕ → ℕ → ReplicationNode
placeholder i id lag = record {
  id = id;
  name = text "node" ++ decimal id;
  addr = text "node" ++ decimal id ++ text ":" ++ decimal (7001 + id);
  role = role_at i;
  lag_ms = lag;
  synced = true;
}

-- `i === 0 ? 0 : 1.2 + i * 0.9`.
abbrev fallback_lag : ℕ → ℕ
fallback_lag zero = 0
fallback_lag (suc i) = 1200 + suc i * 900

unfoldable pub fallback_from : ℕ → List NodeRuntimeState → List ReplicationNode
fallback_from i [] = []
fallback_from i (n ∷ nodes) = placeholder i n.id (fallback_lag i) ∷ fallback_from (suc i) nodes

unfoldable pub build_fallback : List NodeRuntimeState → ReplicationStatus
build_fallback runtime = record {
  replication_factor = 2;
  quorum = 2;
  nodes = fallback_from 0 runtime;
}

unfoldable pub opened_replication : List NodeRuntimeState → ReplicationView
opened_replication runtime = record { data_shown = build_fallback runtime; backend_online = true }

unfoldable pub replication_changed : Option ReplicationStatus → ReplicationView → ReplicationView
replication_changed none v = v
replication_changed (some data_new) v = record { data_shown = data_new; backend_online = true }

abbrev pub existing_or : ℕ → ℕ → Option ReplicationNode → ReplicationNode
existing_or i id none = placeholder i id (1200 + i * 900)
existing_or i id (some n) = n

unfoldable pub extend_from : ℕ → List NodeRuntimeState → List ReplicationNode → List ReplicationNode
extend_from i [] prev = []
extend_from i (n ∷ nodes) prev =
    existing_or i n.id (find (λ pn. pn.id == n.id) prev) ∷ extend_from (suc i) nodes prev

-- The effect on the number of the nodes.
unfoldable pub nodes_changed : List NodeRuntimeState → ReplicationView → ReplicationView
nodes_changed runtime v =
    let shown : ReplicationStatus = v.data_shown in
    if ltb (length shown.nodes) (length runtime)
    then record v { data_shown = record shown { nodes = extend_from 0 runtime shown.nodes } }
    else v
