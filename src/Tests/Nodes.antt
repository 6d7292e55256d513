-- ===== src/Tests/Nodes.antt =====
-- simulation.ts and ClusterContext.tsx on a cluster of three healthy nodes.
use lsmkv_enterprise.Common.{
  ℕ, ◌≡◌, refl, ◌++◌, true, false, none, some, List, [], ◌∷◌, text, arith, pos, get_elem?,
}
use lsmkv_enterprise.Failure.{NodeRuntimeState, NetworkPartition, node_crash, rebalancing}
use lsmkv_enterprise.EventBus.{empty}
use lsmkv_enterprise.Simulation.{World, failure_of, inject_failure, recover_node, advance}
use lsmkv_enterprise.Simulation.Outcomes.{
  node_at, inject_hard_outcome, early_recovery_undone, other_node_unchanged,
}
use lsmkv_enterprise.Context.{
  ClusterSnapshot, Cluster, initial_cluster, new_node, add_node, is_partitioned, dispatch_partition,
  dispatch_heal_partition, step_replay, effective_nodes, effective_partitions,
}
use lsmkv_enterprise.Context.Numbering.{
  Numbered, adds, change, change-Numbered, stale_add_node_repeats,
}
use lsmkv_enterprise.Context.Partitions.{NoRepeats, dispatch-NoRepeats}
use lsmkv_enterprise.Context.Replay.{LandsAt, step_replay_lands}

abbrev three_nodes : List NodeRuntimeState
three_nodes = new_node 0 ∷ new_node 1 ∷ new_node 2 ∷ []

abbrev three : World
three = record { nodes = three_nodes; bus = empty; timers = []; requests = [] }

inject_hard_outcome_example :
    node_at 1 (advance 6000 (inject_failure 1000 1 node_crash three)).nodes
    ≡ some (record (new_node 1) {
      state = rebalancing;
      active_failure = some (failure_of 1000 1 node_crash);
      lag_ms = some 99990;
      cpu_boost = some 0;
    })
inject_hard_outcome_example =
    inject_hard_outcome 1000 6000 1 node_crash three {c = 2000} {r = 5000} {n = new_node 1} refl
      refl refl (omega arith) refl

early_recovery_undone_example :
    node_at 1
      (advance 9000
        (recover_node 2000 1 (advance 2000 (inject_failure 1000 1 node_crash three)))).nodes
    ≡ some (record (new_node 1) {
      state = rebalancing;
      active_failure = none;
      lag_ms = some 18;
      cpu_boost = some 0;
    })
early_recovery_undone_example =
    early_recovery_undone 1000 1000 9000 1 node_crash three {c = 2000} {r = 5000} {n = new_node 1}
      refl refl refl (omega arith) (omega arith) refl

other_node_unchanged_example :
    (node_at 0 (advance 9000 (inject_failure 1000 1 node_crash three)).nodes
      ≡ node_at 0 three.nodes)
    × (node_at 0 (advance 9000 (recover_node 1000 1 three)).nodes ≡ node_at 0 three.nodes)
other_node_unchanged_example =
    other_node_unchanged 1000 9000 1 0 node_crash three tt (λ e. ground arith)

abbrev link : NetworkPartition
link = record { from = 0; to = 1; started_at = 5 }

abbrev past : ClusterSnapshot
past = record { time = 3; nodes = new_node 0 ∷ []; partitions = link ∷ []; label = text "t" }

abbrev cluster : Cluster
cluster = record {
  world = three;
  partitions = link ∷ [];
  history = past ∷ [];
  replay_mode = true;
  replay_index = some 0;
  replay_snapshot = none;
  posts = [];
}

initial-Numbered : Numbered initial_cluster
initial-Numbered = (refl, refl, (refl, refl, (refl, refl, tt)))

change-Numbered_example : Numbered (change 9 adds initial_cluster)
change-Numbered_example = change-Numbered 9 adds initial_cluster initial-Numbered

stale_add_node_repeats_example :
    (add_node cluster (add_node cluster cluster)).world.nodes
    ≡ three_nodes ++ (new_node 3 ∷ new_node 3 ∷ [])
stale_add_node_repeats_example = stale_add_node_repeats cluster (omega arith)

apart : is_partitioned 1 2 cluster ≡ false
unfolding is_partitioned
apart = refl

one_link : NoRepeats cluster.partitions
one_link = (refl, tt)

dispatch-NoRepeats_example :
    NoRepeats (dispatch_partition 9 1 2 cluster cluster).partitions
    × NoRepeats (dispatch_heal_partition 9 1 2 cluster).partitions
dispatch-NoRepeats_example = dispatch-NoRepeats 9 1 2 cluster one_link

abbrev three_recorded : Cluster
three_recorded = record cluster {
  history = cluster.history ++ (cluster.history ++ cluster.history);
}

step_replay_lands_example :
    (i : ℕ) × (snap : ClusterSnapshot) × LandsAt 3 0 (pos 1) i
    × (get_elem? three_recorded.history i ≡ some snap)
    × ((step_replay (pos 1) three_recorded).replay_index ≡ some i)
    × (effective_nodes (step_replay (pos 1) three_recorded) ≡ snap.nodes)
    × (effective_partitions (step_replay (pos 1) three_recorded) ≡ snap.partitions)
step_replay_lands_example =
    step_replay_lands (pos 1) three_recorded {prev = 0} refl refl (omega arith)
