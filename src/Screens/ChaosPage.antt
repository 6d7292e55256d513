-- ===== src/Screens/ChaosPage.antt =====
-- pages/ChaosEngineering.tsx: the selection of a node and the clicks on it, on a pair of nodes and on
-- the list of failures. `now` is the time of a click.
pub mod Pairs
use lsmkv_enterprise.Common.{
  ℕ, zero, suc, ◌+◌, Bool, true, false, ◌||◌, not, Option, none, some, List, [], ◌∷◌, ◌++◌, map,
  ◌==◌, nat_eq, ltb, if◌then◌else◌, length, any,
}
use lsmkv_enterprise.Failure.{NodeState, healthy, FailureType, node_crash, NodeRuntimeState}
use lsmkv_enterprise.Context.{
  Cluster, dispatch_failure, dispatch_recover, dispatch_partition, dispatch_heal_partition,
  dispatch_recover_all, is_partitioned,
}

pub record ChaosPage : Type 0 where
  pub cluster : Cluster
  pub selected_node : Option ℕ

-- The inner loop, with `count` rounds from `j` on.
unfoldable pub pairs_with : ℕ → ℕ → ℕ → List (ℕ × ℕ)
pairs_with i j zero = []
pairs_with i j (suc count) = (i, j) ∷ pairs_with i (suc j) count

-- The outer loop from `i` on, with `count` nodes left.
unfoldable pub pairs_from : ℕ → ℕ → List (ℕ × ℕ)
pairs_from i zero = []
pairs_from i (suc count) = pairs_with i (suc i) count ++ pairs_from (suc i) count

unfoldable pub dynamic_pairs : List NodeRuntimeState → List (ℕ × ℕ)
dynamic_pairs nodes = pairs_from 0 (length nodes)

unfoldable pub handle_inject : ℕ → FailureType → ChaosPage → ChaosPage
handle_inject now type p = elim p.selected_node [
  | none ↦ p
  | some id ↦ record p { cluster = dispatch_failure now id type p.cluster; selected_node = none }
]

abbrev pub toggled : ℕ → Option ℕ → Option ℕ
toggled id none = some id
toggled id (some other) = if other == id then none else some id

unfoldable pub click_node : ℕ → ChaosPage → ChaosPage
click_node id p = record p { selected_node = toggled id p.selected_node }

unfoldable pub click_kill : ℕ → ℕ → ChaosPage → ChaosPage
click_kill now id p = record p { cluster = dispatch_failure now id node_crash p.cluster }

unfoldable pub click_recover : ℕ → ℕ → ChaosPage → ChaosPage
click_recover now id p = record p { cluster = dispatch_recover now id p.cluster }

unfoldable pub click_recover_all : ℕ → ChaosPage → ChaosPage
click_recover_all now p = record p { cluster = dispatch_recover_all now p.cluster p.cluster }

unfoldable pub click_pair : ℕ → ℕ → ℕ → ChaosPage → ChaosPage
click_pair now a b p = record p {
  cluster =
      if is_partitioned a b p.cluster
      then dispatch_heal_partition now a b p.cluster
      else dispatch_partition now a b p.cluster p.cluster;
}

abbrev is_not_healthy : NodeRuntimeState → Bool
is_not_healthy n = elim n.state [ healthy ↦ false | _ ↦ true ]

unfoldable pub has_any_failure : Cluster → Bool
has_any_failure c = any is_not_healthy c.world.nodes || ltb 0 (length c.partitions)
