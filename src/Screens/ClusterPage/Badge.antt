-- ===== src/Screens/ClusterPage/Badge.antt =====
-- Cluster.tsx: the badge against the status of the first page, and the table of the nodes.
use lsmkv_enterprise.Common.{
  ℕ, suc, ◌+◌, ◌≡◌, ◌↔◌, refl, ap, ◌∙◌, Option, none, some, List, [], ◌∷◌, map, arith, ◌==◌, nat_eq,
  find,
}
use lsmkv_enterprise.Failure.{NodeRuntimeState}
use lsmkv_enterprise.Api.{NodeInfo}
use lsmkv_enterprise.Screens.ClusterPage.{
  rtt_between, display_node, display_from, display_nodes, healthy_badge, cluster_badge,
}
use lsmkv_enterprise.Screens.Overview.{all_healthy, cluster_status}
use lsmkv_enterprise.Screens.Overview.Shown.{cluster_status-healthy, all-counted, counted-all}

-- The two pages agree on a healthy cluster: the badge is HEALTHY exactly if the first page's status is.
cluster_badge-agrees :
    (ns : List NodeRuntimeState)
    → (cluster_badge ns ≡ healthy_badge) ↔ (cluster_status ns ≡ all_healthy)
unfolding cluster_badge
cluster_badge-agrees ns = (
  λ e. (cluster_status-healthy ns).1 (counted-all ns (ground arith)),
  λ e. let counted = (all-counted ns ((cluster_status-healthy ns).0 e)).0 in ground arith,
)

-- The round trip times are symmetric.
rtt_between_comm : (i j : ℕ) → rtt_between i j ≡ rtt_between j i
unfolding rtt_between
rtt_between_comm i j = let e : i + j ≡ j + i = omega arith in rw e (ground arith)

display_node-id :
    (i : ℕ) (rn : NodeRuntimeState) (o : Option NodeInfo) (runtime : List NodeRuntimeState)
    → (display_node i rn o runtime).id ≡ rn.id
display_node-id i rn none runtime = refl
display_node-id i rn (some api) runtime = refl

display_from-ids :
    (i : ℕ) (nodes : List NodeRuntimeState) (infos : List NodeInfo)
    (runtime : List NodeRuntimeState)
    → map (λ n. n.id) (display_from i nodes infos runtime) ≡ map (λ n. n.id) nodes
unfolding display_from
display_from-ids i [] infos runtime = refl
display_from-ids i (rn ∷ nodes) infos runtime =
    ap (λ k. k ∷ map (λ n. n.id) (display_from (suc i) nodes infos runtime))
      (display_node-id i rn (find (λ ni. ni.id == rn.id) infos) runtime)
    ∙ ap (◌∷◌ rn.id) (display_from-ids (suc i) nodes infos runtime)

-- The table has one row for each node of the cluster, in order, whatever the backend knows of.
display_nodes-ids :
    (infos : List NodeInfo) (runtime : List NodeRuntimeState)
    → map (λ n. n.id) (display_nodes infos runtime) ≡ map (λ n. n.id) runtime
unfolding display_nodes
display_nodes-ids infos runtime = display_from-ids 0 runtime infos runtime
