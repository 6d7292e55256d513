-- ===== src/Screens/ReplicationPage/Extension.antt =====
-- Replication.tsx: what the page shows of nodes that the backend does not know yet.
use lsmkv_enterprise.Common.{
  ℕ, suc, ◌<◌, ◌≡◌, refl, ap, ◌∙◌, true, List, [], ◌∷◌, map, arith, ◌==◌, nat_eq, ltb, if_cases,
  length, find,
}
use lsmkv_enterprise.Failure.{NodeRuntimeState}
use lsmkv_enterprise.Api.{ReplicationNode}
use lsmkv_enterprise.Screens.ReplicationPage.{
  ReplicationView, existing_or, extend_from, nodes_changed,
}

existing_or-id :
    (i id : ℕ) (prev : List ReplicationNode)
    → (existing_or i id (find (λ pn. pn.id == id) prev)).id ≡ id
existing_or-id i id [] = refl
existing_or-id i id (n ∷ prev) =
    if_cases (λ o. (existing_or i id o).id ≡ id) (n.id == id) (λ e. ground arith)
      (λ _. existing_or-id i id prev)

extend_from-ids :
    (i : ℕ) (nodes : List NodeRuntimeState) (prev : List ReplicationNode)
    → map (λ n. n.id) (extend_from i nodes prev) ≡ map (λ n. n.id) nodes
unfolding extend_from
extend_from-ids i [] prev = refl
extend_from-ids i (n ∷ nodes) prev =
    ap (λ k. k ∷ map (λ m. m.id) (extend_from (suc i) nodes prev)) (existing_or-id i n.id prev)
    ∙ ap (◌∷◌ n.id) (extend_from-ids (suc i) nodes prev)

-- When the cluster has more nodes than the page shows, the effect makes it show exactly the nodes of
-- the cluster, in order.
nodes_changed-ids :
    (runtime : List NodeRuntimeState) (v : ReplicationView)
    → length v.data_shown.nodes < length runtime
    → map (λ n. n.id) (nodes_changed runtime v).data_shown.nodes ≡ map (λ n. n.id) runtime
unfolding nodes_changed
nodes_changed-ids runtime v h =
    let e : ltb (length v.data_shown.nodes) (length runtime) ≡ true = ground arith in
    rw (e, nodes_changed) (extend_from-ids 0 runtime v.data_shown.nodes)
