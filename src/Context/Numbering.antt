-- ===== src/Context/Numbering.antt =====
-- ClusterContext.tsx: the ids of the nodes are their places, whatever happens.
use mathlib.Core.List.{append_assoc}
use lsmkv_enterprise.Common.{
  ℕ, zero, suc, ◌+◌, ◌-◌, ◌≤◌, ◌<◌, ◌≡◌, refl, ap, ◌∙◌, subst, List, [], ◌∷◌, ◌++◌, arith, ◌==◌,
  nat_eq, ltb, if_cases, length, get_elem?, take, length-append, length-take, leb, get_elem?-append,
  get_elem?-take,
}
use lsmkv_enterprise.Failure.{NodeRuntimeState, FailureType}
use lsmkv_enterprise.Simulation.{
  World, Action, Timer, crashes, rebalances, rejoins, node_name, update_node, suspected, crashed,
  moved, returning, rejoined, inject_failure, recover_node, run_action, fire_timers, advance,
  failure_of, failure_behaviors,
}
use lsmkv_enterprise.Context.{
  Cluster, new_node, grow, sync_nodes, with_nodes, add_node, remove_node, dispatch_failure,
  dispatch_recover, dispatch_recover_all, recover_each, is_healthy,
}

abbrev pub NumberedFrom : ℕ → List NodeRuntimeState → Type 0
NumberedFrom k [] = Unit {0}
NumberedFrom k (n ∷ ns) = (n.id ≡ k) × (n.name ≡ node_name k) × NumberedFrom (suc k) ns

-- Node `i` stands at place `i` and is called `node{i}`.
abbrev pub Numbered : Cluster → Type 0
Numbered c = NumberedFrom 0 c.world.nodes

push-Numbered :
    (k : ℕ) (ns : List NodeRuntimeState)
    → NumberedFrom k ns
    → NumberedFrom k (ns ++ new_node (k + length ns) ∷ [])
push-Numbered k [] v = let e : k + 0 ≡ k = omega arith in (e, ap node_name e, tt)
push-Numbered k (n ∷ ns) v =
    let e : k + suc (length ns) ≡ suc k + length ns = omega arith in
    (v.0, v.1, rw e (push-Numbered (suc k) ns v.2))

push_one-Numbered :
    (ns : List NodeRuntimeState)
    → NumberedFrom 0 ns
    → NumberedFrom 0 (ns ++ new_node (length ns) ∷ [])
push_one-Numbered ns v =
    let e : 0 + length ns ≡ length ns = omega arith in
    subst (λ i. NumberedFrom 0 (ns ++ new_node i ∷ [])) e (push-Numbered 0 ns v)

take-Numbered :
    (n k : ℕ) (ns : List NodeRuntimeState) → NumberedFrom k ns → NumberedFrom k (take n ns)
take-Numbered zero k ns v = tt
take-Numbered (suc n) k [] v = tt
take-Numbered (suc n) k (x ∷ ns) v = (v.0, v.1, take-Numbered n (suc k) ns v.2)

grow-Numbered :
    (fuel count : ℕ) (ns : List NodeRuntimeState)
    → NumberedFrom 0 ns
    → NumberedFrom 0 (grow fuel count ns)
unfolding grow
grow-Numbered zero count ns v = v
grow-Numbered (suc fuel) count ns v =
    if_cases (NumberedFrom 0) (ltb (length ns) count)
      (λ _. grow-Numbered fuel count _ (push_one-Numbered ns v)) (λ _. v)

sync_nodes-Numbered :
    (count : ℕ) (ns : List NodeRuntimeState)
    → NumberedFrom 0 ns
    → NumberedFrom 0 (sync_nodes count ns)
unfolding sync_nodes
sync_nodes-Numbered count ns v =
    if_cases (NumberedFrom 0) (length ns == count) (λ _. v)
      (λ _.
        if_cases (NumberedFrom 0) (ltb count (length (grow count count ns)))
          (λ _. take-Numbered count 0 _ (grow-Numbered count count ns v))
          (λ _. grow-Numbered count count ns v))

length-grow :
    (fuel count : ℕ) (ns : List NodeRuntimeState)
    → length ns ≤ count
    → count ≤ length ns + fuel
    → length (grow fuel count ns) ≡ count
unfolding grow
length-grow zero count ns h f = omega arith
length-grow (suc fuel) count ns h f = ground (
  arith,
  length-grow fuel count (ns ++ new_node (length ns) ∷ []),
  length-append ns (new_node (length ns) ∷ []),
)

grow_full :
    (fuel count : ℕ) (ns : List NodeRuntimeState) → count ≤ length ns → grow fuel count ns ≡ ns
unfolding grow
grow_full zero count ns h = refl
grow_full (suc fuel) count ns h = ground arith

-- A sync leaves exactly as many nodes as the backend has: the loop ends, with the fuel it has.
length-sync_nodes : (count : ℕ) (ns : List NodeRuntimeState) → length (sync_nodes count ns) ≡ count
unfolding sync_nodes
length-sync_nodes count ns = ground (
  arith,
  length-grow count count ns,
  grow_full count count ns,
  length-take count (grow count count ns),
)

get_elem?-grow :
    (fuel count : ℕ) (ns : List NodeRuntimeState) (i : ℕ)
    → i < length ns
    → get_elem? (grow fuel count ns) i ≡ get_elem? ns i
unfolding grow
get_elem?-grow zero count ns i h = refl
get_elem?-grow (suc fuel) count ns i h =
    if_cases (λ ms. get_elem? ms i ≡ get_elem? ns i) (ltb (length ns) count)
      (λ _.
        get_elem?-grow fuel count _ i (omega (arith, length-append ns (new_node (length ns) ∷ [])))
        ∙ get_elem?-append ns (new_node (length ns) ∷ []) i h)
      (λ _. refl)

-- A sync keeps the state of every node that the backend still has.
get_elem?-sync_nodes :
    (count : ℕ) (ns : List NodeRuntimeState) (i : ℕ)
    → i < length ns
    → i < count
    → get_elem? (sync_nodes count ns) i ≡ get_elem? ns i
unfolding sync_nodes
get_elem?-sync_nodes count ns i h k =
    ground
      (arith, get_elem?-grow count count ns i h, get_elem?-take count (grow count count ns) i k)

-- A patch keeps the id and the name.
abbrev KeepsName : (NodeRuntimeState → NodeRuntimeState) → Type 0
KeepsName p = (n : NodeRuntimeState) → ((p n).id ≡ n.id) × ((p n).name ≡ n.name)

update_node-Numbered :
    (id k : ℕ) (p : NodeRuntimeState → NodeRuntimeState) (ns : List NodeRuntimeState)
    → KeepsName p
    → NumberedFrom k ns
    → NumberedFrom k (update_node id p ns)
unfolding update_node
update_node-Numbered id k p [] f v = tt
update_node-Numbered id k p (n ∷ ns) f v =
    let rest = update_node-Numbered id (suc k) p ns f v.2 in
    if_cases {A = NodeRuntimeState}
      (λ m. (m.id ≡ k) × (m.name ≡ node_name k) × NumberedFrom (suc k) (update_node id p ns))
      (n.id == id) (λ _. ((f n).0 ∙ v.0, (f n).1 ∙ v.1, rest)) (λ _. (v.0, v.1, rest))

run_action-Numbered :
    (now : ℕ) (a : Action) (w : World)
    → NumberedFrom 0 w.nodes
    → NumberedFrom 0 (run_action now a w).nodes
unfolding run_action
run_action-Numbered now (crashes id type) w v =
    update_node-Numbered id 0 crashed w.nodes (λ n. (refl, refl)) v
run_action-Numbered now (rebalances id) w v =
    update_node-Numbered id 0 moved w.nodes (λ n. (refl, refl)) v
run_action-Numbered now (rejoins id) w v =
    update_node-Numbered id 0 (rejoined id) w.nodes (λ n. (refl, refl)) v

fire_timers-Numbered :
    (until : ℕ) (ts : List Timer) (w : World)
    → NumberedFrom 0 w.nodes
    → NumberedFrom 0 (fire_timers until ts w).nodes
unfolding fire_timers
fire_timers-Numbered until [] w v = v
fire_timers-Numbered until (t ∷ ts) w v =
    if_cases {A = World} (λ u. NumberedFrom 0 u.nodes) (leb t.due until)
      (λ _. fire_timers-Numbered until ts _ (run_action-Numbered t.due t.action w v)) (λ _. v)

recover_node-Numbered :
    (now id : ℕ) (w : World) → NumberedFrom 0 w.nodes → NumberedFrom 0 (recover_node now id w).nodes
unfolding recover_node
recover_node-Numbered now id w v = update_node-Numbered id 0 returning w.nodes (λ n. (refl, refl)) v

recover_each-Numbered :
    (now : ℕ) (ns : List NodeRuntimeState) (w : World)
    → NumberedFrom 0 w.nodes
    → NumberedFrom 0 (recover_each now ns w).nodes
unfolding recover_each
recover_each-Numbered now [] w v = v
recover_each-Numbered now (n ∷ ns) w v = recover_each-Numbered now ns _ (
    if_cases {A = World} (λ u. NumberedFrom 0 u.nodes) (is_healthy n.state) (λ _. v)
      (λ _. recover_node-Numbered now n.id w v))

-- What changes the nodes: the actions of a fresh render, the timers and the syncs.
pub data Change : Type 0 where
  fails : ℕ → FailureType → Change
  recovers : ℕ → Change
  recovers_all adds removes : Change
  passes : ℕ → Change
  syncs : ℕ → Change

unfoldable pub change : ℕ → Change → Cluster → Cluster
change now (fails id type) c = dispatch_failure now id type c
change now (recovers id) c = dispatch_recover now id c
change now recovers_all c = dispatch_recover_all now c c
change now adds c = add_node c c
change now removes c = remove_node c c
change now (passes until) c = record c { world = advance until c.world }
change now (syncs count) c = with_nodes (sync_nodes count c.world.nodes) c

-- Failures, recoveries, timers, syncs, and additions and removals from an up-to-date render keep
-- every node at the place of its id, with the name of its id.
pub change-Numbered :
    (now : ℕ) (ch : Change) (c : Cluster) → Numbered c → Numbered (change now ch c)
unfolding change dispatch_failure inject_failure dispatch_recover dispatch_recover_all add_node
    remove_node advance
change-Numbered now (fails id type) c v =
    update_node-Numbered id 0 (suspected (failure_of now id type) (failure_behaviors type))
      c.world.nodes (λ n. (refl, refl)) v
change-Numbered now (recovers id) c v = recover_node-Numbered now id c.world v
change-Numbered now recovers_all c v = recover_each-Numbered now c.world.nodes c.world v
change-Numbered now adds c v =
    if_cases {A = Cluster} Numbered (leb 6 (length c.world.nodes)) (λ _. v)
      (λ _. push_one-Numbered c.world.nodes v)
change-Numbered now removes c v =
    if_cases {A = Cluster} Numbered (leb (length c.world.nodes) 3) (λ _. v)
      (λ _. take-Numbered (length c.world.nodes - 1) 0 c.world.nodes v)
change-Numbered now (passes until) c v = fire_timers-Numbered until c.world.timers c.world v
change-Numbered now (syncs count) c v = sync_nodes-Numbered count c.world.nodes v

-- Two additions from one render, with fewer than 6 nodes, make two nodes of the same id.
pub stale_add_node_repeats :
    (c : Cluster)
    → length c.world.nodes < 6
    → (add_node c (add_node c c)).world.nodes
      ≡ c.world.nodes ++ (new_node (length c.world.nodes) ∷ new_node (length c.world.nodes) ∷ [])
unfolding add_node
stale_add_node_repeats c h = ground (
  arith,
  append_assoc c.world.nodes (new_node (length c.world.nodes) ∷ [])
      (new_node (length c.world.nodes) ∷ []),
)
