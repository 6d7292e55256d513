-- ===== src/Simulation/Outcomes.antt =====
-- simulation.ts: what becomes of a node after a failure, and after a recovery.
use lsmkv_enterprise.Common.{
  ℕ, ◌+◌, ◌*◌, ◌≤◌, ◌<◌, ◌≡◌, ◌≢◌, refl, ap, ◌∙◌, Option, none, some, List, [], ◌∷◌, arith, find,
  if_cases, All, leb, ◌==◌, nat_eq,
}
use lsmkv_enterprise.Failure.{
  NodeRuntimeState, suspect, healthy, rebalancing, FailureType, node_crash, heartbeat_timeout,
  disk_full, high_cpu, high_latency, network_partition, wal_corruption, sstable_corruption,
  readonly_disk,
}
use lsmkv_enterprise.Simulation.{
  World, Timer, Action, crashes, rebalances, rejoins, failure_behaviors, FailureBehavior,
  update_node, enqueue, set_timeout, suspected, failure_of, crashed, moved, returning, rejoined,
  inject_failure, recover_node, run_action, fire_timers, advance,
}

abbrev pub node_at : ℕ → List NodeRuntimeState → Option NodeRuntimeState
node_at id = find (λ n. n.id == id)

node_at-update :
    (id : ℕ) (p : NodeRuntimeState → NodeRuntimeState) (ns : List NodeRuntimeState)
    {n : NodeRuntimeState}
    → ((m : NodeRuntimeState) → (p m).id ≡ m.id)
    → node_at id ns ≡ some n
    → node_at id (update_node id p ns) ≡ some (p n)
unfolding update_node
node_at-update id p [] {n} k h = absurd (ground arith)
node_at-update id p (m ∷ rest) {n} k h = ground (arith, k m, node_at-update id p rest {n = n} k)

node_at-update_ne :
    (id j : ℕ) (p : NodeRuntimeState → NodeRuntimeState) (ns : List NodeRuntimeState)
    → j ≢ id
    → ((m : NodeRuntimeState) → (p m).id ≡ m.id)
    → node_at j (update_node id p ns) ≡ node_at j ns
unfolding update_node
node_at-update_ne id j p [] h k = refl
node_at-update_ne id j p (m ∷ rest) h k = ground (arith, k m, node_at-update_ne id j p rest h k)

inject_hard-nodes :
    (now until id : ℕ) (type : FailureType) (w : World) {c r : ℕ}
    → (failure_behaviors type).crash_after_ms ≡ some c
    → (failure_behaviors type).rebalance_after_ms ≡ some r
    → w.timers ≡ []
    → now + r ≤ until
    → (advance until (inject_failure now id type w)).nodes
      ≡ update_node id moved (
          update_node id crashed
            (update_node id (suspected (failure_of now id type) (failure_behaviors type)) w.nodes))
unfolding advance inject_failure fire_timers run_action enqueue
inject_hard-nodes now until id node_crash w ec er e h = ground arith
inject_hard-nodes now until id heartbeat_timeout w ec er e h = ground arith
inject_hard-nodes now until id disk_full w ec er e h = ground arith
inject_hard-nodes now until id wal_corruption w ec er e h = ground arith
inject_hard-nodes now until id _ w ec er e h = absurd (ground arith)

soft_nodes :
    (now until id : ℕ) (type : FailureType) (w : World)
    → (failure_behaviors type).crash_after_ms ≡ none
    → w.timers ≡ []
    → (advance until (inject_failure now id type w)).nodes
      ≡ update_node id (suspected (failure_of now id type) (failure_behaviors type)) w.nodes
unfolding advance inject_failure fire_timers
soft_nodes now until id high_cpu w ec e = ground arith
soft_nodes now until id high_latency w ec e = ground arith
soft_nodes now until id sstable_corruption w ec e = ground arith
soft_nodes now until id readonly_disk w ec e = ground arith
soft_nodes now until id network_partition w ec e = ground arith
soft_nodes now until id _ w ec e = absurd (ground arith)

recover_nodes :
    (now until id : ℕ) (w : World)
    → w.timers ≡ []
    → now + 3500 ≤ until
    → (advance until (recover_node now id w)).nodes
      ≡ update_node id (rejoined id) (update_node id returning w.nodes)
unfolding advance recover_node fire_timers run_action enqueue
recover_nodes now until id w e h = ground arith

undone_nodes :
    (now d until id : ℕ) (type : FailureType) (w : World) {c r : ℕ}
    → (failure_behaviors type).crash_after_ms ≡ some c
    → (failure_behaviors type).rebalance_after_ms ≡ some r
    → w.timers ≡ []
    → d + 3500 < r
    → now + r ≤ until
    → (advance until
        (recover_node (now + d) id (advance (now + d) (inject_failure now id type w)))).nodes
      ≡ update_node id moved (
          update_node id (rejoined id) (
            update_node id crashed (
              update_node id returning (
                update_node id
                  (suspected (failure_of now id type) (failure_behaviors type))
                  w.nodes))))
unfolding advance inject_failure recover_node fire_timers run_action enqueue
undone_nodes now d until id node_crash w ec er e h u = ground arith
undone_nodes now d until id heartbeat_timeout w ec er e h u = ground arith
undone_nodes now d until id disk_full w ec er e h u = ground arith
undone_nodes now d until id wal_corruption w ec er e h u = ground arith
undone_nodes now d until id _ w ec er e h u = absurd (ground arith)

-- A node crash, a heartbeat timeout, a full disk or a corrupt WAL takes the node all the way: with
-- no timer pending, once the rebalance delay is over the node is REBALANCING, with the lag of a
-- dead node and the failure still on it.
pub inject_hard_outcome :
    (now until id : ℕ) (type : FailureType) (w : World) {c r : ℕ} {n : NodeRuntimeState}
    → (failure_behaviors type).crash_after_ms ≡ some c
    → (failure_behaviors type).rebalance_after_ms ≡ some r
    → w.timers ≡ []
    → now + r ≤ until
    → node_at id w.nodes ≡ some n
    → node_at id (advance until (inject_failure now id type w)).nodes
      ≡ some (record n {
        state = rebalancing;
        active_failure = some (failure_of now id type);
        lag_ms = some 99990;
        cpu_boost = some 0;
      })
inject_hard_outcome now until id type w {c} {r} {n} ec er e h at =
    ap (node_at id) (inject_hard-nodes now until id type w ec er e h)
    ∙ node_at-update id moved _ (λ m. refl)
        (node_at-update id crashed _ (λ m. refl)
          (node_at-update id (suspected (failure_of now id type) (failure_behaviors type)) _
            (λ m. refl) at))

-- Every other failure, a network partition among them, leaves the node SUSPECT with the lag and the
-- load of its kind, however long one waits.
inject_soft_outcome :
    (now until id : ℕ) (type : FailureType) (w : World) {n : NodeRuntimeState}
    → (failure_behaviors type).crash_after_ms ≡ none
    → w.timers ≡ []
    → node_at id w.nodes ≡ some n
    → node_at id (advance until (inject_failure now id type w)).nodes
      ≡ some (record n {
        state = suspect;
        active_failure = some (failure_of now id type);
        lag_ms = some (failure_behaviors type).lag_ms;
        cpu_boost = some (failure_behaviors type).cpu_boost;
      })
inject_soft_outcome now until id type w {n} ec e at =
    ap (node_at id) (soft_nodes now until id type w ec e)
    ∙ node_at-update id (suspected (failure_of now id type) (failure_behaviors type)) _ (λ m. refl)
        at

-- Recovery takes a node back to HEALTHY with no failure, from any state, when no timer is pending
-- and 3.5 seconds have passed.
recover_node_outcome :
    (now until id : ℕ) (w : World) {n : NodeRuntimeState}
    → w.timers ≡ []
    → now + 3500 ≤ until
    → node_at id w.nodes ≡ some n
    → node_at id (advance until (recover_node now id w)).nodes
      ≡ some (record n {
        state = healthy;
        active_failure = none;
        lag_ms = some (10 + 8 * id);
        cpu_boost = some 0;
      })
recover_node_outcome now until id w {n} e h at =
    ap (node_at id) (recover_nodes now until id w e h)
    ∙ node_at-update id (rejoined id) _ (λ m. refl) (node_at-update id returning _ (λ m. refl) at)

-- A recovery does not cancel the timers of the failure. When it comes more than 3.5 seconds
-- before the rebalance is due, the node rejoins and is then moved to REBALANCING for good, with
-- no failure on it.
pub early_recovery_undone :
    (now d until id : ℕ) (type : FailureType) (w : World) {c r : ℕ} {n : NodeRuntimeState}
    → (failure_behaviors type).crash_after_ms ≡ some c
    → (failure_behaviors type).rebalance_after_ms ≡ some r
    → w.timers ≡ []
    → d + 3500 < r
    → now + r ≤ until
    → node_at id w.nodes ≡ some n
    → node_at id
        (advance until
          (recover_node (now + d) id (advance (now + d) (inject_failure now id type w)))).nodes
      ≡ some (record n {
        state = rebalancing;
        active_failure = none;
        lag_ms = some (10 + 8 * id);
        cpu_boost = some 0;
      })
early_recovery_undone now d until id type w {c} {r} {n} ec er e h u at =
    ap (node_at id) (undone_nodes now d until id type w ec er e h u)
    ∙ node_at-update id moved _ (λ m. refl)
        (node_at-update id (rejoined id) _ (λ m. refl)
          (node_at-update id crashed _ (λ m. refl)
            (node_at-update id returning _ (λ m. refl)
              (node_at-update id (suspected (failure_of now id type) (failure_behaviors type)) _
                (λ m. refl) at))))

abbrev target : Action → ℕ
target (crashes id type) = id
target (rebalances id) = id
target (rejoins id) = id

-- The timers that are pending are all the node's.
abbrev pub OnlyOf : ℕ → List Timer → Type 0
OnlyOf id = All (λ t. target t.action ≡ id)

run_action-other :
    (now id j : ℕ) (a : Action) (w : World)
    → target a ≡ id
    → j ≢ id
    → node_at j (run_action now a w).nodes ≡ node_at j w.nodes
unfolding run_action
run_action-other now id j (crashes i type) w e h =
    node_at-update_ne i j crashed w.nodes (λ p. h (p ∙ e)) (λ m. refl)
run_action-other now id j (rebalances i) w e h =
    node_at-update_ne i j moved w.nodes (λ p. h (p ∙ e)) (λ m. refl)
run_action-other now id j (rejoins i) w e h =
    node_at-update_ne i j (rejoined i) w.nodes (λ p. h (p ∙ e)) (λ m. refl)

fire_timers-other :
    (until id j : ℕ) (ts : List Timer) (w : World)
    → OnlyOf id ts
    → j ≢ id
    → node_at j (fire_timers until ts w).nodes ≡ node_at j w.nodes
unfolding fire_timers
fire_timers-other until id j [] w o h = refl
fire_timers-other until id j (t ∷ ts) w o h =
    if_cases {A = World} (λ u. node_at j u.nodes ≡ node_at j w.nodes) (leb t.due until)
      (λ _. fire_timers-other until id j ts _ o.1 h ∙ run_action-other t.due id j t.action w o.0 h)
      (λ _. refl)

enqueue-OnlyOf :
    (id : ℕ) (t : Timer) (ts : List Timer)
    → target t.action ≡ id
    → OnlyOf id ts
    → OnlyOf id (enqueue t ts)
unfolding enqueue
enqueue-OnlyOf id t [] e o = (e, tt)
enqueue-OnlyOf id t (u ∷ us) e o =
    if_cases (OnlyOf id) (leb u.due t.due) (λ _. (o.0, enqueue-OnlyOf id t us e o.1)) (λ _. (e, o))

set_timeout-OnlyOf :
    (now id : ℕ) (delay : Option ℕ) (a : Action) (ts : List Timer)
    → target a ≡ id
    → OnlyOf id ts
    → OnlyOf id (set_timeout now delay a ts)
set_timeout-OnlyOf now id none a ts e o = o
set_timeout-OnlyOf now id (some delay) a ts e o = enqueue-OnlyOf id _ ts e o

-- Neither a failure nor a recovery of a node, nor the timers that they leave, touches another
-- node, as long as only the one node's timers are pending.
pub other_node_unchanged :
    (now until id j : ℕ) (type : FailureType) (w : World)
    → OnlyOf id w.timers
    → j ≢ id
    → (node_at j (advance until (inject_failure now id type w)).nodes ≡ node_at j w.nodes)
      × (node_at j (advance until (recover_node now id w)).nodes ≡ node_at j w.nodes)
unfolding advance inject_failure recover_node
other_node_unchanged now until id j type w o h = (
  fire_timers-other until id j _ _
        (set_timeout-OnlyOf now id behavior.rebalance_after_ms (rebalances id)
          (set_timeout now behavior.crash_after_ms (crashes id type) w.timers) refl
          (set_timeout-OnlyOf now id behavior.crash_after_ms (crashes id type) w.timers refl o))
        h
      ∙ node_at-update_ne id j (suspected (failure_of now id type) behavior) w.nodes h (λ m. refl),
  fire_timers-other until id j _ _
        (set_timeout-OnlyOf now id (some 3500) (rejoins id) w.timers refl o) h
      ∙ node_at-update_ne id j returning w.nodes h (λ m. refl),
)
  where
    behavior : FailureBehavior
    behavior = failure_behaviors type
