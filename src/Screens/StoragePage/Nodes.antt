-- ===== src/Screens/StoragePage/Nodes.antt =====
-- Storage.tsx: the nodes that are shown, and the ids of the events.
use lsmkv_enterprise.Common.{
  ℕ, zero, suc, ◌+◌, ◌≤◌, ◌<◌, ◌≡◌, refl, ap, ◌∙◌, sym, some, List, [], ◌∷◌, ◌++◌, map, Text, text,
  arith, ◌==◌, nat_eq, find, ltb, if_cases, length, get_elem?, take, length-take, All, All-map,
}
use lsmkv_enterprise.Failure.{NodeRuntimeState}
use lsmkv_enterprise.Api.{NodeStorage, SnapshotRecord}
use lsmkv_enterprise.Screens.StoragePage.{
  StorageEvent, flush_start, flush_done, compact_start, compact_done, snapshot, storage_event,
  newest_name, StoragePage, make_fallback_node, or_fallback, all_nodes, safe_id, shown_node,
  flush_complete, compact_complete, snapshots_changed,
}

backend_node-id :
    (nodes : List NodeStorage) (i : ℕ) → (or_fallback i (find (λ n. n.id == i) nodes)).id ≡ i
unfolding make_fallback_node
backend_node-id [] i = refl
backend_node-id (n ∷ nodes) i =
    if_cases (λ o. (or_fallback i o).id ≡ i) (n.id == i) (λ e. ground arith)
      (λ _. backend_node-id nodes i)

-- The page shows one node for each node of the cluster, in its order and with its id, whatever the
-- backend knows of.
all_nodes-ids :
    (nodes : List NodeStorage) (runtime : List NodeRuntimeState)
    → map (λ n. n.id) (all_nodes nodes runtime) ≡ map (λ n. n.id) runtime
unfolding all_nodes
all_nodes-ids nodes [] = refl
all_nodes-ids nodes (rn ∷ runtime) =
    ap (λ i. i ∷ map (λ n. n.id) (all_nodes nodes runtime)) (backend_node-id nodes rn.id)
    ∙ ap (◌∷◌ rn.id) (all_nodes-ids nodes runtime)

found :
    (ns : List NodeStorage) (k : ℕ) → k < length ns → (n : NodeStorage) × (get_elem? ns k ≡ some n)
found [] k h = absurd (omega arith)
found (n ∷ ns) zero h = (n, refl)
found (n ∷ ns) (suc k) h = found ns k (omega arith)

-- A selection is always shown as a node of the cluster, if there is one, even after it was removed.
shown_node-listed :
    (selected : ℕ) (ns : List NodeStorage)
    → 0 < length ns
    → get_elem? ns (safe_id selected ns) ≡ some (shown_node selected ns)
unfolding safe_id shown_node
shown_node-listed selected ns h =
    let (n, e) = found ns (safe_id selected ns) (omega arith) in
    e ∙ ap some (sym (ap (or_fallback (safe_id selected ns)) e))

-- At most 20 events, of which none has an id that is still to be given.
abbrev pub HasEvents : StoragePage → Type 0
HasEvents p = (length p.events ≤ 20) × All (λ e. e.id < p.event_id) p.events

take-All :
    (P : StorageEvent → Type 0) (n : ℕ) (es : List StorageEvent) → All P es → All P (take n es)
take-All P zero es h = tt
take-All P (suc n) [] h = tt
take-All P (suc n) (e ∷ es) (h, hs) = (h, take-All P n es hs)

later : (i j : ℕ) (es : List StorageEvent) → i ≤ j → All (λ e. e.id < i) es → All (λ e. e.id < j) es
later i j es h = All-map (λ e k. omega (arith, h)) es

pub data StorageChange : Type 0 where
  flushes compacts : Text → Text → StorageChange
  snapshots_arrive : Text → List SnapshotRecord → StorageChange

unfoldable pub storage_step : StorageChange → StoragePage → StoragePage
storage_step (flushes ts node) p = flush_complete ts node p
storage_step (compacts ts node) p = compact_complete ts node p
storage_step (snapshots_arrive ts snapshots) p = snapshots_changed ts snapshots p

with_one :
    (p : StoragePage) (a : StorageEvent)
    → a.id ≡ p.event_id
    → HasEvents p
    → (length (take 20 (a ∷ p.events)) ≤ 20)
      × All (λ e. e.id < suc p.event_id) (take 20 (a ∷ p.events))
with_one p a i (few, below) = (
  omega (arith, length-take 20 (a ∷ p.events)),
  take-All (λ e. e.id < suc p.event_id) 20 (a ∷ p.events)
      (omega (arith, i), later p.event_id (suc p.event_id) p.events (omega arith) below),
)

with_two :
    (p : StoragePage) (a b : StorageEvent)
    → a.id ≡ p.event_id
    → b.id ≡ suc p.event_id
    → HasEvents p
    → (length (take 20 (a ∷ b ∷ p.events)) ≤ 20)
      × All (λ e. e.id < p.event_id + 2) (take 20 (a ∷ b ∷ p.events))
with_two p a b i j (few, below) = (
  omega (arith, length-take 20 (a ∷ b ∷ p.events)),
  take-All (λ e. e.id < p.event_id + 2) 20 (a ∷ b ∷ p.events)
      (
        omega (arith, i),
        (omega (arith, j), later p.event_id (p.event_id + 2) p.events (omega arith) below),
      ),
)

-- Every change keeps at most 20 events, with ids below the next one.
storage_step-HasEvents :
    (c : StorageChange) (p : StoragePage) → HasEvents p → HasEvents (storage_step c p)
unfolding storage_step flush_complete compact_complete snapshots_changed
storage_step-HasEvents (flushes ts node) p h =
    with_two p (storage_event p.event_id ts flush_start (text "Flush Started") node)
      (storage_event (suc p.event_id) ts flush_done (text "Flush Finished") node) refl refl h
storage_step-HasEvents (compacts ts node) p h =
    with_two p (storage_event p.event_id ts compact_start (text "Compaction Started") node)
      (storage_event (suc p.event_id) ts compact_done (text "Compaction Finished") node) refl refl h
storage_step-HasEvents (snapshots_arrive ts snapshots) p h =
    let new =
      storage_event p.event_id ts snapshot (text "Snapshot Created: " ++ newest_name snapshots)
        (text "all nodes") in
    if_cases HasEvents (ltb p.prev_snap_count (length snapshots))
      {x = record p {
        events = take 20 (new ∷ p.events);
        event_id = suc p.event_id;
        prev_snap_count = length snapshots;
      }}
      {y = record p { prev_snap_count = length snapshots }} (λ _. with_one p new refl h) (λ _. h)
