-- ===== src/Context/Replay.antt =====
-- ClusterContext.tsx: the replay of the recorded snapshots.
use lsmkv_enterprise.Common.{
  ℕ, zero, suc, ◌+◌, ◌≤◌, ◌<◌, ◌≡◌, ◌⊎◌, refl, sym, true, false, none, some, List, [], ◌∷◌, ◌++◌,
  arith, Text, ℤ, pos, negsuc, ltb, if◌then◌else◌, if_cases, length, get_elem?, slice_last,
  slice_last_all,
}
use lsmkv_enterprise.Context.{
  Cluster, ClusterSnapshot, record_snapshot, start_replay, stop_replay, step_replay, clamp_index,
  replay_effect, effective_nodes, effective_partitions,
}

-- What a snapshot of a render holds.
abbrev pub taken : ℕ → Text → Cluster → ClusterSnapshot
taken now label seen = record {
  time = now;
  nodes = seen.world.nodes;
  partitions = seen.partitions;
  label = label;
}

cut_to_200 :
    (h : List ClusterSnapshot)
    → (if ltb 200 (length h) then slice_last 200 h else h) ≡ slice_last 200 h
cut_to_200 h =
    if_cases (λ x. x ≡ slice_last 200 h) (ltb 200 (length h)) (λ _. refl)
      (λ e. sym (slice_last_all 200 h (below e)))
  where
    below : ltb 200 (length h) ≡ false → length h ≤ 200
    below e = ground arith

-- A snapshot of the render goes to the end of the history, which keeps its last 200.
record_snapshot-history :
    (now : ℕ) (label : Text) (seen c : Cluster)
    → (record_snapshot now label seen c).history
      ≡ slice_last 200 (c.history ++ taken now label seen ∷ [])
unfolding record_snapshot
record_snapshot-history now label seen c = cut_to_200 (c.history ++ taken now label seen ∷ [])

get_elem?_in :
    (xs : List ClusterSnapshot) (i : ℕ)
    → i < length xs
    → (x : ClusterSnapshot) × (get_elem? xs i ≡ some x)
get_elem?_in [] i h = absurd (omega arith)
get_elem?_in (x ∷ xs) zero h = (x, refl)
get_elem?_in (x ∷ xs) (suc i) h = get_elem?_in xs i (omega arith)

clamp_index-lt : (count prev : ℕ) (d : ℤ) → 0 < count → clamp_index count prev d < count
clamp_index-lt count prev (pos d) h = omega arith
clamp_index-lt count prev (negsuc d) h = omega arith

-- The index that a step by a delta from `prev` should land on in a history of `count` snapshots: the
-- one that is so far away, or the last one beyond the end, or the first one before the start.
abbrev pub LandsAt : ℕ → ℕ → ℤ → ℕ → Type 0
LandsAt count prev (pos d) i =
    ((prev + d < count) × (i ≡ prev + d)) ⊎ ((count ≤ prev + d) × (suc i ≡ count))
LandsAt count prev (negsuc d) i =
    ((prev < suc d) × (i ≡ 0))
    ⊎ (((prev < count + suc d) × (i + suc d ≡ prev)) ⊎ ((count + suc d ≤ prev) × (suc i ≡ count)))

clamp_index-lands :
    (count prev : ℕ) (d : ℤ) → 0 < count → LandsAt count prev d (clamp_index count prev d)
clamp_index-lands count prev (pos d) h = ground arith
clamp_index-lands count prev (negsuc d) h = ground arith

-- A step of a replay over a history that is not empty lands on a recorded snapshot and shows its
-- nodes and partitions: the one that is the delta away, forwards or backwards, but no further than
-- the last snapshot or the first one.
pub step_replay_lands :
    (delta : ℤ) (c : Cluster) {prev : ℕ}
    → c.replay_index ≡ some prev
    → c.replay_mode ≡ true
    → 0 < length c.history
    → (i : ℕ) × (snap : ClusterSnapshot) × LandsAt (length c.history) prev delta i
      × (get_elem? c.history i ≡ some snap)
      × ((step_replay delta c).replay_index ≡ some i)
      × (effective_nodes (step_replay delta c) ≡ snap.nodes)
      × (effective_partitions (step_replay delta c) ≡ snap.partitions)
unfolding step_replay effective_nodes effective_partitions
step_replay_lands delta c {prev} e m h =
    let next = clamp_index (length c.history) prev delta in
    let (snap, at) = get_elem?_in c.history next (clamp_index-lt (length c.history) prev delta h) in
    (
      next,
      snap,
      clamp_index-lands (length c.history) prev delta h,
      at,
      ground arith,
      ground (arith, at),
      ground (arith, at),
    )

-- Stopping a replay shows the live state again, whatever was replayed.
stop_replay_live :
    (c : Cluster)
    → (effective_nodes (stop_replay c) ≡ c.world.nodes)
      × (effective_partitions (stop_replay c) ≡ c.partitions)
unfolding stop_replay effective_nodes effective_partitions
stop_replay_live c = (refl, refl)

-- Starting a replay shows, after the effect, the recorded state at the index; past the end of the
-- history it shows the live state.
start_replay_shows :
    (i : ℕ) (c : Cluster)
    → effective_nodes (replay_effect (start_replay i c))
      ≡ (elim (get_elem? c.history i) [ none ↦ c.world.nodes | some snap ↦ snap.nodes ])
unfolding start_replay replay_effect effective_nodes
start_replay_shows i c = ground arith
