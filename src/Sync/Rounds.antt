-- ===== src/Sync/Rounds.antt =====
-- syncEngine.ts: what rounds of the polling loop leave in the store.
use lsmkv_enterprise.Common.{
  ℕ, ◌+◌, Bool, true, ◌≡◌, refl, ap, ◌∙◌, false, Option, none, some, List, [], ◌∷◌, ◌++◌, map,
  arith, length, All, Option-cases, inl, inr,
}
use lsmkv_enterprise.Api.{NodeStorage}
use lsmkv_enterprise.ClusterStore.{ClusterStoreState, ClusterStore, set_state}
use lsmkv_enterprise.Sync.{
  Settled, fulfilled, rejected, StorageReply, malformed, nodes, Replies, colored, or_current,
  or_current_some, merge_storage, do_refresh,
}

-- The storage reply, if there is one, is a list.
abbrev pub IsWellFormed : Replies → Type 0
IsWellFormed r = r.storage ≡ fulfilled malformed → ⊥

-- Rounds at their times, one after another.
unfoldable pub do_refreshes : List (ℕ × Replies) → ClusterStore → ClusterStore
do_refreshes [] s = s
do_refreshes ((now, r) ∷ rs) s = do_refreshes rs (do_refresh now r s)

-- The value of the last promise that was fulfilled.
abbrev pub last_fulfilled {ℓ} : {A : Type ℓ} → List (Settled A) → Option A
last_fulfilled [] = none
last_fulfilled (x ∷ xs) = elim (last_fulfilled xs) [
  | some a ↦ some a
  | none ↦ elim x [ fulfilled a ↦ some a | rejected ↦ none ]
]

abbrev pub or_before {ℓ} : {A : Type ℓ} → Option A → A → A
or_before none d = d
or_before (some a) d = a

abbrev pub or_before_some {ℓ} : {A : Type ℓ} → Option A → Option A → Option A
or_before_some none d = d
or_before_some (some a) d = some a

-- The replies of the rounds for one part of the state.
abbrev pub slot {ℓ} : {A : Type ℓ} → (Replies → A) → List (ℕ × Replies) → List A
slot f rs = map (λ e. f e.1) rs

-- The list of the storage reply, each node with the color of its id.
abbrev pub storage_list : Settled StorageReply → Settled (List NodeStorage)
storage_list rejected = rejected
storage_list (fulfilled malformed) = rejected
storage_list (fulfilled (nodes ns)) = fulfilled (map colored ns)

-- The last item, or what there was before if there is none.
abbrev pub last_or {ℓ} : {A : Type ℓ} → List A → A → A
last_or [] d = d
last_or (x ∷ xs) d = last_or xs x

-- The cluster information came.
abbrev pub has_answered : Replies → Bool
has_answered r = elim r.cluster [ fulfilled a ↦ true | rejected ↦ false ]

-- One round, for each part of the state.
record IsRound (now : ℕ) (r : Replies) (s t : ClusterStoreState) : Type 0 where
  node_infos : t.node_infos ≡ or_current r.node_infos s.node_infos
  snapshots : t.snapshots ≡ or_current r.snapshots s.snapshots
  storage_data : t.storage_data ≡ or_current (storage_list r.storage) s.storage_data
  cluster_info : t.cluster_info ≡ or_current_some r.cluster s.cluster_info
  replication_data : t.replication_data ≡ or_current_some r.replication s.replication_data
  last_sync_at : t.last_sync_at ≡ some now
  last_sync_epoch : t.last_sync_epoch ≡ s.last_sync_epoch + 1
  connected : t.connected ≡ has_answered r

round :
    (now : ℕ) (r : Replies) (s : ClusterStore)
    → IsWellFormed r
    → IsRound now r s.state (do_refresh now r s).state
unfolding do_refresh merge_storage set_state
round now r s w = record {
  node_infos = ground (arith, w);
  snapshots = ground (arith, w);
  storage_data = ground (arith, w);
  cluster_info = ground (arith, w);
  replication_data = ground (arith, w);
  last_sync_at = ground (arith, w);
  last_sync_epoch = ground (arith, w);
  connected = ground (arith, w);
}

last-step {ℓ} :
    {A : Type ℓ} (x : Settled A) (xs : List (Settled A)) (d : A)
    → or_before (last_fulfilled xs) (or_current x d) ≡ or_before (last_fulfilled (x ∷ xs)) d
last-step {A = A} x xs d = go x (last_fulfilled xs)
  where
    go :
        (x : Settled A) (o : Option A)
        → or_before o (or_current x d)
          ≡ or_before
              (elim o [
                | some a ↦ some a
                | none ↦ elim x [ fulfilled a ↦ some a | rejected ↦ none ]
              ])
              d
    go (fulfilled a) none = refl
    go rejected none = refl
    go (fulfilled a) (some b) = refl
    go rejected (some b) = refl

last-step_some {ℓ} :
    {A : Type ℓ} (x : Settled A) (xs : List (Settled A)) (d : Option A)
    → or_before_some (last_fulfilled xs) (or_current_some x d)
      ≡ or_before_some (last_fulfilled (x ∷ xs)) d
last-step_some {A = A} x xs d = go x (last_fulfilled xs)
  where
    go :
        (x : Settled A) (o : Option A)
        → or_before_some o (or_current_some x d)
          ≡ or_before_some
              (elim o [
                | some a ↦ some a
                | none ↦ elim x [ fulfilled a ↦ some a | rejected ↦ none ]
              ])
              d
    go (fulfilled a) none = refl
    go rejected none = refl
    go (fulfilled a) (some b) = refl
    go rejected (some b) = refl

-- After any rounds whose storage replies are lists, each of the eight fields of the state is right:
-- the nodes, the snapshots, the storage, the cluster and the replication are what the last fulfilled
-- fetch for them brought, the storage with the colors of the nodes' ids, or what they were before if
-- none was fulfilled; the time is that of the last round and the epoch has grown by the number of
-- rounds; and the store is connected if the last round's fetch of the cluster was fulfilled.
pub do_refreshes-latest :
    (rs : List (ℕ × Replies)) (s : ClusterStore)
    → All (λ e. IsWellFormed e.1) rs
    → let t = (do_refreshes rs s).state in
      (t.node_infos ≡ or_before (last_fulfilled (slot (λ r. r.node_infos) rs)) s.state.node_infos)
      × (t.snapshots ≡ or_before (last_fulfilled (slot (λ r. r.snapshots) rs)) s.state.snapshots)
      × (t.storage_data
          ≡ or_before (last_fulfilled (slot (λ r. storage_list r.storage) rs)) s.state.storage_data)
      × (t.cluster_info
          ≡ or_before_some (last_fulfilled (slot (λ r. r.cluster) rs)) s.state.cluster_info)
      × (t.replication_data
          ≡ or_before_some (last_fulfilled (slot (λ r. r.replication) rs)) s.state.replication_data)
      × (t.last_sync_at ≡ last_or (map (λ e. some e.0) rs) s.state.last_sync_at)
      × (t.last_sync_epoch ≡ s.state.last_sync_epoch + length rs)
      × (t.connected ≡ last_or (slot has_answered rs) s.state.connected)
unfolding do_refreshes
do_refreshes-latest [] s w = (refl, refl, refl, refl, refl, refl, omega arith, refl)
do_refreshes-latest ((now, r) ∷ rs) s w =
    let (a, b, c, d, e, f, g, h) = do_refreshes-latest rs (do_refresh now r s) w.1 in
    let o = round now r s w.0 in
    (
      a
          ∙ (ap (or_before (last_fulfilled (slot (λ q. q.node_infos) rs))) o.node_infos
              ∙ last-step r.node_infos (slot (λ q. q.node_infos) rs) _),
      b
          ∙ (ap (or_before (last_fulfilled (slot (λ q. q.snapshots) rs))) o.snapshots
              ∙ last-step r.snapshots (slot (λ q. q.snapshots) rs) _),
      c
          ∙ (ap (or_before (last_fulfilled (slot (λ q. storage_list q.storage) rs))) o.storage_data
              ∙ last-step (storage_list r.storage) (slot (λ q. storage_list q.storage) rs) _),
      d
          ∙ (ap (or_before_some (last_fulfilled (slot (λ q. q.cluster) rs))) o.cluster_info
              ∙ last-step_some r.cluster (slot (λ q. q.cluster) rs) _),
      e
          ∙ (ap (or_before_some (last_fulfilled (slot (λ q. q.replication) rs))) o.replication_data
              ∙ last-step_some r.replication (slot (λ q. q.replication) rs) _),
      f ∙ ap (last_or (map (λ q. some q.0) rs)) o.last_sync_at,
      g ∙ omega (arith, o.last_sync_epoch),
      h ∙ ap (last_or (slot has_answered rs)) o.connected,
    )

-- A storage reply that is no list loses the whole round: the store is only marked as not
-- connected, although the other fetches may be fulfilled.
do_refresh_malformed :
    (now : ℕ) (r : Replies) (s : ClusterStore)
    → r.storage ≡ fulfilled malformed
    → let current : ClusterStoreState = s.state in
      (do_refresh now r s).state ≡ record current { connected = false }
unfolding do_refresh merge_storage set_state
do_refresh_malformed now r s e = ground arith

-- Whatever the replies, a round calls every listener once, in order, with the new state.
do_refresh-calls :
    (now : ℕ) (r : Replies) (s : ClusterStore)
    → (do_refresh now r s).calls
      ≡ s.calls ++ map (λ fn. (fn, (do_refresh now r s).state)) s.listeners
unfolding do_refresh set_state
do_refresh-calls now r s = elim (Option-cases (merge_storage r.storage s.state.storage_data)) [
  | inl e ↦ rw (e, do_refresh) refl
  | inr (a, e) ↦ rw (e, do_refresh) refl
]
