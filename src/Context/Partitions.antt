-- ===== src/Context/Partitions.antt =====
-- ClusterContext.tsx: network partitions as links without direction.
use lsmkv_enterprise.Common.{
  ℕ, ◌≡◌, refl, ◌∙◌, Bool, true, false, not, List, [], ◌∷◌, ◌++◌, arith, nat_eq, if_cases, filter,
  any,
}
use lsmkv_enterprise.Failure.{NetworkPartition}
use lsmkv_enterprise.Simulation.{create_partition}
use lsmkv_enterprise.Context.{
  Cluster, joins, is_partitioned, dispatch_partition, dispatch_heal_partition,
}

module _ (p : NetworkPartition → Bool) where
  filter-not_none :
      (ps : List NetworkPartition) → any p ps ≡ false → filter (λ q. not (p q)) ps ≡ ps
  filter-not_none [] h = refl
  filter-not_none (q ∷ ps) h = ground (arith, filter-not_none ps)

  filter-append_drop :
      (ps : List NetworkPartition) (q : NetworkPartition)
      → p q ≡ true
      → filter (λ r. not (p r)) (ps ++ q ∷ []) ≡ filter (λ r. not (p r)) ps
  filter-append_drop [] q h = ground arith
  filter-append_drop (r ∷ ps) q h = ground (arith, filter-append_drop ps q h)

  any-append_true :
      (ps : List NetworkPartition) (q : NetworkPartition) → p q ≡ true → any p (ps ++ q ∷ []) ≡ true
  any-append_true [] q h = ground arith
  any-append_true (r ∷ ps) q h = ground (arith, any-append_true ps q h)

  any-filter-not : (ps : List NetworkPartition) → any p (filter (λ r. not (p r)) ps) ≡ false
  any-filter-not [] = refl
  any-filter-not (r ∷ ps) = ground (arith, any-filter-not ps)

any-joins_comm : (a b : ℕ) (ps : List NetworkPartition) → any (joins a b) ps ≡ any (joins b a) ps
any-joins_comm a b [] = refl
any-joins_comm a b (p ∷ ps) = ground (arith, any-joins_comm a b ps)

-- Whether two nodes are partitioned does not depend on their order.
is_partitioned_comm : (a b : ℕ) (c : Cluster) → is_partitioned a b c ≡ is_partitioned b a c
unfolding is_partitioned
is_partitioned_comm a b c = any-joins_comm a b c.partitions

joins_self : (a b now : ℕ) → joins a b (record { from = a; to = b; started_at = now }) ≡ true
joins_self a b now = ground arith

dispatched :
    (now a b : ℕ) (c : Cluster) → is_partitioned a b (dispatch_partition now a b c c) ≡ true
unfolding is_partitioned dispatch_partition create_partition
dispatched now a b c =
    if_cases {A = Cluster} (λ d. any (joins a b) d.partitions ≡ true) (any (joins a b) c.partitions)
      (λ e. e) (λ _. any-append_true (joins a b) c.partitions _ (joins_self a b now))

healed :
    (now a b : ℕ) (c : Cluster) → is_partitioned a b (dispatch_heal_partition now a b c) ≡ false
unfolding is_partitioned dispatch_heal_partition
healed now a b c = any-filter-not (joins a b) c.partitions

-- After `dispatchPartition` from an up-to-date render the two nodes are partitioned, either way
-- round; after `dispatchHealPartition` they are not.
pub is_partitioned-dispatch :
    (now a b : ℕ) (c : Cluster)
    → (is_partitioned a b (dispatch_partition now a b c c) ≡ true)
      × (is_partitioned b a (dispatch_partition now a b c c) ≡ true)
      × (is_partitioned a b (dispatch_heal_partition now a b c) ≡ false)
      × (is_partitioned b a (dispatch_heal_partition now a b c) ≡ false)
is_partitioned-dispatch now a b c = (
  dispatched now a b c,
  is_partitioned_comm b a (dispatch_partition now a b c c) ∙ dispatched now a b c,
  healed now a b c,
  is_partitioned_comm b a (dispatch_heal_partition now a b c) ∙ healed now a b c,
)

-- Healing takes back what `dispatchPartition` did: between nodes that were not partitioned the
-- list of partitions is as before.
heal-dispatch_partition :
    (now later a b : ℕ) (c : Cluster)
    → is_partitioned a b c ≡ false
    → (dispatch_heal_partition later a b (dispatch_partition now a b c c)).partitions ≡ c.partitions
unfolding is_partitioned dispatch_partition dispatch_heal_partition create_partition
heal-dispatch_partition now later a b c h =
    if_cases {A = Cluster} (λ d. filter (λ p. not (joins a b p)) d.partitions ≡ c.partitions)
      (any (joins a b) c.partitions) (λ e. absurd (ground arith))
      (λ _.
        filter-append_drop (joins a b) c.partitions _ (joins_self a b now)
        ∙ filter-not_none (joins a b) c.partitions h)

-- No link stands twice, either way round.
abbrev pub NoRepeats : List NetworkPartition → Type 0
NoRepeats [] = Unit {0}
NoRepeats (p ∷ ps) = (any (joins p.from p.to) ps ≡ false) × NoRepeats ps

any-filter-false :
    (p q : NetworkPartition → Bool) (ps : List NetworkPartition)
    → any p ps ≡ false
    → any p (filter q ps) ≡ false
any-filter-false p q [] h = refl
any-filter-false p q (r ∷ ps) h = ground (arith, any-filter-false p q ps)

filter-NoRepeats :
    (q : NetworkPartition → Bool) (ps : List NetworkPartition)
    → NoRepeats ps
    → NoRepeats (filter q ps)
filter-NoRepeats q [] n = tt
filter-NoRepeats q (p ∷ ps) n =
    if_cases NoRepeats (q p)
      (λ _. (any-filter-false (joins p.from p.to) q ps n.0, filter-NoRepeats q ps n.1))
      (λ _. filter-NoRepeats q ps n.1)

any-append_false :
    (p : NetworkPartition → Bool) (ps : List NetworkPartition) (q : NetworkPartition)
    → any p ps ≡ false
    → p q ≡ false
    → any p (ps ++ q ∷ []) ≡ false
any-append_false p [] q h k = ground arith
any-append_false p (r ∷ ps) q h k = ground (arith, any-append_false p ps q)

append-NoRepeats :
    (ps : List NetworkPartition) (q : NetworkPartition)
    → NoRepeats ps
    → any (joins q.from q.to) ps ≡ false
    → NoRepeats (ps ++ q ∷ [])
append-NoRepeats [] q n h = (refl, tt)
append-NoRepeats (p ∷ ps) q n h = (
  any-append_false (joins p.from p.to) ps q n.0 (ground arith),
  append-NoRepeats ps q n.1 (ground arith),
)

-- From an up-to-date render neither call makes a second partition between two nodes.
pub dispatch-NoRepeats :
    (now a b : ℕ) (c : Cluster)
    → NoRepeats c.partitions
    → NoRepeats (dispatch_partition now a b c c).partitions
      × NoRepeats (dispatch_heal_partition now a b c).partitions
unfolding dispatch_partition dispatch_heal_partition create_partition
dispatch-NoRepeats now a b c n = (
  if_cases {A = Cluster} (λ d. NoRepeats d.partitions) (any (joins a b) c.partitions) (λ _. n)
      (λ e. append-NoRepeats c.partitions _ n e),
  filter-NoRepeats _ c.partitions n,
)
