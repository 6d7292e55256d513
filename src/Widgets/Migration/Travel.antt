-- ===== src/Widgets/Migration/Travel.antt =====
-- RebalancingTokens.tsx: how many tokens there are.
use lsmkv_enterprise.Common.{
  ℕ, ◌≤◌, Option, none, some, List, [], ◌∷◌, map, arith, ltb, nat_eq, length, slice_last,
  length-append, length-slice_last, length-filter-le, length-map,
}
use lsmkv_enterprise.Ring.{RingNode}
use lsmkv_enterprise.Widgets.Migration.{
  MigrationView, migrated, spawn_from, spawn_migration, travel, arrives_after, migration_tick,
}

migrated-few :
    (src_idx : ℕ) (src : RingNode) (o : Option RingNode) (label : ℕ) (v : MigrationView)
    → length v.tokens ≤ 21
    → length (migrated src_idx src o label v).tokens ≤ 21
migrated-few src_idx src none label v h = h
migrated-few src_idx src (some dst) label v h =
    omega (arith, length-append (slice_last 20 v.tokens) (_ ∷ []), length-slice_last 20 v.tokens)

spawn_from-few :
    (nodes : List RingNode) (src_idx : ℕ) (o : Option RingNode) (dst label : ℕ) (v : MigrationView)
    → length v.tokens ≤ 21
    → length (spawn_from nodes src_idx o dst label v).tokens ≤ 21
spawn_from-few nodes src_idx none dst label v h = h
spawn_from-few nodes src_idx (some src) dst label v h = migrated-few src_idx src _ label v h

-- There are never more than 21 tokens: a new one keeps the last 20 of before, and a frame adds none.
migration-few :
    (nodes : List RingNode) (src_idx dst label : ℕ) (v : MigrationView)
    → length v.tokens ≤ 21
    → (length (spawn_migration nodes src_idx dst label v).tokens ≤ 21)
      × (length (migration_tick v).tokens ≤ 21)
unfolding spawn_migration migration_tick
migration-few nodes src_idx dst label v h = (
  spawn_from-few nodes src_idx _ dst label v h,
  omega (
    arith,
    length-filter-le (λ t. ltb t.progress arrives_after) (map travel v.tokens),
    length-map travel v.tokens,
  ),
)
