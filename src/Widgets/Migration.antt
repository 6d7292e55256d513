-- ===== src/Widgets/Migration.antt =====
-- components/hashring/RebalancingTokens.tsx: the tokens that travel along the ring. `_tokenId` is a
-- field, a random index is an argument, and progress is a number of steps of 0.018: `arrives_after` of
-- them are the first whose sum is above 1.05.
pub mod Travel
use lsmkv_enterprise.Common.{
  ℕ, zero, suc, ◌+◌, ◌%◌, Bool, true, false, not, Option, none, some, List, [], ◌∷◌, ◌++◌, map,
  Text, text, decimal, ◌==◌, nat_eq, ltb, if◌then◌else◌, length, filter, find, get_elem?,
  slice_last,
}
use lsmkv_enterprise.Ring.{RingNode}

pub record MigrationToken : Type 0 where
  pub id : ℕ
  pub from_angle : ℕ
  pub to_angle : ℕ
  pub progress : ℕ
  pub color : Option Text
  pub label : Text

pub record MigrationView : Type 0 where
  pub tokens : List MigrationToken
  pub token_id : ℕ
  pub moving : Bool  -- whether the two intervals are set

abbrev pub node_colors : List Text
node_colors =
    text "#60a5fa"
    ∷ text "#4ade80"
    ∷ text "#facc15"
    ∷ text "#c084fc"
    ∷ text "#f472b6"
    ∷ text "#2dd4bf"
    ∷ []

-- The effect on the nodes.
unfoldable pub migration_changed : List RingNode → List ℕ → MigrationView → MigrationView
migration_changed nodes [] v = record v { tokens = []; moving = false }
migration_changed nodes (id ∷ ids) v =
    if ltb (length nodes) 2
    then record v { tokens = []; moving = false }
    else record v { moving = true }

abbrev pub migrated : ℕ → RingNode → Option RingNode → ℕ → MigrationView → MigrationView
migrated src_idx src none label v = v
migrated src_idx src (some dst) label v = record v {
  tokens =
      slice_last 20 v.tokens
      ++ record {
        id = v.token_id;
        from_angle = src.angle;
        to_angle = dst.angle;
        progress = 0;
        color = get_elem? node_colors (src_idx % 6);
        label = text "k" ++ decimal label;
      }
        ∷ [];
  token_id = suc v.token_id;
}

-- The ring's ids are one above those of the cluster.
abbrev pub spawn_from : List RingNode → ℕ → Option RingNode → ℕ → ℕ → MigrationView → MigrationView
spawn_from nodes src_idx none dst label v = v
spawn_from nodes src_idx (some src) dst label v =
    migrated src_idx src (get_elem? (filter (λ n. not (n.id == src.id)) nodes) dst) label v

unfoldable pub spawn_migration : List RingNode → ℕ → ℕ → ℕ → MigrationView → MigrationView
spawn_migration nodes src_idx dst label v =
    spawn_from nodes src_idx (find (λ n. n.id == suc src_idx) nodes) dst label v

abbrev pub arrives_after : ℕ
arrives_after = 59

abbrev pub travel : MigrationToken → MigrationToken
travel t = record t { progress = suc t.progress }

unfoldable pub migration_tick : MigrationView → MigrationView
migration_tick v = record v {
  tokens = filter (λ t. ltb t.progress arrives_after) (map travel v.tokens);
}
