-- ===== src/Widgets/Compaction.antt =====
-- components/storage/CompactionAnimator.tsx: the blocks of three levels. `_blockId` is a field, and
-- `timerRef` holds the phase whose callback is pending.
pub mod Cycle
use lsmkv_enterprise.Common.{
  ℕ, zero, suc, ◌+◌, Bool, true, false, not, Option, none, some, List, [], ◌∷◌, ◌++◌, map, ◌==◌,
  nat_eq, ltb, if◌then◌else◌, length, filter, take,
}

pub record Block : Type 0 where
  pub id : ℕ
  pub level : ℕ
  pub slot : ℕ
  pub merging : Bool

pub data Phase : Type 0 where
  idle merging flushing done : Phase

-- The callbacks of phases 2, 3 and 4.
pub data CompactionTimer : Type 0 where
  merges_l0 compacts_l1 refills_l0 : CompactionTimer

pub record Animator : Type 0 where
  pub running : Bool
  pub blocks : List Block
  pub phase : Phase
  pub timer : Option CompactionTimer
  pub block_id : ℕ

abbrev pub block : ℕ → ℕ → ℕ → Block
block id level slot = record { id = id; level = level; slot = slot; merging = false }

unfoldable pub initial_animator : ℕ → Animator
initial_animator n = record {
  running = false;
  blocks =
      block n 0 0
      ∷ block (n + 1) 0 1
      ∷ block (n + 2) 0 2
      ∷ block (n + 3) 1 0
      ∷ block (n + 4) 1 1
      ∷ block (n + 5) 2 0
      ∷ [];
  phase = idle;
  timer = none;
  block_id = n + 6;
}

abbrev pub at_level : ℕ → Block → Bool
at_level l b = b.level == l

abbrev pub on_level : ℕ → List Block → List Block
on_level l bs = filter (at_level l) bs

abbrev pub off_level : ℕ → List Block → List Block
off_level l bs = filter (λ b. not (at_level l b)) bs

unfoldable pub mark_merging : Block → Block
mark_merging b = if at_level 0 b then record b { merging = true } else b

unfoldable pub start_compaction : Animator → Animator
start_compaction a = record a {
  running = true;
  phase = merging;
  blocks = map mark_merging a.blocks;
  timer = some merges_l0;
}

-- Phase 2.
unfoldable pub merge_l0 : ℕ → List Block → List Block
merge_l0 id prev =
    let without0 = off_level 0 prev in without0 ++ block id 1 (length (on_level 1 without0)) ∷ []

abbrev settle : Block → Block
settle b = record b { merging = false }

-- Phase 3, where there are two blocks of level 1 or more.
unfoldable pub compact_l1 : ℕ → List Block → List Block
compact_l1 id prev =
    let without_l1 = off_level 1 prev in
    without_l1
    ++ map settle (take 1 (on_level 1 prev))
    ++ block id 2 (length (on_level 2 without_l1)) ∷ []

-- Phase 4.
unfoldable pub refill_l0 : ℕ → List Block → List Block
refill_l0 id prev = prev ++ block id 0 0 ∷ block (suc id) 0 1 ∷ []

abbrev pub run_timer : CompactionTimer → Animator → Animator
run_timer merges_l0 a = record a {
  phase = flushing;
  blocks = merge_l0 a.block_id a.blocks;
  block_id = suc a.block_id;
  timer = some compacts_l1;
}
run_timer compacts_l1 a =
    if ltb (length (on_level 1 a.blocks)) 2
    then record a { timer = some refills_l0 }
    else record a {
      blocks = compact_l1 a.block_id a.blocks;
      block_id = suc a.block_id;
      timer = some refills_l0;
    }
run_timer refills_l0 a = record a {
  blocks = refill_l0 a.block_id a.blocks;
  block_id = a.block_id + 2;
  phase = done;
  running = false;
  timer = none;
}

abbrev fire_of : Option CompactionTimer → Animator → Animator
fire_of none a = a
fire_of (some t) a = run_timer t a

unfoldable pub fire : Animator → Animator
fire a = fire_of a.timer a
