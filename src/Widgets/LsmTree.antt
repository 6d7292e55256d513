-- ===== src/Widgets/LsmTree.antt =====
-- components/storage/LSMTreeDiagram.tsx: the flush and the compaction of the diagram. `hot` says
-- whether the memtable is at 85 percent or above. An effect runs again when what it reads has
-- changed, after its cleanup, which clears the timers that it had set; those of a click stay. A
-- message leaves out its leading symbol.
pub mod Stuck
use lsmkv_enterprise.Common.{
  ℕ, zero, suc, Bool, true, false, ◌&&◌, ◌||◌, not, Option, none, some, List, [], ◌∷◌, ◌++◌, Text,
  text, ◌==◌, nat_eq, ltb, if◌then◌else◌, find,
}
use lsmkv_enterprise.Api.{SstableLevel}

pub data FlushPhase : Type 0 where
  idle immutable flushing done : FlushPhase

-- The callbacks of the flush's timers.
pub data FlushTimer : Type 0 where
  to_immutable to_flushing to_done to_idle : FlushTimer

pub record LsmView : Type 0 where
  pub hot : Bool
  pub compaction_queue : Option ℕ
  pub flush_phase : FlushPhase
  pub compacting_level : Option ℕ
  pub new_block_flash : Option ℕ
  pub flush_loading : Bool
  pub compact_loading : Bool
  pub flush_msg : Option Text
  pub compact_msg : Option Text
  pub auto_timers : List FlushTimer
  pub click_timers : List FlushTimer
  pub compact_timer : Bool

abbrev pub is_idle : FlushPhase → Bool
is_idle idle = true
is_idle _ = false

-- The effect that starts a flush by itself, with its cleanup.
unfoldable pub auto_flush : LsmView → LsmView
auto_flush v = record v {
  auto_timers =
      if v.hot && is_idle v.flush_phase
      then to_immutable ∷ to_flushing ∷ to_done ∷ to_idle ∷ []
      else [];
}

-- A callback, and the effect that follows the change of the phase.
abbrev pub flush_turn : FlushTimer → LsmView → LsmView
flush_turn to_immutable v = auto_flush (record v { flush_phase = immutable })
flush_turn to_flushing v = auto_flush (record v { flush_phase = flushing })
flush_turn to_done v = auto_flush (record v { flush_phase = done; new_block_flash = some 0 })
flush_turn to_idle v = auto_flush (record v { flush_phase = idle; new_block_flash = none })

abbrev pub auto_fire_of : List FlushTimer → LsmView → LsmView
auto_fire_of [] v = v
auto_fire_of (t ∷ ts) v = flush_turn t (record v { auto_timers = ts })

abbrev pub click_fire_of : List FlushTimer → LsmView → LsmView
click_fire_of [] v = v
click_fire_of (t ∷ ts) v = flush_turn t (record v { click_timers = ts })

abbrev wants_compaction : LsmView → Bool
wants_compaction v = elim v.compaction_queue [
  | none ↦ false
  | some n ↦ ltb 0 n && (elim v.compacting_level [ none ↦ true | some l ↦ false ])
]

-- The effect that starts a compaction, with its cleanup; as it changes the level, it runs again.
unfoldable pub auto_compact : LsmView → LsmView
auto_compact v =
    if wants_compaction v
    then record v { compacting_level = some 0; compact_timer = false }
    else record v { compact_timer = false }

unfoldable pub handle_flush : LsmView → LsmView
handle_flush v =
    if not (is_idle v.flush_phase) || v.flush_loading
    then v
    else auto_flush (record v {
      flush_loading = true;
      flush_msg = none;
      flush_phase = immutable;
      click_timers = v.click_timers ++ to_flushing ∷ to_done ∷ to_idle ∷ [];
    })

-- The answer's `simulated`, or an exception.
abbrev pub outcome_msg : Text → Text → Option Bool → Text
outcome_msg what simulated none = what ++ text " complete (simulated)"
outcome_msg what simulated (some false) = what ++ text " complete"
outcome_msg what simulated (some true) = what ++ text " complete" ++ simulated

unfoldable pub flush_answered : Option Bool → LsmView → LsmView
flush_answered answer v = record v {
  flush_msg = some (outcome_msg (text "Flush") (text " (simulated — nodes offline)") answer);
  flush_loading = false;
}

unfoldable pub handle_compact : LsmView → LsmView
handle_compact v =
    if v.compact_loading
    then v
    else auto_compact
        (record v { compact_loading = true; compact_msg = none; compacting_level = some 0 })

unfoldable pub compact_answered : Option Bool → LsmView → LsmView
compact_answered answer v = auto_compact (record v {
  compact_msg = some (outcome_msg (text "Compact") (text " (simulated)") answer);
  compact_loading = false;
  compacting_level = none;
})

pub data LsmEvent : Type 0 where
  memory_changes : Bool → LsmEvent
  queue_changes : Option ℕ → LsmEvent
  auto_fires click_fires : LsmEvent
  compact_fires : LsmEvent
  presses_flush presses_compact : LsmEvent
  flush_answers compact_answers : Option Bool → LsmEvent
  flush_msg_expires compact_msg_expires : LsmEvent

unfoldable pub lsm_step : LsmEvent → LsmView → LsmView
lsm_step (memory_changes hot) v = auto_flush (record v { hot = hot })
lsm_step (queue_changes queue) v = auto_compact (record v { compaction_queue = queue })
lsm_step auto_fires v = auto_fire_of v.auto_timers v
lsm_step click_fires v = click_fire_of v.click_timers v
lsm_step compact_fires v =
    if v.compact_timer then auto_compact (record v { compacting_level = none }) else v
lsm_step presses_flush v = handle_flush v
lsm_step presses_compact v = handle_compact v
lsm_step (flush_answers answer) v = if v.flush_loading then flush_answered answer v else v
lsm_step (compact_answers answer) v = if v.compact_loading then compact_answered answer v else v
lsm_step flush_msg_expires v = record v { flush_msg = none }
lsm_step compact_msg_expires v = record v { compact_msg = none }

unfoldable pub lsm_run : List LsmEvent → LsmView → LsmView
lsm_run [] v = v
lsm_run (e ∷ es) v = lsm_run es (lsm_step e v)

-- The levels 0 to 3, an empty one where there is no data.
abbrev level_data : List SstableLevel → ℕ → SstableLevel
level_data sstables lvl = elim (find (λ s. s.level == lvl) sstables) [
  | none ↦ record { level = lvl; count = 0; size_mb = 0 }
  | some s ↦ s
]

unfoldable pub shown_levels : List SstableLevel → List SstableLevel
shown_levels sstables =
    level_data sstables 0
    ∷ level_data sstables 1
    ∷ level_data sstables 2
    ∷ level_data sstables 3
    ∷ []
