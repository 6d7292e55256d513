-- ===== src/Widgets/LsmTree/Stuck.antt =====
-- LSMTreeDiagram.tsx: the flush and the compaction that start by themselves do not end.
use lsmkv_enterprise.Common.{
  ◌≡◌, refl, sym, subst, true, ◌||◌, not, none, List, [], ◌∷◌, arith, if_cases,
}
use lsmkv_enterprise.Widgets.LsmTree.{
  idle, immutable, to_immutable, to_flushing, to_done, to_idle, LsmView, is_idle, auto_flush,
  auto_fire_of, click_fire_of, auto_compact, handle_flush, flush_answered, handle_compact,
  compact_answered, LsmEvent, memory_changes, queue_changes, auto_fires, click_fires, compact_fires,
  presses_flush, presses_compact, flush_answers, compact_answers, flush_msg_expires,
  compact_msg_expires, lsm_step, lsm_run,
}

-- An immutable memtable that no timer will flush.
abbrev pub IsStuck : LsmView → Type 0
IsStuck v = (v.flush_phase ≡ immutable) × (v.auto_timers ≡ []) × (v.click_timers ≡ [])

auto_flush-IsStuck :
    (v : LsmView) → v.flush_phase ≡ immutable → v.click_timers ≡ [] → IsStuck (auto_flush v)
unfolding auto_flush
auto_flush-IsStuck v p c = (p, ground arith, c)

auto_compact-IsStuck : (v : LsmView) → IsStuck v → IsStuck (auto_compact v)
unfolding auto_compact
auto_compact-IsStuck v s = if_cases IsStuck _ (λ _. s) (λ _. s)

lsm_step-IsStuck : (e : LsmEvent) (v : LsmView) → IsStuck v → IsStuck (lsm_step e v)
unfolding lsm_step handle_flush handle_compact flush_answered compact_answered
lsm_step-IsStuck (memory_changes hot) v (p, a, c) = auto_flush-IsStuck (record v { hot = hot }) p c
lsm_step-IsStuck (queue_changes q) v s = auto_compact-IsStuck (record v { compaction_queue = q }) s
lsm_step-IsStuck auto_fires v (p, a, c) =
    subst (λ ts. IsStuck (auto_fire_of ts v)) (sym a) (p, a, c)
lsm_step-IsStuck click_fires v (p, a, c) =
    subst (λ ts. IsStuck (click_fire_of ts v)) (sym c) (p, a, c)
lsm_step-IsStuck compact_fires v s =
    if_cases IsStuck v.compact_timer
      (λ _. auto_compact-IsStuck (record v { compacting_level = none }) s) (λ _. s)
lsm_step-IsStuck presses_flush v (p, a, c) =
    if_cases IsStuck (not (is_idle v.flush_phase) || v.flush_loading) (λ _. (p, a, c))
      (λ e. absurd (ground arith))
lsm_step-IsStuck presses_compact v s =
    if_cases IsStuck v.compact_loading (λ _. s) (λ _. auto_compact-IsStuck _ s)
lsm_step-IsStuck (flush_answers answer) v s = if_cases IsStuck v.flush_loading (λ _. s) (λ _. s)
lsm_step-IsStuck (compact_answers answer) v s =
    if_cases IsStuck v.compact_loading (λ _. auto_compact-IsStuck _ s) (λ _. s)
lsm_step-IsStuck flush_msg_expires v s = s
lsm_step-IsStuck compact_msg_expires v s = s

lsm_run-IsStuck : (es : List LsmEvent) (v : LsmView) → IsStuck v → IsStuck (lsm_run es v)
unfolding lsm_run
lsm_run-IsStuck [] v s = s
lsm_run-IsStuck (e ∷ es) v s = lsm_run-IsStuck es (lsm_step e v) (lsm_step-IsStuck e v s)

-- A flush that starts by itself never ends: once the memtable is hot while the diagram is idle and no
-- click's timer is pending, the first timer makes it immutable, and no events whatever, clicks on
-- the flush too, lead away from there.
pub auto_flush-stays :
    (v : LsmView) (es : List LsmEvent)
    → v.flush_phase ≡ idle
    → v.click_timers ≡ []
    → (lsm_run (memory_changes true ∷ auto_fires ∷ es) v).flush_phase ≡ immutable
unfolding lsm_run lsm_step auto_flush
auto_flush-stays v es p c =
    let timers : (auto_flush (record v { hot = true })).auto_timers
        ≡ to_immutable ∷ to_flushing ∷ to_done ∷ to_idle ∷ [] =
      ground arith in
    (subst (λ ts. IsStuck (lsm_run es (auto_fire_of ts (auto_flush (record v { hot = true })))))
      (sym timers)
      (lsm_run-IsStuck es _ (
        auto_flush-IsStuck
          (record v {
            hot = true;
            flush_phase = immutable;
            auto_timers = to_flushing ∷ to_done ∷ to_idle ∷ [];
          })
          refl c))).0
