-- ===== src/Tests/Animations.antt =====
-- The components, on concrete events.
use lsmkv_enterprise.Common.{
  ◌+◌, trim, some, ◌≡◌, refl, true, false, none, List, [], ◌∷◌, map, Text, text, arith, All, length,
}
use lsmkv_enterprise.Widgets.ReadPath.{PathView, not_found, run_animation, shown_count, fire_paths}
use lsmkv_enterprise.Widgets.ReadPath.Search.{run_animation-loses}
use lsmkv_enterprise.Widgets.Bloom.{
  BloomView, empty_view, BloomEvent, types, sets, looks_up, runs, resolves, bloom_run,
}
use lsmkv_enterprise.Widgets.Bloom.Answers.{AnswersRight, bloom_run-answers}
use lsmkv_enterprise.Widgets.LsmTree.{
  LsmView, idle, immutable, LsmEvent, memory_changes, auto_fires, presses_flush, lsm_run,
}
use lsmkv_enterprise.Widgets.LsmTree.Stuck.{auto_flush-stays}
use lsmkv_enterprise.Widgets.Compaction.{initial_animator}
use lsmkv_enterprise.Widgets.Compaction.Cycle.{count, compaction, HasCompacted, compaction-counts}
use lsmkv_enterprise.Widgets.Trace.{TraceStep, get_query, build_get_steps, trace_timers, fire_trace}
use lsmkv_enterprise.Widgets.Trace.Timers.{ended, InOrder, trace_timers-end}
use lsmkv_enterprise.Widgets.Toasts.{
  no_toasts, ToastEvent, toasts_of, clicks_on, times_out, toast_run,
}
use lsmkv_enterprise.Widgets.Toasts.Dismissal.{fire_times, toast_run-dismissed}

abbrev filter_clicks : List BloomEvent
filter_clicks =
    types (text "a")
    ∷ sets
    ∷ types (text "a")
    ∷ looks_up
    ∷ runs 1
    ∷ runs 0
    ∷ types (text "b")
    ∷ looks_up
    ∷ []

abbrev used_filter : BloomView
used_filter = bloom_run filter_clicks empty_view

bloom_run-answers_example :
    All AnswersRight used_filter.pending
    × ((key : Text) → AnswersRight (resolves key used_filter.bits used_filter.inserted_keys))
bloom_run-answers_example = bloom_run-answers filter_clicks

abbrev resting : LsmView
resting = record {
  hot = false;
  compaction_queue = none;
  flush_phase = idle;
  compacting_level = none;
  new_block_flash = none;
  flush_loading = false;
  compact_loading = false;
  flush_msg = none;
  compact_msg = none;
  auto_timers = [];
  click_timers = [];
  compact_timer = false;
}

abbrev tries : List LsmEvent
tries = presses_flush ∷ memory_changes false ∷ auto_fires ∷ presses_flush ∷ []

auto_flush-stays_example :
    (lsm_run (memory_changes true ∷ auto_fires ∷ tries) resting).flush_phase ≡ immutable
auto_flush-stays_example = auto_flush-stays resting tries refl refl

compaction-counts_example :
    HasCompacted (count 2 (initial_animator 0).blocks) (compaction (initial_animator 0))
unfolding initial_animator
compaction-counts_example = compaction-counts (initial_animator 0) (omega arith)

abbrev read_steps : List TraceStep
read_steps = build_get_steps (text "key_1") [] (λ i. i)

trace_timers-end_example :
    InOrder 2000 (trace_timers get_query none 0 2000 read_steps)
    × (fire_trace (trace_timers get_query none 0 2000 read_steps) read_steps
        ≡ map (ended get_query none) read_steps)
trace_timers-end_example = trace_timers-end get_query none read_steps

abbrev toast_events : List ToastEvent
toast_events =
    toasts_of (text "Flush") (text "done")
    ∷ toasts_of (text "Compact") (text "done")
    ∷ clicks_on 0
    ∷ times_out
    ∷ toasts_of (text "Snapshot") (text "done")
    ∷ []

toast_run-dismissed_example :
    (fire_times
      (length (toast_run toast_events no_toasts).timers)
      (toast_run toast_events no_toasts)).toasts
    ≡ []
toast_run-dismissed_example = toast_run-dismissed toast_events

abbrev idle_search : PathView
idle_search = record {
  key_input = text "apple";
  steps = [];
  running = false;
  found_at = none;
  timers = [];
}

abbrev searched_path : PathView
searched_path = run_animation (3 ∷ 2 ∷ 1 ∷ []) 0 1 (λ i. i + 2) idle_search

run_animation-loses_example :
    (fire_paths searched_path.timers searched_path).found_at ≡ some not_found
unfolding trim shown_count
run_animation-loses_example =
    run_animation-loses (3 ∷ 2 ∷ 1 ∷ []) 0 1 (λ i. i + 2) idle_search {c = 97} {key = text "pple"}
      refl refl refl (omega arith)
