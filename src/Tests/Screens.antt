-- ===== src/Tests/Screens.antt =====
-- The pages, on concrete states.
use lsmkv_enterprise.Common.{
  ℕ, zero, suc, ◌+◌, ◌*◌, ◌≤◌, ◌/◌, ◌≡◌, refl, Bool, true, false, none, some, List, [], ◌∷◌, ◌++◌,
  Text, text, text_beq, decimal, arith, All, any, ◌==◌, nat_eq, get_elem?, filter, slice_last,
  text_eq,
}
use lsmkv_enterprise.Failure.{
  NodeRuntimeState, healthy, unreachable, ClusterEvent, node_state_changed,
}
use lsmkv_enterprise.Api.{SnapshotRecord, SnapshotStatus, ready, creating}
use lsmkv_enterprise.JsMap
use lsmkv_enterprise.Socket.{closed}
use lsmkv_enterprise.Screens.PageSocket.{
  PageSocket, keeps_timer, leaves, timer_ends, page_socket_step,
}
use lsmkv_enterprise.Context.{ClusterSnapshot, initial_cluster, new_node}
use lsmkv_enterprise.Log.{initial}
use lsmkv_enterprise.Screens.Timeline.{
  Player, significant_from, significant, find_place, current_idx, toggle_play, play_tick,
  current_snap,
}
use lsmkv_enterprise.Screens.Timeline.Playback.{ticks, ticks-shows, toggle_play_at_end}
use lsmkv_enterprise.Screens.Rebalance.{opened_page, start_rebalance, fmt_secs, is_done}
use lsmkv_enterprise.Screens.Rebalance.Progress.{
  count_ticks, HasEnded, start_rebalance-ends, fmt_secs-late,
}
use lsmkv_enterprise.Screens.SnapshotPage.{
  SnapshotPage, is_optimistic, has_id, merge_store, total_ms, restore_answered,
}
use lsmkv_enterprise.Screens.SnapshotPage.Merge.{DistinctIds, Extends, merge_store-merges}
use lsmkv_enterprise.Screens.SnapshotPage.Restoring.{
  restore_ticks, HasRestored, restore_answered-ends,
}
use lsmkv_enterprise.Log.{debug, warn, wal}
use lsmkv_enterprise.Screens.LogPage.{
  initial_filter, filtered, handle_event, is_significant, timeline_events,
}
use lsmkv_enterprise.Screens.LogPage.Toggles.{
  FilterClick, level_click, component_click, clicks, IsUsable, clicks-IsUsable,
}
use lsmkv_enterprise.Screens.LogPage.Events.{entry_of, handle_event-shown}
use lsmkv_enterprise.Screens.Overview.{Overview, opened_overview, flash_effect}
use lsmkv_enterprise.Screens.Overview.Flashing.{has_changed, flash_effect-changes}

abbrev snap_at : ℕ → Text → ClusterSnapshot
snap_at time label = record { time = time; nodes = []; partitions = []; label = label }

abbrev recorded : List ClusterSnapshot
recorded = snap_at 1 (text "periodic") ∷ snap_at 2 (text "periodic") ∷ snap_at 3 (text "Crash") ∷ []

abbrev replaying : Bool → ℕ → Player
replaying playing next_pos = record {
  cluster = record initial_cluster {
    history = recorded;
    replay_mode = true;
    replay_index = some 2;
  };
  playing = playing;
  next_pos = next_pos;
}

ticks-shows_example :
    ((ticks 2 (replaying true 0)).playing ≡ true)
    × ((ticks 2 (replaying true 0)).next_pos ≡ 2)
    × (current_snap (ticks 2 (replaying true 0)).cluster ≡ some (snap_at 3 (text "Crash")))
unfolding significant significant_from text_beq
ticks-shows_example =
    ticks-shows 1 (replaying true 0) {i = 2} {s = snap_at 3 (text "Crash")} refl refl

toggle_play_at_end_example :
    ((toggle_play (replaying false 2)).playing ≡ true)
    × (current_snap (toggle_play (replaying false 2)).cluster ≡ some (snap_at 1 (text "periodic")))
    × ((play_tick (toggle_play (replaying false 2))).playing ≡ false)
    × (current_snap (play_tick (toggle_play (replaying false 2))).cluster
        ≡ some (snap_at 1 (text "periodic")))
unfolding significant significant_from text_beq current_idx find_place
toggle_play_at_end_example =
    toggle_play_at_end (replaying false 2) {k = 1} {x = (0, snap_at 1 (text "periodic"))} refl refl
      refl refl refl

abbrev slow_ticks : ℕ → List (ℕ × ℕ)
slow_ticks zero = []
slow_ticks (suc n) = (0, 16) ∷ slow_ticks n

start_rebalance-ends_example :
    HasEnded 100 (count_ticks (slow_ticks 100) (start_rebalance 3 5000 opened_page))
    × (is_done (count_ticks (slow_ticks 100) (start_rebalance 3 5000 opened_page)) ≡ true)
start_rebalance-ends_example =
    start_rebalance-ends 3 5000 opened_page (slow_ticks 100) (omega arith) (omega arith)

fmt_secs-late_example :
    (m : ℕ) × (s : ℕ) × (fmt_secs 61 ≡ decimal m ++ text "m " ++ decimal s ++ text "s")
    × (m * 60 + s ≡ 121)
fmt_secs-late_example = fmt_secs-late 61 (omega arith) (omega arith)

abbrev saved : Text → SnapshotStatus → SnapshotRecord
saved id status = record {
  id = id;
  name = id;
  created_at = text "2024-01-01";
  size_mb = 1;
  status = status;
  node_count = 3;
}

abbrev shown_before : List SnapshotRecord
shown_before = saved (text "c") creating ∷ saved (text "a") creating ∷ saved (text "old") ready ∷ []

abbrev merged_now : List SnapshotRecord
merged_now = merge_store (saved (text "a") ready ∷ saved (text "b") ready ∷ []) shown_before

merge_store-merges_example :
    DistinctIds merged_now
    × Extends merged_now (saved (text "a") ready ∷ saved (text "b") ready ∷ [])
    × All (λ o. any (has_id o.id) merged_now ≡ true) (filter is_optimistic shown_before)
unfolding text_beq
merge_store-merges_example =
    merge_store-merges (saved (text "a") ready) (saved (text "b") ready ∷ []) shown_before
      (refl, (refl, tt))

abbrev asked_restore : SnapshotPage
asked_restore = record {
  snapshots = shown_before;
  name = [];
  is_creating = false;
  create_progress = 0;
  create_interval = false;
  restoring_id = some (text "old");
  restore_progress = 0;
  restore_interval = none;
  deleting_id = none;
  toast = none;
  selected = none;
  calls = [];
}

restore_answered-ends_example :
    (k : ℕ) × (k ≤ total_ms (some 2) / 80 + 2)
    × HasRestored
        (text "Restored")
        (restore_ticks k (restore_answered (some 2) (text "Restored") asked_restore))
restore_answered-ends_example = restore_answered-ends (some 2) (text "Restored") asked_restore refl

abbrev filter_clicks : List FilterClick
filter_clicks = level_click debug ∷ component_click wal ∷ level_click debug ∷ level_click warn ∷ []

clicks-IsUsable_example : IsUsable (clicks filter_clicks initial_filter)
clicks-IsUsable_example = clicks-IsUsable filter_clicks

abbrev lost_node : ClusterEvent
lost_node = record {
  type = node_state_changed;
  node_id = some 1;
  node_state = some unreachable;
  failure = none;
  partition = none;
  message = text "node1 is UNREACHABLE";
  timestamp = 7;
}

handle_event-shown_example :
    (filtered (λ s. s) initial_filter (handle_event (text "12:00:00") lost_node initial).entries
      ≡ slice_last 299 initial.entries ++ entry_of (text "12:00:00") lost_node initial ∷ [])
    × (timeline_events (handle_event (text "12:00:00") lost_node initial).entries
        ≡ slice_last 19 (filter is_significant (slice_last 299 initial.entries))
          ++ entry_of (text "12:00:00") lost_node initial ∷ [])
handle_event-shown_example = handle_event-shown (λ s. s) (text "12:00:00") lost_node initial refl

abbrev overview_nodes : List NodeRuntimeState
overview_nodes = new_node 0 ∷ record (new_node 1) { state = unreachable } ∷ []

abbrev noted : Overview
noted = record opened_overview { prev_states = (0, healthy) ∷ (1, healthy) ∷ [] }

flash_effect-changes_example :
    ((k : ℕ)
      → any (λ y. y == k) (flash_effect overview_nodes noted).flash_ids
        ≡ any (has_changed k noted.prev_states) overview_nodes)
    × ((i : ℕ) (n : NodeRuntimeState)
        → get_elem? overview_nodes i ≡ some n
        → JsMap.get n.id (flash_effect overview_nodes noted).prev_states ≡ some n.state)
flash_effect-changes_example = flash_effect-changes overview_nodes noted (refl, (refl, tt)) refl

abbrev waiting : PageSocket
waiting = record {
  mounted = true;
  connected = false;
  ws_ref = none;
  reconnect_ref = some 2;
  sockets = record { id = 1; ready_state = closed; on_close = true } ∷ [];
  timers = 2 ∷ [];
  next_id = 3;
}

abbrev left_and_fired : PageSocket
left_and_fired =
    page_socket_step keeps_timer (timer_ends 2) (page_socket_step keeps_timer leaves waiting)
