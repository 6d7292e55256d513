-- ===== src/Screens/LogPage/Events.antt =====
-- Logs.tsx: what the page shows of an event, and its counts.
use lsmkv_enterprise.Common.{
  ℕ, suc, ◌+◌, ◌≡◌, refl, sym, ap, ◌∙◌, Bool, true, some, List, [], ◌∷◌, ◌++◌, Text, arith, length,
  filter, Bool-cases, inl, inr, any, ◌==◌, text_beq, slice_last, slice_last-push,
}
use lsmkv_enterprise.Failure.{ClusterEvent, unreachable}
use lsmkv_enterprise.Log.{
  LogLevel, debug, info, warn, error, success, LogComponent, wal, replication, compaction, snapshot,
  heartbeat, election, storage, cluster, LogEntry, LogStore, push,
}
use lsmkv_enterprise.Screens.LogPage.{
  LevelCounts, bump, count_levels, event_level, cluster_event_to_log, handle_event, filtered,
  passes_filter, initial_filter, all_levels, all_components, level_eq, component_eq, is_significant,
  timeline_events,
}

abbrev pub sum_of : LevelCounts → ℕ
sum_of c = c.debugs + c.infos + c.warns + c.errors + c.successes

sum_of-bump : (l : LogLevel) (c : LevelCounts) → sum_of (bump l c) ≡ suc (sum_of c)
sum_of-bump debug c = omega arith
sum_of-bump info c = omega arith
sum_of-bump warn c = omega arith
sum_of-bump error c = omega arith
sum_of-bump success c = omega arith

-- The counts of the levels add up to the number of entries.
count_levels-sum :
    (logs : List LogEntry) (c : LevelCounts) → sum_of (count_levels logs c) ≡ sum_of c + length logs
unfolding count_levels
count_levels-sum [] c = omega arith
count_levels-sum (l ∷ logs) c =
    omega (arith, count_levels-sum logs (bump l.level c), sum_of-bump l.level c)

level_active : (l : LogLevel) → any (◌==◌ l) initial_filter.active_levels ≡ true
unfolding initial_filter all_levels
level_active debug = refl
level_active info = refl
level_active warn = refl
level_active error = refl
level_active success = refl

component_active : (c : LogComponent) → any (◌==◌ c) initial_filter.active_components ≡ true
unfolding initial_filter all_components
component_active wal = refl
component_active replication = refl
component_active compaction = refl
component_active snapshot = refl
component_active heartbeat = refl
component_active election = refl
component_active storage = refl
component_active cluster = refl

passes_filter-initial :
    (lower : Text → Text) (l : LogEntry) → passes_filter lower initial_filter l ≡ true
unfolding passes_filter initial_filter text_beq
passes_filter-initial lower l =
    rw (level_active l.level, passes_filter) (rw (component_active l.component, passes_filter) refl)

filtered-initial_filter :
    (lower : Text → Text) (logs : List LogEntry) → filtered lower initial_filter logs ≡ logs
unfolding filtered
filtered-initial_filter lower [] = refl
filtered-initial_filter lower (l ∷ logs) =
    rw (passes_filter-initial lower l, filtered) (ap (◌∷◌ l) (filtered-initial_filter lower logs))

filter-push :
    (p : LogEntry → Bool) (xs : List LogEntry) (x : LogEntry)
    → p x ≡ true
    → filter p (xs ++ x ∷ []) ≡ filter p xs ++ x ∷ []
filter-push p [] x h = rw h refl
filter-push p (y ∷ xs) x h = elim (Bool-cases (p y)) [
  | inl e ↦ rw e (ap (◌∷◌ y) (filter-push p xs x h))
  | inr e ↦ rw e (filter-push p xs x h)
]

event_level-unreachable :
    (ev : ClusterEvent) → ev.node_state ≡ some unreachable → event_level ev ≡ error
unfolding event_level
event_level-unreachable ev h = ground arith

-- The entry that the handler adds for an event.
abbrev pub entry_of : Text → ClusterEvent → LogStore → LogEntry
entry_of ts ev log = record { id = log.next_id; line = cluster_event_to_log ts ev }

entry_of-significant :
    (ts : Text) (ev : ClusterEvent) (log : LogStore)
    → ev.node_state ≡ some unreachable
    → is_significant (entry_of ts ev log) ≡ true
unfolding cluster_event_to_log
entry_of-significant ts ev log h = rw (event_level-unreachable ev h) refl

-- An event that a node is unreachable is the last entry that a page with its first filter shows,
-- after the last 299 of before, and also the last one of the page's timeline.
pub handle_event-shown :
    (lower : Text → Text) (ts : Text) (ev : ClusterEvent) (log : LogStore)
    → ev.node_state ≡ some unreachable
    → (filtered lower initial_filter (handle_event ts ev log).entries
        ≡ slice_last 299 log.entries ++ entry_of ts ev log ∷ [])
      × (timeline_events (handle_event ts ev log).entries
          ≡ slice_last 19 (filter is_significant (slice_last 299 log.entries))
            ++ entry_of ts ev log ∷ [])
unfolding handle_event push timeline_events
handle_event-shown lower ts ev log h =
    let window = sym (slice_last-push 299 log.entries (entry_of ts ev log)) in
    (
      filtered-initial_filter lower _ ∙ window,
      ap (λ xs. slice_last 20 (filter is_significant xs)) window
          ∙ (ap (slice_last 20) (
                filter-push is_significant (slice_last 299 log.entries) (entry_of ts ev log)
                  (entry_of-significant ts ev log h))
              ∙ sym (
                  slice_last-push 19 (filter is_significant (slice_last 299 log.entries))
                    (entry_of ts ev log))),
    )
