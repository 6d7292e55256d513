-- ===== src/Log.antt =====
-- dashboard/frontend/src/store/logStore.ts: the rolling buffer of log entries. `_nextId` is a
-- field of the store; listeners are numbers.
pub mod Window
use lsmkv_enterprise.Common.{ℕ, suc, Bool, Option, none, List, [], ◌∷◌, ◌++◌, Text, slice_last}
use lsmkv_enterprise.JsMap.{JsSet}
use lsmkv_enterprise.JsMap

pub data LogLevel : Type 0 where
  debug info warn error success : LogLevel

pub data LogComponent : Type 0 where
  wal replication compaction snapshot heartbeat election storage cluster : LogComponent

-- `Omit<LogEntry, "id">`.
pub record LogLine : Type 0 where
  pub ts : Text
  pub level : LogLevel
  pub node : Text
  pub component : LogComponent
  pub message : Text
  pub is_new : Option Bool

pub record LogEntry : Type 0 where
  pub id : ℕ
  pub line : LogLine
  pub open line use *

abbrev pub max_entries : ℕ
max_entries = 300

pub record LogStore : Type 0 where
  pub entries : List LogEntry
  pub listeners : JsSet
  pub next_id : ℕ
  pub notified : List ℕ  -- the listeners that ran

abbrev pub initial : LogStore
initial = record { entries = []; listeners = []; next_id = 1; notified = [] }

unfoldable pub subscribe : ℕ → LogStore → LogStore
subscribe fn s = record s { listeners = JsMap.add fn s.listeners }

unfoldable pub unsubscribe : ℕ → LogStore → LogStore
unsubscribe fn s = record s { listeners = JsMap.remove fn s.listeners }

abbrev pub notify : LogStore → LogStore
notify s = record s { notified = s.notified ++ s.listeners }

unfoldable pub push : LogLine → LogStore → LogStore
push entry s = notify (record s {
  entries = slice_last max_entries (s.entries ++ record { id = s.next_id; line = entry } ∷ []);
  next_id = suc s.next_id;
})

-- `entries.map(e => ({ ...e, id: _nextId++ }))`, from an id on.
unfoldable pub stamp_from : ℕ → List LogLine → List LogEntry
stamp_from next [] = []
stamp_from next (e ∷ es) = record { id = next; line = e } ∷ stamp_from (suc next) es

abbrev pub next_after : ℕ → List LogLine → ℕ
next_after next [] = next
next_after next (e ∷ es) = next_after (suc next) es

unfoldable pub push_many : List LogLine → LogStore → LogStore
push_many lines s = notify (record s {
  entries = slice_last max_entries (s.entries ++ stamp_from s.next_id lines);
  next_id = next_after s.next_id lines;
})

abbrev seed_into : List LogEntry → List LogEntry → LogStore → LogStore
seed_into [] entries s = notify (record s { entries = slice_last max_entries entries })
seed_into (e ∷ es) entries s = s

unfoldable pub seed : List LogEntry → LogStore → LogStore
seed entries s = seed_into s.entries entries s

unfoldable pub clear : LogStore → LogStore
clear s = notify (record s { entries = [] })
