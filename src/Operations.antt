-- ===== src/Operations.antt =====
-- dashboard/frontend/src/store/operationsStore.ts: the store of background operations, its reads
-- and its mutations. `Date.now()` is an argument; a listener is a number, and what the outside
-- sees is the list `trace`.
pub mod Polling
pub mod Session
pub mod Purge
pub mod Calls
mod Cases
pub mod Invariant
pub mod Handles
pub mod Reads
pub mod Refresh
pub mod Races
pub mod Orphans
use lsmkv_enterprise.Common.{
  ℕ, suc, ◌+◌, ◌-◌, ◌≡◌, Bool, true, false, ◌&&◌, not, Option, none, some, List, [], ◌∷◌, ◌++◌, map,
  Text, text, starts_with, ◌==◌, nat_eq, text_eq, leb, min, ℤ, pos, negsuc, if◌then◌else◌, filter,
  find, any, sort,
}
use lsmkv_enterprise.JsMap.{JsMap, JsSet}
use lsmkv_enterprise.JsMap

pub data Status : Type 0 where
  running completed failed : Status

abbrev pub is_running : Status → Bool
is_running running = true
is_running _ = false

pub record Operation : Type 0 where
  pub id : Text
  pub name : Text
  pub status : Status
  pub progress : ℕ  -- 0 to 100
  pub result : Option Text
  pub error : Option Text
  pub started_at : ℕ
  pub completed_at : Option ℕ

-- What `setInterval` was given: `startLoadPoll` or `_resumeLoadPoll`.
pub data Poll : Type 0 where
  load : Text → ℕ → Poll
  resumed : Text → Poll

abbrev pub poll_id : Poll → Text
poll_id (load id total_ops) = id
poll_id (resumed id) = id

pub record Interval : Type 0 where
  pub handle : ℕ
  pub poll : Poll

-- The item under `SESSION_KEY`. A text that `JSON.parse` refuses is `corrupt`; what it accepts is a
-- list of operations, as only `_persist` writes it.
pub data SessionItem : Type 0 where
  missing corrupt : SessionItem
  stored : List Operation → SessionItem

pub data Effect : Type 0 where
  notified : ℕ → Effect  -- a listener ran
  toasted : ℕ → Text → Text → Effect  -- a toast listener ran
  refreshed : Effect  -- `triggerRefresh` of store/syncEngine.ts

pub record Store : Type 0 where
  pub ops : JsMap Text Operation
  pub listeners : JsSet
  pub toast_listeners : JsSet
  pub poll_timers : JsMap Text ℕ
  pub intervals : List Interval  -- those that the browser runs
  pub next_handle : ℕ  -- the browser's next handle
  pub session : SessionItem
  pub storage_works : Bool  -- `sessionStorage.setItem` does not throw
  pub trace : List Effect

unfoldable pub subscribe : ℕ → Store → Store
subscribe fn s = record s { listeners = JsMap.add fn s.listeners }

unfoldable pub unsubscribe : ℕ → Store → Store
unsubscribe fn s = record s { listeners = JsMap.remove fn s.listeners }

unfoldable pub on_toast : ℕ → Store → Store
on_toast fn s = record s { toast_listeners = JsMap.add fn s.toast_listeners }

unfoldable pub off_toast : ℕ → Store → Store
off_toast fn s = record s { toast_listeners = JsMap.remove fn s.toast_listeners }

-- Each listener runs once; what it throws is dropped.
abbrev pub notify : Store → Store
notify s = record s { trace = s.trace ++ map notified s.listeners }

abbrev pub fire_toast : Text → Text → Store → Store
fire_toast name result s = record s {
  trace = s.trace ++ map (λ fn. toasted fn name result) s.toast_listeners;
}

abbrev pub get_all : Store → List Operation
get_all s = JsMap.values s.ops

abbrev pub get : Text → Store → Option Operation
get id s = JsMap.get id s.ops

abbrev pub is_load : Operation → Bool
is_load o = starts_with (text "load-") o.id

abbrev pub is_running_load : Operation → Bool
is_running_load o = is_load o && is_running o.status

abbrev pub is_running_op : Operation → Bool
is_running_op o = is_running o.status

abbrev head? {ℓ} : {A : Type ℓ} → List A → Option A
head? [] = none
head? (x ∷ xs) = some x

-- The comparator `(a, b) => b.startedAt - a.startedAt`.
abbrev pub newer : Operation → Operation → Bool
newer a b = leb b.started_at a.started_at

unfoldable pub get_load_op : Store → Option Operation
get_load_op s = elim (find is_running_load (get_all s)) [
  | some op ↦ some op
  | none ↦ head? (sort newer (filter is_load (get_all s)))
]

unfoldable pub is_load_running : Store → Bool
is_load_running s = any is_running_load (get_all s)

unfoldable pub persist : Store → Store
persist s = record s {
  session = if s.storage_works then stored (filter is_running_op (get_all s)) else s.session;
}

unfoldable pub stop_poll : Text → Store → Store
stop_poll id s = elim (JsMap.get id s.poll_timers) [
  | none ↦ s
  | some timer ↦ record s {
    intervals = filter (λ iv. not (iv.handle == timer)) s.intervals;
    poll_timers = JsMap.delete id s.poll_timers;
  }
]

abbrev pub put : Text → Operation → Store → Store
put id op s = record s { ops = JsMap.set id op s.ops }

abbrev pub started : ℕ → Text → Text → Operation
started now id name = record {
  id = id;
  name = name;
  status = running;
  progress = 0;
  result = none;
  error = none;
  started_at = now;
  completed_at = none;
}

unfoldable pub start : ℕ → Text → Text → Store → Store
start now id name s = notify (persist (put id (started now id name) s))

-- `Math.min(100, Math.max(0, progress))`.
abbrev pub clamp : ℤ → ℕ
clamp (pos n) = min 100 n
clamp (negsuc n) = 0

unfoldable pub update : Text → ℤ → Store → Store
update id progress s = elim (get id s) [
  | none ↦ s
  | some op ↦
      if is_running op.status
      then notify (persist (put id (record op { progress = clamp progress }) s))
      else s
]

abbrev pub completed_op : ℕ → Text → Operation → Operation
completed_op now result op = record op {
  status = completed;
  progress = 100;
  result = some result;
  completed_at = some now;
}

abbrev pub failed_op : ℕ → Text → Operation → Operation
failed_op now error op = record op { status = failed; error = some error; completed_at = some now }

unfoldable pub complete : ℕ → Text → Text → Store → Store
complete now id result s = elim (get id s) [
  | none ↦ s
  | some op ↦
      fire_toast op.name result
        (notify (persist (stop_poll id (put id (completed_op now result op) s))))
]

unfoldable pub fail : ℕ → Text → Text → Store → Store
fail now id error s = elim (get id s) [
  | none ↦ s
  | some op ↦ notify (persist (stop_poll id (put id (failed_op now error op) s)))
]

unfoldable pub cancel_load_op : ℕ → Store → Store
cancel_load_op now s = elim (find is_running_load (get_all s)) [
  | none ↦ s
  | some op ↦ notify (persist (put op.id (failed_op now (text "Cancelled") op) (stop_poll op.id s)))
]
