-- ===== src/Operations/Calls.antt =====
-- The public methods of operationsStore.ts and its timers' callbacks as one type of calls. A poll
-- may answer after its interval was cleared, so `replies` takes any interval at all: every
-- interleaving of the program is a list of calls. `refreshes` is `triggerRefresh`, which the
-- operations of services/backgroundOps.ts call at their end.
use lsmkv_enterprise.Common.{ℕ, Option, List, [], ◌∷◌, ◌++◌, Text, ℤ}
use lsmkv_enterprise.Operations.{
  Interval, Store, refreshed, subscribe, unsubscribe, on_toast, off_toast, start, update, complete,
  fail, cancel_load_op,
}
use lsmkv_enterprise.Operations.Polling.{Reply, start_load_poll, stop_load_poll, poll_reply}
use lsmkv_enterprise.Operations.Session.{purge}

pub data Call : Type 0 where
  subscribes unsubscribes on_toasts off_toasts : ℕ → Call
  starts : Text → Text → Call
  updates : Text → ℤ → Call
  completes : Text → Text → Call
  fails : Text → Text → Call
  cancels : Call
  starts_poll : Text → ℕ → Call
  stops_polls : Option Text → Call
  replies : Interval → Reply → Call
  purges refreshes : Call

module _ (seconds : ℕ → Text) where
  -- One call, at a time.
  unfoldable pub step : ℕ → Call → Store → Store
  step now (subscribes fn) s = subscribe fn s
  step now (unsubscribes fn) s = unsubscribe fn s
  step now (on_toasts fn) s = on_toast fn s
  step now (off_toasts fn) s = off_toast fn s
  step now (starts id name) s = start now id name s
  step now (updates id progress) s = update id progress s
  step now (completes id result) s = complete now id result s
  step now (fails id error) s = fail now id error s
  step now cancels s = cancel_load_op now s
  step now (starts_poll id total_ops) s = start_load_poll id total_ops s
  step now (stops_polls id) s = stop_load_poll id s
  step now (replies iv r) s = poll_reply seconds now iv r s
  step now purges s = purge now s
  step now refreshes s = record s { trace = s.trace ++ refreshed ∷ [] }

  unfoldable pub run : List (ℕ × Call) → Store → Store
  run [] s = s
  run ((now, c) ∷ cs) s = run cs (step now c s)
