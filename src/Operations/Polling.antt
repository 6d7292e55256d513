-- ===== src/Operations/Polling.antt =====
-- operationsStore.ts: the polls of `/api/demo/load-status`. The code after an `await` is a
-- function of the reply and runs as one step. `seconds` renders `(ms / 1000).toFixed(2)`.
use lsmkv_enterprise.Common.{
  ℕ, suc, ◌+◌, ◌*◌, ◌/◌, Bool, not, Option, none, some, List, [], ◌∷◌, ◌++◌, Text, text, decimal,
  starts_with, ◌==◌, nat_eq, text_eq, ltb, min, pos, if◌then◌else◌, filter,
}
use lsmkv_enterprise.JsMap
use lsmkv_enterprise.Operations.{
  Operation, Poll, load, resumed, Interval, Store, refreshed, get, stop_poll, update, complete,
}

pub record LoadStatus : Type 0 where
  pub running : Bool
  pub total_ops : ℕ
  pub sets_ok : ℕ
  pub gets_ok : ℕ
  pub deletes_ok : ℕ
  pub elapsed_ms : ℕ

-- `offline`: the fetch or the parse throws. `not_ok`: a status outside 200 to 299.
pub data Reply : Type 0 where
  offline not_ok : Reply
  reports : LoadStatus → Reply

-- `setInterval`, and the handle under the operation's id.
abbrev pub set_poll : Text → Poll → Store → Store
set_poll id poll s = record s {
  intervals = s.intervals ++ record { handle = s.next_handle; poll = poll } ∷ [];
  poll_timers = JsMap.set id s.next_handle s.poll_timers;
  next_handle = suc s.next_handle;
}

unfoldable pub start_load_poll : Text → ℕ → Store → Store
start_load_poll id total_ops s = set_poll id (load id total_ops) (stop_poll id s)

unfoldable pub resume_load_poll : Text → Store → Store
resume_load_poll id s = set_poll id (resumed id) (stop_poll id s)

-- `for (const [k] of this._pollTimers) if (k.startsWith("load-")) this._stopPoll(k)`.
unfoldable pub stop_loads : List Text → Store → Store
stop_loads [] s = s
stop_loads (k ∷ ks) s = stop_loads ks (if starts_with (text "load-") k then stop_poll k s else s)

-- An empty id is falsy, as no id.
unfoldable pub stop_load_poll : Option Text → Store → Store
stop_load_poll (some (c ∷ id)) s = stop_poll (c ∷ id) s
stop_load_poll _ s = stop_loads (JsMap.keys s.poll_timers) s

-- `Math.min(99, Math.round((done / total) * 100))`, rounded half up.
unfoldable pub load_progress : ℕ → ℕ → ℕ
load_progress total_ops done =
    if ltb 0 total_ops then min 99 ((200 * done + total_ops) / (2 * total_ops)) else 0

-- `Math.min(99, Math.round(total_ops / 10))`.
unfoldable pub resumed_progress : ℕ → Operation → ℕ
resumed_progress done op = if ltb 0 done then min 99 ((done + 5) / 10) else op.progress

module _ (seconds : ℕ → Text) where
  abbrev pub load_result : LoadStatus → Text
  load_result st =
      decimal st.sets_ok
      ++ (text "W · "
          ++ (decimal st.gets_ok
              ++ (text "R · "
                  ++ (decimal st.deletes_ok
                      ++ (text "D · " ++ (seconds st.elapsed_ms ++ text "s"))))))

  -- Both polls end alike: the progress, and at the end of the load the result and a refresh.
  unfoldable pub report : ℕ → Text → ℕ → LoadStatus → Store → Store
  report now id pct st s =
      let u = update id (pos pct) s in
      if st.running
      then u
      else (let c = complete now id (load_result st) u in
          record c { trace = c.trace ++ refreshed ∷ [] })

  unfoldable pub load_reply : ℕ → Text → ℕ → Reply → Store → Store
  load_reply now id total_ops offline s = s
  load_reply now id total_ops not_ok s = s
  load_reply now id total_ops (reports st) s =
      report now id (load_progress total_ops st.total_ops) st s

  unfoldable pub resumed_reply : ℕ → ℕ → Text → Reply → Store → Store
  resumed_reply now timer id offline s = s
  resumed_reply now timer id not_ok s = s
  resumed_reply now timer id (reports st) s = elim (get id s) [
    | none ↦ record s { intervals = filter (λ iv. not (iv.handle == timer)) s.intervals }
    | some op ↦ report now id (resumed_progress st.total_ops op) st s
  ]

  unfoldable pub reply_to : ℕ → ℕ → Poll → Reply → Store → Store
  reply_to now timer (load id total_ops) r s = load_reply now id total_ops r s
  reply_to now timer (resumed id) r s = resumed_reply now timer id r s

  -- The callback of an interval, once the reply is there.
  unfoldable pub poll_reply : ℕ → Interval → Reply → Store → Store
  unfolding reply_to
  poll_reply now iv r s = reply_to now iv.handle iv.poll r s
