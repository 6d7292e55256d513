-- ===== src/Operations/Session.antt =====
-- operationsStore.ts: the store after a page load, and the timer that forgets finished
-- operations.
use lsmkv_enterprise.Common.{
  ℕ, suc, ◌-◌, Bool, true, false, ◌&&◌, not, none, some, List, [], ◌∷◌, Text, ◌==◌, nat_eq, text_eq,
  ltb, if◌then◌else◌,
}
use lsmkv_enterprise.JsMap.{JsMap, JsSet}
use lsmkv_enterprise.JsMap
use lsmkv_enterprise.Operations.{
  Operation, Store, SessionItem, missing, corrupt, stored, is_running, is_running_load, notify, put,
}
use lsmkv_enterprise.Operations.Polling.{resume_load_poll}

-- The fields before the constructor's body runs, with the browser's session item and handles.
abbrev pub blank : SessionItem → Bool → ℕ → Store
blank session storage_works next_handle = record {
  ops = [];
  listeners = [];
  toast_listeners = [];
  poll_timers = [];
  intervals = [];
  next_handle = next_handle;
  session = session;
  storage_works = storage_works;
  trace = [];
}

abbrev pub hydrate_op : Operation → Store → Store
hydrate_op op s =
    let t = put op.id op s in if is_running_load op then resume_load_poll op.id t else t

unfoldable pub hydrate_ops : List Operation → Store → Store
hydrate_ops [] s = s
hydrate_ops (op ∷ ops) s = hydrate_ops ops (hydrate_op op s)

abbrev pub hydrate : SessionItem → Store → Store
hydrate missing s = s
hydrate corrupt s = s
hydrate (stored ops) s = hydrate_ops ops s

-- The constructor, which gives the purge timer the handle after those of the polls.
unfoldable pub construct : SessionItem → Bool → ℕ → Store
construct session storage_works next_handle =
    let s = hydrate session (blank session storage_works next_handle) in
    record s { next_handle = suc s.next_handle }

-- `op.completedAt && now - op.completedAt > 30_000`; a time of 0 is falsy.
unfoldable pub is_stale : ℕ → Operation → Bool
is_stale now op =
    not (is_running op.status)
    && (elim op.completed_at [ none ↦ false | some t ↦ not (t == 0) && ltb 30000 (now - t) ])

-- The loop over `this._ops`, which deletes the entry that it stands at.
unfoldable pub purge_entries :
    ℕ → JsMap Text Operation → JsMap Text Operation × Bool → JsMap Text Operation × Bool
purge_entries now [] acc = acc
purge_entries now ((id, op) ∷ entries) (ops, changed) =
    purge_entries now entries
      (if is_stale now op then (JsMap.delete id ops, true) else (ops, changed))

unfoldable pub purge : ℕ → Store → Store
purge now s =
    let (ops, changed) = purge_entries now s.ops (s.ops, false) in
    let t = record s { ops = ops } in if changed then notify t else t
