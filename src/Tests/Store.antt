-- ===== src/Tests/Store.antt =====
-- operationsStore.ts and backgroundOps.ts on a store with a running load, a running compaction and
-- a snapshot that is done.
use lsmkv_enterprise.Common.{
  ◌+◌, ℕ, ◌≡◌, refl, true, false, none, some, [], ◌∷◌, map, Text, text, text_eq, text_beq, not,
  decimal, arith, filter, sort,
}
use lsmkv_enterprise.JsMap
use lsmkv_enterprise.JsMap.{Distinct}
use lsmkv_enterprise.JsMap.Filter.{only}
use lsmkv_enterprise.Operations.{
  Operation, running, completed, load, resumed, Interval, stored, Store, get, get_all, get_load_op,
  is_load_running, is_running_load, is_running_op, complete, fail, completed_op, failed_op,
  cancel_load_op,
}
use lsmkv_enterprise.Operations.Polling.{
  LoadStatus, reports, load_result, poll_reply, start_load_poll,
}
use lsmkv_enterprise.Operations.Session.{construct, purge, is_stale}
use lsmkv_enterprise.Operations.Calls.{completes, starts_poll, step, run}
use lsmkv_enterprise.Operations.Invariant.{IsValid, step-IsValid}
use lsmkv_enterprise.Operations.Handles.{Tracked, IsIdle, step-Tracked, settled-IsIdle}
use lsmkv_enterprise.Operations.Purge.{get-purge}
use lsmkv_enterprise.Operations.Refresh.{construct-ops, construct-polls}
use lsmkv_enterprise.Background.{LoadParams, add_node, flow_id, flow_name, flow_calls, timed}
use lsmkv_enterprise.Background.Outcomes.{verdict, IsSettled, flow_settles}
use lsmkv_enterprise.Operations.Races.{cancelled_then_completed}
use lsmkv_enterprise.Operations.Orphans.{all_replies, cancelled_poll_stays}

abbrev load_op : Operation
load_op = record {
  id = text "load-7";
  name = text "Generate Load";
  status = running;
  progress = 40;
  result = none;
  error = none;
  started_at = 7;
  completed_at = none;
}

abbrev compact_op : Operation
compact_op = record {
  id = text "compact-8";
  name = text "Compact Now";
  status = running;
  progress = 50;
  result = none;
  error = none;
  started_at = 8;
  completed_at = none;
}

abbrev snap_op : Operation
snap_op = record {
  id = text "snap-5";
  name = text "Snapshot: a";
  status = completed;
  progress = 100;
  result = some (text "saved");
  error = none;
  started_at = 5;
  completed_at = some 6;
}

abbrev poll_of_load : Interval
poll_of_load = record { handle = 2; poll = load (text "load-7") 100 }

abbrev busy : Store
busy = record {
  ops = (text "snap-5", snap_op) ∷ (text "load-7", load_op) ∷ (text "compact-8", compact_op) ∷ [];
  listeners = 1 ∷ [];
  toast_listeners = 4 ∷ [];
  poll_timers = (text "load-7", 2) ∷ [];
  intervals = poll_of_load ∷ [];
  next_handle = 3;
  session = stored (load_op ∷ compact_op ∷ []);
  storage_works = true;
  trace = [];
}

abbrev after_load : LoadStatus
after_load = record {
  running = false;
  total_ops = 100;
  sets_ok = 60;
  gets_ok = 30;
  deletes_ok = 10;
  elapsed_ms = 1500;
}

abbrev whole_seconds : ℕ → Text
whole_seconds ms = decimal ms

busy-Distinct : Distinct busy.ops
unfolding JsMap.get text_beq
busy-Distinct = (refl, (refl, (refl, tt)))

busy-IsValid : IsValid busy
busy-IsValid = record {
  sound = record {
    distinct = busy-Distinct;
    entries = (
      record {
        keyed = refl;
        in_range = omega arith;
        fields = (refl, (6, refl), (text "saved", refl));
      },
      (
        record { keyed = refl; in_range = omega arith; fields = (refl, refl, refl) },
        (record { keyed = refl; in_range = omega arith; fields = (refl, refl, refl) }, tt),
      ),
    );
  };
  mirrored = λ _. refl;
}

busy-Tracked : Tracked busy
unfolding JsMap.get text_beq
busy-Tracked = record { kept = (refl, tt); unique = (tt, tt) }

step-IsValid_example : IsValid (step whole_seconds 9 (completes (text "load-7") (text "done")) busy)
step-IsValid_example =
    step-IsValid whole_seconds 9 (completes (text "load-7") (text "done")) busy busy-IsValid

step-Tracked_example : Tracked (step whole_seconds 9 (starts_poll (text "load-7") 50) busy)
step-Tracked_example =
    step-Tracked whole_seconds 9 (starts_poll (text "load-7") 50) busy busy-Tracked

found-load : get (text "load-7") busy ≡ some load_op
unfolding JsMap.get text_beq
found-load = refl

settled-IsIdle_example :
    IsIdle (text "load-7") (complete 9 (text "load-7") (text "done") busy).intervals
    × IsIdle (text "load-7") (fail 9 (text "load-7") (text "done") busy).intervals
settled-IsIdle_example =
    settled-IsIdle 9 (text "load-7") (text "done") busy {op = load_op} busy-Tracked found-load

get-purge_example :
    get (text "snap-5") (purge 40000 busy)
    ≡ only (λ op. not (is_stale 40000 op)) (get (text "snap-5") busy)
get-purge_example = get-purge 40000 busy (text "snap-5") busy-Distinct

a_load_runs : is_load_running busy ≡ true
unfolding is_load_running
a_load_runs = refl

-- The store once the load is completed.
abbrev done_op : Operation
done_op = completed_op 9 (text "done") load_op

abbrev idle : Store
idle = record busy {
  ops = (text "snap-5", snap_op) ∷ (text "load-7", done_op) ∷ [];
  poll_timers = [];
  intervals = [];
  session = stored [];
}

no_load_runs : is_load_running idle ≡ false
unfolding is_load_running
no_load_runs = refl

done_is_latest : get_load_op idle ≡ some done_op
unfolding get_load_op sort
done_is_latest = refl

construct-ops_example :
    (construct busy.session true 5).ops
    ≡ filter (λ (e : Text × Operation). is_running_op e.1) busy.ops
construct-ops_example = construct-ops busy 5 busy-IsValid refl

construct-polls_example :
    map (λ iv. iv.poll) (construct busy.session true 5).intervals
    ≡ map (λ o. resumed o.id) (filter is_running_load (filter is_running_op (get_all busy)))
construct-polls_example = construct-polls busy 5 busy-IsValid refl

cancelled_then_completed_example :
    get (text "load-7") (
      poll_reply whole_seconds 12
        (record { handle = 2; poll = load (text "load-7") 100 })
        (reports after_load)
        (cancel_load_op 11 busy))
    ≡ some (
        completed_op 12
          (load_result whole_seconds after_load)
          (failed_op 11 (text "Cancelled") load_op))
cancelled_then_completed_example =
    cancelled_then_completed whole_seconds 11 12 2 100 after_load busy {op = load_op} refl refl

-- The load's request has no reply yet, so that no poll runs.
abbrev requested : Store
requested = record busy { poll_timers = []; intervals = [] }

not_polled : JsMap.get load_op.id requested.poll_timers ≡ none
unfolding JsMap.get
not_polled = refl

requested-IsValid : IsValid requested
requested-IsValid = record { sound = busy-IsValid.sound; mirrored = busy-IsValid.mirrored }

cancelled_poll_stays_example :
    let iv : Interval = record { handle = 3; poll = load (text "load-7") 100 } in
    let t : Store =
      purge 40000 (start_load_poll (text "load-7") 100 (cancel_load_op 11 requested)) in
    (get (text "load-7") t ≡ none)
    × ((all_replies whole_seconds iv ((40500, reports after_load) ∷ []) t).intervals ≡ iv ∷ [])
    × ((all_replies whole_seconds iv ((40500, reports after_load) ∷ []) t).ops ≡ t.ops)
cancelled_poll_stays_example =
    cancelled_poll_stays whole_seconds 11 40000 100 ((40500, reports after_load) ∷ []) requested
      {op = load_op} requested-IsValid refl not_polled (omega arith) (omega arith)

abbrev clock : ℕ → ℕ
clock i = 20 + i

flow_settles_example :
    IsSettled (verdict (add_node (some none))) (flow_name (add_node (some none))) 20 (
      get
        (flow_id 19 (add_node (some none)))
        (run whole_seconds (timed clock 0 (flow_calls 19 (add_node (some none)))) busy))
flow_settles_example = flow_settles whole_seconds clock 19 (add_node (some none)) busy

abbrev params : LoadParams
params = record { writes = 60; reads = 30; deletes = 10; parallelism = 4 }
