-- ===== src/Widgets/Tasks/Opening.antt =====
-- BackgroundTasksWidget.tsx: a widget with a new running operation stays open.
use lsmkv_enterprise.Common.{
  ◌<◌, ◌≡◌, refl, true, false, ◌&&◌, List, arith, ◌==◌, nat_eq, ltb, length,
}
use lsmkv_enterprise.Operations.{Operation}
use lsmkv_enterprise.Widgets.Tasks.{TasksWidget, running_count, ops_changed, closing_ends}

-- When the number of the running operations has changed and is not zero, the widget is open, and
-- the timer that closed an empty one is cleared.
ops_changed-open :
    (before ops : List Operation) (w : TasksWidget)
    → (running_count before == running_count ops) ≡ false
    → 0 < running_count ops
    → (closing_ends (ops_changed before ops w)).is_open ≡ true
unfolding ops_changed closing_ends
ops_changed-open before ops w c h =
    let e : ltb 0 (running_count ops) ≡ true = ground arith in
    let z : ((running_count ops == 0) && (length ops == 0)) ≡ false = ground arith in
    rw (c, z, e, closing_ends, ops_changed) refl
