-- ===== src/Widgets/Tasks.antt =====
-- components/BackgroundTasksWidget.tsx: whether the widget is open. The estimate of the time left is a
-- quotient of floats and is not modelled.
pub mod Opening
use lsmkv_enterprise.Common.{
  ℕ, zero, suc, ◌+◌, Bool, true, false, ◌&&◌, not, List, [], ◌∷◌, ◌++◌, Text, text, decimal, ◌==◌,
  nat_eq, ltb, if◌then◌else◌, length, filter,
}
use lsmkv_enterprise.Operations.{Operation, is_running}

pub record TasksWidget : Type 0 where
  pub is_open : Bool
  pub closing_timer : Bool

abbrev pub runs_now : Operation → Bool
runs_now o = is_running o.status

unfoldable pub running_count : List Operation → ℕ
running_count ops = length (filter runs_now ops)

-- The first runs of the two effects, with the operations at the mount.
unfoldable pub opened_tasks : List Operation → TasksWidget
opened_tasks ops = record {
  is_open = ltb 0 (running_count ops);
  closing_timer = (running_count ops == 0) && (length ops == 0);
}

-- The two effects, with the cleanup of the second one, after a change of the operations: each runs
-- when a number that it depends on has changed.
unfoldable pub ops_changed : List Operation → List Operation → TasksWidget → TasksWidget
ops_changed before ops w = record {
  is_open =
      if not (running_count before == running_count ops) && ltb 0 (running_count ops)
      then true
      else w.is_open;
  closing_timer =
      if (running_count before == running_count ops) && (length before == length ops)
      then w.closing_timer
      else (running_count ops == 0) && (length ops == 0);
}

unfoldable pub closing_ends : TasksWidget → TasksWidget
closing_ends w = if w.closing_timer then record { is_open = false; closing_timer = false } else w

-- The click on the header.
unfoldable pub toggle_tasks : TasksWidget → TasksWidget
toggle_tasks w = record w { is_open = not w.is_open }

unfoldable pub header_label : List Operation → Text
header_label ops =
    if ltb 0 (running_count ops)
    then decimal (running_count ops)
      ++ text " task"
      ++ (if ltb 1 (running_count ops) then text "s" else [])
      ++ text " running"
    else (if ltb 0 (length ops) then text "Recent tasks" else text "No active tasks")
