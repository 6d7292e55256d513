-- ===== src/Widgets/Trace/Timers.antt =====
-- QueryTrace.tsx: the animation ends, and the primary is a node.
use lsmkv_enterprise.Common.{
  ℕ, zero, suc, ◌+◌, ◌*◌, ◌≤◌, ◌<◌, ◌≡◌, refl, ap, ◌∙◌, Option, some, List, [], ◌∷◌, map, arith,
  Text, if◌then◌else◌, length, get_elem?,
}
use lsmkv_enterprise.Failure.{NodeRuntimeState}
use lsmkv_enterprise.Widgets.Trace.{
  StepStatus, done, error, TraceStep, QueryType, count_nodes, primary_idx, TraceTimer, is_missed,
  trace_timers, put_status, fire_step, fire_trace,
}

-- How a step is to end.
abbrev pub ended : QueryType → Option Text → TraceStep → TraceStep
ended q result s = record s { status = if is_missed q result s then error else done }

-- Timers of later steps, over the steps from a place on.
put_status-cons :
    (i : ℕ) (st : StepStatus) (s : TraceStep) (steps : List TraceStep)
    → put_status (suc i) st (s ∷ steps) ≡ s ∷ put_status i st steps
unfolding put_status
put_status-cons i st s steps = refl

-- The timers from a place above 0 on leave the first step alone.
shifted :
    (q : QueryType) (result : Option Text) (i acc : ℕ) (todo : List TraceStep) (s : TraceStep)
    (steps : List TraceStep)
    → fire_trace (trace_timers q result (suc i) acc todo) (s ∷ steps)
      ≡ s ∷ fire_trace (trace_timers q result i acc todo) steps
unfolding trace_timers fire_trace fire_step put_status
shifted q result i acc [] s steps = refl
shifted q result i acc (t ∷ todo) s steps = shifted q result (suc i) _ todo s _

-- The due times are in order, from a time on.
abbrev pub InOrder : ℕ → List (ℕ × TraceTimer) → Type 0
InOrder now [] = Unit
InOrder now ((due, t) ∷ timers) = (now ≤ due) × InOrder due timers

trace_timers-InOrder :
    (q : QueryType) (result : Option Text) (i now acc : ℕ) (steps : List TraceStep)
    → now ≤ acc
    → InOrder now (trace_timers q result i acc steps)
unfolding trace_timers
trace_timers-InOrder q result i now acc [] h = tt
trace_timers-InOrder q result i now acc (s ∷ steps) h =
    (h, (omega arith, trace_timers-InOrder q result (suc i) _ _ steps (omega arith)))

fires_all :
    (q : QueryType) (result : Option Text) (acc : ℕ) (steps : List TraceStep)
    → fire_trace (trace_timers q result 0 acc steps) steps ≡ map (ended q result) steps
unfolding trace_timers fire_trace fire_step put_status
fires_all q result acc [] = refl
fires_all q result acc (s ∷ steps) =
    shifted q result 0 _ steps (ended q result s) steps
    ∙ ap (◌∷◌ (ended q result s)) (fires_all q result (acc + (s.latency * 8 + 3000)) steps)

-- The animation of any steps: its timers are due in the order of the steps, each step's start before
-- its end, and once they have fired every step is done, but for the step "l2" of a read that found
-- nothing, which is an error.
pub trace_timers-end :
    (q : QueryType) (result : Option Text) (steps : List TraceStep)
    → InOrder 2000 (trace_timers q result 0 2000 steps)
      × (fire_trace (trace_timers q result 0 2000 steps) steps ≡ map (ended q result) steps)
trace_timers-end q result steps =
    (trace_timers-InOrder q result 0 2000 2000 steps (omega arith), fires_all q result 2000 steps)

in_list :
    (ns : List NodeRuntimeState) (k : ℕ)
    → k < length ns
    → (n : NodeRuntimeState) × (get_elem? ns k ≡ some n)
in_list [] k h = absurd (omega arith)
in_list (n ∷ ns) zero h = (n, refl)
in_list (n ∷ ns) (suc k) h = in_list ns k (omega arith)

-- The primary of a key is one of the nodes, if there are any.
primary_idx-node :
    (key : Text) (nodes : List NodeRuntimeState)
    → 0 < length nodes
    → (n : NodeRuntimeState) × (get_elem? nodes (primary_idx key nodes) ≡ some n)
unfolding primary_idx count_nodes
primary_idx-node key [] h = absurd (omega arith)
primary_idx-node key (n ∷ nodes) h = in_list (n ∷ nodes) _ (omega arith)
