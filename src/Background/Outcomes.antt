-- ===== src/Background/Outcomes.antt =====
-- backgroundOps.ts: how the operations end.
use lsmkv_enterprise.Common.{
  ℕ, ◌≡◌, refl, ap, ◌∙◌, true, false, Option, none, some, Text, text, text_eq, decimal, ℤ,
  starts_with, starts_with-append,
}
use lsmkv_enterprise.JsMap
use lsmkv_enterprise.Operations.{
  Operation, Status, completed, failed, Store, get, started, start, update, failed_op, complete,
  fail,
}
use lsmkv_enterprise.Operations.Calls.{step, run}
use lsmkv_enterprise.Operations.Polling.{start_load_poll}
use lsmkv_enterprise.Operations.Invariant.{stop_poll-ops}
use lsmkv_enterprise.Operations.Races.{get-start, get-update, get-complete, get-fail}
use lsmkv_enterprise.Background.{
  Flow, flush, compact, snapshot, restore, add_node, remove_node, flow_id, flow_name, flow_body,
  flow_calls, timed, LoadParams, LoadAnswer, offline, accepted, rejected, start_load_generation,
  stamped_id,
}

-- The operation runs: it is as it was started, but for the progress.
abbrev Runs : Text → Text → ℕ → Store → Type 0
Runs id name t s = (n : ℕ) × (get id s ≡ some (record (started t id name) { progress = n }))

start-Runs : (t : ℕ) (id name : Text) (s : Store) → Runs id name t (start t id name s)
start-Runs t id name s = (0, get-start t id name s)

update-Runs :
    (t : ℕ) (id name : Text) (p : ℤ) (s : Store) → Runs id name t s → Runs id name t (update id p s)
update-Runs t id name p s (n, e) = get-update id p s e

-- A flow ends well, unless it changes the nodes and the change threw.
abbrev pub verdict : Flow → Status
verdict (add_node (some e)) = failed
verdict (remove_node (some e)) = failed
verdict _ = completed

-- The operation is settled: with its status, its name and start kept, and a time of completion.
abbrev pub IsSettled : Status → Text → ℕ → Option Operation → Type 0
IsSettled st name t found =
    (op : Operation) × (found ≡ some op)
    × (op.status ≡ st)
    × (op.name ≡ name)
    × (op.started_at ≡ t)
    × ((u : ℕ) × (op.completed_at ≡ some u))

complete-IsSettled :
    (t u : ℕ) (id name result : Text) (s : Store)
    → Runs id name t s
    → IsSettled completed name t (get id (complete u id result s))
complete-IsSettled t u id name result s (n, e) =
    (_, get-complete u id result s e, refl, refl, refl, (u, refl))

fail-IsSettled :
    (t u : ℕ) (id name error : Text) (s : Store)
    → Runs id name t s
    → IsSettled failed name t (get id (fail u id error s))
fail-IsSettled t u id name error s (n, e) =
    (_, get-fail u id error s e, refl, refl, refl, (u, refl))

module _ (seconds : ℕ → Text) (clock : ℕ → ℕ) (id name : Text) (t : ℕ) where
  -- Whatever the store was, the rest of a flow settles a running operation.
  body_settles :
      (f : Flow) (s : Store)
      → Runs id name t s
      → IsSettled (verdict f) name t (get id (run seconds (timed clock 1 (flow_body id f)) s))
  unfolding run step flow_body
  body_settles (flush none) s r = complete-IsSettled t _ id name _ _ (update-Runs t id name _ _ r)
  body_settles (flush (some b)) s r =
      complete-IsSettled t _ id name _ _ (update-Runs t id name _ _ r)
  body_settles (compact false) s r =
      complete-IsSettled t _ id name _ _ (update-Runs t id name _ _ (update-Runs t id name _ _ r))
  body_settles (compact true) s r =
      complete-IsSettled t _ id name _ _
        (update-Runs t id name _ _ (update-Runs t id name _ _ (update-Runs t id name _ _ r)))
  body_settles (snapshot n none) s r =
      complete-IsSettled t _ id name _ _ (update-Runs t id name _ _ (update-Runs t id name _ _ r))
  body_settles (snapshot n (some b)) s r =
      complete-IsSettled t _ id name _ _ (update-Runs t id name _ _ (update-Runs t id name _ _ r))
  body_settles (restore n false) s r =
      complete-IsSettled t _ id name _ _ (update-Runs t id name _ _ (update-Runs t id name _ _ r))
  body_settles (restore n true) s r =
      complete-IsSettled t _ id name _ _
        (update-Runs t id name _ _ (update-Runs t id name _ _ (update-Runs t id name _ _ r)))
  body_settles (add_node none) s r = complete-IsSettled t _ id name _ _ (
      update-Runs t id name _ _
        (update-Runs t id name _ _ (update-Runs t id name _ _ (update-Runs t id name _ _ r))))
  body_settles (add_node (some e)) s r =
      fail-IsSettled t _ id name _ _ (update-Runs t id name _ _ (update-Runs t id name _ _ r))
  body_settles (remove_node none) s r =
      complete-IsSettled t _ id name _ _
        (update-Runs t id name _ _ (update-Runs t id name _ _ (update-Runs t id name _ _ r)))
  body_settles (remove_node (some e)) s r =
      fail-IsSettled t _ id name _ _ (update-Runs t id name _ _ (update-Runs t id name _ _ r))

-- Every flush, compaction, snapshot, restore and change of the nodes settles its operation,
-- whatever the store was, whatever the backend answers and at whatever times, with no other call
-- of the store between its own: as failed exactly if it changes the nodes and the change threw,
-- else as completed.
pub flow_settles :
    (seconds : ℕ → Text) (clock : ℕ → ℕ) (now : ℕ) (f : Flow) (s : Store)
    → IsSettled
        (verdict f)
        (flow_name f)
        (clock 0)
        (get (flow_id now f) (run seconds (timed clock 0 (flow_calls now f)) s))
unfolding flow_calls run step
flow_settles seconds clock now f s =
    body_settles seconds clock (flow_id now f) (flow_name f) (clock 0) f _
      (start-Runs (clock 0) (flow_id now f) (flow_name f) s)

-- The store tells loads by the prefix of their ids, and no other operation has it.
load_ids_apart :
    (now : ℕ) (f : Flow)
    → (starts_with (text "load-") (stamped_id (text "load-") now) ≡ true)
      × (starts_with (text "load-") (flow_id now f) ≡ false)
unfolding flow_id
load_ids_apart now f = (starts_with-append (text "load-") (decimal now), others f)
  where
    others : (g : Flow) → starts_with (text "load-") (flow_id now g) ≡ false
    others (flush r) = refl
    others (compact r) = refl
    others (snapshot name r) = refl
    others (restore name r) = refl
    others (add_node r) = refl
    others (remove_node r) = refl

start_load_poll-ops : (id : Text) (n : ℕ) (s : Store) → (start_load_poll id n s).ops ≡ s.ops
unfolding start_load_poll
start_load_poll-ops id n s = stop_poll-ops id s

-- What becomes of a load operation that was started at a time.
abbrev pub load_outcome : ℕ → LoadAnswer → Operation → Operation
load_outcome t accepted op = op
load_outcome t (rejected none) op = failed_op t (text "Backend rejected request") op
load_outcome t (rejected (some error)) op = failed_op t error op
load_outcome t offline op = failed_op t (text "Backend offline") op

-- A load that the backend accepts keeps running at progress 0, one that it rejects fails with the
-- backend's words or the default ones, and without a backend it fails as offline.
load_generation_outcome :
    (seconds : ℕ → Text) (clock : ℕ → ℕ) (now : ℕ) (params : LoadParams) (answer : LoadAnswer)
    (s : Store)
    → let id = stamped_id (text "load-") now in
      get id (run seconds (timed clock 0 (start_load_generation now params answer)) s)
      ≡ some (load_outcome (clock 1) answer (started (clock 0) id (text "Generate Load")))
unfolding start_load_generation run step
load_generation_outcome seconds clock now params accepted s =
    ap (JsMap.get ⦃e = text_eq⦄ (stamped_id (text "load-") now)) (start_load_poll-ops _ _ _)
    ∙ get-start _ _ _ s
load_generation_outcome seconds clock now params (rejected none) s =
    get-fail _ _ _ _ (get-start _ _ _ s)
load_generation_outcome seconds clock now params (rejected (some error)) s =
    get-fail _ _ _ _ (get-start _ _ _ s)
load_generation_outcome seconds clock now params offline s = get-fail _ _ _ _ (get-start _ _ _ s)
