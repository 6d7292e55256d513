-- ===== src/Operations/Races.antt =====
-- operationsStore.ts: what a reply does that arrives after its operation was cancelled, settled
-- or forgotten. The handlers of both polls run without asking whether the interval still lives.
use lsmkv_enterprise.Common.{
  ℕ, ◌≡◌, ap, ◌∙◌, subst, false, some, arith, Text, text, text_eq, ℤ, pos, find,
}
use lsmkv_enterprise.JsMap.{JsMap, values, get-set_self}
use lsmkv_enterprise.JsMap
use lsmkv_enterprise.Operations.{
  Operation, load, Store, get, get_all, persist, put, stop_poll, is_running_load, completed_op,
  failed_op, update, start, started, fail, complete, cancel_load_op, clamp,
}
use lsmkv_enterprise.Operations.Polling.{
  LoadStatus, reports, load_result, load_progress, report, load_reply, poll_reply,
}
use lsmkv_enterprise.Operations.Cases.{update_cases}
use lsmkv_enterprise.Operations.Invariant.{stop_poll-ops}

pub get-put : (id : Text) (op : Operation) (s : Store) → get id (put id op s) ≡ some op
get-put id op s = get-set_self id op s.ops

-- A completion overwrites the operation, whatever its status was.
pub get-complete :
    (now : ℕ) (id result : Text) (s : Store) {op : Operation}
    → get id s ≡ some op
    → get id (complete now id result s) ≡ some (completed_op now result op)
unfolding complete persist
get-complete now id result s {op} e =
    rw (e, complete)
      (ap (JsMap.get id) (stop_poll-ops id (put id (completed_op now result op) s))
        ∙ get-put id (completed_op now result op) s)

-- So does a failure.
pub get-fail :
    (now : ℕ) (id error : Text) (s : Store) {op : Operation}
    → get id s ≡ some op
    → get id (fail now id error s) ≡ some (failed_op now error op)
unfolding fail persist
get-fail now id error s {op} e =
    rw (e, fail)
      (ap (JsMap.get id) (stop_poll-ops id (put id (failed_op now error op) s))
        ∙ get-put id (failed_op now error op) s)

-- A new operation is found under its id, whatever was there.
pub get-start :
    (now : ℕ) (id name : Text) (s : Store)
    → get id (start now id name s) ≡ some (started now id name)
unfolding start persist
get-start now id name s = get-put id (started now id name) s

-- An update changes the progress at most.
pub get-update :
    (id : Text) (p : ℤ) (s : Store) {op : Operation}
    → get id s ≡ some op
    → (n : ℕ) × (get id (update id p s) ≡ some (record op { progress = n }))
unfolding persist
get-update id p s {op} e =
    update_cases (λ t. (n : ℕ) × (get id t ≡ some (record op { progress = n }))) id p s
      (op.progress, e)
      λ op' e' r.
        let same : op' ≡ op = ground arith in
        (
          clamp p,
          subst
              (λ u.
                get id (put id (record op' { progress = clamp p }) s)
                ≡ some (record u { progress = clamp p }))
              same (get-put id _ s),
        )

module _ (seconds : ℕ → Text) where
  -- The last reply of a load completes its operation, with a toast's words for its result and all
  -- other fields kept, whatever the status was: also of an operation that failed or was cancelled.
  pub get-final_reply :
      (now handle total_ops : ℕ) (id : Text) (st : LoadStatus) (s : Store) {op : Operation}
      → get id s ≡ some op
      → st.running ≡ false
      → get id (
          poll_reply seconds now
            (record { handle = handle; poll = load id total_ops })
            (reports st)
            s)
        ≡ some (completed_op now (load_result seconds st) op)
  unfolding poll_reply load_reply report
  get-final_reply now handle total_ops id st s {op} e r =
      let (n, u) = get-update id (pos (load_progress total_ops st.total_ops)) s e in
      simp r (get-complete now id (load_result seconds st) _ u)

-- A load that was cancelled, and whose last reply was under way, ends as completed, with the
-- error "Cancelled" still in it.
pub cancelled_then_completed :
    (seconds : ℕ → Text) (now later handle total_ops : ℕ) (st : LoadStatus) (s : Store)
    {op : Operation}
    → find is_running_load (get_all s) ≡ some op
    → st.running ≡ false
    → get op.id (
        poll_reply seconds later
          (record { handle = handle; poll = load op.id total_ops })
          (reports st)
          (cancel_load_op now s))
      ≡ some (completed_op later (load_result seconds st) (failed_op now (text "Cancelled") op))
unfolding cancel_load_op persist
cancelled_then_completed seconds now later handle total_ops st s {op} e r =
    get-final_reply seconds later handle total_ops op.id st (cancel_load_op now s) cancelled r
  where
    cancelled : get op.id (cancel_load_op now s) ≡ some (failed_op now (text "Cancelled") op)
    cancelled = rw (e, cancel_load_op) (get-put op.id _ (stop_poll op.id s))
