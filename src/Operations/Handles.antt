-- ===== src/Operations/Handles.antt =====
-- operationsStore.ts: the intervals that poll, and the handles under which they are kept.
use lsmkv_enterprise.Common.{
  ℕ, ◌≡◌, refl, sym, ap, ◌∙◌, subst, Bool, false, not, none, some, List, [], ◌∷◌, ◌++◌, arith, Text,
  text_eq, nat_eq, ◌==◌, ℤ, Bool-cases, inl, inr, if_cases, filter, All, All-filter, All-append,
  All-map,
}
use lsmkv_enterprise.JsMap.{JsMap, set, delete, get-set_ne, get-set_self, get-delete_ne}
use lsmkv_enterprise.JsMap
use lsmkv_enterprise.Operations.{
  Operation, Poll, load, resumed, poll_id, Interval, Store, get, persist, put, stop_poll, start,
  update, complete, fail, cancel_load_op, subscribe, unsubscribe, on_toast, off_toast,
}
use lsmkv_enterprise.Operations.Polling.{set_poll, start_load_poll, resume_load_poll}
use lsmkv_enterprise.Operations.Session.{purge}
use lsmkv_enterprise.Operations.Cases.{
  stop_poll_cases, update_cases, complete_cases, fail_cases, cancel_load_op_cases,
  stop_load_poll_keeps, reply_keeps,
}
use lsmkv_enterprise.Operations.Calls.{
  Call, subscribes, unsubscribes, on_toasts, off_toasts, starts, updates, completes, fails, cancels,
  starts_poll, stops_polls, replies, purges, refreshes, step,
}

abbrev pub PollsFor : Text → Interval → Type 0
PollsFor id iv = poll_id iv.poll ≡ id

-- No live interval polls for the operation.
abbrev pub IsIdle : Text → List Interval → Type 0
IsIdle id = All (λ iv. ¬ PollsFor id iv)

-- No two live intervals poll for one operation.
abbrev pub Unique : List Interval → Type 0
Unique [] = Unit {0}
Unique (iv ∷ ivs) = IsIdle (poll_id iv.poll) ivs × Unique ivs

-- The handle is the one kept for the interval's operation.
abbrev pub IsKept : JsMap Text ℕ → Interval → Type 0
IsKept timers iv = JsMap.get (poll_id iv.poll) timers ≡ some iv.handle

pub record IsTracked (intervals : List Interval) (timers : JsMap Text ℕ) : Type 0 where
  pub kept : All (IsKept timers) intervals
  pub unique : Unique intervals

abbrev pub Tracked : Store → Type 0
Tracked s = IsTracked s.intervals s.poll_timers

abbrev cleared : ℕ → List Interval → List Interval
cleared timer = filter (λ iv. not (iv.handle == timer))

Unique-filter : (p : Interval → Bool) (ivs : List Interval) → Unique ivs → Unique (filter p ivs)
Unique-filter p [] u = tt
Unique-filter p (iv ∷ ivs) u = elim (Bool-cases (p iv)) [
  | inl e ↦
      rw e (All-filter (λ jv. ¬ PollsFor (poll_id iv.poll) jv) p ivs u.0, Unique-filter p ivs u.1)
  | inr e ↦ rw e (Unique-filter p ivs u.1)
]

Unique-append :
    (ivs : List Interval) (iv : Interval)
    → Unique ivs
    → IsIdle (poll_id iv.poll) ivs
    → Unique (ivs ++ iv ∷ [])
Unique-append [] iv u h = (tt, tt)
Unique-append (jv ∷ ivs) iv u h = (
  All-append (λ x. ¬ PollsFor (poll_id jv.poll) x) ivs (iv ∷ []) u.0 ((λ e. h.0 (sym e)), tt),
  Unique-append ivs iv u.1 h.1,
)

-- Without a handle for the operation no interval polls for it.
IsIdle-of_none :
    (id : Text) (timers : JsMap Text ℕ) (ivs : List Interval)
    → JsMap.get id timers ≡ none
    → All (IsKept timers) ivs
    → IsIdle id ivs
IsIdle-of_none id timers [] e h = tt
IsIdle-of_none id timers (iv ∷ ivs) e h =
    ((λ p. cc (ap (λ i. JsMap.get i timers) p)), IsIdle-of_none id timers ivs e h.1)

-- Clearing the operation's handle leaves no interval that polls for it, and the handles of the
-- rest.
idle-cleared :
    (id : Text) (timer : ℕ) (timers : JsMap Text ℕ) (ivs : List Interval)
    → JsMap.get id timers ≡ some timer
    → All (IsKept timers) ivs
    → All (λ iv. ¬ PollsFor id iv × IsKept (delete id timers) iv) (cleared timer ivs)
idle-cleared id timer timers [] e h = tt
idle-cleared id timer timers (iv ∷ ivs) e h = elim (Bool-cases (iv.handle == timer)) [
  | inl same ↦ rw same (idle-cleared id timer timers ivs e h.1)
  | inr other ↦ rw other (
    (differs other, get-delete_ne id (poll_id iv.poll) timers (λ p. differs other (sym p)) ∙ h.0),
    idle-cleared id timer timers ivs e h.1,
  )
]
  where
    differs : (iv.handle == timer) ≡ false → ¬ PollsFor id iv
    differs other p = ground (arith, ap (λ i. JsMap.get i timers) p)

abbrev Stopped : Text → Store → Type 0
Stopped id s = IsIdle id s.intervals × Tracked s

stop_poll-Stopped : (id : Text) (s : Store) → Tracked s → Stopped id (stop_poll id s)
stop_poll-Stopped id s t =
    stop_poll_cases (Stopped id) id s
      (λ e. (IsIdle-of_none id s.poll_timers s.intervals e t.kept, t))
      λ timer e.
        let rest = idle-cleared id timer s.poll_timers s.intervals e t.kept in
        (
          All-map (λ iv h. h.0) _ rest,
          record {
            kept = All-map (λ iv h. h.1) _ rest;
            unique = Unique-filter (λ iv. not (iv.handle == timer)) s.intervals t.unique;
          },
        )

stop_poll-Tracked : (id : Text) (s : Store) → Tracked s → Tracked (stop_poll id s)
stop_poll-Tracked id s t = (stop_poll-Stopped id s t).1

-- A new interval for an operation that has none.
set_poll-Tracked :
    (id : Text) (poll : Poll) (s : Store)
    → poll_id poll ≡ id
    → Stopped id s
    → Tracked (set_poll id poll s)
set_poll-Tracked id poll s p (idle, t) = record {
  kept = All-append (IsKept _) s.intervals _ (others s.intervals idle t.kept) (new, tt);
  unique = Unique-append s.intervals _ t.unique (subst (λ i. IsIdle i s.intervals) (sym p) idle);
}
  where
    new : JsMap.get (poll_id poll) (set id s.next_handle s.poll_timers) ≡ some s.next_handle
    new = rw p (get-set_self id s.next_handle s.poll_timers)

    others :
        (ivs : List Interval)
        → IsIdle id ivs
        → All (IsKept s.poll_timers) ivs
        → All (IsKept (set id s.next_handle s.poll_timers)) ivs
    others [] h k = tt
    others (iv ∷ ivs) h k = (
      get-set_ne id (poll_id iv.poll) s.next_handle s.poll_timers (λ e. h.0 (sym e)) ∙ k.0,
      others ivs h.1 k.1,
    )

clear-Tracked :
    (timer : ℕ) (s : Store)
    → Tracked s
    → Tracked (record s { intervals = cleared timer s.intervals })
clear-Tracked timer s t = record {
  kept = All-filter (IsKept s.poll_timers) _ s.intervals t.kept;
  unique = Unique-filter _ s.intervals t.unique;
}

update-Tracked : (id : Text) (p : ℤ) (s : Store) → Tracked s → Tracked (update id p s)
unfolding persist
update-Tracked id p s t = update_cases Tracked id p s t (λ op e r. t)

complete-Tracked :
    (now : ℕ) (id result : Text) (s : Store) → Tracked s → Tracked (complete now id result s)
unfolding persist
complete-Tracked now id result s t =
    complete_cases Tracked now id result s t (λ op e. stop_poll-Tracked id (put id _ s) t)

fail-Tracked : (now : ℕ) (id error : Text) (s : Store) → Tracked s → Tracked (fail now id error s)
unfolding persist
fail-Tracked now id error s t =
    fail_cases Tracked now id error s t (λ op e. stop_poll-Tracked id (put id _ s) t)

cancel-Tracked : (now : ℕ) (s : Store) → Tracked s → Tracked (cancel_load_op now s)
unfolding persist
cancel-Tracked now s t = cancel_load_op_cases Tracked now s t (λ op e. stop_poll-Tracked op.id s t)

purge-Tracked : (now : ℕ) (s : Store) → Tracked s → Tracked (purge now s)
unfolding purge
purge-Tracked now s t = if_cases Tracked _ (λ _. t) (λ _. t)

-- Every method and every callback keeps at most one live interval for each operation, under the
-- handle that `_pollTimers` has for it.
pub step-Tracked :
    (seconds : ℕ → Text) (now : ℕ) (c : Call) (s : Store)
    → Tracked s
    → Tracked (step seconds now c s)
unfolding step start persist subscribe unsubscribe on_toast off_toast start_load_poll
step-Tracked seconds now (starts id name) s t = t
step-Tracked seconds now (updates id p) s t = update-Tracked id p s t
step-Tracked seconds now (completes id result) s t = complete-Tracked now id result s t
step-Tracked seconds now (fails id error) s t = fail-Tracked now id error s t
step-Tracked seconds now cancels s t = cancel-Tracked now s t
step-Tracked seconds now (starts_poll id n) s t =
    set_poll-Tracked id (load id n) (stop_poll id s) refl (stop_poll-Stopped id s t)
step-Tracked seconds now (stops_polls id) s t =
    stop_load_poll_keeps Tracked stop_poll-Tracked id s t
step-Tracked seconds now (replies iv r) s t =
    reply_keeps Tracked seconds update-Tracked complete-Tracked (λ u w. w) clear-Tracked now iv r s
      t
step-Tracked seconds now purges s t = purge-Tracked now s t
step-Tracked seconds now (subscribes fn) s t = t
step-Tracked seconds now refreshes s t = t
step-Tracked seconds now (unsubscribes fn) s t = t
step-Tracked seconds now (on_toasts fn) s t = t
step-Tracked seconds now (off_toasts fn) s t = t

-- A page load resumes a poll for the operation in the same way.
pub resume-Tracked : (id : Text) (s : Store) → Tracked s → Tracked (resume_load_poll id s)
unfolding resume_load_poll
resume-Tracked id s t =
    set_poll-Tracked id (resumed id) (stop_poll id s) refl (stop_poll-Stopped id s t)

-- An operation that is there polls no more once it is completed or has failed.
pub settled-IsIdle :
    (now : ℕ) (id words : Text) (s : Store) {op : Operation}
    → Tracked s
    → get id s ≡ some op
    → IsIdle id (complete now id words s).intervals × IsIdle id (fail now id words s).intervals
unfolding complete fail persist
settled-IsIdle now id words s t e = (
  rw (e, complete) (stop_poll-Stopped id (put id _ s) t).0,
  rw (e, fail) (stop_poll-Stopped id (put id _ s) t).0,
)
