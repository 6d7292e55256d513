-- ===== src/Operations/Cases.antt =====
-- Case rules for the methods of operationsStore.ts: a property holds after a method if it holds
-- on each of its branches.
use lsmkv_enterprise.Common.{
  ℕ, ◌≡◌, true, not, Option, none, some, List, [], ◌∷◌, ◌++◌, Text, text, text_eq, nat_eq, ◌==◌, ℤ,
  pos, starts_with, if_cases, Bool-cases, Option-cases, inl, inr, filter, find,
}
use lsmkv_enterprise.JsMap
use lsmkv_enterprise.Operations.{
  is_running, Operation, Interval, Poll, load, resumed, Store, refreshed, get_all, get, notify,
  fire_toast, persist, put, stop_poll, clamp, completed_op, failed_op, update, complete, fail,
  cancel_load_op, is_running_load,
}
use lsmkv_enterprise.Operations.Polling.{
  LoadStatus, Reply, offline, not_ok, reports, load_result, report, load_reply, resumed_reply,
  reply_to, poll_reply, stop_loads, stop_load_poll,
}

module _ {ℓ} (P : Store → Type ℓ) where
  pub stop_poll_cases :
      (id : Text) (s : Store)
      → (JsMap.get id s.poll_timers ≡ none → P s)
      → ((timer : ℕ)
          → JsMap.get id s.poll_timers ≡ some timer
          → P (record s {
            intervals = filter (λ iv. not (iv.handle == timer)) s.intervals;
            poll_timers = JsMap.delete id s.poll_timers;
          }))
      → P (stop_poll id s)
  unfolding stop_poll
  stop_poll_cases id s same cleared = elim (Option-cases (JsMap.get id s.poll_timers)) [
    | inl e ↦ rw (e, stop_poll) (same e)
    | inr (timer, e) ↦ rw (e, stop_poll) (cleared timer e)
  ]

  pub update_cases :
      (id : Text) (p : ℤ) (s : Store)
      → P s
      → ((op : Operation)
          → get id s ≡ some op
          → is_running op.status ≡ true
          → P (notify (persist (put id (record op { progress = clamp p }) s))))
      → P (update id p s)
  unfolding update
  update_cases id p s same changed = elim (Option-cases (get id s)) [
    | inl e ↦ rw (e, update) same
    | inr (op, e) ↦ elim (Bool-cases (is_running op.status)) [
      | inl r ↦ rw (e, update, r) (changed op e r)
      | inr r ↦ rw (e, update, r) same
    ]
  ]

  pub complete_cases :
      (now : ℕ) (id result : Text) (s : Store)
      → P s
      → ((op : Operation)
          → get id s ≡ some op
          → P (
              fire_toast op.name result
                (notify (persist (stop_poll id (put id (completed_op now result op) s))))))
      → P (complete now id result s)
  unfolding complete
  complete_cases now id result s same changed = elim (Option-cases (get id s)) [
    | inl e ↦ rw (e, complete) same
    | inr (op, e) ↦ rw (e, complete) (changed op e)
  ]

  pub fail_cases :
      (now : ℕ) (id error : Text) (s : Store)
      → P s
      → ((op : Operation)
          → get id s ≡ some op
          → P (notify (persist (stop_poll id (put id (failed_op now error op) s)))))
      → P (fail now id error s)
  unfolding fail
  fail_cases now id error s same changed = elim (Option-cases (get id s)) [
    | inl e ↦ rw (e, fail) same
    | inr (op, e) ↦ rw (e, fail) (changed op e)
  ]

  pub cancel_load_op_cases :
      (now : ℕ) (s : Store)
      → P s
      → ((op : Operation)
          → find is_running_load (get_all s) ≡ some op
          → P (
              notify
                (persist (put op.id (failed_op now (text "Cancelled") op) (stop_poll op.id s)))))
      → P (cancel_load_op now s)
  unfolding cancel_load_op
  cancel_load_op_cases now s same changed = elim (Option-cases (find is_running_load (get_all s))) [
    | inl e ↦ rw (e, cancel_load_op) same
    | inr (op, e) ↦ rw (e, cancel_load_op) (changed op e)
  ]

  -- What every single poll stop keeps, the loop over them keeps.
  stop_loads_keeps :
      ((id : Text) (s : Store) → P s → P (stop_poll id s))
      → (ids : List Text) (s : Store) → P s
      → P (stop_loads ids s)
  unfolding stop_loads
  stop_loads_keeps keep [] s h = h
  stop_loads_keeps keep (k ∷ ks) s h =
      stop_loads_keeps keep ks _
        (if_cases P (starts_with (text "load-") k) (λ _. keep k s h) (λ _. h))

  pub stop_load_poll_keeps :
      ((id : Text) (s : Store) → P s → P (stop_poll id s))
      → (id : Option Text) (s : Store) → P s
      → P (stop_load_poll id s)
  unfolding stop_load_poll
  stop_load_poll_keeps keep (some (c ∷ id)) s h = keep (c ∷ id) s h
  stop_load_poll_keeps keep (some []) s h = stop_loads_keeps keep (JsMap.keys s.poll_timers) s h
  stop_load_poll_keeps keep none s h = stop_loads_keeps keep (JsMap.keys s.poll_timers) s h

  -- What an update, a completion, a refresh and a cleared interval keep, every reply keeps.
  module _ (seconds : ℕ → Text)
      (updates : (id : Text) (p : ℤ) (s : Store) → P s → P (update id p s))
      (completes : (now : ℕ) (id result : Text) (s : Store) → P s → P (complete now id result s))
      (refreshes : (s : Store) → P s → P (record s { trace = s.trace ++ refreshed ∷ [] }))
      (clears : (timer : ℕ) (s : Store)
        → P s
        → P (record s { intervals = filter (λ iv. not (iv.handle == timer)) s.intervals })) where
    report_keeps :
        (now : ℕ) (id : Text) (pct : ℕ) (st : LoadStatus) (s : Store)
        → P s
        → P (report seconds now id pct st s)
    unfolding report
    report_keeps now id pct st s h =
        if_cases P st.running (λ _. updates id (pos pct) s h)
          (λ _. refreshes _ (
            completes now id (load_result seconds st) (update id (pos pct) s)
              (updates id (pos pct) s h)))

    reply_to_keeps :
        (now timer : ℕ) (poll : Poll) (r : Reply) (s : Store)
        → P s
        → P (reply_to seconds now timer poll r s)
    unfolding reply_to load_reply resumed_reply
    reply_to_keeps now timer (load id n) offline s h = h
    reply_to_keeps now timer (load id n) not_ok s h = h
    reply_to_keeps now timer (load id n) (reports st) s h = report_keeps now id _ st s h
    reply_to_keeps now timer (resumed id) offline s h = h
    reply_to_keeps now timer (resumed id) not_ok s h = h
    reply_to_keeps now timer (resumed id) (reports st) s h = elim (Option-cases (get id s)) [
      | inl e ↦ rw (e, resumed_reply) (clears timer s h)
      | inr (op, e) ↦ rw (e, resumed_reply) (report_keeps now id _ st s h)
    ]

    pub reply_keeps :
        (now : ℕ) (iv : Interval) (r : Reply) (s : Store) → P s → P (poll_reply seconds now iv r s)
    unfolding poll_reply
    reply_keeps now iv r s h = reply_to_keeps now iv.handle iv.poll r s h
