-- ===== src/Operations/Orphans.antt =====
-- operationsStore.ts: a poll that outlives its operation. `startLoadPoll` comes after the reply of the
-- backend, when the load may have been cancelled, and a purge forgets a cancelled load.
use lsmkv_enterprise.Common.{
  ℕ, ◌+◌, ◌<◌, ◌≡◌, refl, ap, ◌∙◌, true, not, none, some, List, [], ◌∷◌, ◌++◌, arith, Text, text,
  text_eq, ◌==◌, nat_eq, if◌then◌else◌, find, filter, decimal,
}
use lsmkv_enterprise.JsMap
use lsmkv_enterprise.JsMap.Filter.{only}
use lsmkv_enterprise.Operations.{
  Operation, load, resumed, Interval, Store, get, get_all, put, persist, stop_poll, is_running_load,
  failed_op, notify, cancel_load_op, update, complete,
}
use lsmkv_enterprise.Operations.Polling.{
  Reply, reports, report, load_reply, resumed_reply, LoadStatus, poll_reply, set_poll,
  start_load_poll,
}
use lsmkv_enterprise.Operations.Session.{is_stale, purge}
use lsmkv_enterprise.Operations.Calls.{cancels, starts_poll, step}
use lsmkv_enterprise.Operations.Invariant.{IsValid, step-IsValid}
use lsmkv_enterprise.Operations.Purge.{get-purge}
use lsmkv_enterprise.Operations.Races.{get-put}

-- What the replies to a poll leave alone.
abbrev SameOps : Store → Store → Type 0
SameOps s t = (t.ops ≡ s.ops) × (t.intervals ≡ s.intervals)

module _ (seconds : ℕ → Text) where
  -- The replies to one interval at their times, one after another.
  unfoldable pub all_replies : Interval → List (ℕ × Reply) → Store → Store
  all_replies iv [] s = s
  all_replies iv ((now, r) ∷ rs) s = all_replies iv rs (poll_reply seconds now iv r s)

  forgotten_reply :
      (now handle total_ops : ℕ) (id : Text) (r : Reply) (s : Store)
      → get id s ≡ none
      → SameOps s
          (poll_reply seconds now (record { handle = handle; poll = load id total_ops }) r s)
  unfolding poll_reply load_reply report update complete
  forgotten_reply now handle total_ops id r s e = (ground arith, ground arith)

  forgotten_replies :
      (handle total_ops : ℕ) (id : Text) (rs : List (ℕ × Reply)) (s : Store)
      → get id s ≡ none
      → SameOps s (all_replies (record { handle = handle; poll = load id total_ops }) rs s)
  unfolding all_replies
  forgotten_replies handle total_ops id [] s e = (refl, refl)
  forgotten_replies handle total_ops id ((now, r) ∷ rs) s e =
      let iv : Interval = record { handle = handle; poll = load id total_ops } in
      let (o, i) = forgotten_reply now handle total_ops id r s e in
      let (p, j) =
        forgotten_replies handle total_ops id rs (poll_reply seconds now iv r s)
          (ap (JsMap.get id) o ∙ e) in
      (p ∙ o, j ∙ i)

  -- The poll that a page load resumes has a check of its own: a status clears its interval.
  resumed_forgotten :
      (now handle : ℕ) (id : Text) (st : LoadStatus) (s : Store)
      → get id s ≡ none
      → (poll_reply seconds now
          (record { handle = handle; poll = resumed id })
          (reports st)
          s).intervals
        ≡ filter (λ iv. not (iv.handle == handle)) s.intervals
  unfolding poll_reply resumed_reply
  resumed_forgotten now handle id st s e = ground arith

abbrev cancelled : ℕ → Operation → Operation
cancelled now op = failed_op now (text "Cancelled") op

no_poll : (id : Text) (s : Store) → JsMap.get id s.poll_timers ≡ none → stop_poll id s ≡ s
unfolding stop_poll
no_poll id s e = rw (e, stop_poll) refl

-- The store after the cancellation of a load that is not polled.
abbrev cancelled_store : ℕ → Operation → Store → Store
cancelled_store now op s = notify (persist (put op.id (cancelled now op) s))

-- The cancellation while no poll runs, the poll that starts after it, and a purge.
module _ (now total_ops : ℕ) (s : Store) {op : Operation}
    (e : find is_running_load (get_all s) ≡ some op)
    (n : JsMap.get op.id s.poll_timers ≡ none) where
  cancel_unpolled : cancel_load_op now s ≡ cancelled_store now op s
  unfolding cancel_load_op
  cancel_unpolled =
      rw (e, cancel_load_op)
        (ap (λ t. notify (persist (put op.id (cancelled now op) t))) (no_poll op.id s n))

  start_unpolled :
      start_load_poll op.id total_ops (cancelled_store now op s)
      ≡ set_poll op.id (load op.id total_ops) (cancelled_store now op s)
  unfolding start_load_poll persist
  start_unpolled =
      ap (set_poll op.id (load op.id total_ops)) (no_poll op.id (cancelled_store now op s) n)

  polled :
      start_load_poll op.id total_ops (cancel_load_op now s)
      ≡ set_poll op.id (load op.id total_ops) (cancelled_store now op s)
  polled = ap (start_load_poll op.id total_ops) cancel_unpolled ∙ start_unpolled

  polled-get :
      get op.id (start_load_poll op.id total_ops (cancel_load_op now s)) ≡ some (cancelled now op)
  unfolding persist
  polled-get = ap (get op.id) polled ∙ get-put op.id (cancelled now op) s

  polled-intervals :
      (start_load_poll op.id total_ops (cancel_load_op now s)).intervals
      ≡ s.intervals ++ record { handle = s.next_handle; poll = load op.id total_ops } ∷ []
  unfolding persist
  polled-intervals = ap (λ t. t.intervals) polled

purge-intervals : (now : ℕ) (s : Store) → (purge now s).intervals ≡ s.intervals
unfolding purge
purge-intervals now s = ground arith

cancelled-stale :
    (now later : ℕ) (op : Operation)
    → 0 < now
    → now + 30000 < later
    → is_stale later (cancelled now op) ≡ true
unfolding is_stale
cancelled-stale now later op a b = ground arith

cancelled_polled-IsValid :
    (now total_ops : ℕ) (id : Text) (s : Store)
    → IsValid s
    → IsValid (start_load_poll id total_ops (cancel_load_op now s))
unfolding step
cancelled_polled-IsValid now total_ops id s v =
    step-IsValid decimal now (starts_poll id total_ops) (cancel_load_op now s)
      (step-IsValid decimal now cancels s v)

-- In a valid store let the running load that is cancelled have no poll yet, as before the reply of the
-- backend. If its poll starts after that, and a purge comes more than 30 seconds after the
-- cancellation, whose time is not 0, then the load is forgotten and its interval is never cleared by
-- a reply: whatever replies come to it, it stays next to those of before, and no operation changes.
pub cancelled_poll_stays :
    (seconds : ℕ → Text) (now later total_ops : ℕ) (rs : List (ℕ × Reply)) (s : Store)
    {op : Operation}
    → IsValid s
    → find is_running_load (get_all s) ≡ some op
    → JsMap.get op.id s.poll_timers ≡ none
    → 0 < now
    → now + 30000 < later
    → let iv : Interval = record { handle = s.next_handle; poll = load op.id total_ops } in
      let t : Store = purge later (start_load_poll op.id total_ops (cancel_load_op now s)) in
      (get op.id t ≡ none)
      × ((all_replies seconds iv rs t).intervals ≡ s.intervals ++ iv ∷ [])
      × ((all_replies seconds iv rs t).ops ≡ t.ops)
cancelled_poll_stays seconds now later total_ops rs s {op} v e n a b =
    let u : Store = start_load_poll op.id total_ops (cancel_load_op now s) in
    let gone : get op.id (purge later u) ≡ none =
      get-purge later u op.id (cancelled_polled-IsValid now total_ops op.id s v).sound.distinct
      ∙ ap (only (λ o. not (is_stale later o))) (polled-get now total_ops s e n)
      ∙ ap (λ x. if not x then some (cancelled now op) else none)
          (cancelled-stale now later op a b) in
    let (o, i) = forgotten_replies seconds s.next_handle total_ops op.id rs (purge later u) gone in
    (gone, i ∙ purge-intervals later u ∙ polled-intervals now total_ops s e n, o)
