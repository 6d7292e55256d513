-- ===== src/Operations/Refresh.antt =====
-- operationsStore.ts across a page load: what the constructor restores from the session.
use mathlib.Core.List.{append_assoc, append-nil, map-append}
use mathlib.Core.Path.{ap₂}
use lsmkv_enterprise.Common.{
  ℕ, ◌≡◌, refl, text_beq_iff, sym, ap, ◌∙◌, subst, Bool, true, false, none, List, [], ◌∷◌, ◌++◌,
  map, arith, Text, text_eq, if◌then◌else◌, filter, All, if_cases,
}
use lsmkv_enterprise.JsMap.{JsMap, get-set_ne, Distinct, set, values}
use lsmkv_enterprise.JsMap
use lsmkv_enterprise.JsMap.Filter.{filter-Distinct, set_absent, get-prefix}
use lsmkv_enterprise.Operations.{
  Operation, Store, Poll, resumed, SessionItem, missing, corrupt, stored, is_running_op,
  is_running_load, get_all, put, stop_poll,
}
use lsmkv_enterprise.Operations.Polling.{set_poll, resume_load_poll}
use lsmkv_enterprise.Operations.Session.{blank, hydrate_op, hydrate_ops, hydrate, construct}
use lsmkv_enterprise.Operations.Cases.{stop_poll_cases}
use lsmkv_enterprise.Operations.Handles.{Tracked, resume-Tracked}
use lsmkv_enterprise.Operations.Invariant.{Entry, IsValid, in_session}

-- Operations as entries under their own ids.
abbrev pub filed : List Operation → JsMap Text Operation
filed ops = map (λ o. (o.id, o)) ops

resume-ops : (id : Text) (s : Store) → (resume_load_poll id s).ops ≡ s.ops
unfolding resume_load_poll
resume-ops id s = stop_poll_cases (λ t. t.ops ≡ s.ops) id s (λ _. refl) (λ timer _. refl)

hydrate_op-ops : (op : Operation) (s : Store) → (hydrate_op op s).ops ≡ set op.id op s.ops
hydrate_op-ops op s =
    if_cases {A = Store} (λ t. t.ops ≡ set op.id op s.ops) (is_running_load op)
      (λ _. resume-ops op.id (put op.id op s)) (λ _. refl)

hydrate_ops-ops :
    (ops : List Operation) (s : Store)
    → Distinct (s.ops ++ filed ops)
    → (hydrate_ops ops s).ops ≡ s.ops ++ filed ops
unfolding hydrate_ops
hydrate_ops-ops [] s d = sym (append-nil s.ops)
hydrate_ops-ops (op ∷ ops) s d =
    hydrate_ops-ops ops (hydrate_op op s) (subst Distinct (sym next) d) ∙ next
  where
    next : (hydrate_op op s).ops ++ filed ops ≡ s.ops ++ (op.id, op) ∷ filed ops
    next =
        ap (λ m. m ++ filed ops)
          (hydrate_op-ops op s
            ∙ set_absent op.id op s.ops (get-prefix s.ops op.id op (filed ops) d))
        ∙ append_assoc s.ops ((op.id, op) ∷ []) (filed ops)

filed-filter :
    (m : JsMap Text Operation)
    → All Entry m
    → filed (filter is_running_op (values m))
      ≡ filter (λ (e : Text × Operation). is_running_op e.1) m
filed-filter [] h = refl
filed-filter ((id, op) ∷ m) h = go (is_running_op op) (filed-filter m h.1)
  where
    rest : List Operation
    rest = filter is_running_op (values m)

    kept : JsMap Text Operation
    kept = filter (λ (e : Text × Operation). is_running_op e.1) m

    go :
        (b : Bool)
        → filed rest ≡ kept
        → filed (if b then op ∷ rest else rest) ≡ (if b then (id, op) ∷ kept else kept)
    go true e = ap₂ (λ i m. (i, op) ∷ m) h.0.keyed e
    go false e = e

hydrate-ops :
    (item : SessionItem) (s : Store)
    → Distinct (s.ops ++ filed (in_session item))
    → (hydrate item s).ops ≡ s.ops ++ filed (in_session item)
hydrate-ops missing s d = sym (append-nil s.ops)
hydrate-ops corrupt s d = sym (append-nil s.ops)
hydrate-ops (stored ops) s d = hydrate_ops-ops ops s d

abbrev only_running : JsMap Text Operation → JsMap Text Operation
only_running = filter (λ e. is_running_op e.1)

session-filed :
    (s : Store)
    → IsValid s
    → s.storage_works ≡ true
    → filed (in_session s.session) ≡ only_running s.ops
session-filed s v w = ap filed (v.mirrored w) ∙ filed-filter s.ops v.sound.entries

session-Distinct :
    (s : Store) → IsValid s → s.storage_works ≡ true → Distinct (filed (in_session s.session))
session-Distinct s v w =
    subst Distinct (sym (session-filed s v w)) (filter-Distinct _ s.ops v.sound.distinct)

-- A page load restores exactly the running operations of a valid store whose storage works, in
-- their order and with their state.
pub construct-ops :
    (s : Store) (handle : ℕ)
    → IsValid s
    → s.storage_works ≡ true
    → (construct s.session true handle).ops
      ≡ filter (λ (e : Text × Operation). is_running_op e.1) s.ops
unfolding construct
construct-ops s handle v w =
    hydrate-ops s.session (blank s.session true handle) (session-Distinct s v w)
    ∙ session-filed s v w

abbrev polls : Store → List Poll
polls s = map (λ iv. iv.poll) s.intervals

abbrev resumptions : List Operation → List Poll
resumptions ops = map (λ o. resumed o.id) (filter is_running_load ops)

-- No operation of the list has a handle yet.
abbrev Awaits : JsMap Text ℕ → List Operation → Type 0
Awaits timers = All (λ o. JsMap.get o.id timers ≡ none)

set-Awaits :
    (timers : JsMap Text ℕ) (id : Text) (handle : ℕ) (ops : List Operation)
    → JsMap.get id (filed ops) ≡ none
    → Awaits timers ops
    → Awaits (set id handle timers) ops
unfolding JsMap.get
set-Awaits timers id handle [] e a = tt
set-Awaits timers id handle (o ∷ ops) e a = (
  get-set_ne id o.id handle timers (λ p. ground (arith, text_beq_iff o.id id)) ∙ a.0,
  set-Awaits timers id handle ops (ground arith) a.1,
)

resume_new :
    (id : Text) (s : Store)
    → JsMap.get id s.poll_timers ≡ none
    → resume_load_poll id s ≡ set_poll id (resumed id) s
unfolding resume_load_poll stop_poll
resume_new id s e = rw (e, stop_poll) refl

hydrate_ops-polls :
    (ops : List Operation) (s : Store)
    → Distinct (filed ops)
    → Awaits s.poll_timers ops
    → polls (hydrate_ops ops s) ≡ polls s ++ resumptions ops
unfolding hydrate_ops
hydrate_ops-polls [] s d a = sym (append-nil (polls s))
hydrate_ops-polls (op ∷ ops) s d a = go (is_running_load op) (λ t. hydrate_ops-polls ops t d.1)
  where
    t : Store
    t = put op.id op s

    new : Store
    new = set_poll op.id (resumed op.id) t

    appended : polls new ++ resumptions ops ≡ polls s ++ resumed op.id ∷ resumptions ops
    appended =
        ap (λ ps. ps ++ resumptions ops) (map-append _ s.intervals _)
        ∙ append_assoc (polls s) (resumed op.id ∷ []) (resumptions ops)

    go :
        (b : Bool)
        → ((t : Store)
            → Awaits t.poll_timers ops
            → polls (hydrate_ops ops t) ≡ polls t ++ resumptions ops)
        → polls (hydrate_ops ops (if b then resume_load_poll op.id t else t))
          ≡ polls s
            ++ map
                (λ o. resumed o.id)
                (if b then op ∷ filter is_running_load ops else filter is_running_load ops)
    go true ih =
        ap (λ u. polls (hydrate_ops ops u)) (resume_new op.id t a.0)
        ∙ (ih new (set-Awaits s.poll_timers op.id s.next_handle ops d.0 a.1) ∙ appended)
    go false ih = ih t a.1

none-Awaits : (ops : List Operation) → Awaits [] ops
unfolding JsMap.get
none-Awaits [] = tt
none-Awaits (o ∷ ops) = (refl, none-Awaits ops)

hydrate-polls :
    (item : SessionItem) (works : Bool) (handle : ℕ)
    → Distinct (filed (in_session item))
    → polls (hydrate item (blank item works handle)) ≡ resumptions (in_session item)
hydrate-polls missing works handle d = refl
hydrate-polls corrupt works handle d = refl
hydrate-polls (stored ops) works handle d = hydrate_ops-polls ops _ d (none-Awaits ops)

-- After a page load of a valid store whose storage works the intervals are one resumed poll for each
-- running load operation, in their order, and no other.
pub construct-polls :
    (s : Store) (handle : ℕ)
    → IsValid s
    → s.storage_works ≡ true
    → map (λ iv. iv.poll) (construct s.session true handle).intervals
      ≡ map (λ o. resumed o.id) (filter is_running_load (filter is_running_op (get_all s)))
unfolding construct
construct-polls s handle v w =
    hydrate-polls s.session true handle (session-Distinct s v w) ∙ ap resumptions (v.mirrored w)

hydrate_ops-Tracked : (ops : List Operation) (s : Store) → Tracked s → Tracked (hydrate_ops ops s)
unfolding hydrate_ops
hydrate_ops-Tracked [] s t = t
hydrate_ops-Tracked (op ∷ ops) s t = hydrate_ops-Tracked ops (hydrate_op op s) (
    if_cases {A = Store} Tracked (is_running_load op) (λ _. resume-Tracked op.id (put op.id op s) t)
      (λ _. t))

-- So at most one interval polls for each operation from the start.
construct-Tracked :
    (item : SessionItem) (works : Bool) (handle : ℕ) → Tracked (construct item works handle)
unfolding construct
construct-Tracked missing works handle = record { kept = tt; unique = tt }
construct-Tracked corrupt works handle = record { kept = tt; unique = tt }
construct-Tracked (stored ops) works handle =
    hydrate_ops-Tracked ops _ (record { kept = tt; unique = tt })
