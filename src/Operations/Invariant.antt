-- ===== src/Operations/Invariant.antt =====
-- operationsStore.ts: what holds of the store between two calls.
use lsmkv_enterprise.Common.{
  ℕ, ◌≤◌, ◌≡◌, refl, sym, ap, ◌∙◌, Bool, true, none, some, List, [], ◌∷◌, arith, Text, text,
  text_eq, ℤ, pos, negsuc, subst, Bool-cases, inl, inr, filter, find, All, All-filter,
}
use lsmkv_enterprise.JsMap.{JsMap, Distinct, set, values, set-Distinct, All-set, All-get}
use lsmkv_enterprise.JsMap.Filter.{filter-Distinct}
use lsmkv_enterprise.Operations.{
  Status, running, completed, failed, Operation, Store, SessionItem, missing, corrupt, stored,
  is_running, is_running_op, get, notify, persist, put, stop_poll, clamp, started, completed_op,
  failed_op, start, update, complete, fail, cancel_load_op, is_running_load, subscribe, unsubscribe,
  on_toast, off_toast,
}
use lsmkv_enterprise.Operations.Polling.{start_load_poll}
use lsmkv_enterprise.Operations.Cases.{
  stop_poll_cases, update_cases, complete_cases, fail_cases, cancel_load_op_cases,
  stop_load_poll_keeps, reply_keeps,
}
use lsmkv_enterprise.Operations.Session.{purge}
use lsmkv_enterprise.Operations.Purge.{is_fresh, purge-ops, filter-purge}
use lsmkv_enterprise.Operations.Calls.{
  Call, subscribes, unsubscribes, on_toasts, off_toasts, starts, updates, completes, fails, cancels,
  starts_poll, stops_polls, replies, purges, refreshes, step, run,
}

-- The optional fields of an operation, by its status.
abbrev pub Fields : Status → Operation → Type 0
Fields running op = (op.completed_at ≡ none) × (op.result ≡ none) × (op.error ≡ none)
Fields completed op =
    (op.progress ≡ 100)
    × ((t : ℕ) × (op.completed_at ≡ some t))
    × ((r : Text) × (op.result ≡ some r))
Fields failed op = ((t : ℕ) × (op.completed_at ≡ some t)) × ((e : Text) × (op.error ≡ some e))

-- An entry of the map: filed under its own id, in range, with the fields of its status.
pub record Entry (e : Text × Operation) : Type 0 where
  pub keyed : e.1.id ≡ e.0
  pub in_range : e.1.progress ≤ 100
  pub fields : Fields e.1.status e.1

-- The running operations that a page load would find.
abbrev pub in_session : SessionItem → List Operation
in_session missing = []
in_session corrupt = []
in_session (stored ops) = ops

pub record IsSound (ops : JsMap Text Operation) : Type 0 where
  pub distinct : Distinct ops
  pub entries : All Entry ops

pub record IsConsistent (ops : JsMap Text Operation) (session : SessionItem) (storage_works : Bool)
    : Type 0 where
  pub sound : IsSound ops
  pub mirrored : storage_works ≡ true → in_session session ≡ filter is_running_op (values ops)

abbrev pub IsValid : Store → Type 0
IsValid s = IsConsistent s.ops s.session s.storage_works

persist-IsValid : (s : Store) → IsSound s.ops → IsValid (persist s)
unfolding persist
persist-IsValid s v = record { sound = v; mirrored = λ w. ground arith }

put-IsSound :
    (m : JsMap Text Operation) (id : Text) (op : Operation)
    → IsSound m
    → Entry (id, op)
    → IsSound (set id op m)
put-IsSound m id op v e = record {
  distinct = set-Distinct id op m v.distinct;
  entries = All-set Entry id op m e v.entries;
}

pub stop_poll-ops : (id : Text) (s : Store) → (stop_poll id s).ops ≡ s.ops
stop_poll-ops id s = stop_poll_cases (λ t. t.ops ≡ s.ops) id s (λ _. refl) (λ timer _. refl)

stop_poll-IsSound : (id : Text) (s : Store) → IsSound s.ops → IsSound (stop_poll id s).ops
stop_poll-IsSound id s v = subst IsSound (sym (stop_poll-ops id s)) v

stop_poll-IsValid : (id : Text) (s : Store) → IsValid s → IsValid (stop_poll id s)
stop_poll-IsValid id s v = stop_poll_cases IsValid id s (λ _. v) (λ timer _. v)

get-Entry :
    (s : Store) (id : Text) (op : Operation) → IsSound s.ops → get id s ≡ some op → Entry (id, op)
get-Entry s id op v g = All-get Entry id op s.ops v.entries g

start-IsValid : (now : ℕ) (id name : Text) (s : Store) → IsValid s → IsValid (start now id name s)
unfolding start
start-IsValid now id name s v =
    (persist-IsValid _ (put-IsSound s.ops id (started now id name) v.sound (ground arith)))

clamp-le : (p : ℤ) → clamp p ≤ 100
clamp-le (pos n) = omega arith
clamp-le (negsuc n) = omega arith

update-IsValid : (id : Text) (p : ℤ) (s : Store) → IsValid s → IsValid (update id p s)
update-IsValid id p s v = update_cases IsValid id p s v λ op e r.
    let old = get-Entry s id op v.sound e in
    (persist-IsValid _ (put-IsSound s.ops id _ v.sound (moved op old r)))
  where
    running-Fields :
        (st : Status) (op : Operation)
        → is_running st ≡ true
        → Fields st op
        → Fields st (record op { progress = clamp p })
    running-Fields running op r f = f
    running-Fields completed op r f = absurd (ground arith)
    running-Fields failed op r f = absurd (ground arith)

    moved :
        (op : Operation)
        → Entry (id, op)
        → is_running op.status ≡ true
        → Entry (id, record op { progress = clamp p })
    moved op old r = record {
      keyed = old.keyed;
      in_range = clamp-le p;
      fields = running-Fields op.status op r old.fields;
    }

completed-Entry :
    (now : ℕ) (result id : Text) (op : Operation)
    → Entry (id, op)
    → Entry (id, completed_op now result op)
completed-Entry now result id op old = record {
  keyed = old.keyed;
  in_range = omega arith;
  fields = (refl, (now, refl), (result, refl));
}

failed-Entry :
    (now : ℕ) (error id : Text) (op : Operation)
    → Entry (id, op)
    → Entry (id, failed_op now error op)
failed-Entry now error id op old = record {
  keyed = old.keyed;
  in_range = old.in_range;
  fields = ((now, refl), (error, refl));
}

settle-IsValid :
    (s : Store) (id : Text) (op : Operation)
    → IsSound s.ops
    → Entry (id, op)
    → IsValid (notify (persist (stop_poll id (put id op s))))
settle-IsValid s id op v e =
    (persist-IsValid _ (stop_poll-IsSound id _ (put-IsSound s.ops id op v e)))

complete-IsValid :
    (now : ℕ) (id result : Text) (s : Store) → IsValid s → IsValid (complete now id result s)
complete-IsValid now id result s v = complete_cases IsValid now id result s v λ op e.
    (settle-IsValid s id _ v.sound (completed-Entry now result id op (get-Entry s id op v.sound e)))

fail-IsValid : (now : ℕ) (id error : Text) (s : Store) → IsValid s → IsValid (fail now id error s)
fail-IsValid now id error s v = fail_cases IsValid now id error s v λ op e.
    settle-IsValid s id _ v.sound (failed-Entry now error id op (get-Entry s id op v.sound e))

find-Entry :
    (p : Operation → Bool) (m : JsMap Text Operation) (op : Operation)
    → All Entry m
    → find p (values m) ≡ some op
    → Entry (op.id, op)
find-Entry p [] op h e = absurd (ground arith)
find-Entry p ((k, o) ∷ m) op h e = elim (Bool-cases (p o)) [
  | inl hit ↦
      subst (λ u. Entry (u.id, u)) (ground arith) (subst (λ i. Entry (i, o)) (sym h.0.keyed) h.0)
  | inr miss ↦ find-Entry p m op h.1 (ground arith)
]

cancel-IsValid : (now : ℕ) (s : Store) → IsValid s → IsValid (cancel_load_op now s)
cancel-IsValid now s v = cancel_load_op_cases IsValid now s v λ op e.
    (persist-IsValid _ (
      put-IsSound _ op.id _ (stop_poll-IsSound op.id s v.sound) (
        failed-Entry now (text "Cancelled") op.id op
          (find-Entry is_running_load s.ops op v.sound.entries e))))

abbrev running_of : JsMap Text Operation → List Operation
running_of m = filter is_running_op (values m)

purge-session : (now : ℕ) (s : Store) → (purge now s).session ≡ s.session
unfolding purge
purge-session now s = ground arith

purge-storage_works : (now : ℕ) (s : Store) → (purge now s).storage_works ≡ s.storage_works
unfolding purge
purge-storage_works now s = ground arith

purge-IsValid : (now : ℕ) (s : Store) → IsValid s → IsValid (purge now s)
purge-IsValid now s v = record {
  sound = record {
    distinct =
        subst Distinct (sym (purge-ops now s v.sound.distinct))
          (filter-Distinct (is_fresh now) s.ops v.sound.distinct);
    entries =
        subst (All Entry) (sym (purge-ops now s v.sound.distinct))
          (All-filter Entry (is_fresh now) s.ops v.sound.entries);
  };
  mirrored = λ w.
      ap in_session (purge-session now s)
      ∙ (v.mirrored (sym (purge-storage_works now s) ∙ w)
          ∙ (sym (filter-purge now s.ops)
              ∙ ap running_of (sym (purge-ops now s v.sound.distinct))));
}

-- Every method and every callback, at any time, keeps the store valid: ids stand once and file
-- their own operation, the progress is at most 100, the optional fields fit the status, and the
-- session holds the running operations, the last as long as the storage works.
pub step-IsValid :
    (seconds : ℕ → Text) (now : ℕ) (c : Call) (s : Store)
    → IsValid s
    → IsValid (step seconds now c s)
unfolding step subscribe unsubscribe on_toast off_toast
step-IsValid seconds now (starts id name) s v = start-IsValid now id name s v
step-IsValid seconds now (updates id p) s v = update-IsValid id p s v
step-IsValid seconds now (completes id result) s v = complete-IsValid now id result s v
step-IsValid seconds now (fails id error) s v = fail-IsValid now id error s v
step-IsValid seconds now cancels s v = cancel-IsValid now s v
step-IsValid seconds now (stops_polls id) s v =
    stop_load_poll_keeps IsValid stop_poll-IsValid id s v
step-IsValid seconds now (replies iv r) s v =
    reply_keeps IsValid seconds update-IsValid complete-IsValid (λ t w. w) (λ timer t w. w) now iv r
      s v
step-IsValid seconds now purges s v = purge-IsValid now s v
step-IsValid seconds now (starts_poll id n) s v = unfold start_load_poll in stop_poll-IsValid id s v
step-IsValid seconds now (subscribes fn) s v = v
step-IsValid seconds now refreshes s v = v
step-IsValid seconds now (unsubscribes fn) s v = v
step-IsValid seconds now (on_toasts fn) s v = v
step-IsValid seconds now (off_toasts fn) s v = v

run-IsValid :
    (seconds : ℕ → Text) (cs : List (ℕ × Call)) (s : Store) → IsValid s → IsValid (run seconds cs s)
unfolding run
run-IsValid seconds [] s v = v
run-IsValid seconds ((now, c) ∷ cs) s v =
    run-IsValid seconds cs (step seconds now c s) (step-IsValid seconds now c s v)
