-- ===== src/Socket/Recovery.antt =====
-- useMetricsWS.ts: a hook that lost its socket gets a new one, from whatever happened before.
use lsmkv_enterprise.Common.{
  ℕ, ◌≡◌, refl, subst, sym, ap, ◌∙◌, suc, if◌then◌else◌, inl, inr, Bool, true, false, ◌&&◌, not,
  none, some, List, [], ◌∷◌, ◌++◌, arith, ◌==◌, nat_eq, beq_refl, filter, any,
}
use lsmkv_enterprise.Socket.{
  Socket, Hook, is_live, is_below_closing, new_socket, unmounted_hook, Event, fires, connect,
  handle,
}
use lsmkv_enterprise.Socket.Reconnect.{IsSteady, handle-IsSteady}

-- The events that happen to a hook, one after another.
unfoldable pub handle_all : Bool → List Event → Hook → Hook
handle_all works [] h = h
handle_all works (e ∷ es) h = handle_all works es (handle works e h)

handle_all-IsSteady :
    (works : Bool) (es : List Event) (h : Hook)
    → IsSteady works h
    → IsSteady works (handle_all works es h)
unfolding handle_all
handle_all-IsSteady works [] h v = v
handle_all-IsSteady works (e ∷ es) h v =
    handle_all-IsSteady works es (handle works e h) (handle-IsSteady works e h v)

unmounted_hook-IsSteady : (works : Bool) → IsSteady works unmounted_hook
unmounted_hook-IsSteady works = record {
  linked = tt;
  timed = inl refl;
  served = λ w m n. absurd (ground arith);
}

-- A socket that was just added is one that connects.
pub any-last :
    (i : ℕ) (ss : List Socket)
    → any (λ s. s.id == i && is_below_closing s.ready_state) (ss ++ new_socket i ∷ []) ≡ true
any-last i [] = ground (arith, beq_refl i)
any-last i (s ∷ ss) = ground (arith, any-last i ss)

any_self : (t : ℕ) → any (λ u. u == t) (t ∷ []) ≡ true
any_self t = ground (arith, beq_refl t)

filter_self : (t : ℕ) → filter (λ u. not (u == t)) (t ∷ []) ≡ []
filter_self t = ground (arith, beq_refl t)

-- What `connect` makes of a hook without a socket.
abbrev connected_anew : Hook → Hook
connected_anew h = record h {
  ws_ref = some h.next_id;
  sockets = h.sockets ++ new_socket h.next_id ∷ [];
  next_id = suc h.next_id;
}

is_live_of_none : (h : Hook) → h.ws_ref ≡ none → is_live h ≡ false
unfolding is_live
is_live_of_none h n = ground arith

connects_anew : (h : Hook) → h.ws_ref ≡ none → connect true h ≡ connected_anew h
unfolding connect
connects_anew h n =
    subst (λ b. (if b then h else connected_anew h) ≡ connected_anew h) (sym (is_live_of_none h n))
      refl

fires_one :
    (t : ℕ) (h : Hook)
    → h.timers ≡ t ∷ []
    → handle true (fires t) h ≡ connect true (record h { timers = [] })
unfolding handle
fires_one t h q =
    let found = ap (any (λ u. u == t)) q ∙ any_self t in
    let left = ap (filter (λ u. not (u == t))) q ∙ filter_self t in
    subst
      (λ b.
        (if b then connect true (record h { timers = filter (λ u. not (u == t)) h.timers }) else h)
        ≡ connect true (record h { timers = [] }))
      (sym found) (ap (λ ts. connect true (record h { timers = ts })) left)

fires-connects :
    (t : ℕ) (h : Hook)
    → h.timers ≡ t ∷ []
    → h.ws_ref ≡ none
    → ((handle true (fires t) h).ws_ref ≡ some h.next_id)
      × ((handle true (fires t) h).timers ≡ [])
      × (is_live (handle true (fires t) h) ≡ true)
unfolding is_live
fires-connects t h q n =
    subst (λ g. (g.ws_ref ≡ some h.next_id) × (g.timers ≡ []) × (is_live g ≡ true))
      (sym (fires_one t h q ∙ connects_anew (record h { timers = [] }) n))
      (refl, refl, any-last h.next_id h.sockets)

-- Whatever happened to a hook from the start, as long as the constructor of `WebSocket` does not
-- throw: if it is mounted and has no socket, then one timer is pending, and when that fires the hook
-- has a new socket, which connects, and no timer.
pub lost-comes_back :
    (es : List Event) {h : Hook}
    → handle_all true es unmounted_hook ≡ h
    → h.mounted ≡ true
    → h.ws_ref ≡ none
    → (t : ℕ) × (h.timers ≡ t ∷ [])
      × ((handle true (fires t) h).ws_ref ≡ some h.next_id)
      × ((handle true (fires t) h).timers ≡ [])
      × (is_live (handle true (fires t) h) ≡ true)
lost-comes_back es {h} e m n =
    let v =
      subst (IsSteady true) e
        (handle_all-IsSteady true es unmounted_hook (unmounted_hook-IsSteady true)) in
    elim v.timed [
      | inl q ↦ absurd (v.served refl m n q)
      | inr ((t, q, k), r, a) ↦ let (x, y, z) = fires-connects t h q n in (t, q, x, y, z)
    ]
