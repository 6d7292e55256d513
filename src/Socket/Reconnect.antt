-- ===== src/Socket/Reconnect.antt =====
-- useMetricsWS.ts: how many connections and timers there are at a time.
use lsmkv_enterprise.Common.{
  ℕ, ◌≡◌, ◌≢◌, refl, subst, ◌⊎◌, inl, inr, Bool, true, false, not, Option, none, some, List, [],
  ◌∷◌, arith, ◌==◌, nat_eq, filter, any, if_cases, All, All-append,
}
use lsmkv_enterprise.Socket.{
  closed, Hook, is_live, with_ready, close_socket, open_socket, is_connecting, reports_close, Event,
  mounts, unmounts, opens, fails_at, closes, fires, receives, connect, closed_hook, clear_reconnect,
  cleanup, handle,
}
use lsmkv_enterprise.Socket.Links.{
  IsLinked, update-IsLinked, unlinked, ended, abandoned, reporter, close_socket-IsLinked,
  open_socket-IsLinked,
}

-- One timer is pending, under the handle in `reconnectRef`.
abbrev pub IsWaiting : List ℕ → Option ℕ → Type 0
IsWaiting timers reconnect = (t : ℕ) × (timers ≡ t ∷ []) × (reconnect ≡ some t)

-- What is expected to reconnect: nothing before the mount and after the cleanup.
abbrev pub owner : Bool → Option ℕ → Option ℕ
owner true ref = ref
owner false ref = none

pub record IsSteady (works : Bool) (h : Hook) : Type 0 where
  pub linked : All (IsLinked (owner h.mounted h.ws_ref)) h.sockets
  pub timed :
      (h.timers ≡ [])
      ⊎ (IsWaiting h.timers h.reconnect_ref × (h.ws_ref ≡ none) × (h.mounted ≡ true))
  pub served : works ≡ true → h.mounted ≡ true → h.ws_ref ≡ none → h.timers ≢ []

is_live-none : (h : Hook) → is_live h ≡ true → h.ws_ref ≢ none
unfolding is_live
is_live-none h e n = ground arith

connect-IsSteady :
    (works : Bool) (h : Hook)
    → h.mounted ≡ true
    → h.timers ≡ []
    → All (IsLinked none) h.sockets
    → IsSteady works (connect works h)
unfolding connect
connect-IsSteady works h m q l =
    if_cases (IsSteady works) (is_live h)
      (λ e. record {
        linked = unlinked _ h.sockets l;
        timed = inl q;
        served = λ w a n. absurd (is_live-none h e n);
      })
      (λ e.
        if_cases (IsSteady works) works
          (λ w. record {
            linked = All-append _ h.sockets _ (unlinked _ h.sockets l) (rw m (λ a b. refl), tt);
            timed = inl q;
            served = λ w a n. absurd (ground arith);
          })
          (λ w. record {
            linked = unlinked _ h.sockets l;
            timed = inl q;
            served = λ v a n. absurd (ground arith);
          }))

clear_reconnect-timed :
    (reconnect : Option ℕ) (ts : List ℕ)
    → ((ts ≡ []) ⊎ IsWaiting ts reconnect)
    → clear_reconnect reconnect ts ≡ []
clear_reconnect-timed none ts (inl q) = q
clear_reconnect-timed (some t) ts (inl q) = rw q refl
clear_reconnect-timed none ts (inr (u, q, r)) = absurd (ground arith)
clear_reconnect-timed (some t) ts (inr (u, q, r)) = rw q (ground arith)

pending :
    (works : Bool) (h : Hook)
    → IsSteady works h
    → (h.timers ≡ []) ⊎ IsWaiting h.timers h.reconnect_ref
pending works h v = elim v.timed [ inl q ↦ inl q | inr w ↦ inr w.0 ]

cleanup-IsSteady :
    (works : Bool) (h : Hook) → h.mounted ≡ true → IsSteady works h → IsSteady works (cleanup h)
unfolding cleanup
cleanup-IsSteady works h m v = record {
  linked =
      abandoned h.ws_ref h.sockets
        (subst (λ b. All (IsLinked (owner b h.ws_ref)) h.sockets) m v.linked);
  timed = inl (clear_reconnect-timed h.reconnect_ref h.timers (pending works h v));
  served = λ w a n. absurd (ground arith);
}

owner_some :
    (b : Bool) (ref : Option ℕ) {i : ℕ} → owner b ref ≡ some i → (b ≡ true) × (ref ≡ some i)
owner_some true ref e = (refl, e)
owner_some false ref e = absurd (ground arith)

closed_hook-IsSteady :
    (works : Bool) (i : ℕ) (h : Hook)
    → any (reports_close i) h.sockets ≡ true
    → IsSteady works h
    → IsSteady works (closed_hook i h)
closed_hook-IsSteady works i h e v =
    let o = reporter _ i h.sockets v.linked e in
    let (m, r) = owner_some h.mounted h.ws_ref o in
    record {
      linked = unlinked _ _ (ended _ i h.sockets o v.linked);
      timed = elim v.timed [
        | inl q ↦ inr ((h.next_id, rw q refl, refl), refl, m)
        | inr w ↦ absurd (ground (arith, w.1))
      ];
      served = λ w a n. ground arith;
    }

idle_timers : (works : Bool) (h : Hook) → h.mounted ≡ false → IsSteady works h → h.timers ≡ []
idle_timers works h m v = elim v.timed [ inl q ↦ q | inr w ↦ absurd (ground (arith, w.2)) ]

fired_none : (t : ℕ) (ts : List ℕ) → ts ≡ [] → any (λ u. u == t) ts ≢ true
fired_none t ts q e = let f = subst (λ us. any (λ u. u == t) us ≡ true) q e in ground arith

filter-fired :
    (t u : ℕ) (ts : List ℕ)
    → ts ≡ u ∷ []
    → any (λ v. v == t) ts ≡ true
    → filter (λ v. not (v == t)) ts ≡ []
filter-fired t u ts q e =
    let f = subst (λ us. any (λ v. v == t) us ≡ true) q e in rw q (ground arith)

fired-IsSteady :
    (works : Bool) (t : ℕ) (h : Hook)
    → any (λ u. u == t) h.timers ≡ true
    → IsSteady works h
    → IsSteady works (connect works (record h { timers = filter (λ u. not (u == t)) h.timers }))
fired-IsSteady works t h e v = elim v.timed [
  | inl q ↦ absurd (fired_none t h.timers q e)
  | inr ((u, q, k), r, m) ↦
      connect-IsSteady works _ m (filter-fired t u h.timers q e)
        (subst (λ ref. All (IsLinked ref) h.sockets) (rw m r) v.linked)
]

-- Whatever happens to the hook, its sockets and its timers: at most one socket will report its
-- end, and it is the one in `wsRef`; at most one timer is pending, never beside such a socket and
-- never after the cleanup; and as long as the constructor of `WebSocket` does not throw, a mounted
-- hook without a socket has a timer that reconnects.
pub handle-IsSteady :
    (works : Bool) (e : Event) (h : Hook) → IsSteady works h → IsSteady works (handle works e h)
unfolding handle
handle-IsSteady works mounts h v =
    if_cases (IsSteady works) h.mounted (λ _. v)
      (λ m.
        connect-IsSteady works (record h { mounted = true }) refl (idle_timers works h m v)
          (subst (λ b. All (IsLinked (owner b h.ws_ref)) h.sockets) m v.linked))
handle-IsSteady works unmounts h v =
    if_cases (IsSteady works) h.mounted (λ m. cleanup-IsSteady works h m v) (λ _. v)
handle-IsSteady works (opens i) h v =
    if_cases (IsSteady works) (any (is_connecting i) h.sockets)
      (λ _. record {
        linked =
            update-IsLinked _ i open_socket h.sockets (λ s l. open_socket-IsLinked _ s l) v.linked;
        timed = v.timed;
        served = v.served;
      })
      (λ _. v)
handle-IsSteady works (fails_at i) h v = record {
  linked = update-IsLinked _ i close_socket h.sockets (λ s l. close_socket-IsLinked _ s l) v.linked;
  timed = v.timed;
  served = v.served;
}
handle-IsSteady works (closes i) h v =
    if_cases (IsSteady works) (any (reports_close i) h.sockets)
      (λ e. closed_hook-IsSteady works i h e v)
      (λ _. record {
        linked =
            update-IsLinked _ i (with_ready closed) h.sockets (λ s l a b. absurd (ground arith))
              v.linked;
        timed = v.timed;
        served = v.served;
      })
handle-IsSteady works (fires t) h v =
    if_cases (IsSteady works) (any (λ u. u == t) h.timers) (λ e. fired-IsSteady works t h e v)
      (λ _. v)
handle-IsSteady works (receives none) h v = v
handle-IsSteady works (receives (some m)) h v = record {
  linked = v.linked;
  timed = v.timed;
  served = v.served;
}
