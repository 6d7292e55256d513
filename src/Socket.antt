-- ===== src/Socket.antt =====
-- dashboard/frontend/src/hooks/useMetricsWS.ts: the connection of the metrics hook. What `useRef`
-- holds, the browser's sockets and the pending timers are one state, and what can happen to them
-- is one type of events. A metrics map is opaque here: it is a number.
mod Links
pub mod Reconnect
pub mod Recovery
use lsmkv_enterprise.Common.{
  ℕ, suc, Bool, true, false, ◌&&◌, not, Option, none, some, List, [], ◌∷◌, ◌++◌, map, ◌==◌, nat_eq,
  if◌then◌else◌, filter, find, any,
}

-- `connecting` and `opened` are the states below 2.
pub data ReadyState : Type 0 where
  connecting opened closing closed : ReadyState

-- `on_close`: the hook's `onclose` is still set.
pub record Socket : Type 0 where
  pub id : ℕ
  pub ready_state : ReadyState
  pub on_close : Bool

pub record ClusterMetrics : Type 0 where
  pub total_qps : ℕ
  pub total_keys : ℕ
  pub node_count : ℕ
  pub avg_p50_ms : ℕ
  pub avg_p99_ms : ℕ

-- A message that parses, with its missing parts.
pub record Message : Type 0 where
  pub ts : Option ℕ
  pub nodes : List (ℕ × ℕ)
  pub cluster : Option ClusterMetrics

pub record MetricsWsState : Type 0 where
  pub connected : Bool
  pub nodes : List (ℕ × ℕ)
  pub cluster : Option ClusterMetrics
  pub last_ts : Option ℕ

abbrev pub empty_state : MetricsWsState
empty_state = record { connected = false; nodes = []; cluster = none; last_ts = none }

pub record Hook : Type 0 where
  pub mounted : Bool
  pub state : MetricsWsState
  pub ws_ref : Option ℕ
  pub reconnect_ref : Option ℕ
  pub sockets : List Socket
  pub timers : List ℕ  -- those that are pending
  pub next_id : ℕ  -- of sockets and timers

abbrev pub unmounted_hook : Hook
unmounted_hook = record {
  mounted = false;
  state = empty_state;
  ws_ref = none;
  reconnect_ref = none;
  sockets = [];
  timers = [];
  next_id = 1;
}

abbrev pub is_below_closing : ReadyState → Bool
is_below_closing connecting = true
is_below_closing opened = true
is_below_closing _ = false

-- `wsRef.current && wsRef.current.readyState < 2`.
unfoldable pub is_live : Hook → Bool
is_live h = elim h.ws_ref [
  | none ↦ false
  | some i ↦ any (λ s. s.id == i && is_below_closing s.ready_state) h.sockets
]

abbrev pub set_connected : Bool → Hook → Hook
set_connected b h =
    let st : MetricsWsState = h.state in record h { state = record st { connected = b } }

abbrev pub new_socket : ℕ → Socket
new_socket id = record { id = id; ready_state = connecting; on_close = true }

unfoldable pub update_socket : ℕ → (Socket → Socket) → List Socket → List Socket
update_socket i f ss = map (λ s. if s.id == i then f s else s) ss

abbrev pub with_ready : ReadyState → Socket → Socket
with_ready r s = record s { ready_state = r }

-- The socket may still report that it is open.
abbrev pub is_connecting : ℕ → Socket → Bool
is_connecting i s = s.id == i && (elim s.ready_state [ connecting ↦ true | _ ↦ false ])

abbrev pub open_socket : Socket → Socket
open_socket s = elim s.ready_state [ connecting ↦ record s { ready_state = opened } | _ ↦ s ]

-- `ws.close()`: a socket that is closed stays so.
abbrev pub close_socket : Socket → Socket
close_socket s = elim s.ready_state [ closed ↦ s | _ ↦ record s { ready_state = closing } ]

-- What the cleanup does to the socket in `wsRef`.
abbrev pub abandon : Socket → Socket
abandon s = close_socket (record s { on_close = false })

abbrev pub is_closed : ReadyState → Bool
is_closed closed = true
is_closed _ = false

-- The socket has not reported its end yet, and its `onclose` is the hook's.
abbrev pub reports_close : ℕ → Socket → Bool
reports_close i s = (s.id == i && s.on_close) && not (is_closed s.ready_state)

-- `onclose`, once the browser has closed the socket.
abbrev pub closed_hook : ℕ → Hook → Hook
closed_hook i h = set_connected false (record h {
  ws_ref = none;
  sockets = update_socket i (with_ready closed) h.sockets;
  reconnect_ref = some h.next_id;
  timers = h.timers ++ h.next_id ∷ [];
  next_id = suc h.next_id;
})

-- `clearTimeout(reconnectRef.current)`, if it is set.
abbrev pub clear_reconnect : Option ℕ → List ℕ → List ℕ
clear_reconnect none ts = ts
clear_reconnect (some t) ts = filter (λ u. not (u == t)) ts

abbrev pub abandon_current : Option ℕ → List Socket → List Socket
abandon_current none ss = ss
abandon_current (some i) ss = update_socket i abandon ss

unfoldable pub cleanup : Hook → Hook
cleanup h = record h {
  mounted = false;
  timers = clear_reconnect h.reconnect_ref h.timers;
  sockets = abandon_current h.ws_ref h.sockets;
}

abbrev pub received : Option Message → Hook → Hook
received none h = h
received (some m) h = record h {
  state = record { connected = true; nodes = m.nodes; cluster = m.cluster; last_ts = m.ts };
}

-- What happens to the hook, a socket or a timer, by its number.
pub data Event : Type 0 where
  mounts unmounts : Event
  opens fails_at closes fires : ℕ → Event
  receives : Option Message → Event  -- `none` does not parse

-- `works`: the constructor of `WebSocket` does not throw.
module _ (works : Bool) where
  unfoldable pub connect : Hook → Hook
  connect h =
      if is_live h
      then h
      else (if works
          then record h {
            ws_ref = some h.next_id;
            sockets = h.sockets ++ new_socket h.next_id ∷ [];
            next_id = suc h.next_id;
          }
          else h)

  -- A timer that is not pending does not fire; a socket opens and closes once.
  unfoldable pub handle : Event → Hook → Hook
  handle mounts h = if h.mounted then h else connect (record h { mounted = true })
  handle unmounts h = if h.mounted then cleanup h else h
  handle (opens i) h =
      if any (is_connecting i) h.sockets
      then set_connected true (record h { sockets = update_socket i open_socket h.sockets })
      else h
  handle (fails_at i) h = record h { sockets = update_socket i close_socket h.sockets }
  handle (closes i) h =
      if any (reports_close i) h.sockets
      then closed_hook i h
      else record h { sockets = update_socket i (with_ready closed) h.sockets }
  handle (fires t) h =
      if any (λ u. u == t) h.timers
      then connect (record h { timers = filter (λ u. not (u == t)) h.timers })
      else h
  handle (receives m) h = received m h
