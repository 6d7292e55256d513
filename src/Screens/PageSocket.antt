-- ===== src/Screens/PageSocket.antt =====
-- The sockets that a page keeps for itself: pages/Storage.tsx to the metrics, pages/Logs.tsx to the
-- log. The two differ in their cleanup, which is the argument `cleanup`: only that of the log page
-- clears the timer of the reconnection. components/storage/LiveWriteFeed.tsx has a socket too, which
-- it opens only if it is not given its rate; the storage page, its only user, gives it.
pub mod Leak
use lsmkv_enterprise.Common.{
  ℕ, suc, ◌+◌, Bool, true, false, ◌&&◌, not, Option, none, some, List, [], ◌∷◌, ◌++◌, ◌==◌, nat_eq,
  if◌then◌else◌, filter, any,
}
use lsmkv_enterprise.Socket.{
  Socket, ReadyState, closed, is_below_closing, new_socket, update_socket, with_ready,
  is_connecting, open_socket, close_socket, reports_close, clear_reconnect, abandon_current,
}

pub data Cleanup : Type 0 where
  clears_timer keeps_timer : Cleanup

-- Timers and sockets are numbered together; `connected` is what the page shows. The storage page has
-- neither `connected` nor `reconnect_ref`, and none of its steps reads them.
pub record PageSocket : Type 0 where
  pub mounted : Bool
  pub connected : Bool
  pub ws_ref : Option ℕ
  pub reconnect_ref : Option ℕ
  pub sockets : List Socket
  pub timers : List ℕ
  pub next_id : ℕ

abbrev pub is_current : Option ℕ → List Socket → Bool
is_current none ss = false
is_current (some i) ss = any (λ s. s.id == i && is_below_closing s.ready_state) ss

unfoldable pub connect_page : PageSocket → PageSocket
connect_page p = if is_current p.ws_ref p.sockets then p else record p {
  ws_ref = some p.next_id;
  sockets = p.sockets ++ new_socket p.next_id ∷ [];
  next_id = suc p.next_id;
}

-- The effect of the write feed, with the rate that it is given: `if (propWps !== undefined) return`.
unfoldable pub feed_effect : Option ℕ → PageSocket → PageSocket
feed_effect (some wps) p = p
feed_effect none p = connect_page p

unfoldable pub page_socket_closed : ℕ → PageSocket → PageSocket
page_socket_closed i p = record p {
  ws_ref = none;
  connected = false;
  sockets = update_socket i (with_ready closed) p.sockets;
  reconnect_ref = some p.next_id;
  timers = p.timers ++ p.next_id ∷ [];
  next_id = suc p.next_id;
}

abbrev pub timers_left : Cleanup → Option ℕ → List ℕ → List ℕ
timers_left clears_timer ref ts = clear_reconnect ref ts
timers_left keeps_timer ref ts = ts

unfoldable pub clean_up : Cleanup → PageSocket → PageSocket
clean_up cleanup p = record p {
  mounted = false;
  timers = timers_left cleanup p.reconnect_ref p.timers;
  sockets = abandon_current p.ws_ref p.sockets;
}

-- `pauses`: the effect of the log page depends on `paused`, so that it runs again.
pub data PageSocketEvent : Type 0 where
  socket_opens socket_fails socket_closes timer_ends : ℕ → PageSocketEvent
  leaves pauses : PageSocketEvent

unfoldable pub page_socket_step : Cleanup → PageSocketEvent → PageSocket → PageSocket
page_socket_step cleanup (socket_opens i) p =
    if any (is_connecting i) p.sockets
    then record p { connected = true; sockets = update_socket i open_socket p.sockets }
    else p
page_socket_step cleanup (socket_fails i) p = record p {
  sockets = update_socket i close_socket p.sockets;
}
page_socket_step cleanup (socket_closes i) p =
    if any (reports_close i) p.sockets
    then page_socket_closed i p
    else record p { sockets = update_socket i (with_ready closed) p.sockets }
page_socket_step cleanup (timer_ends t) p =
    if any (◌==◌ t) p.timers
    then connect_page (record p { timers = filter (λ u. not (u == t)) p.timers })
    else p
page_socket_step cleanup leaves p = clean_up cleanup p
page_socket_step clears_timer pauses p =
    if p.mounted then connect_page (record (clean_up clears_timer p) { mounted = true }) else p
page_socket_step keeps_timer pauses p = p

-- A parsed message of the metrics: a list, or an object with nodes, of rates that may be missing.
pub data MetricsMessage : Type 0 where
  rates with_nodes : List (Option ℕ) → MetricsMessage
  other : MetricsMessage

abbrev rate_or_zero : Option ℕ → ℕ
rate_or_zero none = 0
rate_or_zero (some n) = n

unfoldable pub sum_rates : List (Option ℕ) → ℕ
sum_rates [] = 0
sum_rates (r ∷ rs) = rate_or_zero r + sum_rates rs

-- The new rate of the storage page. The write feed's own socket differs on
-- `other`: it keeps its rate.
unfoldable pub storage_rate : MetricsMessage → ℕ
storage_rate (rates rs) = sum_rates rs
storage_rate (with_nodes rs) = sum_rates rs
storage_rate other = 0

unfoldable pub feed_rate : ℕ → MetricsMessage → ℕ
feed_rate rate (rates rs) = sum_rates rs
feed_rate rate (with_nodes rs) = sum_rates rs
feed_rate rate other = rate
