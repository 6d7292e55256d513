-- ===== src/Tests/Sockets.antt =====
-- useMetricsWS.ts and api/client.ts: a hook whose socket was closed, and the address of a hosted
-- backend.
use lsmkv_enterprise.Common.{ℕ, ◌≡◌, refl, inr, true, false, none, some, List, [], ◌∷◌, text, arith}
use lsmkv_enterprise.Socket.{
  Hook, closed, empty_state, unmounted_hook, is_live, update_socket, connect, Event, mounts, opens,
  fails_at, closes, fires, handle,
}
use lsmkv_enterprise.Socket.Reconnect.{IsSteady, handle-IsSteady}
use lsmkv_enterprise.Socket.Recovery.{handle_all, lost-comes_back}
use lsmkv_enterprise.Urls.{Location}

-- Socket 1 was closed, and timer 2 is to reconnect.
abbrev lost : Hook
lost = record {
  mounted = true;
  state = empty_state;
  ws_ref = none;
  reconnect_ref = some 2;
  sockets = record { id = 1; ready_state = closed; on_close = true } ∷ [];
  timers = 2 ∷ [];
  next_id = 3;
}

lost-IsSteady : IsSteady true lost
lost-IsSteady = record {
  linked = ((λ a b. absurd (ground arith)), tt);
  timed = inr ((2, refl, refl), refl, refl);
  served = λ w m n. ground arith;
}

handle-IsSteady_example : IsSteady true (handle true (fires 2) lost)
handle-IsSteady_example = handle-IsSteady true (fires 2) lost lost-IsSteady

-- The socket opened, failed and closed after the mount.
abbrev story : List Event
story = mounts ∷ opens 1 ∷ fails_at 1 ∷ closes 1 ∷ []

story-lost : handle_all true story unmounted_hook ≡ lost
unfolding handle_all handle connect is_live update_socket
story-lost = refl

lost-comes_back_example :
    (t : ℕ) × (2 ∷ [] ≡ t ∷ [])
    × ((handle true (fires t) lost).ws_ref ≡ some 3)
    × ((handle true (fires t) lost).timers ≡ [])
    × (is_live (handle true (fires t) lost) ≡ true)
lost-comes_back_example = lost-comes_back story {h = lost} story-lost refl refl

abbrev page : Location
page = record { is_https = false; host = text "localhost:5173" }
