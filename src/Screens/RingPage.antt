-- ===== src/Screens/RingPage.antt =====
-- pages/HashRing.tsx: the ring that is shown. Angles are in thousandths of a degree; the one of a node
-- may be negative. The socket's address and its frames (api/websocket.ts) are not modelled.
pub mod Shown
use lsmkv_enterprise.Common.{
  ℕ, zero, suc, ◌+◌, ◌-◌, ◌*◌, ◌/◌, min, max, ℤ, pos, negsuc, Bool, true, false, not, ◌&&◌, ◌||◌,
  Option, none, some, List, [], ◌∷◌, Text, text, ltb, ◌==◌, text_eq, nat_eq, if◌then◌else◌, length,
  find, starts_with,
}
use lsmkv_enterprise.Operations.{Operation, is_running}
use lsmkv_enterprise.Ring.{RingKey, generate_keys}

pub record ShownNode : Type 0 where
  pub id : ℕ
  pub angle : ℤ
  pub addr : Option Text

pub record RingSnapshot : Type 0 where
  pub nodes : List ShownNode
  pub keys : List RingKey
  pub replication_factor : Option ℕ
  pub virtual_nodes : Option ℕ

pub record RingPage : Type 0 where
  pub nodes : List ShownNode
  pub keys : List RingKey
  pub live : Bool
  pub rf : Option ℕ
  pub vnodes : Option ℕ

abbrev pub difference : ℕ → ℕ → ℤ
difference a b = if ltb a b then negsuc (b - a - 1) else pos (a - b)

-- The nodes from the index `i` on, with `left` to come.
unfoldable pub mock_from : ℕ → ℕ → ℕ → List ShownNode
mock_from count i zero = []
mock_from count i (suc left) =
    record { id = i + 1; angle = difference (360000 / count * i) 90000; addr = none }
    ∷ mock_from count (i + 1) left

abbrev pub default_nodes : List ShownNode
default_nodes =
    record { id = 1; angle = difference 0 90000; addr = none }
    ∷ record { id = 2; angle = pos 30000; addr = none }
    ∷ record { id = 3; angle = pos 150000; addr = none }
    ∷ []

unfoldable pub opened_ring : RingPage
opened_ring = record {
  nodes = default_nodes;
  keys = generate_keys 100;
  live = false;
  rf = none;
  vnodes = none;
}

-- `if (snap.nodes?.length) setNodes(snap.nodes)`, and the same for the keys.
abbrev pub kept_unless {ℓ} : {A : Type ℓ} → List A → List A → List A
kept_unless old [] = old
kept_unless old (x ∷ xs) = x ∷ xs

abbrev pub set_if : Option ℕ → Option ℕ → Option ℕ
set_if old none = old
set_if old (some n) = some n

unfoldable pub apply_snapshot : RingSnapshot → RingPage → RingPage
apply_snapshot snap p = record {
  nodes = kept_unless p.nodes snap.nodes;
  keys = kept_unless p.keys snap.keys;
  rf = set_if p.rf snap.replication_factor;
  vnodes = set_if p.vnodes snap.virtual_nodes;
  live = true;
}

-- The reply of `getRing` at the mount; `none` is an error.
unfoldable pub ring_fetched : Option RingSnapshot → RingPage → RingPage
ring_fetched none p = record p { live = false }
ring_fetched (some snap) p = apply_snapshot snap p

-- A message of the socket, with its event and its data.
unfoldable pub ring_message : Text → Option RingSnapshot → RingPage → RingPage
ring_message event none p = p
ring_message event (some snap) p = if event == text "ring_update" then apply_snapshot snap p else p

unfoldable pub ring_socket_error : RingPage → RingPage
ring_socket_error p = record p { live = false }

-- The reply of `getRing` to the interval that is set while the ring changes.
unfoldable pub ring_polled : Option RingSnapshot → RingPage → RingPage
ring_polled none p = p
ring_polled (some snap) p = apply_snapshot snap p

-- The effect on the number of the nodes of the store, on `live` and on the number of the nodes.
unfoldable pub store_count_changed : ℕ → RingPage → RingPage
store_count_changed n p =
    if not p.live && ltb 0 n && not (n == length p.nodes)
    then (let count : ℕ = max 3 (min 6 n) in record p { nodes = mock_from count 0 count })
    else p

pub data RingEvent : Type 0 where
  fetched : Option RingSnapshot → RingEvent
  message : Text → Option RingSnapshot → RingEvent
  socket_error : RingEvent
  polled : Option RingSnapshot → RingEvent
  store_count : ℕ → RingEvent

unfoldable pub ring_step : RingEvent → RingPage → RingPage
ring_step (fetched o) p = ring_fetched o p
ring_step (message e o) p = ring_message e o p
ring_step socket_error p = ring_socket_error p
ring_step (polled o) p = ring_polled o p
ring_step (store_count n) p = store_count_changed n p

unfoldable pub ring_run : List RingEvent → RingPage → RingPage
ring_run [] p = p
ring_run (e ∷ es) p = ring_run es (ring_step e p)

abbrev pub changes_ring : Operation → Bool
changes_ring o =
    (starts_with (text "add-node-") o.id || starts_with (text "remove-node-") o.id)
    && is_running o.status

unfoldable pub node_op : List Operation → Option Operation
node_op ops = find changes_ring ops
