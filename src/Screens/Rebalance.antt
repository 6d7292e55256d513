-- ===== src/Screens/Rebalance.antt =====
-- pages/Rebalancing.tsx: the animated rebalance. A random index is an argument, and so is the speed,
-- a rounded quotient of floats, which is in tenths. A token's progress is its number of steps of
-- 0.025: the sum of 42 of them, as floats, is the first above 1.05. Other quotients are
-- exact. The three intervals, which are set and cleared together, are the field `intervals`.
pub mod Progress
use lsmkv_enterprise.Common.{
  ℕ, zero, suc, ◌+◌, ◌*◌, ◌/◌, ◌%◌, min, max, Bool, true, false, ◌&&◌, not, Option, none, some,
  List, [], ◌∷◌, ◌++◌, map, Text, text, decimal, ◌==◌, nat_eq, leb, ltb, if◌then◌else◌, length,
  get_elem?, filter, any, slice_last,
}
use lsmkv_enterprise.Failure.{NodeState, unreachable, rebalancing, NodeRuntimeState}
use lsmkv_enterprise.Api.{ClusterInfo, NodeStorage}
use lsmkv_enterprise.Sync.{Settled, fulfilled, rejected}
use lsmkv_enterprise.JsMap.{JsMap}
use lsmkv_enterprise.JsMap

pub record Token : Type 0 where
  pub id : ℕ
  pub from_node : ℕ
  pub to_node : ℕ
  pub key_name : Text
  pub progress : ℕ
  pub color : Text

pub record RebalanceState : Type 0 where
  pub running : Bool
  pub total_keys : ℕ
  pub moved_keys : ℕ
  pub start_time : Option ℕ
  pub keys_per_sec : ℕ

pub record RebalancePage : Type 0 where
  pub real_key_count : ℕ  -- also what `realKeyCountRef` holds
  pub node_key_counts : JsMap ℕ ℕ
  pub storage_online : Bool
  pub state : RebalanceState
  pub tokens : List Token
  pub next_id : ℕ
  pub intervals : Bool

abbrev pub opened_page : RebalancePage
opened_page = record {
  real_key_count = 100;
  node_key_counts = [];
  storage_online = false;
  state = record {
    running = false;
    total_keys = 100;
    moved_keys = 0;
    start_time = none;
    keys_per_sec = 0;
  };
  tokens = [];
  next_id = 0;
  intervals = false;
}

unfoldable pub token_colors : List Text
token_colors =
    text "#60a5fa"
    ∷ text "#4ade80"
    ∷ text "#facc15"
    ∷ text "#c084fc"
    ∷ text "#f472b6"
    ∷ text "#2dd4bf"
    ∷ []

unfoldable pub token_color : ℕ → Text
token_color from = elim (get_elem? token_colors (from % 6)) [ none ↦ [] | some c ↦ c ]

abbrev ceil_div : ℕ → ℕ → ℕ
ceil_div a zero = 0
ceil_div a (suc b) = (a + b) / suc b

unfoldable pub fmt_secs : ℕ → Text
fmt_secs secs =
    if ltb 60 secs
    then decimal (ceil_div secs 60) ++ text "m " ++ decimal (secs % 60) ++ text "s"
    else decimal secs ++ text "s"

-- `kps` is in tenths.
unfoldable pub fmt_eta : ℕ → ℕ → Text
fmt_eta remaining zero = text "—"
fmt_eta remaining (suc kps) = fmt_secs (ceil_div (remaining * 10) (suc kps))

unfoldable pub key_counts : List NodeStorage → JsMap ℕ ℕ → JsMap ℕ ℕ
key_counts [] counts = counts
key_counts (n ∷ storage) counts = elim n.key_count [
  | none ↦ key_counts storage counts
  | some count ↦ key_counts storage (JsMap.set n.id count counts)
]

-- The answer of `Promise.all([getCluster(), getStorage()])`.
unfoldable pub fetch_data : Settled (ClusterInfo × List NodeStorage) → RebalancePage → RebalancePage
fetch_data (fulfilled (cluster, storage)) p = record p {
  real_key_count = cluster.key_count;
  node_key_counts = key_counts storage [];
  storage_online = true;
}
fetch_data rejected p = record p { storage_online = false }

unfoldable pub start_rebalance : ℕ → ℕ → RebalancePage → RebalancePage
start_rebalance total_nodes now p = if leb total_nodes 1 then p else record p {
  state = record {
    running = true;
    total_keys = max 20 p.real_key_count;
    moved_keys = 0;
    start_time = some now;
    keys_per_sec = 0;
  };
  tokens = [];
  intervals = true;
}

abbrev is_alive : NodeRuntimeState → Bool
is_alive n = elim n.state [ unreachable ↦ false | _ ↦ true ]

unfoldable pub alive_ids : List NodeRuntimeState → List ℕ
alive_ids nodes = map (λ n. n.id) (filter is_alive nodes)

-- The draws of `to` until one is not `from`, of which there are finitely many.
unfoldable pub pick_to : ℕ → List ℕ → List ℕ → Option ℕ
pick_to from alive [] = none
pick_to from alive (d ∷ draws) = elim (get_elem? alive d) [
  | none ↦ none
  | some to ↦ if to == from then pick_to from alive draws else some to
]

abbrev pub spawned : ℕ → ℕ → ℕ → Option ℕ → RebalancePage → Option RebalancePage
spawned from key_number id none p = none
spawned from key_number id (some to) p = some (record p {
  tokens =
      slice_last 12 p.tokens
      ++ record {
        id = id;
        from_node = from;
        to_node = to;
        key_name = text "key_" ++ decimal key_number;
        progress = 0;
        color = token_color from;
      }
        ∷ [];
  next_id = suc id;
})

-- `none` stands for draws that go on.
unfoldable pub spawn_tick :
    ℕ → ℕ → List ℕ → List NodeRuntimeState → RebalancePage → Option RebalancePage
spawn_tick from key_number draws nodes p =
    if leb (length (alive_ids nodes)) 1
    then some p
    else spawned from key_number p.next_id (pick_to from (alive_ids nodes) draws) p

abbrev pub move : Token → Token
move t = record t { progress = suc t.progress }

unfoldable pub anim_tick : RebalancePage → RebalancePage
anim_tick p = record p { tokens = filter (λ t. leb t.progress 41) (map move p.tokens) }

-- `draw` is the random number from 0 to 2; the third interval's callback also ends the three.
unfoldable pub count_tick : ℕ → ℕ → RebalancePage → RebalancePage
count_tick draw kps p =
    let s : RebalanceState = p.state in
    let new_moved = min (s.moved_keys + draw + 1) s.total_keys in
    if s.running
    then (if leb s.total_keys new_moved
        then record p {
          state = record s { moved_keys = s.total_keys; keys_per_sec = kps; running = false };
          intervals = false;
        }
        else record p { state = record s { moved_keys = new_moved; keys_per_sec = kps } })
    else p

unfoldable pub stop_rebalance : RebalancePage → RebalancePage
stop_rebalance p =
    let s : RebalanceState = p.state in
    record p { intervals = false; state = record s { running = false }; tokens = [] }

unfoldable pub is_done : RebalancePage → Bool
is_done p =
    not p.state.running && (leb p.state.total_keys p.state.moved_keys && ltb 0 p.state.moved_keys)
