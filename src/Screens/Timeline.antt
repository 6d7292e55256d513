-- ===== src/Screens/Timeline.antt =====
-- pages/Timeline.tsx: the replay of the recorded snapshots. A snapshot is told from another by its
-- place in the history, as the source tells objects apart. The speed and the timer, which only say
-- when a tick comes, are not kept, nor is the text of a time.
pub mod Playback
use lsmkv_enterprise.Common.{
  ℕ, zero, suc, ◌+◌, ◌-◌, ◌%◌, min, Bool, true, false, ◌&&◌, ◌||◌, not, Option, none, some, List,
  [], ◌∷◌, ◌++◌, Text, text, text_eq, nat_eq, ◌==◌, leb, ltb, decimal, if◌then◌else◌, length,
  get_elem?, filter, contains,
}
use lsmkv_enterprise.Failure.{
  NodeState, healthy, suspect, unreachable, recovering, rebalancing, NodeRuntimeState,
}
use lsmkv_enterprise.Context.{ClusterSnapshot, Cluster, start_replay, stop_replay}

-- `toLowerCase` on the letters A to Z; the words below have no letter that another one becomes.
abbrev lower_unit : ℕ → ℕ
lower_unit c = if leb 65 c && leb c 90 then c + 32 else c

unfoldable pub lower : Text → Text
lower [] = []
lower (c ∷ s) = lower_unit c ∷ lower s

unfoldable pub label_color : ClusterSnapshot → Text
label_color snap =
    let s = lower snap.label in
    if contains (text "unreachable") s || (contains (text "crash") s || contains (text "failure") s)
    then text "#f87171"
    else (if contains (text "partition") s
        then text "#fb923c"
        else (if contains (text "rebalance") s
            then text "#c084fc"
            else (if contains (text "recover") s || contains (text "elect") s
                then text "#4ade80"
                else (if contains (text "suspect") s || contains (text "warn") s
                    then text "#fbbf24"
                    else text "#60a5fa"))))

unfoldable pub label_icon : ClusterSnapshot → Text
label_icon snap =
    let s = lower snap.label in
    if contains (text "unreachable") s || contains (text "crash") s
    then text "💀"
    else (if contains (text "failure") s
        then text "⚡"
        else (if contains (text "partition") s
            then text "✂"
            else (if contains (text "healed") s
                then text "🔗"
                else (if contains (text "rebalance") s
                    then text "⚖"
                    else (if contains (text "recover") s
                        then text "✓"
                        else (if contains (text "elect") s then text "👑" else text "•"))))))

abbrev is_unreachable : NodeRuntimeState → Bool
is_unreachable n = elim n.state [ unreachable ↦ true | _ ↦ false ]

abbrev is_suspect : NodeRuntimeState → Bool
is_suspect n = elim n.state [ suspect ↦ true | _ ↦ false ]

abbrev is_rebalancing : NodeRuntimeState → Bool
is_rebalancing n = elim n.state [ rebalancing ↦ true | _ ↦ false ]

unfoldable pub describe_snapshot : ClusterSnapshot → Text
describe_snapshot snap =
    let down_count = length (filter is_unreachable snap.nodes) in
    let suspect_count = length (filter is_suspect snap.nodes) in
    let part_count = length snap.partitions in
    let rebal_count = length (filter is_rebalancing snap.nodes) in
    if not (snap.label == text "periodic") && not (snap.label == text "state-change")
    then snap.label
    else (if ltb 0 down_count
        then decimal down_count ++ text " node(s) UNREACHABLE"
        else (if ltb 0 part_count
            then decimal part_count ++ text " partition(s) active"
            else (if ltb 0 rebal_count
                then decimal rebal_count ++ text " node(s) rebalancing"
                else (if ltb 0 suspect_count
                    then decimal suspect_count ++ text " node(s) suspect"
                    else text "Cluster healthy"))))

-- The snapshots that are shown, each with its place in the history: all that are not periodic, and
-- the periodic ones at every third place.
unfoldable pub significant_from : ℕ → List ClusterSnapshot → List (ℕ × ClusterSnapshot)
significant_from i [] = []
significant_from i (snap ∷ history) =
    if not (snap.label == text "periodic") || (i % 3 == 0)
    then (i, snap) ∷ significant_from (suc i) history
    else significant_from (suc i) history

unfoldable pub significant : List ClusterSnapshot → List (ℕ × ClusterSnapshot)
significant history = significant_from 0 history

-- `significant.findIndex(s => s === history[replayIndex])`, where -1 is `none`.
unfoldable pub find_place : ℕ → List (ℕ × ClusterSnapshot) → Option ℕ
find_place i [] = none
find_place i ((j, snap) ∷ rest) =
    if j == i then some 0 else elim (find_place i rest) [ none ↦ none | some k ↦ some (suc k) ]

unfoldable pub current_idx : Cluster → Option ℕ
current_idx c = elim c.replay_index [ none ↦ none | some i ↦ find_place i (significant c.history) ]

-- `next_pos` is `replayPos + 1`, since `replayPos` may be -1 and is never below.
pub record Player : Type 0 where
  pub cluster : Cluster
  pub playing : Bool
  pub next_pos : ℕ

-- Where playing starts among `count` snapshots.
unfoldable pub start_idx : Option ℕ → ℕ → ℕ
start_idx none count = 0
start_idx (some i) count = if leb (count - 1) i then 0 else i

-- `startReplay(history.indexOf(significant[k]))`.
unfoldable pub show : ℕ → Cluster → Cluster
show k c = elim (get_elem? (significant c.history) k) [
  | none ↦ c
  | some (i, snap) ↦ start_replay i c
]

-- Without significant snapshots there is nothing to show, nor to play.
unfoldable pub toggle_play : Player → Player
toggle_play p =
    if p.playing
    then record p { playing = false }
    else (if length (significant p.cluster.history) == 0 then p else record p {
      cluster =
          show (start_idx (current_idx p.cluster) (length (significant p.cluster.history)))
            p.cluster;
      playing = true;
    })

-- The interval's callback, which runs while `playing`, for what stands at the next place.
abbrev pub advance_play : Bool → Option (ℕ × ClusterSnapshot) → Player → Player
advance_play false o p = p
advance_play true none p = record p { playing = false }
advance_play true (some (i, snap)) p = record p {
  cluster = start_replay i p.cluster;
  next_pos = suc p.next_pos;
}

unfoldable pub play_tick : Player → Player
play_tick p = advance_play p.playing (get_elem? (significant p.cluster.history) p.next_pos) p

unfoldable pub jump_to : ℕ → Player → Player
jump_to k p = elim (get_elem? (significant p.cluster.history) k) [
  | none ↦ p
  | some (i, snap) ↦ record p { cluster = start_replay i p.cluster; next_pos = suc k }
]

unfoldable pub press_prev : Player → Player
press_prev p = let ni = p.next_pos - 2 in let q = jump_to ni p in record q { next_pos = suc ni }

-- On an empty list `replayPos` becomes -1, and nothing is shown.
abbrev next_from : ℕ → Player → Player
next_from zero p = record p { next_pos = 0 }
next_from (suc ni) p = let q = jump_to ni p in record q { next_pos = suc ni }

unfoldable pub press_next : Player → Player
press_next p = next_from (min (length (significant p.cluster.history)) (suc p.next_pos)) p

unfoldable pub press_end : Player → Player
press_end p = jump_to (length (significant p.cluster.history) - 1) p

unfoldable pub scrub : ℕ → Player → Player
scrub v p = let q = jump_to v p in record q { next_pos = suc v }

unfoldable pub handle_stop : Player → Player
handle_stop p = record p { cluster = stop_replay p.cluster; playing = false; next_pos = 1 }

unfoldable pub current_snap : Cluster → Option ClusterSnapshot
current_snap c =
    if c.replay_mode
    then elim c.replay_index [ none ↦ none | some i ↦ get_elem? c.history i ]
    else none
