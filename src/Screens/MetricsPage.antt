-- ===== src/Screens/MetricsPage.antt =====
-- pages/Metrics.tsx: the histories behind the sparklines, and the states of the alerts. The values
-- are floats whose size does not matter here: the values are of any type with a zero.
pub mod History
use lsmkv_enterprise.Common.{
  ℕ, zero, suc, ◌+◌, Bool, true, false, ◌||◌, Option, none, some, List, [], ◌∷◌, ◌++◌, Text, text,
  ltb, if◌then◌else◌, length, filter, drop, slice_last,
}
use lsmkv_enterprise.Failure.{
  NodeState, healthy, suspect, unreachable, recovering, rebalancing, NodeRuntimeState,
  NetworkPartition,
}

abbrev pub history_len : ℕ
history_len = 30

module _ {ℓ} {A : Type ℓ} where
  unfoldable pub fill : A → ℕ → List A
  fill x zero = []
  fill x (suc n) = x ∷ fill x n

  -- The array of the ref at the mount.
  unfoldable pub opened_history : A → List A
  opened_history origin = fill origin history_len

  -- The effect after every render.
  unfoldable pub history_rendered : Option A → List A → List A
  history_rendered none hist = hist
  history_rendered (some value) hist = drop 1 hist ++ value ∷ []

  -- A render for each value.
  unfoldable pub histories : List A → List A → List A
  histories [] hist = hist
  histories (v ∷ vs) hist = histories vs (history_rendered (some v) hist)

abbrev pub is_down_node : NodeRuntimeState → Bool
is_down_node n = elim n.state [ unreachable ↦ true | _ ↦ false ]

abbrev pub is_suspect_node : NodeRuntimeState → Bool
is_suspect_node n = elim n.state [ suspect ↦ true | _ ↦ false ]

unfoldable pub down_count : List NodeRuntimeState → ℕ
down_count nodes = length (filter is_down_node nodes)

unfoldable pub suspect_count : List NodeRuntimeState → ℕ
suspect_count nodes = length (filter is_suspect_node nodes)

unfoldable pub is_alert : List NodeRuntimeState → List NetworkPartition → Bool
is_alert nodes parts =
    ltb 0 (down_count nodes) || ltb 0 (suspect_count nodes) || ltb 0 (length parts)

unfoldable pub alert_color : List NodeRuntimeState → List NetworkPartition → Text
alert_color nodes parts =
    if ltb 0 (down_count nodes)
    then text "#f87171"
    else (if ltb 0 (length parts) then text "#fb923c" else text "#facc15")

-- The label of a node's row.
unfoldable pub status_label : NodeState → Text
status_label unreachable = text "DOWN"
status_label suspect = text "SUSPECT"
status_label rebalancing = text "REBALANCING"
status_label healthy = text "OK"
status_label recovering = text "OK"

unfoldable pub status_color : NodeState → Text
status_color unreachable = text "#f87171"
status_color suspect = text "#facc15"
status_color rebalancing = text "#facc15"
status_color healthy = text "#4ade80"
status_color recovering = text "#4ade80"
