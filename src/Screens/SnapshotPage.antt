-- ===== src/Screens/SnapshotPage.antt =====
-- pages/Snapshots.tsx: the list of snapshots and the three operations on it. The code after an
-- `await` and a callback of a timer are steps of their own. The restore's progress is in
-- milliseconds of the estimated time, where the source adds floats up to 100. A message shown with
-- `showToast` is its text and whether it is good; its symbol is left out.
pub mod Merge
pub mod Restoring
use lsmkv_enterprise.Common.{
  ℕ, zero, suc, ◌+◌, ◌*◌, min, max, Bool, true, false, ◌||◌, Option, none, some, List, [], ◌∷◌,
  ◌++◌, Text, text, ◌==◌, text_eq, leb, if◌then◌else◌, length, filter, any, find, not, trim,
}
use lsmkv_enterprise.Api.{SnapshotStatus, ready, creating, restoring, SnapshotRecord}

-- What the page asks of other modules.
pub data PageCall : Type 0 where
  creates restores_by_id deletes : Text → PageCall
  starts_snapshot starts_restore : Text → PageCall
  triggers_refresh : PageCall

pub record SnapshotPage : Type 0 where
  pub snapshots : List SnapshotRecord
  pub name : Text
  pub is_creating : Bool
  pub create_progress : ℕ
  pub create_interval : Bool
  pub restoring_id : Option Text
  pub restore_progress : ℕ
  pub restore_interval : Option (ℕ × Text)  -- the estimated time and the message
  pub deleting_id : Option Text
  pub toast : Option (Text × Bool)
  pub selected : Option Text
  pub calls : List PageCall

abbrev pub is_optimistic : SnapshotRecord → Bool
is_optimistic s = elim s.status [ ready ↦ false | creating ↦ true | restoring ↦ true ]

abbrev pub has_id : Text → SnapshotRecord → Bool
has_id id s = s.id == id

-- `optimistic.forEach(o => …)`.
unfoldable pub reinsert : List SnapshotRecord → List SnapshotRecord → List SnapshotRecord
reinsert [] merged = merged
reinsert (o ∷ optimistic) merged =
    if any (has_id o.id) merged
    then reinsert optimistic merged
    else reinsert optimistic (o ∷ merged)

-- The effect of a new list in the store.
unfoldable pub merge_store : List SnapshotRecord → List SnapshotRecord → List SnapshotRecord
merge_store [] prev = prev
merge_store (s ∷ store) prev = reinsert (filter is_optimistic prev) (s ∷ store)

unfoldable pub store_changed : List SnapshotRecord → SnapshotPage → SnapshotPage
store_changed store p = record p { snapshots = merge_store store p.snapshots }

abbrev ask : PageCall → SnapshotPage → SnapshotPage
ask c p = record p { calls = p.calls ++ c ∷ [] }

abbrev say : Text → Bool → SnapshotPage → SnapshotPage
say msg ok p = record p { toast = some (msg, ok) }

abbrev begin_create : Text → SnapshotPage → SnapshotPage
begin_create [] p = p
begin_create (c ∷ snap_name) p =
    if p.is_creating
    then p
    else ask (creates (c ∷ snap_name))
        (record p { is_creating = true; create_progress = 0; create_interval = true })

unfoldable pub handle_create : SnapshotPage → SnapshotPage
handle_create p = begin_create (trim p.name) p

unfoldable pub create_tick : SnapshotPage → SnapshotPage
create_tick p =
    if p.create_interval then record p { create_progress = min (p.create_progress + 6) 90 } else p

unfoldable pub create_succeeded : Text → SnapshotPage → SnapshotPage
create_succeeded snap_name p =
    ask (starts_snapshot snap_name) (record p { create_interval = false; create_progress = 100 })

-- The callback 400 ms after a success.
unfoldable pub create_shown : SnapshotRecord → SnapshotPage → SnapshotPage
create_shown snap p = ask triggers_refresh (
    say (text "Snapshot \"" ++ snap.name ++ text "\" created") true (record p {
      snapshots = snap ∷ p.snapshots;
      is_creating = false;
      create_progress = 0;
      name = [];
    }))

unfoldable pub create_failed : Text → SnapshotPage → SnapshotPage
create_failed error p =
    say (text "Create failed: " ++ error) false
      (record p { create_interval = false; is_creating = false; create_progress = 0 })

abbrev registered : Option SnapshotRecord → SnapshotPage → SnapshotPage
registered none p = p
registered (some snap) p = ask (starts_restore snap.name) p

unfoldable pub handle_restore : Text → SnapshotPage → SnapshotPage
handle_restore id p = elim p.restoring_id [
  | some other ↦ p
  | none ↦ ask (restores_by_id id) (
      registered (find (has_id id) p.snapshots)
        (record p { restoring_id = some id; restore_progress = 0 }))
]

-- The estimated time in milliseconds, 8 seconds if there is none. An estimate of 0 counts as one
-- millisecond: a step of infinitely many percent takes one tick too.
unfoldable pub total_ms : Option ℕ → ℕ
total_ms none = 8000
total_ms (some seconds) = max 1 (seconds * 1000)

unfoldable pub restore_answered : Option ℕ → Text → SnapshotPage → SnapshotPage
restore_answered estimated_seconds message p = record p {
  restore_interval = some (total_ms estimated_seconds, message);
}

unfoldable pub restore_failed : Text → SnapshotPage → SnapshotPage
restore_failed error p =
    say (text "Restore failed: " ++ error) false (record p { restoring_id = none })

-- The callback of the interval, if there is one.
abbrev pub restore_tick_of : Option (ℕ × Text) → SnapshotPage → SnapshotPage
restore_tick_of none p = p
restore_tick_of (some (total, message)) p =
    if leb total p.restore_progress
    then say message true
        (record p { restore_interval = none; restoring_id = none; restore_progress = 0 })
    else record p { restore_progress = min (p.restore_progress + 80) total }

unfoldable pub restore_tick : SnapshotPage → SnapshotPage
restore_tick p = restore_tick_of p.restore_interval p

unfoldable pub handle_delete : Text → SnapshotPage → SnapshotPage
handle_delete id p = ask (deletes id) (record p { deleting_id = some id })

abbrev unless_same : Text → Option Text → Option Text
unless_same id none = none
unless_same id (some s) = if s == id then none else some s

unfoldable pub delete_succeeded : Text → Text → SnapshotPage → SnapshotPage
delete_succeeded id snap_name p =
    let q = ask triggers_refresh (
      say (text "Snapshot \"" ++ snap_name ++ text "\" deleted") true (record p {
        snapshots = filter (λ s. not (has_id id s)) p.snapshots;
        selected = unless_same id p.selected;
      })) in
    record q { deleting_id = none }

unfoldable pub delete_failed : Text → SnapshotPage → SnapshotPage
delete_failed error p =
    let q = say (text "Delete failed: " ++ error) false p in record q { deleting_id = none }

unfoldable pub toast_expired : SnapshotPage → SnapshotPage
toast_expired p = record p { toast = none }

unfoldable pub selected_snap : SnapshotPage → Option SnapshotRecord
selected_snap p = elim p.selected [ none ↦ none | some id ↦ find (has_id id) p.snapshots ]

abbrev is_ready : SnapshotRecord → Bool
is_ready s = elim s.status [ ready ↦ true | creating ↦ false | restoring ↦ false ]

unfoldable pub ready_count : SnapshotPage → ℕ
ready_count p = length (filter is_ready p.snapshots)
