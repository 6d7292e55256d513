-- ===== src/Screens/SnapshotPage/Restoring.antt =====
-- Snapshots.tsx: a restore ends.
use lsmkv_enterprise.Common.{
  ℕ, zero, suc, ◌+◌, ◌*◌, ◌/◌, ◌≤◌, ◌<◌, ◌≡◌, refl, sym, ap, ◌∙◌, subst, min, true, false, Option,
  none, some, Text, leb, arith, Bool-cases, inl, inr,
}
use lsmkv_enterprise.Screens.SnapshotPage.{
  SnapshotPage, total_ms, restore_answered, restore_tick_of, restore_tick,
}

unfoldable pub restore_ticks : ℕ → SnapshotPage → SnapshotPage
restore_ticks zero p = p
restore_ticks (suc n) p = restore_ticks n (restore_tick p)

abbrev advanced : ℕ → SnapshotPage → SnapshotPage
advanced total p = record p { restore_progress = min (p.restore_progress + 80) total }

abbrev restored : Text → SnapshotPage → SnapshotPage
restored message p = record p {
  restore_interval = none;
  restoring_id = none;
  restore_progress = 0;
  toast = some (message, true);
}

restore_tick-more :
    (p : SnapshotPage) {total : ℕ} {message : Text}
    → p.restore_interval ≡ some (total, message)
    → p.restore_progress < total
    → restore_tick p ≡ advanced total p
unfolding restore_tick
restore_tick-more p {total = total} e lt =
    let h : leb total p.restore_progress ≡ false = ground arith in
    ap (λ o. restore_tick_of o p) e ∙ rw h refl

restore_tick-last :
    (p : SnapshotPage) {total : ℕ} {message : Text}
    → p.restore_interval ≡ some (total, message)
    → total ≤ p.restore_progress
    → restore_tick p ≡ restored message p
unfolding restore_tick
restore_tick-last p {total = total} e le =
    let h : leb total p.restore_progress ≡ true = ground arith in
    ap (λ o. restore_tick_of o p) e ∙ rw h refl

-- The page after a restore.
abbrev pub HasRestored : Text → SnapshotPage → Type 0
HasRestored message p =
    (p.restoring_id ≡ none)
    × (p.restore_interval ≡ none)
    × (p.restore_progress ≡ 0)
    × (p.toast ≡ some (message, true))

ends_in :
    (n : ℕ) (p : SnapshotPage) {total : ℕ} {message : Text}
    → p.restore_interval ≡ some (total, message)
    → total ≤ p.restore_progress + 80 * n
    → p.restore_progress ≤ total
    → (k : ℕ) × (k ≤ suc n) × HasRestored message (restore_ticks k p)
unfolding restore_ticks
ends_in zero p {message = message} e le at = (
  1,
  omega arith,
  subst (HasRestored message) (sym (restore_tick-last p e (omega (arith, le))))
      (refl, refl, refl, refl),
)
ends_in (suc n) p {total = total} {message = message} e le at =
    elim (Bool-cases (leb total p.restore_progress)) [
      | inl h ↦ (
        1,
        omega arith,
        subst (HasRestored message) (sym (restore_tick-last p e (ground arith)))
            (refl, refl, refl, refl),
      )
      | inr h ↦
          let (k, few, done) =
            ends_in n (advanced total p) {total = total} {message = message} e (omega arith)
              (omega arith) in
          (
            suc k,
            omega (arith, few),
            subst (λ q. HasRestored message (restore_ticks k q))
                (sym (restore_tick-more p e (ground arith))) done,
          )
    ]

-- A restore ends: from its answer on, with the progress at 0, at most one tick for every 80 ms of
-- the estimated time, and two more, end it with the backend's message.
pub restore_answered-ends :
    (estimated : Option ℕ) (message : Text) (p : SnapshotPage)
    → p.restore_progress ≡ 0
    → (k : ℕ) × (k ≤ total_ms estimated / 80 + 2)
      × HasRestored message (restore_ticks k (restore_answered estimated message p))
unfolding restore_answered
restore_answered-ends estimated message p z =
    let (k, few, done) =
      ends_in (total_ms estimated / 80 + 1) (restore_answered estimated message p)
        {message = message} refl (omega (arith, z)) (omega (arith, z)) in
    (k, omega (arith, few), done)
