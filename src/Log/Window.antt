-- ===== src/Log/Window.antt =====
-- logStore.ts: the buffer against the list of all lines written.
use mathlib.Core.List.{append_assoc, append-nil}
use lsmkv_enterprise.Common.{
  ℕ, suc, ◌≤◌, ◌≡◌, refl, sym, ap, ◌∙◌, List, [], ◌∷◌, ◌++◌, arith, length, slice_last,
  slice_last-append, slice_last_all,
}
use lsmkv_enterprise.Log.{LogLine, LogEntry, LogStore, push, push_many, stamp_from, next_after}

-- A write by `push` or by `pushMany`.
pub data Write : Type 0 where
  one : LogLine → Write
  many : List LogLine → Write

abbrev pub lines : Write → List LogLine
lines (one e) = e ∷ []
lines (many es) = es

abbrev pub all_lines : List Write → List LogLine
all_lines [] = []
all_lines (w ∷ ws) = lines w ++ all_lines ws

abbrev write : Write → LogStore → LogStore
write (one e) s = push e s
write (many es) s = push_many es s

pub write_all : List Write → LogStore → LogStore
write_all [] s = s
write_all (w ∷ ws) s = write_all ws (write w s)

stamp_from-append :
    (n : ℕ) (xs ys : List LogLine)
    → stamp_from n (xs ++ ys) ≡ stamp_from n xs ++ stamp_from (next_after n xs) ys
unfolding stamp_from
stamp_from-append n [] ys = refl
stamp_from-append n (x ∷ xs) ys =
    let e : LogEntry = record { id = n; line = x } in ap (◌∷◌ e) (stamp_from-append (suc n) xs ys)

write-entries :
    (w : Write) (s : LogStore)
    → (write w s).entries ≡ slice_last 300 (s.entries ++ stamp_from s.next_id (lines w))
unfolding push push_many stamp_from
write-entries (one e) s = refl
write-entries (many es) s = refl

write-next_id : (w : Write) (s : LogStore) → (write w s).next_id ≡ next_after s.next_id (lines w)
unfolding push push_many
write-next_id (one e) s = refl
write-next_id (many es) s = refl

write_all-window :
    (ws : List Write) (all : List LogEntry) (s : LogStore)
    → s.entries ≡ slice_last 300 all
    → (write_all ws s).entries ≡ slice_last 300 (all ++ stamp_from s.next_id (all_lines ws))
unfolding write_all stamp_from
write_all-window [] all s h = h ∙ ap (slice_last 300) (sym (append-nil all))
write_all-window (w ∷ ws) all s h =
    write_all-window ws (all ++ new) (write w s) step
    ∙ ap (slice_last 300) (append_assoc all new _ ∙ ap (◌++◌ all) stamps)
  where
    new : List LogEntry
    new = stamp_from s.next_id (lines w)

    step : (write w s).entries ≡ slice_last 300 (all ++ new)
    step =
        write-entries w s
        ∙ (ap (λ h. slice_last 300 (h ++ new)) h ∙ slice_last-append 300 300 all new (omega arith))

    stamps :
        new ++ stamp_from (write w s).next_id (all_lines ws)
        ≡ stamp_from s.next_id (lines w ++ all_lines ws)
    stamps =
        ap (λ n. new ++ stamp_from n (all_lines ws)) (write-next_id w s)
        ∙ sym (stamp_from-append s.next_id (lines w) (all_lines ws))

-- From a buffer of at most 300 entries, any series of `push` and `pushMany` leaves the last 300
-- of the old entries and the new lines, in order and with consecutive ids, however the lines were
-- grouped into calls.
pub write_all-entries :
    (ws : List Write) (s : LogStore)
    → length s.entries ≤ 300
    → (write_all ws s).entries ≡ slice_last 300 (s.entries ++ stamp_from s.next_id (all_lines ws))
write_all-entries ws s h = write_all-window ws s.entries s (sym (slice_last_all 300 s.entries h))
