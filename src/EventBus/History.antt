-- ===== src/EventBus/History.antt =====
-- eventBus.ts: the history against the list of all events.
use mathlib.Core.List.{append_assoc, append-nil}
use lsmkv_enterprise.Common.{
  ℕ, ◌≤◌, ◌≡◌, sym, ap, ◌∙◌, List, [], ◌∷◌, ◌++◌, map, arith, length, slice_last, slice_last-append,
  slice_last-push, slice_last_all,
}
use lsmkv_enterprise.Failure.{ClusterEvent}
use lsmkv_enterprise.EventBus.{Bus, stamp, emit, emit_all}

abbrev pub stamped : List (ℕ × ClusterEvent) → List ClusterEvent
stamped es = map (λ e. stamp e.0 e.1) es

emit_all-window :
    (es : List (ℕ × ClusterEvent)) (all : List ClusterEvent) (b : Bus)
    → b.history ≡ slice_last 500 all
    → (emit_all es b).history ≡ slice_last 500 (all ++ stamped es)
unfolding emit_all emit
emit_all-window [] all b h = h ∙ ap (slice_last 500) (sym (append-nil all))
emit_all-window ((now, e) ∷ es) all b h =
    emit_all-window es (all ++ stamp now e ∷ []) (emit now e b) step
    ∙ ap (slice_last 500) (append_assoc all (stamp now e ∷ []) (stamped es))
  where
    step : (emit now e b).history ≡ slice_last 500 (all ++ stamp now e ∷ [])
    step =
        slice_last-push 499 b.history (stamp now e)
        ∙ (ap (λ h. slice_last 500 (h ++ stamp now e ∷ [])) h
            ∙ slice_last-append 500 500 all (stamp now e ∷ []) (omega arith))

-- From a history of at most 500 events, however many are emitted, the history is the last 500
-- of the old events and the new ones, stamped and in order.
pub emit_all-history :
    (es : List (ℕ × ClusterEvent)) (b : Bus)
    → length b.history ≤ 500
    → (emit_all es b).history ≡ slice_last 500 (b.history ++ map (λ e. stamp e.0 e.1) es)
emit_all-history es b h = emit_all-window es b.history b (sym (slice_last_all 500 b.history h))
