-- ===== src/Widgets/Toasts/Dismissal.antt =====
-- ToastContainer.tsx: every toast goes away.
use lsmkv_enterprise.Common.{
  ℕ, zero, suc, ◌≡◌, refl, subst, true, not, List, [], ◌∷◌, ◌++◌, arith, ◌==◌, nat_eq, beq_refl,
  any, filter, length, All, All-map, All-filter, All-append, Bool-cases, inl, inr,
}
use lsmkv_enterprise.Widgets.Toasts.{
  Toast, ToastView, no_toasts, dismiss, show_toast, timer_fires, ToastEvent, toasts_of, clicks_on,
  times_out, toast_step, toast_run,
}

-- Every toast has its timer.
abbrev IsTimed : List ℕ → Toast → Type 0
IsTimed timers t = any (◌==◌ t.id) timers ≡ true

abbrev AllTimed : ToastView → Type 0
AllTimed v = All (IsTimed v.timers) v.toasts

any-push : (k x : ℕ) (xs : List ℕ) → any (◌==◌ k) xs ≡ true → any (◌==◌ k) (xs ++ x ∷ []) ≡ true
any-push k x [] h = absurd (ground arith)
any-push k x (y ∷ xs) h = ground (arith, any-push k x xs)

any-pushed : (k : ℕ) (xs : List ℕ) → any (◌==◌ k) (xs ++ k ∷ []) ≡ true
any-pushed k [] = ground (arith, beq_refl k)
any-pushed k (y ∷ xs) = ground (arith, any-pushed k xs)

-- Without the toast of a timer, the others have theirs among the rest.
fired-IsTimed :
    (id : ℕ) (ids : List ℕ) (ts : List Toast)
    → All (IsTimed (id ∷ ids)) ts
    → All (IsTimed ids) (filter (λ t. not (t.id == id)) ts)
fired-IsTimed id ids [] h = tt
fired-IsTimed id ids (t ∷ ts) (h, hs) = elim (Bool-cases (t.id == id)) [
  | inl e ↦ rw e (fired-IsTimed id ids ts hs)
  | inr e ↦ rw e (ground arith, fired-IsTimed id ids ts hs)
]

fires_on : (ids : List ℕ) (v : ToastView) → v.timers ≡ ids → AllTimed v → AllTimed (timer_fires v)
unfolding timer_fires dismiss
fires_on [] v e h = rw (e, timer_fires) h
fires_on (id ∷ ids) v e h =
    rw (e, timer_fires)
      (fired-IsTimed id ids v.toasts (subst (λ ts. All (IsTimed ts) v.toasts) e h))

toast_step-timed : (e : ToastEvent) (v : ToastView) → AllTimed v → AllTimed (toast_step e v)
unfolding toast_step show_toast dismiss
toast_step-timed (toasts_of name result) v h =
    All-append (IsTimed (v.timers ++ v.toast_id ∷ [])) v.toasts _
      (All-map (λ t k. any-push t.id v.toast_id v.timers k) v.toasts h)
      (any-pushed v.toast_id v.timers, tt)
toast_step-timed (clicks_on id) v h =
    All-filter (IsTimed v.timers) (λ t. not (t.id == id)) v.toasts h
toast_step-timed times_out v h = fires_on v.timers v refl h

toast_run-timed : (es : List ToastEvent) (v : ToastView) → AllTimed v → AllTimed (toast_run es v)
unfolding toast_run
toast_run-timed [] v h = h
toast_run-timed (e ∷ es) v h = toast_run-timed es (toast_step e v) (toast_step-timed e v h)

-- As many timers as given fire.
unfoldable pub fire_times : ℕ → ToastView → ToastView
fire_times zero v = v
fire_times (suc n) v = fire_times n (timer_fires v)

timer_fires-timers :
    (id : ℕ) (ids : List ℕ) (v : ToastView) → v.timers ≡ id ∷ ids → (timer_fires v).timers ≡ ids
unfolding timer_fires dismiss
timer_fires-timers id ids v e = rw (e, timer_fires) refl

untimed : (ts : List Toast) → All (IsTimed []) ts → ts ≡ []
untimed [] h = refl
untimed (t ∷ ts) (h, hs) = absurd (ground arith)

all_fired :
    (ids : List ℕ) (v : ToastView)
    → v.timers ≡ ids
    → AllTimed v
    → (fire_times (length ids) v).toasts ≡ []
unfolding fire_times
all_fired [] v e h = untimed v.toasts (subst (λ ts. All (IsTimed ts) v.toasts) e h)
all_fired (id ∷ ids) v e h =
    all_fired ids (timer_fires v) (timer_fires-timers id ids v e) (fires_on (id ∷ ids) v e h)

-- Every toast goes away: after any toasts, clicks and timers, once the timers that are still
-- pending have fired, no toast is left.
pub toast_run-dismissed :
    (es : List ToastEvent)
    → let v = toast_run es no_toasts in (fire_times (length v.timers) v).toasts ≡ []
toast_run-dismissed es =
    all_fired (toast_run es no_toasts).timers _ refl (toast_run-timed es no_toasts tt)
