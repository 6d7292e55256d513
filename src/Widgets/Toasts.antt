-- ===== src/Widgets/Toasts.antt =====
-- components/ToastContainer.tsx: the toasts of operations that ended. `_toastId` is a field, and the
-- pending timers of 5 seconds are the ids that they dismiss.
pub mod Dismissal
use lsmkv_enterprise.Common.{
  ℕ, zero, suc, Bool, true, false, not, Option, none, some, List, [], ◌∷◌, ◌++◌, Text, ◌==◌, nat_eq,
  if◌then◌else◌, filter, get_elem?,
}

pub record Toast : Type 0 where
  pub id : ℕ
  pub name : Text
  pub result : Text
  pub visible : Bool

pub record ToastView : Type 0 where
  pub toasts : List Toast
  pub toast_id : ℕ
  pub timers : List ℕ

abbrev pub no_toasts : ToastView
no_toasts = record { toasts = []; toast_id = 0; timers = [] }

unfoldable pub dismiss : ℕ → ToastView → ToastView
dismiss id v = record v { toasts = filter (λ t. not (t.id == id)) v.toasts }

-- What the container gives to `onToast`.
unfoldable pub show_toast : Text → Text → ToastView → ToastView
show_toast name result v = record {
  toasts =
      v.toasts ++ record { id = v.toast_id; name = name; result = result; visible = true } ∷ [];
  toast_id = suc v.toast_id;
  timers = v.timers ++ v.toast_id ∷ [];
}

abbrev pub timers_after : List ℕ → List ℕ
timers_after [] = []
timers_after (id ∷ ids) = ids

-- The oldest timer fires first, as all have the same delay.
unfoldable pub timer_fires : ToastView → ToastView
timer_fires v = elim v.timers [ [] ↦ v | id ∷ ids ↦ dismiss id (record v { timers = ids }) ]

pub data ToastEvent : Type 0 where
  toasts_of : Text → Text → ToastEvent
  clicks_on : ℕ → ToastEvent
  times_out : ToastEvent

unfoldable pub toast_step : ToastEvent → ToastView → ToastView
toast_step (toasts_of name result) v = show_toast name result v
toast_step (clicks_on id) v = dismiss id v
toast_step times_out v = timer_fires v

unfoldable pub toast_run : List ToastEvent → ToastView → ToastView
toast_run [] v = v
toast_run (e ∷ es) v = toast_run es (toast_step e v)
