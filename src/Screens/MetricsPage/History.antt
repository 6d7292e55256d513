-- ===== src/Screens/MetricsPage/History.antt =====
-- Metrics.tsx: what the histories hold.
use lsmkv_enterprise.Common.{
  ℕ, zero, suc, ◌-◌, ◌≡◌, refl, sym, ap, ◌∙◌, some, List, [], ◌∷◌, ◌++◌, arith, length, slice_last,
  length-append, slice_last-append, slice_last_all,
}
use mathlib.Core.List.{append_assoc, append-nil}
use lsmkv_enterprise.Screens.MetricsPage.{
  fill, opened_history, history_rendered, histories, history_len,
}

module _ {ℓ} {A : Type ℓ} where
  length-fill : (x : A) (n : ℕ) → length (fill x n) ≡ n
  unfolding fill
  length-fill x zero = refl
  length-fill x (suc n) = ap suc (length-fill x n)

  rendered-keeps :
      (v : A) (hist : List A)
      → length hist ≡ history_len
      → history_rendered (some v) hist ≡ slice_last history_len (hist ++ v ∷ [])
  unfolding history_rendered
  rendered-keeps v [] h = absurd (omega arith)
  rendered-keeps v (x ∷ xs) h =
      let e : length (x ∷ (xs ++ v ∷ [])) - 30 ≡ 1 = omega (arith, length-append xs (v ∷ [])) in
      rw e refl

  length-rendered :
      (v : A) (hist : List A)
      → length hist ≡ history_len
      → length (history_rendered (some v) hist) ≡ history_len
  unfolding history_rendered
  length-rendered v [] h = absurd (omega arith)
  length-rendered v (x ∷ xs) h = omega (arith, length-append xs (v ∷ []))

  -- After a render for each value the history holds the last 30 of what it held and the values.
  histories-lem :
      (vs hist : List A)
      → length hist ≡ history_len
      → histories vs hist ≡ slice_last history_len (hist ++ vs)
  unfolding histories
  histories-lem [] hist h = sym (
      ap (slice_last history_len) (append-nil hist) ∙ slice_last_all history_len hist (omega arith))
  histories-lem (v ∷ vs) hist h =
      histories-lem vs (history_rendered (some v) hist) (length-rendered v hist h)
      ∙ ap (λ xs. slice_last history_len (xs ++ vs)) (rendered-keeps v hist h)
      ∙ slice_last-append history_len history_len (hist ++ v ∷ []) vs (omega arith)
      ∙ ap (slice_last history_len) (append_assoc hist (v ∷ []) vs)

  -- After a render for each value from the mount on, the history holds 30 values: the last 30 of the
  -- 30 zeros of the mount and the values.
  opened_histories-lem :
      (origin : A) (vs : List A)
      → histories vs (opened_history origin)
        ≡ slice_last history_len (fill origin history_len ++ vs)
  unfolding opened_history
  opened_histories-lem origin vs =
      histories-lem vs (fill origin history_len) (length-fill origin history_len)
