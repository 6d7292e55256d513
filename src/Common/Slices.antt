-- ===== src/Common/Slices.antt =====
-- The last items of a growing list, as `slice(-n)` keeps them.
use Prim.Native.Nat.{ℕ, zero, suc, ◌+◌, ◌-◌, ◌≤◌}
use mathlib.Core.Path.{◌≡◌, refl, ap, ◌∙◌, sym}
use mathlib.Core.List.{List, [], ◌∷◌, ◌++◌}
use native.Mathlib.Omega.{arith}
use lsmkv_enterprise.Common.Lists.{length, drop, slice_last, length-append, length-drop}

module _ {ℓ} {A : Type ℓ} where
  drop_nil : (n : ℕ) → drop {A = A} n [] ≡ []
  drop_nil zero = refl
  drop_nil (suc n) = refl

  drop-drop : (m k : ℕ) (xs : List A) → drop m (drop k xs) ≡ drop (k + m) xs
  drop-drop m zero xs = let e : 0 + m ≡ m = omega arith in rw e refl
  drop-drop m (suc k) [] = drop_nil m ∙ sym (drop_nil (suc k + m))
  drop-drop m (suc k) (x ∷ xs) =
      let e : suc k + m ≡ suc (k + m) = omega arith in rw e (drop-drop m k xs)

  drop-append : (k : ℕ) (xs ys : List A) → k ≤ length xs → drop k (xs ++ ys) ≡ drop k xs ++ ys
  drop-append zero xs ys h = refl
  drop-append (suc k) [] ys h = absurd (omega arith)
  drop-append (suc k) (x ∷ xs) ys h = drop-append k xs ys (omega arith)

  -- To keep the last `m` items first, and add to them, changes nothing of the last `n` up to `m`.
  pub slice_last-append :
      (m n : ℕ) (xs ys : List A)
      → n ≤ m + length ys
      → slice_last n (slice_last m xs ++ ys) ≡ slice_last n (xs ++ ys)
  slice_last-append m n xs ys h =
      ap (slice_last n) (sym (drop-append (length xs - m) xs ys (omega arith)))
      ∙ (drop-drop _ (length xs - m) (xs ++ ys)
          ∙ ap (λ i. drop i (xs ++ ys))
              (omega (arith, length-drop (length xs - m) (xs ++ ys), length-append xs ys)))

  -- The last `n + 1` items after one more.
  pub slice_last-push :
      (n : ℕ) (xs : List A) (x : A) → slice_last n xs ++ x ∷ [] ≡ slice_last (suc n) (xs ++ x ∷ [])
  slice_last-push n xs x =
      sym (drop-append (length xs - n) xs (x ∷ []) (omega arith))
      ∙ ap (λ i. drop i (xs ++ x ∷ [])) (omega (arith, length-append xs (x ∷ [])))

  pub slice_last_all : (n : ℕ) (xs : List A) → length xs ≤ n → slice_last n xs ≡ xs
  slice_last_all n xs h = let e : length xs - n ≡ 0 = omega arith in rw e refl
