-- ===== src/Screens/LogPage/Toggles.antt =====
-- Logs.tsx: the active levels and components.
use lsmkv_enterprise.Common.{
  ℕ, suc, ◌<◌, ◌≡◌, refl, sym, ap, ◌∙◌, Bool, true, false, ◌||◌, not, List, [], ◌∷◌, ◌++◌, arith,
  Eq, ◌==◌, ltb, if_cases, length, filter, any, Bool-cases, inl, inr, length-append,
}
use lsmkv_enterprise.Log.{LogLevel, LogComponent}
use lsmkv_enterprise.Screens.LogPage.{
  level_eq, component_eq, all_levels, all_components, LogFilter, initial_filter, toggle,
  toggle_level, toggle_component,
}

module _ {ℓ} {A : Type ℓ} ⦃e : Eq A⦄ where
  -- A `Set`: no item stands twice.
  abbrev pub DistinctItems : List A → Type 0
  DistinctItems [] = Unit
  DistinctItems (x ∷ xs) = (any (◌==◌ x) xs ≡ false) × DistinctItems xs

  -- Some item is active, and none twice.
  abbrev pub IsActive : List A → Type 0
  IsActive xs = (0 < length xs) × DistinctItems xs

  filter-absent :
      (x : A) (xs : List A) → any (◌==◌ x) xs ≡ false → filter (λ y. not (x == y)) xs ≡ xs
  filter-absent x [] h = refl
  filter-absent x (y ∷ xs) h =
      let a : (x == y) ≡ false = ground arith in
      let b : any (◌==◌ x) xs ≡ false = ground arith in rw a (ap (◌∷◌ y) (filter-absent x xs b))

  any-filter : (p q : A → Bool) (xs : List A) → any p xs ≡ false → any p (filter q xs) ≡ false
  any-filter p q [] h = refl
  any-filter p q (x ∷ xs) h = ground (arith, any-filter p q xs)

  filter-DistinctItems :
      (q : A → Bool) (xs : List A) → DistinctItems xs → DistinctItems (filter q xs)
  filter-DistinctItems q [] d = tt
  filter-DistinctItems q (x ∷ xs) (new, d) = elim (Bool-cases (q x)) [
    | inl h ↦ rw h (any-filter (◌==◌ x) q xs new, filter-DistinctItems q xs d)
    | inr h ↦ rw h (filter-DistinctItems q xs d)
  ]

  any-same : (x y : A) (xs : List A) → (x == y) ≡ true → any (◌==◌ y) xs ≡ any (◌==◌ x) xs
  any-same x y xs h = ap (λ z. any (◌==◌ z) xs) (sym ((e.same_iff x y).0 h))

  -- To delete an item of a set takes one item away.
  length-deleted :
      (x : A) (xs : List A)
      → DistinctItems xs
      → any (◌==◌ x) xs ≡ true
      → suc (length (filter (λ y. not (x == y)) xs)) ≡ length xs
  length-deleted x [] d h = absurd (ground arith)
  length-deleted x (y ∷ xs) (new, d) h = elim (Bool-cases (x == y)) [
    | inl c ↦ rw c (ap (λ zs. suc (length zs)) (filter-absent x xs (sym (any-same x y xs c) ∙ new)))
    | inr c ↦ rw c (ap suc (length-deleted x xs d (ground arith)))
  ]

  any-append_one : (p : A → Bool) (xs : List A) (x : A) → any p (xs ++ x ∷ []) ≡ (any p xs || p x)
  any-append_one p [] x = ground arith
  any-append_one p (y ∷ xs) x = ground (arith, any-append_one p xs x)

  same_sym : (x y : A) → (x == y) ≡ false → (y == x) ≡ false
  same_sym x y h = ground (arith, e.same_iff x y, e.same_iff y x)

  append-DistinctItems :
      (x : A) (xs : List A)
      → any (◌==◌ x) xs ≡ false
      → DistinctItems xs
      → DistinctItems (xs ++ x ∷ [])
  append-DistinctItems x [] h d = (refl, tt)
  append-DistinctItems x (y ∷ xs) h (new, d) =
      let a : (x == y) ≡ false = ground arith in
      let b : any (◌==◌ x) xs ≡ false = ground arith in
      (
        any-append_one (◌==◌ y) xs x ∙ (ground (arith, same_sym x y a)),
        append-DistinctItems x xs b d,
      )

  pub toggle-IsActive : (x : A) (xs : List A) → IsActive xs → IsActive (toggle x xs)
  unfolding toggle
  toggle-IsActive x xs (some_item, d) =
      if_cases IsActive (any (◌==◌ x) xs)
        (λ h.
          if_cases IsActive (ltb 1 (length xs))
            (λ b. (
              omega (arith, length-deleted x xs d h, at_least (length xs) b),
              filter-DistinctItems (λ y. not (x == y)) xs d,
            ))
            (λ _. (some_item, d)))
        (λ h. (omega (arith, length-append xs (x ∷ [])), append-DistinctItems x xs h d))
    where
      at_least : (n : ℕ) → ltb 1 n ≡ true → 1 < n
      at_least n b = ground arith

-- The clicks on the levels and the components.
pub data FilterClick : Type 0 where
  level_click : LogLevel → FilterClick
  component_click : LogComponent → FilterClick

unfoldable pub click : FilterClick → LogFilter → LogFilter
click (level_click l) f = toggle_level l f
click (component_click c) f = toggle_component c f

unfoldable pub clicks : List FilterClick → LogFilter → LogFilter
clicks [] f = f
clicks (c ∷ cs) f = clicks cs (click c f)

abbrev pub IsUsable : LogFilter → Type 0
IsUsable f = IsActive f.active_levels × IsActive f.active_components

click-IsUsable : (c : FilterClick) (f : LogFilter) → IsUsable f → IsUsable (click c f)
unfolding click toggle_level toggle_component
click-IsUsable (level_click l) f (a, b) = (toggle-IsActive l f.active_levels a, b)
click-IsUsable (component_click c) f (a, b) = (a, toggle-IsActive c f.active_components b)

clicks_keep : (cs : List FilterClick) (f : LogFilter) → IsUsable f → IsUsable (clicks cs f)
unfolding clicks
clicks_keep [] f u = u
clicks_keep (c ∷ cs) f u = clicks_keep cs (click c f) (click-IsUsable c f u)

-- After any clicks on the levels and the components, from the page's first filter on, at least one
-- level and one component are active, and none is twice in its set.
pub clicks-IsUsable : (cs : List FilterClick) → IsUsable (clicks cs initial_filter)
unfolding initial_filter all_levels all_components
clicks-IsUsable cs = clicks_keep cs initial_filter (
  (omega arith, (refl, (refl, (refl, (refl, (refl, tt)))))),
  (omega arith, (refl, (refl, (refl, (refl, (refl, (refl, (refl, (refl, tt))))))))),
)
