-- ===== src/Common/Sort.antt =====
-- `Array.prototype.sort` with a comparator: stable, so insertion sort with `before a b` for
-- `compare(a, b) <= 0`.
use mathlib.Core.Path.{◌≡◌}
use mathlib.Core.Bool.{Bool, true, false}
use mathlib.Core.List.{List, [], ◌∷◌, Perm}
use mathlib.Core.List.Perm
use mathlib.Core.Logic.{inl, inr}
use lsmkv_enterprise.Common.Tests.{if◌then◌else◌, Bool-cases, if_cases}
use lsmkv_enterprise.Common.Lists.{All, All-map}

module _ {ℓ} {A : Type ℓ} (before : A → A → Bool) where
  unfoldable pub insert : A → List A → List A
  insert x [] = x ∷ []
  insert x (y ∷ ys) = if before x y then x ∷ y ∷ ys else y ∷ insert x ys

  unfoldable pub sort : List A → List A
  unfolding insert
  sort [] = []
  sort (x ∷ xs) = insert x (sort xs)

  pub insert-perm : (x : A) (xs : List A) → Perm (insert x xs) (x ∷ xs)
  unfolding insert
  insert-perm x [] = Perm.refl (x ∷ [])
  insert-perm x (y ∷ ys) = elim (Bool-cases (before x y)) [
    | inl e ↦ rw e (Perm.refl (x ∷ y ∷ ys))
    | inr e ↦ rw e (Perm.trans (Perm.cons y (insert-perm x ys)) (Perm.swap x y ys))
  ]

  pub sort-perm : (xs : List A) → Perm (sort xs) xs
  unfolding sort
  sort-perm [] = Perm.nil
  sort-perm (x ∷ xs) = Perm.trans (insert-perm x (sort xs)) (Perm.cons x (sort-perm xs))

  -- Every item comes before all that follow it.
  abbrev pub IsSorted : List A → Type ℓ
  IsSorted [] = Unit
  IsSorted (x ∷ xs) = All (λ y. before x y ≡ true) xs × IsSorted xs

  All-insert {κ} : (P : A → Type κ) (x : A) (ys : List A) → P x → All P ys → All P (insert x ys)
  unfolding insert
  All-insert P x [] p h = (p, tt)
  All-insert P x (y ∷ ys) p h =
      if_cases (All P) (before x y) (λ _. (p, h)) (λ _. (h.0, All-insert P x ys p h.1))

  pub All-sort {κ} : (P : A → Type κ) (xs : List A) → All P xs → All P (sort xs)
  unfolding sort
  All-sort P [] h = tt
  All-sort P (x ∷ xs) h = All-insert P x (sort xs) h.0 (All-sort P xs h.1)

  pub All-unsort {κ} : (P : A → Type κ) (xs : List A) → All P (sort xs) → All P xs
  unfolding sort
  All-unsort P [] h = tt
  All-unsort P (x ∷ xs) h = let (p, rest) = go x (sort xs) h in (p, All-unsort P xs rest)
    where
      split :
          (x y : A) (ys : List A)
          → (All P (insert x ys) → P x × All P ys)
          → (b : Bool) → All P (if b then x ∷ y ∷ ys else y ∷ insert x ys)
          → P x × All P (y ∷ ys)
      split x y ys ih true h = (h.0, h.1)
      split x y ys ih false h = let (p, rest) = ih h.1 in (p, (h.0, rest))

      go : (x : A) (ys : List A) → All P (insert x ys) → P x × All P ys
      go x [] h = (h.0, tt)
      go x (y ∷ ys) h = split x y ys (go x ys) (before x y) h

  module _ (total : (a b : A) → before a b ≡ false → before b a ≡ true)
      (trans : (a b c : A) → before a b ≡ true → before b c ≡ true → before a c ≡ true) where
    insert-IsSorted : (x : A) (ys : List A) → IsSorted ys → IsSorted (insert x ys)
    unfolding insert
    insert-IsSorted x [] h = (tt, tt)
    insert-IsSorted x (y ∷ ys) h =
        if_cases IsSorted (before x y) (λ e. ((e, All-map (λ z g. trans x y z e g) ys h.0), h))
          (λ e.
            (All-insert (λ z. before y z ≡ true) x ys (total x y e) h.0, insert-IsSorted x ys h.1))

    pub sort-IsSorted : (xs : List A) → IsSorted (sort xs)
    unfolding sort
    sort-IsSorted [] = tt
    sort-IsSorted (x ∷ xs) = insert-IsSorted x (sort xs) (sort-IsSorted xs)
