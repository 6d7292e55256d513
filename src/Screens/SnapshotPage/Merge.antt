-- ===== src/Screens/SnapshotPage/Merge.antt =====
-- Snapshots.tsx: what the merge with the store keeps.
use mathlib.Core.List.{append_assoc}
use lsmkv_enterprise.Common.{
  ◌≡◌, refl, sym, ◌∙◌, subst, Bool, true, false, List, [], ◌∷◌, ◌++◌, text_eq, arith, any, filter,
  All, All-append, Bool-cases, inl, inr, beq_refl,
}
use lsmkv_enterprise.Api.{SnapshotRecord}
use lsmkv_enterprise.Screens.SnapshotPage.{is_optimistic, has_id, reinsert, merge_store}

-- No id stands twice.
abbrev pub DistinctIds : List SnapshotRecord → Type 0
DistinctIds [] = Unit
DistinctIds (s ∷ ss) = (any (has_id s.id) ss ≡ false) × DistinctIds ss

-- Optimistic entries in front of a list.
abbrev pub Extends : List SnapshotRecord → List SnapshotRecord → Type 0
Extends merged base =
    (front : List SnapshotRecord) × (merged ≡ front ++ base)
    × All (λ o. is_optimistic o ≡ true) front

shifted :
    (m : List SnapshotRecord) (o : SnapshotRecord) (base : List SnapshotRecord)
    → is_optimistic o ≡ true
    → Extends m (o ∷ base)
    → Extends m base
shifted m o base h (front, e, all) = (
  front ++ o ∷ [],
  e ∙ sym (append_assoc front (o ∷ []) base),
  All-append (λ x. is_optimistic x ≡ true) front (o ∷ []) all (h, tt),
)

reinsert-Extends :
    (os base : List SnapshotRecord)
    → All (λ o. is_optimistic o ≡ true) os
    → Extends (reinsert os base) base
unfolding reinsert
reinsert-Extends [] base h = ([], refl, tt)
reinsert-Extends (o ∷ os) base (h, hs) = elim (Bool-cases (any (has_id o.id) base)) [
  | inl e ↦ rw (e, reinsert) (reinsert-Extends os base hs)
  | inr e ↦ rw (e, reinsert) (shifted _ o base h (reinsert-Extends os (o ∷ base) hs))
]

reinsert-DistinctIds :
    (os base : List SnapshotRecord) → DistinctIds base → DistinctIds (reinsert os base)
unfolding reinsert
reinsert-DistinctIds [] base d = d
reinsert-DistinctIds (o ∷ os) base d = elim (Bool-cases (any (has_id o.id) base)) [
  | inl e ↦ rw (e, reinsert) (reinsert-DistinctIds os base d)
  | inr e ↦ rw (e, reinsert) (reinsert-DistinctIds os (o ∷ base) (e, d))
]

any-append :
    (p : SnapshotRecord → Bool) (front base : List SnapshotRecord)
    → any p base ≡ true
    → any p (front ++ base) ≡ true
any-append p [] base h = h
any-append p (x ∷ front) base h = ground (arith, any-append p front base h)

any-reinsert :
    (p : SnapshotRecord → Bool) (os base : List SnapshotRecord)
    → any p base ≡ true
    → any p (reinsert os base) ≡ true
unfolding reinsert
any-reinsert p [] base h = h
any-reinsert p (o ∷ os) base h = elim (Bool-cases (any (has_id o.id) base)) [
  | inl e ↦ rw (e, reinsert) (any-reinsert p os base h)
  | inr e ↦ rw (e, reinsert) (any-reinsert p os (o ∷ base) (ground arith))
]

reinsert-old :
    (o : SnapshotRecord) (os base : List SnapshotRecord)
    → any (has_id o.id) base ≡ true
    → reinsert (o ∷ os) base ≡ reinsert os base
unfolding reinsert
reinsert-old o os base e = rw e refl

reinsert-new :
    (o : SnapshotRecord) (os base : List SnapshotRecord)
    → any (has_id o.id) base ≡ false
    → reinsert (o ∷ os) base ≡ reinsert os (o ∷ base)
unfolding reinsert
reinsert-new o os base e = rw e refl

reinsert-keeps :
    (os base : List SnapshotRecord) → All (λ o. any (has_id o.id) (reinsert os base) ≡ true) os
unfolding reinsert
reinsert-keeps [] base = tt
reinsert-keeps (o ∷ os) base = elim (Bool-cases (any (has_id o.id) base)) [
  | inl e ↦
      subst (λ m. All (λ x. any (has_id x.id) m ≡ true) (o ∷ os)) (sym (reinsert-old o os base e))
        (any-reinsert (has_id o.id) os base e, reinsert-keeps os base)
  | inr e ↦
      subst (λ m. All (λ x. any (has_id x.id) m ≡ true) (o ∷ os)) (sym (reinsert-new o os base e))
        (
          any-reinsert (has_id o.id) os (o ∷ base) (ground (arith, beq_refl o.id)),
          reinsert-keeps os (o ∷ base),
        )
]

filter-optimistic :
    (prev : List SnapshotRecord) → All (λ o. is_optimistic o ≡ true) (filter is_optimistic prev)
filter-optimistic [] = tt
filter-optimistic (s ∷ prev) = elim (Bool-cases (is_optimistic s)) [
  | inl e ↦ rw e (e, filter-optimistic prev)
  | inr e ↦ rw e (filter-optimistic prev)
]

-- The merge with a list of the store that is not empty and has no id twice, whatever the page
-- showed: no id stands twice, the list is the store's with optimistic entries in front of it, and
-- every optimistic entry of before still has an entry with its id.
pub merge_store-merges :
    (s : SnapshotRecord) (store prev : List SnapshotRecord)
    → DistinctIds (s ∷ store)
    → let m = merge_store (s ∷ store) prev in
      DistinctIds m
      × Extends m (s ∷ store)
      × All (λ o. any (has_id o.id) m ≡ true) (filter is_optimistic prev)
unfolding merge_store
merge_store-merges s store prev d = (
  reinsert-DistinctIds (filter is_optimistic prev) (s ∷ store) d,
  reinsert-Extends (filter is_optimistic prev) (s ∷ store) (filter-optimistic prev),
  reinsert-keeps (filter is_optimistic prev) (s ∷ store),
)
