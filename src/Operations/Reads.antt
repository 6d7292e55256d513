-- ===== src/Operations/Reads.antt =====
-- The reads of operationsStore.ts that pick a load operation.
use lsmkv_enterprise.Common.{
  ◌≤◌, ◌≡◌, refl, subst, Bool, true, false, none, some, List, [], ◌∷◌, arith, if◌then◌else◌,
  Bool-cases, inl, inr, filter, find, any, All, sort, sort-IsSorted, All-unsort, IsSorted,
}
use lsmkv_enterprise.Operations.{
  Operation, Store, get_all, is_load, is_running_load, newer, get_load_op, is_load_running, head?,
}

find-any :
    (p : Operation → Bool) (xs : List Operation)
    → any p xs ≡ true
    → (o : Operation) × (find p xs ≡ some o) × (p o ≡ true)
find-any p [] h = absurd (ground arith)
find-any p (x ∷ xs) h = elim (Bool-cases (p x)) [
  | inl e ↦ (x, rw e refl, e)
  | inr e ↦ let (o, f, g) = find-any p xs (ground arith) in (o, rw e f, g)
]

find-none : (p : Operation → Bool) (xs : List Operation) → any p xs ≡ false → find p xs ≡ none
find-none p [] h = refl
find-none p (x ∷ xs) h = ground (arith, find-none p xs)

-- While a load runs, `getLoadOp` finds a running load.
get_load_op_running :
    (s : Store)
    → is_load_running s ≡ true
    → (op : Operation) × (get_load_op s ≡ some op) × (is_running_load op ≡ true)
unfolding get_load_op is_load_running
get_load_op_running s h =
    let (op, f, r) = find-any is_running_load (get_all s) h in (op, rw (f, get_load_op) refl, r)

newer_total : (a b : Operation) → newer a b ≡ false → newer b a ≡ true
newer_total a b h = ground arith

newer_trans : (a b c : Operation) → newer a b ≡ true → newer b c ≡ true → newer a c ≡ true
newer_trans a b c h k = ground arith

-- The first of a sorted list comes before all of it.
head-first :
    (xs : List Operation) (op : Operation)
    → IsSorted newer xs
    → head? xs ≡ some op
    → All (λ o. newer op o ≡ true) xs
head-first [] op h e = absurd (ground arith)
head-first (x ∷ xs) op h e =
    let same : x ≡ op = ground arith in
    subst (λ y. All (λ o. newer y o ≡ true) (x ∷ xs)) same (ground arith, h.0)

newer-le : (a b : Operation) → newer a b ≡ true → b.started_at ≤ a.started_at
newer-le a b h = ground arith

unfilter :
    (op : Operation) (xs : List Operation)
    → All (λ o. newer op o ≡ true) (filter is_load xs)
    → All (λ o. is_load o ≡ true → o.started_at ≤ op.started_at) xs
unfilter op [] h = tt
unfilter op (x ∷ xs) h = go (is_load x) refl (unfilter op xs) h
  where
    go :
        (b : Bool)
        → is_load x ≡ b
        → (All (λ o. newer op o ≡ true) (filter is_load xs)
            → All (λ o. is_load o ≡ true → o.started_at ≤ op.started_at) xs)
        → All (λ o. newer op o ≡ true) (if b then x ∷ filter is_load xs else filter is_load xs)
        → (is_load x ≡ true → x.started_at ≤ op.started_at)
          × All (λ o. is_load o ≡ true → o.started_at ≤ op.started_at) xs
    go true e ih h = ((λ _. newer-le op x h.0), ih h.1)
    go false e ih h = ((λ l. absurd (ground arith)), ih h)

-- When no load runs, `getLoadOp` finds the load that was started last, if there was any.
get_load_op_latest :
    (s : Store) {op : Operation}
    → is_load_running s ≡ false
    → get_load_op s ≡ some op
    → All (λ o. is_load o ≡ true → o.started_at ≤ op.started_at) (get_all s)
unfolding get_load_op is_load_running
get_load_op_latest s {op} h e = unfilter op (get_all s) (
    All-unsort newer (λ o. newer op o ≡ true) (filter is_load (get_all s))
      (head-first (sort newer (filter is_load (get_all s))) op
        (sort-IsSorted newer newer_total newer_trans _)
        (rw (find-none is_running_load (get_all s) h, get_load_op) at e)))
