-- ===== src/Ring/Rebalance.antt =====
-- hashRing.ts: how the owners move when a node joins or leaves.
use lsmkv_enterprise.Common.{
  ℕ, ◌≡◌, refl, sym, ◌⊎◌, inl, inr, Bool, true, false, some, List, [], ◌∷◌, ◌++◌, arith, if_cases,
  subst, All-map, if◌then◌else◌, All, IsSorted, insert, sort, sort-IsSorted,
}
use lsmkv_enterprise.Ring.{RingNode, by_angle, first_from, first_id, find_owner}
use lsmkv_enterprise.Ring.Owner.{by_angle_total, by_angle_trans}

-- The second list is the first with the node put in somewhere.
data Inserted (n : RingNode) : List RingNode → List RingNode → Type 0 where
  here : (xs : List RingNode) → Inserted n xs (n ∷ xs)
  there : (x : RingNode) {xs ys : List RingNode} → Inserted n xs ys → Inserted n (x ∷ xs) (x ∷ ys)

Inserted-middle :
    (n : RingNode) (pre post : List RingNode) → Inserted n (pre ++ post) (pre ++ n ∷ post)
Inserted-middle n [] post = here post
Inserted-middle n (x ∷ pre) post = there x (Inserted-middle n pre post)

-- An item that comes before the first of a list is put in front of it.
insert_front :
    (x : RingNode) (xs : List RingNode)
    → All (λ y. by_angle x y ≡ true) xs
    → insert by_angle x xs ≡ x ∷ xs
unfolding insert
insert_front x [] h = refl
insert_front x (y ∷ ys) h = ground arith

both :
    (b : Bool) {n : RingNode} {xs xs' ys ys' : List RingNode}
    → Inserted n xs ys
    → Inserted n xs' ys'
    → Inserted n (if b then xs else xs') (if b then ys else ys')
both true p q = p
both false p q = q

new_Inserted : (n : RingNode) (xs : List RingNode) → Inserted n xs (insert by_angle n xs)
unfolding insert
new_Inserted n [] = here []
new_Inserted n (x ∷ xs) =
    if_cases (Inserted n (x ∷ xs)) (by_angle n x) (λ _. here (x ∷ xs))
      (λ _. there x (new_Inserted n xs))

insert-Inserted :
    (n x : RingNode) {xs ys : List RingNode}
    → Inserted n xs ys
    → IsSorted by_angle ys
    → Inserted n (insert by_angle x xs) (insert by_angle x ys)
unfolding insert
insert-Inserted n x (here xs) s =
    if_cases (Inserted n (insert by_angle x xs)) (by_angle x n)
      (λ e.
        subst (λ l. Inserted n l (x ∷ n ∷ xs))
          (sym (insert_front x xs (All-map (λ y g. by_angle_trans x n y e g) xs s.0)))
          (there x (here xs)))
      (λ _. here (insert by_angle x xs))
insert-Inserted n x (there y {xs} {ys} i) s =
    both (by_angle x y) (there x (there y i)) (there y (insert-Inserted n x i s.1))

sort-Inserted :
    (n : RingNode) {xs ys : List RingNode}
    → Inserted n xs ys
    → Inserted n (sort by_angle xs) (sort by_angle ys)
unfolding sort
sort-Inserted n (here xs) = new_Inserted n (sort by_angle xs)
sort-Inserted n (there x {xs} {ys} i) =
    insert-Inserted n x (sort-Inserted n i)
      (sort-IsSorted by_angle by_angle_total by_angle_trans ys)

-- Looking up in the longer list finds the new node, or what the shorter one finds.
first_from-Inserted :
    (angle : ℕ) (n : RingNode) {xs ys : List RingNode}
    → Inserted n xs ys
    → (first_from angle ys ≡ some n.id) ⊎ (first_from angle ys ≡ first_from angle xs)
first_from-Inserted angle n (here xs) = ground arith
first_from-Inserted angle n (there x i) = ground (arith, first_from-Inserted angle n i)

first_id-Inserted :
    (n : RingNode) {xs ys : List RingNode}
    → Inserted n xs ys
    → (first_id ys ≡ some n.id) ⊎ (first_id ys ≡ first_id xs)
first_id-Inserted n (here xs) = inl refl
first_id-Inserted n (there x i) = inr refl

-- A node that joins, wherever it stands in the list, takes keys over or leaves them where they are:
-- no key moves between two old nodes. Read the other way round, a node that leaves moves its own
-- keys only.
pub find_owner-joins :
    (angle : ℕ) (n : RingNode) (pre post : List RingNode)
    → (find_owner angle (pre ++ n ∷ post) ≡ some n.id)
      ⊎ (find_owner angle (pre ++ n ∷ post) ≡ find_owner angle (pre ++ post))
unfolding find_owner
find_owner-joins angle n pre post =
    let i = sort-Inserted n (Inserted-middle n pre post) in
    ground (arith, first_from-Inserted angle n i, first_id-Inserted n i)
