-- ===== src/Ring/Owner.antt =====
-- hashRing.ts: the owner against its description: the next node clockwise.
use mathlib.Core.List.{Perm, Mem, mem-cons_self, mem-cons_of_mem}
use mathlib.Core.List.Perm
use lsmkv_enterprise.Common.{
  ℕ, ◌+◌, ◌-◌, ◌≤◌, ◌<◌, ◌≡◌, refl, subst, true, false, none, some, List, [], ◌∷◌, arith, leb,
  if◌then◌else◌, Bool-cases, Option-cases, inl, inr, All, All-map₂, ◌≢◌, All-sort, All-unsort,
  IsSorted, sort, sort-perm, sort-IsSorted,
}
use lsmkv_enterprise.Ring.{RingNode, by_angle, first_from, first_id, or_else, find_owner}

-- How far clockwise a node is from an angle.
abbrev pub clockwise : ℕ → RingNode → ℕ
clockwise angle n = if leb angle n.angle then n.angle - angle else n.angle + 360000 - angle

pub by_angle_total : (a b : RingNode) → by_angle a b ≡ false → by_angle b a ≡ true
by_angle_total a b h = ground arith

pub by_angle_trans :
    (a b c : RingNode) → by_angle a b ≡ true → by_angle b c ≡ true → by_angle a c ≡ true
by_angle_trans a b c h k = ground arith

abbrev pub InRange : RingNode → Type 0
InRange n = n.angle < 360000

-- A node of the list that owns the angle: no other is nearer.
abbrev pub Nearest : ℕ → List RingNode → RingNode → Type 0
Nearest angle ns o = Mem o ns × All (λ m. clockwise angle o ≤ clockwise angle m) ns

first_from-some :
    (angle id : ℕ) (ns : List RingNode)
    → IsSorted by_angle ns
    → All InRange ns
    → first_from angle ns ≡ some id
    → (o : RingNode) × (o.id ≡ id) × (angle ≤ o.angle) × (o.angle < 360000) × Nearest angle ns o
first_from-some angle id [] s r e = absurd (ground arith)
first_from-some angle id (n ∷ ns) s r e = elim (Bool-cases (leb angle n.angle)) [
  | inl hit ↦ (
    n,
    ground arith,
    ground arith,
    r.0,
    (mem-cons_self, (omega arith, All-map₂ (λ m g h. ground arith) ns s.0 r.1)),
  )
  | inr miss ↦
      let (o, i, a, b, near) = first_from-some angle id ns s.1 r.1 (ground arith) in
      (o, i, a, b, (mem-cons_of_mem n near.0, (ground arith, near.1)))
]

-- No node stands at the angle or after it.
first_from-none :
    (angle : ℕ) (ns : List RingNode) → first_from angle ns ≡ none → All (λ m. m.angle < angle) ns
first_from-none angle [] e = tt
first_from-none angle (n ∷ ns) e = elim (Bool-cases (leb angle n.angle)) [
  | inl hit ↦ absurd (ground arith)
  | inr miss ↦ (ground arith, first_from-none angle ns (ground arith))
]

first_Nearest :
    (angle : ℕ) (n : RingNode) (ns : List RingNode)
    → IsSorted by_angle (n ∷ ns)
    → All (λ m. m.angle < angle) (n ∷ ns)
    → Nearest angle (n ∷ ns) n
first_Nearest angle n ns s b =
    (mem-cons_self, (omega arith, All-map₂ (λ m g h. ground arith) ns s.0 b.1))

-- The owner among sorted nodes.
sorted_owner :
    (angle : ℕ) (ns : List RingNode)
    → ns ≢ []
    → IsSorted by_angle ns
    → All InRange ns
    → (o : RingNode) × (or_else (first_from angle ns) (first_id ns) ≡ some o.id)
      × Nearest angle ns o
sorted_owner angle [] h s r = absurd (h refl)
sorted_owner angle (n ∷ ns) h s r = elim (Option-cases (first_from angle (n ∷ ns))) [
  | inl e ↦ (n, ground arith, first_Nearest angle n ns s (first_from-none angle (n ∷ ns) e))
  | inr (id, e) ↦
      let (o, i, _, _, near) = first_from-some angle id (n ∷ ns) s r e in (o, ground arith, near)
]

sort-ne-nil : (ns : List RingNode) → ns ≢ [] → sort by_angle ns ≢ []
sort-ne-nil ns h e = h (Perm.eq-nil (subst (λ l. Perm ns l) e (Perm.symm (sort-perm by_angle ns))))

-- On a ring with a node, and all angles below 360 degrees, every key has an owner: a node that is
-- as near clockwise as any, counted round from the key.
pub find_owner-Nearest :
    (angle : ℕ) (nodes : List RingNode)
    → nodes ≢ []
    → All InRange nodes
    → (o : RingNode) × (find_owner angle nodes ≡ some o.id) × Nearest angle nodes o
unfolding find_owner
find_owner-Nearest angle nodes h r =
    let sorted = sort by_angle nodes in
    let (o, e, near) =
      sorted_owner angle sorted (sort-ne-nil nodes h)
        (sort-IsSorted by_angle by_angle_total by_angle_trans nodes)
        (All-sort by_angle InRange nodes r) in
    (o, e, ((Perm.mem_iff (sort-perm by_angle nodes)).0 near.0, All-unsort by_angle _ nodes near.1))
