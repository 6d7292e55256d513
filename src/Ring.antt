-- ===== src/Ring.antt =====
-- dashboard/frontend/src/utils/hashRing.ts and utils/ringGeometry.ts: who owns a key on the ring.
-- Angles are in thousandths of a degree, in which the golden angle 137.508 is exact. `none` is
-- the exception of `sorted[0].id` on an empty list.
pub mod Owner
pub mod Rebalance
use lsmkv_enterprise.Common.{
  ℕ, zero, suc, ◌+◌, ◌*◌, ◌%◌, Bool, true, false, Option, none, some, List, [], ◌∷◌, ◌++◌, Text,
  leb, ◌==◌, text_eq, nat_eq, if◌then◌else◌, find, sort,
}

pub record RingNode : Type 0 where
  pub id : ℕ
  pub angle : ℕ
  pub addr : Option Text

pub record RingKey : Type 0 where
  pub id : ℕ
  pub angle : ℕ
  pub owner : Option Text

-- The loop from `i` on, with `left` rounds left.
unfoldable pub generate_from : ℕ → ℕ → List RingKey
generate_from i zero = []
generate_from i (suc left) =
    record { id = i + 1; angle = (i * 137508) % 360000; owner = none } ∷ generate_from (i + 1) left

unfoldable pub generate_keys : ℕ → List RingKey
generate_keys count = generate_from 0 count

-- `(a, b) => a.angle - b.angle`.
abbrev pub by_angle : RingNode → RingNode → Bool
by_angle a b = leb a.angle b.angle

-- `for (const node of sorted) if (angle <= node.angle) return node.id`.
abbrev pub first_from : ℕ → List RingNode → Option ℕ
first_from angle [] = none
first_from angle (n ∷ ns) = if leb angle n.angle then some n.id else first_from angle ns

abbrev pub first_id : List RingNode → Option ℕ
first_id [] = none
first_id (n ∷ ns) = some n.id

abbrev pub or_else : Option ℕ → Option ℕ → Option ℕ
or_else none d = d
or_else (some x) d = some x

unfoldable pub find_owner : ℕ → List RingNode → Option ℕ
find_owner angle nodes =
    let sorted = sort by_angle nodes in or_else (first_from angle sorted) (first_id sorted)

abbrev pub has_addr : Text → RingNode → Bool
has_addr a n = elim n.addr [ none ↦ false | some b ↦ b == a ]

-- An empty owner is falsy.
unfoldable pub resolve_owner_index : RingKey → List RingNode → Option ℕ
resolve_owner_index key nodes = elim key.owner [
  | none ↦ find_owner key.angle nodes
  | some [] ↦ find_owner key.angle nodes
  | some (c ∷ a) ↦ elim (find (has_addr (c ∷ a)) nodes) [
    | none ↦ find_owner key.angle nodes
    | some n ↦ some n.id
  ]
]
