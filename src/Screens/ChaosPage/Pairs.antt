-- ===== src/Screens/ChaosPage/Pairs.antt =====
-- ChaosEngineering.tsx: the pairs of nodes, and a click on one.
use lsmkv_enterprise.Common.{
  ℕ, zero, suc, ◌+◌, ◌≤◌, ◌<◌, ◌≡◌, refl, ◌∙◌, subst, Bool, true, not, List, [], ◌∷◌, ◌++◌, arith,
  length, any, ◌==◌, nat_eq, ◌&&◌, ◌||◌, All, All-append, Bool-cases, inl, inr,
}
use lsmkv_enterprise.Failure.{NodeRuntimeState}
use lsmkv_enterprise.Context.{is_partitioned}
use lsmkv_enterprise.Context.Partitions.{is_partitioned-dispatch}
use lsmkv_enterprise.Screens.ChaosPage.{
  ChaosPage, pairs_with, pairs_from, dynamic_pairs, click_pair,
}

-- A click on a pair changes whether its nodes are partitioned, either way round.
click_pair-toggles :
    (now a b : ℕ) (p : ChaosPage)
    → (is_partitioned a b (click_pair now a b p).cluster ≡ not (is_partitioned a b p.cluster))
      × (is_partitioned b a (click_pair now a b p).cluster ≡ not (is_partitioned a b p.cluster))
unfolding click_pair
click_pair-toggles now a b p =
    let (on, on', off, off') = is_partitioned-dispatch now a b p.cluster in
    elim (Bool-cases (is_partitioned a b p.cluster)) [
      | inl e ↦ rw (e, click_pair) (off, off')
      | inr e ↦ rw (e, click_pair) (on, on')
    ]

pairs_with-lt :
    (i j count n : ℕ)
    → i < j
    → j + count ≤ n
    → All (λ p. (p.0 < p.1) × (p.1 < n)) (pairs_with i j count)
unfolding pairs_with
pairs_with-lt i j zero n h k = tt
pairs_with-lt i j (suc count) n h k =
    ((h, omega (arith, k)), pairs_with-lt i (suc j) count n (omega (arith, h)) (omega (arith, k)))

pairs_from-lt :
    (i count n : ℕ) → i + count ≤ n → All (λ p. (p.0 < p.1) × (p.1 < n)) (pairs_from i count)
unfolding pairs_from
pairs_from-lt i zero n h = tt
pairs_from-lt i (suc count) n h =
    All-append _ (pairs_with i (suc i) count) _
      (pairs_with-lt i (suc i) count n (omega arith) (omega (arith, h)))
      (pairs_from-lt (suc i) count n (omega (arith, h)))

abbrev pub is_pair : ℕ → ℕ → ℕ × ℕ → Bool
is_pair a b p = (p.0 == a) && (p.1 == b)

any-append : (p : ℕ × ℕ → Bool) (xs ys : List (ℕ × ℕ)) → any p (xs ++ ys) ≡ (any p xs || any p ys)
any-append p [] ys = refl
any-append p (x ∷ xs) ys = ground (arith, any-append p xs ys)

pairs_with-has :
    (a b j count : ℕ) → j ≤ b → b < j + count → any (is_pair a b) (pairs_with a j count) ≡ true
unfolding pairs_with
pairs_with-has a b j zero h k = absurd (omega arith)
pairs_with-has a b j (suc count) h k = elim (Bool-cases (j == b)) [
  | inl e ↦ ground arith
  | inr e ↦
      let rest = pairs_with-has a b (suc j) count (ground arith) (omega (arith, k)) in ground arith
]

pairs_from-has :
    (a b i count : ℕ)
    → i ≤ a
    → a < b
    → b < i + count
    → any (is_pair a b) (pairs_from i count) ≡ true
unfolding pairs_from
pairs_from-has a b i zero h l k = absurd (omega arith)
pairs_from-has a b i (suc count) h l k =
    any-append (is_pair a b) (pairs_with i (suc i) count) (pairs_from (suc i) count)
    ∙ (elim (Bool-cases (i == a)) [
      | inl e ↦
          let z : a ≡ i = ground arith in
          let here =
            subst (λ x. any (is_pair a b) (pairs_with x (suc x) count) ≡ true) z
              (pairs_with-has a b (suc a) count (omega arith) (omega (arith, z))) in
          ground arith
      | inr e ↦
          let there = pairs_from-has a b (suc i) count (ground arith) l (omega (arith, k)) in
          ground arith
    ])

-- The page lists exactly the pairs of two places of nodes, the lower one first.
dynamic_pairs-all :
    (nodes : List NodeRuntimeState)
    → All (λ p. (p.0 < p.1) × (p.1 < length nodes)) (dynamic_pairs nodes)
      × ((a b : ℕ) → a < b → b < length nodes → any (is_pair a b) (dynamic_pairs nodes) ≡ true)
unfolding dynamic_pairs
dynamic_pairs-all nodes = (
  pairs_from-lt 0 (length nodes) (length nodes) (omega arith),
  λ a b h k. pairs_from-has a b 0 (length nodes) (omega arith) h (omega (arith, k)),
)
