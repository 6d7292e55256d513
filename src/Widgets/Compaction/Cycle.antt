-- ===== src/Widgets/Compaction/Cycle.antt =====
-- CompactionAnimator.tsx: what a compaction does to the levels.
use lsmkv_enterprise.Common.{
  ℕ, suc, ◌+◌, ◌≤◌, ◌≡◌, ◌≢◌, refl, sym, ap, ◌∙◌, subst, true, false, none, some, List, [], ◌∷◌,
  ◌++◌, map, arith, nat_eq, ltb, length, take, Bool-cases, inl, inr,
}
use lsmkv_enterprise.Widgets.Compaction.{
  Block, flushing, compacts_l1, refills_l0, Animator, block, at_level, on_level, off_level,
  mark_merging, start_compaction, merge_l0, settle, compact_l1, refill_l0, run_timer, fire,
}

abbrev pub count : ℕ → List Block → ℕ
count l bs = length (on_level l bs)

count-append : (l : ℕ) (xs ys : List Block) → count l (xs ++ ys) ≡ count l xs + count l ys
count-append l [] ys = omega arith
count-append l (x ∷ xs) ys = ground (arith, count-append l xs ys)

count-off_level : (l : ℕ) (bs : List Block) → count l (off_level l bs) ≡ 0
count-off_level l [] = refl
count-off_level l (b ∷ bs) = ground (arith, count-off_level l bs)

count-off_other : (k l : ℕ) (bs : List Block) → k ≢ l → count l (off_level k bs) ≡ count l bs
count-off_other k l [] h = refl
count-off_other k l (b ∷ bs) h = ground (arith, count-off_other k l bs h)

count-map :
    (l : ℕ) (f : Block → Block) (bs : List Block)
    → ((b : Block) → (f b).level ≡ b.level)
    → count l (map f bs) ≡ count l bs
count-map l f [] h = refl
count-map l f (b ∷ bs) h = ground (arith, count-map l f bs h, h b)

mark_merging-level : (b : Block) → (mark_merging b).level ≡ b.level
unfolding mark_merging
mark_merging-level b = ground arith

-- The one block that phase 3 keeps.
kept_one :
    (l : ℕ) (bs : List Block)
    → 1 ≤ count l bs
    → (count l (map settle (take 1 (on_level l bs))) ≡ 1)
      × ((k : ℕ) → k ≢ l → count k (map settle (take 1 (on_level l bs))) ≡ 0)
kept_one l [] h = absurd (omega arith)
kept_one l (b ∷ bs) h = elim (Bool-cases (at_level l b)) [
  | inl e ↦ rw e (rw e refl, λ k ne. ground arith)
  | inr e ↦ rw e (kept_one l bs (ground arith))
]

merge_l0-counts :
    (id : ℕ) (bs : List Block)
    → (count 0 (merge_l0 id bs) ≡ 0)
      × (count 1 (merge_l0 id bs) ≡ suc (count 1 bs))
      × (count 2 (merge_l0 id bs) ≡ count 2 bs)
unfolding merge_l0
merge_l0-counts id bs =
    let new = block id 1 (count 1 (off_level 0 bs)) ∷ [] in
    (
      count-append 0 (off_level 0 bs) new ∙ omega (arith, count-off_level 0 bs),
      count-append 1 (off_level 0 bs) new ∙ omega (arith, count-off_other 0 1 bs (omega arith)),
      count-append 2 (off_level 0 bs) new ∙ omega (arith, count-off_other 0 2 bs (omega arith)),
    )

compact_l1-counts :
    (id : ℕ) (bs : List Block)
    → 1 ≤ count 1 bs
    → (count 0 (compact_l1 id bs) ≡ count 0 bs)
      × (count 1 (compact_l1 id bs) ≡ 1)
      × (count 2 (compact_l1 id bs) ≡ suc (count 2 bs))
unfolding compact_l1
compact_l1-counts id bs h =
    let kept = map settle (take 1 (on_level 1 bs)) in
    let new = block id 2 (count 2 (off_level 1 bs)) ∷ [] in
    let (one, others) = kept_one 1 bs h in
    (
      three 0 (off_level 1 bs) kept new
          ∙ omega (arith, count-off_other 1 0 bs (omega arith), others 0 (omega arith)),
      three 1 (off_level 1 bs) kept new ∙ omega (arith, count-off_level 1 bs, one),
      three 2 (off_level 1 bs) kept new
          ∙ omega (arith, count-off_other 1 2 bs (omega arith), others 2 (omega arith)),
    )
  where
    three :
        (l : ℕ) (xs ys zs : List Block)
        → count l (xs ++ ys ++ zs) ≡ count l xs + count l ys + count l zs
    three l xs ys zs =
        count-append l (xs ++ ys) zs ∙ ap (λ n. n + count l zs) (count-append l xs ys)

refill_l0-counts :
    (id : ℕ) (bs : List Block)
    → (count 0 (refill_l0 id bs) ≡ count 0 bs + 2)
      × (count 1 (refill_l0 id bs) ≡ count 1 bs)
      × (count 2 (refill_l0 id bs) ≡ count 2 bs)
unfolding refill_l0
refill_l0-counts id bs =
    let new = block id 0 0 ∷ block (suc id) 0 1 ∷ [] in
    (
      count-append 0 bs new,
      count-append 1 bs new ∙ omega arith,
      count-append 2 bs new ∙ omega arith,
    )

compacts_l1-many :
    (a : Animator)
    → 2 ≤ count 1 a.blocks
    → run_timer compacts_l1 a ≡ record a {
      blocks = compact_l1 a.block_id a.blocks;
      block_id = suc a.block_id;
      timer = some refills_l0;
    }
compacts_l1-many a h = let e : ltb (count 1 a.blocks) 2 ≡ false = ground arith in simp e

-- A compaction: the button, and the three callbacks that follow it.
unfoldable pub compaction : Animator → Animator
compaction a = fire (fire (fire (start_compaction a)))

-- What a compaction comes to, from blocks with `l2` of them on level 2.
abbrev pub HasCompacted : ℕ → Animator → Type 0
HasCompacted l2 a =
    (count 0 a.blocks ≡ 2)
    × (count 1 a.blocks ≡ 1)
    × (count 2 a.blocks ≡ suc l2)
    × (a.running ≡ false)
    × (a.timer ≡ none)

-- A compaction ends, from any blocks of which one is on level 1: it leaves two blocks on level 0,
-- one on level 1, and one more than before on level 2, however many are there already.
pub compaction-counts :
    (a : Animator) → 1 ≤ count 1 a.blocks → HasCompacted (count 2 a.blocks) (compaction a)
unfolding compaction fire start_compaction
compaction-counts a h =
    let marked = map mark_merging a.blocks in
    let merged = merge_l0 a.block_id marked in
    let b : Animator = record {
      running = true;
      blocks = merged;
      phase = flushing;
      timer = some compacts_l1;
      block_id = suc a.block_id;
    } in
    let (m0, m1, m2) = merge_l0-counts a.block_id marked in
    let o1 = count-map 1 mark_merging a.blocks mark_merging-level in
    let o2 = count-map 2 mark_merging a.blocks mark_merging-level in
    let many : 2 ≤ count 1 merged = omega arith in
    let (c0, c1, c2) = compact_l1-counts (suc a.block_id) merged (omega (arith, many)) in
    let (r0, r1, r2) =
      refill_l0-counts (suc (suc a.block_id)) (compact_l1 (suc a.block_id) merged) in
    subst (λ x. HasCompacted (count 2 a.blocks) (fire x)) (sym (compacts_l1-many b many))
      (omega arith, omega arith, omega arith, refl, refl)
