-- ===== src/Screens/Overview/Flashing.antt =====
-- Dashboard.tsx: which nodes flash.
use lsmkv_enterprise.Common.{
  ℕ, suc, ◌≡◌, refl, sym, ap, ◌∙◌, subst, Bool, true, false, ◌&&◌, ◌||◌, some, List, [], ◌∷◌, arith,
  ◌==◌, nat_eq, any, get_elem?, zero, if◌then◌else◌, Bool-cases, inl, inr,
}
use lsmkv_enterprise.Failure.{NodeState, NodeRuntimeState}
use lsmkv_enterprise.JsMap.{JsMap, JsSet, get-set_self, get-set_ne, add}
use lsmkv_enterprise.JsMap
use lsmkv_enterprise.Screens.Overview.{Overview, changed, flash_loop, or_same, flash_effect}

-- No node's id stands twice.
abbrev pub DistinctNodes : List NodeRuntimeState → Type 0
DistinctNodes [] = Unit
DistinctNodes (n ∷ ns) = (any (λ x. x.id == n.id) ns ≡ false) × DistinctNodes ns

-- The node with an id changed its state.
abbrev pub has_changed : ℕ → JsMap ℕ NodeState → NodeRuntimeState → Bool
has_changed id prev n = (n.id == id) && changed (JsMap.get id prev) n.state

any-add :
    (k x : ℕ) (s : JsSet) → any (λ y. y == k) (JsMap.add x s) ≡ ((x == k) || any (λ y. y == k) s)
unfolding add
any-add k x [] = ground arith
any-add k x (y ∷ s) = ground (arith, any-add k x s)

any-if_add :
    (b : Bool) (k x : ℕ) (s : JsSet)
    → any (λ y. y == k) (if b then JsMap.add x s else s) ≡ (((x == k) && b) || any (λ y. y == k) s)
any-if_add true k x s = any-add k x s ∙ ground arith
any-if_add false k x s = ground arith

unchanged_others :
    (k : ℕ) (prev : JsMap ℕ NodeState) (ns : List NodeRuntimeState)
    → any (λ x. x.id == k) ns ≡ false
    → any (has_changed k prev) ns ≡ false
unchanged_others k prev [] h = refl
unchanged_others k prev (n ∷ ns) h = ground (arith, unchanged_others k prev ns)

same_gets :
    (k : ℕ) (p q : JsMap ℕ NodeState) (ns : List NodeRuntimeState)
    → JsMap.get k p ≡ JsMap.get k q
    → any (has_changed k p) ns ≡ any (has_changed k q) ns
same_gets k p q [] h = refl
same_gets k p q (n ∷ ns) h =
    ap (λ o. (((n.id == k) && changed o n.state) || any (has_changed k p) ns)) h
    ∙ ap (◌||◌ ((n.id == k) && changed (JsMap.get k q) n.state)) (same_gets k p q ns h)

-- The other nodes' changes, after one node's state was noted.
after_set :
    (k : ℕ) (n : NodeRuntimeState) (prev : JsMap ℕ NodeState) (ns : List NodeRuntimeState)
    → any (λ x. x.id == n.id) ns ≡ false
    → any (has_changed k (JsMap.set n.id n.state prev)) ns ≡ any (has_changed k prev) ns
after_set k n prev ns h = elim (Bool-cases (n.id == k)) [
  | inl e ↦
      let z : n.id ≡ k = ground arith in
      let none_left = subst (λ i. any (λ x. x.id == i) ns ≡ false) z h in
      unchanged_others k (JsMap.set n.id n.state prev) ns none_left
      ∙ sym (unchanged_others k prev ns none_left)
  | inr e ↦ same_gets k _ prev ns (get-set_ne n.id k n.state prev (ground arith))
]

own_change :
    (k : ℕ) (n : NodeRuntimeState) (prev : JsMap ℕ NodeState)
    → ((n.id == k) && changed (JsMap.get n.id prev) n.state) ≡ has_changed k prev n
own_change k n prev = elim (Bool-cases (n.id == k)) [
  | inl e ↦
      let z : n.id ≡ k = ground arith in
      ap (λ i. (n.id == k) && changed (JsMap.get i prev) n.state) z
  | inr e ↦ rw e refl
]

or_swap : (a b c : Bool) → (b || (a || c)) ≡ ((a || b) || c)
or_swap a b c = ground arith

or_false : (b : Bool) → (b || false) ≡ b
or_false b = ground arith

or_same_nil : (s : JsSet) → or_same [] s ≡ s
or_same_nil [] = refl
or_same_nil (x ∷ s) = refl

flash_loop-finds :
    (k : ℕ) (ns : List NodeRuntimeState) (prev : JsMap ℕ NodeState) (flashing : JsSet)
    → DistinctNodes ns
    → any (λ y. y == k) (flash_loop ns prev flashing).1
      ≡ (any (has_changed k prev) ns || any (λ y. y == k) flashing)
unfolding flash_loop
flash_loop-finds k [] prev flashing d = refl
flash_loop-finds k (n ∷ ns) prev flashing (new, d) =
    let more =
      if changed (JsMap.get n.id prev) n.state then JsMap.add n.id flashing else flashing in
    let rest = flash_loop-finds k ns (JsMap.set n.id n.state prev) more d in
    let head = any-if_add (changed (JsMap.get n.id prev) n.state) k n.id flashing in
    let tail = after_set k n prev ns new in
    let own = own_change k n prev in
    rest
    ∙ (ap (λ t. t || any (λ y. y == k) more) tail
        ∙ (ap (◌||◌ (any (has_changed k prev) ns))
              (head ∙ ap (λ c. c || any (λ y. y == k) flashing) own)
            ∙ or_swap (has_changed k prev n) (any (has_changed k prev) ns) _))

flash_loop-notes :
    (k : ℕ) (ns : List NodeRuntimeState) (prev : JsMap ℕ NodeState) (flashing : JsSet)
    → any (λ x. x.id == k) ns ≡ false
    → JsMap.get k (flash_loop ns prev flashing).0 ≡ JsMap.get k prev
unfolding flash_loop
flash_loop-notes k [] prev flashing h = refl
flash_loop-notes k (n ∷ ns) prev flashing h =
    flash_loop-notes k ns _ _ (ground arith) ∙ get-set_ne n.id k n.state prev (ground arith)

flash_loop-latest :
    (i : ℕ) (n : NodeRuntimeState) (ns : List NodeRuntimeState) (prev : JsMap ℕ NodeState)
    (flashing : JsSet)
    → DistinctNodes ns
    → get_elem? ns i ≡ some n
    → JsMap.get n.id (flash_loop ns prev flashing).0 ≡ some n.state
unfolding flash_loop
flash_loop-latest i n [] prev flashing d e = absurd (ground arith)
flash_loop-latest zero n (x ∷ ns) prev flashing (new, d) e =
    subst (λ y. JsMap.get y.id (flash_loop (x ∷ ns) prev flashing).0 ≡ some y.state) (first e)
      (flash_loop-notes x.id ns _ _ new ∙ get-set_self x.id x.state prev)
  where
    first : some x ≡ some n → x ≡ n
    first e = ground arith
flash_loop-latest (suc i) n (x ∷ ns) prev flashing (new, d) e = flash_loop-latest i n ns _ _ d e

-- With the flashing of before over, and no id twice among the nodes, the effect makes exactly those
-- nodes flash whose state is another than the one noted for their id, and it notes every node's
-- state.
pub flash_effect-changes :
    (ns : List NodeRuntimeState) (p : Overview)
    → DistinctNodes ns
    → p.flash_ids ≡ []
    → ((k : ℕ)
        → any (λ y. y == k) (flash_effect ns p).flash_ids ≡ any (has_changed k p.prev_states) ns)
      × ((i : ℕ) (n : NodeRuntimeState)
          → get_elem? ns i ≡ some n
          → JsMap.get n.id (flash_effect ns p).prev_states ≡ some n.state)
unfolding flash_effect
flash_effect-changes ns p d h = (
  λ k.
      ap (any (λ y. y == k))
        (ap (λ old. or_same old (flash_loop ns p.prev_states []).1) h ∙ or_same_nil _)
      ∙ (flash_loop-finds k ns p.prev_states [] d ∙ or_false _),
  λ i n e. flash_loop-latest i n ns p.prev_states [] d e,
)
