-- ===== src/Widgets/Packets/Flight.antt =====
-- PacketFlow.tsx: which packets arrive.
use lsmkv_enterprise.Common.{
  ℕ, zero, suc, ◌+◌, ◌*◌, ◌≤◌, ◌<◌, ◌≡◌, refl, ap, subst, Bool, true, List, [], ◌∷◌, map, arith,
  ltb, filter, All, All-filter, Bool-cases, inl, inr, ◌⊎◌,
}
use lsmkv_enterprise.Widgets.Packets.{Packet, PacketView, packet_target, fly, animate}

-- A packet always goes to a replica.
packet_target-lt :
    (id total : ℕ) → 2 ≤ total → (1 ≤ packet_target id total) × (packet_target id total < total)
unfolding packet_target
packet_target-lt id zero h = absurd (omega arith)
packet_target-lt id (suc zero) h = absurd (omega arith)
packet_target-lt id (suc (suc n)) h = (omega arith, omega arith)

unfoldable pub animations : ℕ → PacketView → PacketView
animations zero v = v
animations (suc n) v = animations n (animate v)

-- A packet that is blocked, or has flown far enough.
abbrev HasFlown : ℕ → Packet → Type 0
HasFlown n p = (p.blocked ≡ true) ⊎ (40 * n ≤ p.progress)

fly-HasFlown : (n : ℕ) (p : Packet) → HasFlown n p → HasFlown (suc n) (fly p)
unfolding fly
fly-HasFlown n p h = elim (Bool-cases p.blocked) [ inl e ↦ inl e | inr e ↦ inr (ground arith) ]

fly_all-HasFlown :
    (n : ℕ) (ps : List Packet) → All (HasFlown n) ps → All (HasFlown (suc n)) (map fly ps)
fly_all-HasFlown n [] h = tt
fly_all-HasFlown n (p ∷ ps) (h, hs) = (fly-HasFlown n p h, fly_all-HasFlown n ps hs)

filter-holds : (q : Packet → Bool) (ps : List Packet) → All (λ p. q p ≡ true) (filter q ps)
filter-holds q [] = tt
filter-holds q (p ∷ ps) = elim (Bool-cases (q p)) [
  | inl e ↦ rw e (e, filter-holds q ps)
  | inr e ↦ rw e (filter-holds q ps)
]

only_blocked :
    (n : ℕ) (ps : List Packet)
    → 26 ≤ n
    → All (HasFlown n) ps
    → All (λ p. ltb p.progress 1010 ≡ true) ps
    → All (λ p. p.blocked ≡ true) ps
only_blocked n [] h k l = tt
only_blocked n (p ∷ ps) h (k, ks) (l, ls) = (still p k l, only_blocked n ps h ks ls)
  where
    still : (p : Packet) → HasFlown n p → ltb p.progress 1010 ≡ true → p.blocked ≡ true
    still p (inl e) l = e
    still p (inr m) l = absurd (ground arith)

animations-flown :
    (n k : ℕ) (v : PacketView)
    → All (HasFlown n) v.packets
    → All (λ p. ltb p.progress 1010 ≡ true) v.packets
    → All (HasFlown (n + k)) (animations k v).packets
      × All (λ p. ltb p.progress 1010 ≡ true) (animations k v).packets
unfolding animations animate
animations-flown n zero v h l =
    let e : n ≡ n + 0 = omega arith in (subst (λ m. All (HasFlown m) v.packets) e h, l)
animations-flown n (suc k) v h l =
    let e : suc n + k ≡ n + suc k = omega arith in
    let (a, b) =
      animations-flown (suc n) k (animate v)
        (All-filter (HasFlown (suc n)) (λ p. ltb p.progress 1010) _
          (fly_all-HasFlown n v.packets h))
        (filter-holds (λ p. ltb p.progress 1010) (map fly v.packets)) in
    (subst (λ m. All (HasFlown m) (animations k (animate v)).packets) e a, b)

from_zero : (ps : List Packet) → All (HasFlown 0) ps
from_zero [] = tt
from_zero (p ∷ ps) = (inr (omega arith), from_zero ps)

-- After 26 frames or more without a new packet, only blocked packets are left: every other one has
-- arrived.
animations-blocked :
    (k : ℕ) (v : PacketView) → 26 ≤ k → All (λ p. p.blocked ≡ true) (animations k v).packets
unfolding animations animate
animations-blocked zero v h = absurd (omega arith)
animations-blocked (suc k) v h =
    let (a, b) =
      animations-flown 1 k (animate v)
        (All-filter (HasFlown 1) (λ p. ltb p.progress 1010) _
          (fly_all-HasFlown 0 v.packets (from_zero v.packets)))
        (filter-holds (λ p. ltb p.progress 1010) (map fly v.packets)) in
    only_blocked (1 + k) _ (omega (arith, h)) a b

-- A blocked packet that has not passed the middle.
abbrev pub IsHalted : Packet → Type 0
IsHalted p = (p.blocked ≡ true) × (p.progress ≤ 460)

-- Blocked packets never leave by a frame: they come to a halt before the middle, and stay.
animate-IsHalted :
    (v : PacketView)
    → All IsHalted v.packets
    → ((animate v).packets ≡ map fly v.packets) × All IsHalted (animate v).packets
unfolding animate fly
animate-IsHalted v h = halted v.packets h
  where
    one : (p : Packet) → IsHalted p → IsHalted (fly p) × (ltb (fly p).progress 1010 ≡ true)
    one p (e, b) = ((e, ground arith), ground arith)

    halted :
        (ps : List Packet)
        → All IsHalted ps
        → (filter (λ p. ltb p.progress 1010) (map fly ps) ≡ map fly ps)
          × All IsHalted (filter (λ p. ltb p.progress 1010) (map fly ps))
    halted [] h = (refl, tt)
    halted (p ∷ ps) (h, hs) =
        let (k, l) = one p h in let (a, b) = halted ps hs in rw l (ap (◌∷◌ (fly p)) a, (k, b))
