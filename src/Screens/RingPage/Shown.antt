-- ===== src/Screens/RingPage/Shown.antt =====
-- HashRing.tsx: the ring always has nodes.
use lsmkv_enterprise.Common.{
  ℕ, zero, suc, ◌+◌, ◌≤◌, ◌<◌, ◌≡◌, refl, ap, min, max, false, none, some, List, [], ◌∷◌, arith,
  text_eq, nat_eq, length,
}
use lsmkv_enterprise.Screens.RingPage.{
  RingSnapshot, RingPage, RingEvent, fetched, message, socket_error, polled, store_count, mock_from,
  opened_ring, kept_unless, apply_snapshot, ring_fetched, ring_message, ring_socket_error,
  ring_polled, store_count_changed, ring_step, ring_run,
}

length-mock_from : (count i left : ℕ) → length (mock_from count i left) ≡ left
unfolding mock_from
length-mock_from count i zero = refl
length-mock_from count i (suc left) = ap suc (length-mock_from count (i + 1) left)

kept_unless-some {ℓ} :
    {A : Type ℓ} (old xs : List A) → 0 < length old → 0 < length (kept_unless old xs)
kept_unless-some old [] h = h
kept_unless-some old (x ∷ xs) h = omega arith

apply_snapshot-some :
    (snap : RingSnapshot) (p : RingPage)
    → 0 < length p.nodes
    → 0 < length (apply_snapshot snap p).nodes
unfolding apply_snapshot
apply_snapshot-some snap p h = kept_unless-some p.nodes snap.nodes h

ring_step-some :
    (e : RingEvent) (p : RingPage) → 0 < length p.nodes → 0 < length (ring_step e p).nodes
unfolding ring_step ring_fetched ring_message ring_socket_error ring_polled store_count_changed
ring_step-some (fetched none) p h = h
ring_step-some (fetched (some snap)) p h = apply_snapshot-some snap p h
ring_step-some (message e none) p h = h
ring_step-some (message e (some snap)) p h = ground (arith, apply_snapshot-some snap p h)
ring_step-some socket_error p h = h
ring_step-some (polled none) p h = h
ring_step-some (polled (some snap)) p h = apply_snapshot-some snap p h
ring_step-some (store_count n) p h =
    ground (arith, length-mock_from (max 3 (min 6 n)) 0 (max 3 (min 6 n)))

ring_run-keeps :
    (es : List RingEvent) (p : RingPage) → 0 < length p.nodes → 0 < length (ring_run es p).nodes
unfolding ring_run
ring_run-keeps [] p h = h
ring_run-keeps (e ∷ es) p h = ring_run-keeps es (ring_step e p) (ring_step-some e p h)

-- After any replies, messages, errors and changes of the store the page shows at least one node.
ring_run-some : (es : List RingEvent) → 0 < length (ring_run es opened_ring).nodes
unfolding opened_ring
ring_run-some es = ring_run-keeps es opened_ring (omega arith)

-- Without a backend the page follows the store: with three to six nodes in the store it shows as
-- many.
store_count-followed :
    (n : ℕ) (p : RingPage)
    → p.live ≡ false
    → 3 ≤ n
    → n ≤ 6
    → length (store_count_changed n p).nodes ≡ n
unfolding store_count_changed
store_count-followed n p l a b =
    let c : max 3 (min 6 n) ≡ n = omega arith in rw c (ground (arith, length-mock_from n 0 n))
