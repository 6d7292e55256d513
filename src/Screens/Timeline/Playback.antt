-- ===== src/Screens/Timeline/Playback.antt =====
-- Timeline.tsx: what playing shows, and where it ends.
use lsmkv_enterprise.Common.{
  ℕ, zero, suc, ◌+◌, ◌-◌, ◌≤◌, ◌<◌, ◌%◌, ◌≡◌, refl, sym, ap, ◌∙◌, subst, Bool, true, false, ◌||◌,
  not, Option, none, some, List, [], ◌∷◌, text, text_eq, nat_eq, ◌==◌, if◌then◌else◌, length,
  get_elem?, arith,
}
use lsmkv_enterprise.Context.{ClusterSnapshot, Cluster, start_replay}
use lsmkv_enterprise.Screens.Timeline.{
  significant_from, significant, current_idx, Player, start_idx, show, toggle_play, advance_play,
  play_tick, current_snap,
}

further :
    (b i : ℕ) (x s : ClusterSnapshot) (h : List ClusterSnapshot)
    → (suc b ≤ i) × (get_elem? h (i - suc b) ≡ some s)
    → (b ≤ i) × (get_elem? (x ∷ h) (i - b) ≡ some s)
further b i x s h r =
    let e : i - b ≡ suc (i - suc b) = omega (arith, r.0) in (omega (arith, r.0), rw e r.1)

first_place :
    (b i : ℕ) (x s : ClusterSnapshot) (h : List ClusterSnapshot)
    → b ≡ i
    → x ≡ s
    → (b ≤ i) × (get_elem? (x ∷ h) (i - b) ≡ some s)
first_place b i x s h p q =
    let z : i - b ≡ 0 = omega (arith, p) in (omega (arith, p), rw z (ap some q))

chosen :
    (b : ℕ) (x : ClusterSnapshot) (h : List ClusterSnapshot) (i : ℕ) (s : ClusterSnapshot)
    → (c : Bool) (k : ℕ)
    → ((j : ℕ)
        → get_elem? (significant_from (suc b) h) j ≡ some (i, s)
        → (b ≤ i) × (get_elem? (x ∷ h) (i - b) ≡ some s))
    → get_elem? (if c then (b, x) ∷ significant_from (suc b) h else significant_from (suc b) h) k
      ≡ some (i, s)
    → (b ≤ i) × (get_elem? (x ∷ h) (i - b) ≡ some s)
chosen b x h i s true zero go e = first_place b i x s h (ground arith) (ground arith)
chosen b x h i s true (suc k) go e = go k e
chosen b x h i s false k go e = go k e

-- The place that stands with a significant snapshot is its place in the history.
significant_from-place :
    (b : ℕ) (h : List ClusterSnapshot) (k : ℕ) {i : ℕ} {s : ClusterSnapshot}
    → get_elem? (significant_from b h) k ≡ some (i, s)
    → (b ≤ i) × (get_elem? h (i - b) ≡ some s)
unfolding significant_from
significant_from-place b [] k e = absurd (ground arith)
significant_from-place b (x ∷ h) k {i = i} {s = s} e =
    chosen b x h i s (not (x.label == text "periodic") || (b % 3 == 0)) k
      (λ j d. further b i x s h (significant_from-place (suc b) h j d)) e

significant-place :
    (h : List ClusterSnapshot) (k : ℕ) {i : ℕ} {s : ClusterSnapshot}
    → get_elem? (significant h) k ≡ some (i, s)
    → get_elem? h i ≡ some s
unfolding significant
significant-place h k {i = i} {s = s} e =
    let z : i - 0 ≡ i = omega arith in
    subst (λ j. get_elem? h j ≡ some s) z (significant_from-place 0 h k e).1

-- Ticks of the interval.
unfoldable pub ticks : ℕ → Player → Player
ticks zero p = p
ticks (suc n) p = ticks n (play_tick p)

tick_at :
    (p : Player) (o : Option (ℕ × ClusterSnapshot))
    → p.playing ≡ true
    → get_elem? (significant p.cluster.history) p.next_pos ≡ o
    → play_tick p ≡ advance_play true o p
unfolding play_tick
tick_at p o h e =
    ap (λ b. advance_play b (get_elem? (significant p.cluster.history) p.next_pos) p) h
    ∙ ap (λ x. advance_play true x p) e

earlier :
    (xs : List (ℕ × ClusterSnapshot)) (k n : ℕ) {x : ℕ × ClusterSnapshot}
    → get_elem? xs (k + n) ≡ some x
    → (y : ℕ × ClusterSnapshot) × (get_elem? xs k ≡ some y)
earlier [] k n e = absurd (ground arith)
earlier (y ∷ xs) zero n e = (y, refl)
earlier (y ∷ xs) (suc k) n {x = x} e =
    let z : suc k + n ≡ suc (k + n) = omega arith in
    earlier xs k n {x = x} (subst (λ m. get_elem? (y ∷ xs) m ≡ some x) z e)

-- Playing shows the significant snapshots one after another: with `next_pos` at a place and another
-- `n` places further, the tick after `n` ticks shows the snapshot there, and goes on playing.
pub ticks-shows :
    (n : ℕ) (p : Player) {i : ℕ} {s : ClusterSnapshot}
    → p.playing ≡ true
    → get_elem? (significant p.cluster.history) (p.next_pos + n) ≡ some (i, s)
    → ((ticks (suc n) p).playing ≡ true)
      × ((ticks (suc n) p).next_pos ≡ suc (p.next_pos + n))
      × (current_snap (ticks (suc n) p).cluster ≡ some s)
unfolding ticks current_snap start_replay
ticks-shows zero p {i = i} {s = s} h e =
    let z : p.next_pos + 0 ≡ p.next_pos = omega arith in
    let found = subst (λ k. get_elem? (significant p.cluster.history) k ≡ some (i, s)) z e in
    subst
      (λ q.
        (q.playing ≡ true)
        × (q.next_pos ≡ suc (p.next_pos + 0))
        × (current_snap q.cluster ≡ some s))
      (sym (tick_at p (some (i, s)) h found))
      (h, omega arith, significant-place p.cluster.history p.next_pos found)
ticks-shows (suc n) p {i = i} {s = s} h e =
    let first = earlier (significant p.cluster.history) p.next_pos (suc n) {x = (i, s)} e in
    let q = advance_play true (some first.0) p in
    let z : p.next_pos + suc n ≡ suc p.next_pos + n = omega arith in
    let rest =
      ticks-shows n q {i = i} {s = s} h
        (subst (λ k. get_elem? (significant p.cluster.history) k ≡ some (i, s)) z e) in
    subst
      (λ r.
        ((ticks (suc n) r).playing ≡ true)
        × ((ticks (suc n) r).next_pos ≡ suc (p.next_pos + suc n))
        × (current_snap (ticks (suc n) r).cluster ≡ some s))
      (sym (tick_at p (some first.0) h first.1)) (rest.0, rest.1 ∙ ap suc (sym z), rest.2)

past_end : (xs : List (ℕ × ClusterSnapshot)) (k : ℕ) → length xs ≤ k → get_elem? xs k ≡ none
past_end [] k h = refl
past_end (x ∷ xs) zero h = absurd (omega arith)
past_end (x ∷ xs) (suc k) h = past_end xs k (omega arith)

inside :
    (xs : List (ℕ × ClusterSnapshot)) (k : ℕ)
    → k < length xs
    → (x : ℕ × ClusterSnapshot) × (get_elem? xs k ≡ some x)
inside [] k h = absurd (omega arith)
inside (x ∷ xs) zero h = (x, refl)
inside (x ∷ xs) (suc k) h = inside xs k (omega arith)

ends_in :
    (n : ℕ) (p : Player)
    → p.playing ≡ true
    → n ≡ length (significant p.cluster.history) - p.next_pos
    → (ticks (suc n) p).playing ≡ false
unfolding ticks start_replay
ends_in zero p h e =
    subst (λ q. q.playing ≡ false)
      (sym
        (tick_at p none h (past_end (significant p.cluster.history) p.next_pos (omega (arith, e)))))
      refl
ends_in (suc n) p h e =
    let first = inside (significant p.cluster.history) p.next_pos (omega (arith, e)) in
    subst (λ q. (ticks (suc n) q).playing ≡ false) (sym (tick_at p (some first.0) h first.1))
      (ends_in n (advance_play true (some first.0) p) h (omega (arith, e)))

-- Playing ends by itself: over a history that no longer changes, as many ticks as there are places
-- left, and one more, stop it.
ticks_end :
    (p : Player)
    → p.playing ≡ true
    → (ticks (suc (length (significant p.cluster.history) - p.next_pos)) p).playing ≡ false
ticks_end p h = ends_in _ p h refl

current_snap-start_replay :
    (i : ℕ) (c : Cluster) → current_snap (start_replay i c) ≡ get_elem? c.history i
unfolding current_snap start_replay
current_snap-start_replay i c = refl

start_idx_last : (k n : ℕ) → suc k ≡ n → start_idx (some k) n ≡ 0
unfolding start_idx
start_idx_last k n e = ground arith

show_first :
    (c : Cluster) (k : ℕ) {x : ℕ × ClusterSnapshot}
    → k ≡ 0
    → get_elem? (significant c.history) 0 ≡ some x
    → show k c ≡ start_replay x.0 c
unfolding show
show_first c k {x = x} z e = rw (z, show) (rw (e, show) refl)

toggle_play-from :
    (p : Player)
    → p.playing ≡ false
    → (length (significant p.cluster.history) == 0) ≡ false
    → toggle_play p ≡ record p {
      cluster =
          show
            (start_idx (current_idx p.cluster) (length (significant p.cluster.history)))
            p.cluster;
      playing = true;
    }
unfolding toggle_play
toggle_play-from p h e = simp (h, e)

-- Play after the end of the history does not play it again: it shows the first significant
-- snapshot, and the next tick, at the place after the last one still, stops.
pub toggle_play_at_end :
    (p : Player) {k : ℕ} {x : ℕ × ClusterSnapshot}
    → p.playing ≡ false
    → p.next_pos ≡ length (significant p.cluster.history)
    → get_elem? (significant p.cluster.history) 0 ≡ some x
    → current_idx p.cluster ≡ some k
    → suc k ≡ length (significant p.cluster.history)
    → ((toggle_play p).playing ≡ true)
      × (current_snap (toggle_play p).cluster ≡ some x.1)
      × ((play_tick (toggle_play p)).playing ≡ false)
      × (current_snap (play_tick (toggle_play p)).cluster ≡ some x.1)
unfolding start_replay current_snap
toggle_play_at_end p {k = k} {x = x} h pos first at last =
    let sig = significant p.cluster.history in
    let from : start_idx (current_idx p.cluster) (length sig) ≡ 0 =
      ap (λ o. start_idx o (length sig)) at ∙ start_idx_last k (length sig) last in
    let q : Player = record p { cluster = start_replay x.0 p.cluster; playing = true } in
    let e : toggle_play p ≡ q =
      toggle_play-from p h (ground arith)
      ∙ ap (λ c. record p { cluster = c; playing = true }) (show_first p.cluster _ from first) in
    let stopped : play_tick q ≡ record q { playing = false } =
      tick_at q none refl (past_end sig p.next_pos (omega (arith, pos))) in
    let found = significant-place p.cluster.history 0 first in
    subst
      (λ r.
        (r.playing ≡ true)
        × (current_snap r.cluster ≡ some x.1)
        × ((play_tick r).playing ≡ false)
        × (current_snap (play_tick r).cluster ≡ some x.1))
      (sym e)
      (refl, found, ap (λ r. r.playing) stopped, ap (λ r. current_snap r.cluster) stopped ∙ found)
