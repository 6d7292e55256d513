-- ===== src/Screens/Rebalance/Progress.antt =====
-- Rebalancing.tsx: a rebalance ends, its tokens are few, and the time that is left.
use lsmkv_enterprise.Common.{
  ℕ, zero, suc, ◌+◌, ◌*◌, ◌/◌, ◌%◌, ◌≤◌, ◌<◌, ◌≡◌, ◌≢◌, refl, sym, ap, ◌∙◌, subst, min, max, true,
  false, Option, none, some, List, [], ◌∷◌, ◌++◌, text, decimal, leb, ltb, if◌then◌else◌, ◌==◌,
  nat_eq, length, get_elem?, map, slice_last, arith, All, Bool-cases, inl, inr, length-append,
  length-slice_last, length-filter-le, length-map,
}
use lsmkv_enterprise.Failure.{NodeRuntimeState}
use lsmkv_enterprise.Screens.Rebalance.{
  RebalancePage, RebalanceState, fmt_secs, start_rebalance, spawned, move, alive_ids, pick_to,
  spawn_tick, anim_tick, count_tick, is_done,
}

-- Ticks of the counter, each with its draw and its speed.
unfoldable pub count_ticks : List (ℕ × ℕ) → RebalancePage → RebalancePage
count_ticks [] p = p
count_ticks ((draw, kps) ∷ ticks) p = count_ticks ticks (count_tick draw kps p)

-- The last tick of a count, and any other.
abbrev finished : ℕ → RebalancePage → RebalancePage
finished kps p =
    let s : RebalanceState = p.state in
    record p {
      state = record s { moved_keys = s.total_keys; keys_per_sec = kps; running = false };
      intervals = false;
    }

abbrev counted : ℕ → ℕ → RebalancePage → RebalancePage
counted draw kps p =
    let s : RebalanceState = p.state in
    record p {
      state = record s {
        moved_keys = min (s.moved_keys + draw + 1) s.total_keys;
        keys_per_sec = kps;
      };
    }

count_tick-last :
    (draw kps : ℕ) (p : RebalancePage)
    → p.state.running ≡ true
    → leb p.state.total_keys (min (p.state.moved_keys + draw + 1) p.state.total_keys) ≡ true
    → count_tick draw kps p ≡ finished kps p
unfolding count_tick
count_tick-last draw kps p h e = simp (h, e)

count_tick-more :
    (draw kps : ℕ) (p : RebalancePage)
    → p.state.running ≡ true
    → leb p.state.total_keys (min (p.state.moved_keys + draw + 1) p.state.total_keys) ≡ false
    → count_tick draw kps p ≡ counted draw kps p
unfolding count_tick
count_tick-more draw kps p h e = simp (h, e)

stopped-count_ticks :
    (ticks : List (ℕ × ℕ)) (p : RebalancePage) → p.state.running ≡ false → count_ticks ticks p ≡ p
unfolding count_ticks count_tick
stopped-count_ticks [] p h = refl
stopped-count_ticks ((draw, kps) ∷ ticks) p h =
    let e : count_tick draw kps p ≡ p = simp h in
    ap (count_ticks ticks) e ∙ stopped-count_ticks ticks p h

-- The end of a count, as the page shows it.
abbrev pub HasEnded : ℕ → RebalancePage → Type 0
HasEnded total p =
    (p.state.running ≡ false)
    × (p.state.moved_keys ≡ total)
    × (p.state.total_keys ≡ total)
    × (p.intervals ≡ false)

count_ticks-end :
    (ticks : List (ℕ × ℕ)) (p : RebalancePage)
    → p.state.running ≡ true
    → p.state.moved_keys < p.state.total_keys
    → p.state.total_keys ≤ p.state.moved_keys + length ticks
    → HasEnded p.state.total_keys (count_ticks ticks p)
unfolding count_ticks count_tick
count_ticks-end [] p h lt le = absurd (omega arith)
count_ticks-end ((draw, kps) ∷ ticks) p h lt le =
    elim (Bool-cases
      (leb p.state.total_keys (min (p.state.moved_keys + draw + 1) p.state.total_keys))) [
        | inl e ↦
            subst (λ q. HasEnded p.state.total_keys (count_ticks ticks q))
              (sym (count_tick-last draw kps p h e))
              (subst (HasEnded p.state.total_keys)
                (sym (stopped-count_ticks ticks (finished kps p) refl)) (refl, refl, refl, refl))
        | inr e ↦
            subst (λ q. HasEnded p.state.total_keys (count_ticks ticks q))
              (sym (count_tick-more draw kps p h e))
              (count_ticks-end ticks (counted draw kps p) h (ground arith) (omega arith))
      ]

abbrev begun : ℕ → RebalancePage → RebalancePage
begun now p = record p {
  state = record {
    running = true;
    total_keys = max 20 p.real_key_count;
    moved_keys = 0;
    start_time = some now;
    keys_per_sec = 0;
  };
  tokens = [];
  intervals = true;
}

begins :
    (total_nodes now : ℕ) (p : RebalancePage)
    → 2 ≤ total_nodes
    → start_rebalance total_nodes now p ≡ begun now p
unfolding start_rebalance
begins total_nodes now p two = let e : leb total_nodes 1 ≡ false = ground arith in simp e

HasEnded-is_done : (n : ℕ) (q : RebalancePage) → HasEnded (max 20 n) q → is_done q ≡ true
unfolding is_done
HasEnded-is_done n q (off, moved, total, cleared) = ground arith

-- A rebalance ends: from its start on a cluster of two nodes or more, as many ticks of the counter
-- as there are keys, whatever their draws, stop it with all keys moved and the intervals cleared.
pub start_rebalance-ends :
    (total_nodes now : ℕ) (p : RebalancePage) (ticks : List (ℕ × ℕ))
    → 2 ≤ total_nodes
    → max 20 p.real_key_count ≤ length ticks
    → let q = count_ticks ticks (start_rebalance total_nodes now p) in
      HasEnded (max 20 p.real_key_count) q × (is_done q ≡ true)
start_rebalance-ends total_nodes now p ticks two enough =
    let e = begins total_nodes now p two in
    let ended =
      subst (λ q. HasEnded (max 20 p.real_key_count) (count_ticks ticks q)) (sym e)
        (count_ticks-end ticks (begun now p) refl (omega arith) (omega (arith, enough))) in
    (ended, HasEnded-is_done p.real_key_count _ ended)

spawned-few :
    (from key_number : ℕ) (o : Option ℕ) (p : RebalancePage) {q : RebalancePage}
    → spawned from key_number p.next_id o p ≡ some q
    → length q.tokens ≤ 13
spawned-few from key_number none p e = absurd (ground arith)
spawned-few from key_number (some to) p e =
    subst (λ o. length (elim o [ none ↦ [] | some r ↦ r.tokens ]) ≤ 13) e
      (omega
        (arith, length-append (slice_last 12 p.tokens) (_ ∷ []), length-slice_last 12 p.tokens))

-- No spawning adds to more than 13 tokens, and no other tick adds any.
spawn_tick-few :
    (from key_number : ℕ) (draws : List ℕ) (nodes : List NodeRuntimeState) (p : RebalancePage)
    {q : RebalancePage}
    → length p.tokens ≤ 13
    → spawn_tick from key_number draws nodes p ≡ some q
    → length q.tokens ≤ 13
unfolding spawn_tick
spawn_tick-few from key_number draws nodes p {q = q} few e =
    elim (Bool-cases (leb (length (alive_ids nodes)) 1)) [
      | inl c ↦
          subst (λ o. length (elim o [ none ↦ [] | some r ↦ r.tokens ]) ≤ 13)
            (sym (
                ap
                  (λ b.
                    if b
                    then some p
                    else spawned from key_number p.next_id (pick_to from (alive_ids nodes) draws) p)
                  c)
              ∙ e)
            few
      | inr c ↦ spawned-few from key_number (pick_to from (alive_ids nodes) draws) p {q = q} (
          sym (
            ap
              (λ b.
                if b
                then some p
                else spawned from key_number p.next_id (pick_to from (alive_ids nodes) draws) p)
              c)
          ∙ e)
    ]

anim_tick-few : (p : RebalancePage) → length (anim_tick p).tokens ≤ length p.tokens
unfolding anim_tick
anim_tick-few p =
    omega (
      arith,
      length-filter-le (λ t. leb t.progress 41) (map move p.tokens),
      length-map move p.tokens,
    )

in_list : (xs : List ℕ) (k : ℕ) → k < length xs → (x : ℕ) × (get_elem? xs k ≡ some x)
in_list [] k h = absurd (omega arith)
in_list (x ∷ xs) zero h = (x, refl)
in_list (x ∷ xs) (suc k) h = in_list xs k (omega arith)

abbrev pub IsTarget : ℕ → List ℕ → ℕ → Type 0
IsTarget from alive to = (to ≢ from) × ((i : ℕ) × (get_elem? alive i ≡ some to))

-- The draws of a target end with the first one that is not the source: with draws below the number
-- of living nodes, one of which is another node than the source, the target is a living node other
-- than the source.
pick_to-IsTarget :
    (from : ℕ) (alive draws : List ℕ) (k d : ℕ) {other : ℕ}
    → All (λ i. i < length alive) draws
    → get_elem? draws k ≡ some d
    → get_elem? alive d ≡ some other
    → other ≢ from
    → (to : ℕ) × (pick_to from alive draws ≡ some to) × IsTarget from alive to
unfolding pick_to
pick_to-IsTarget from alive [] k d inside e f ne = absurd (ground arith)
pick_to-IsTarget from alive (x ∷ draws) zero d {other = other} inside e f ne =
    let at : get_elem? alive x ≡ some other = ap (get_elem? alive) (ground arith) ∙ f in
    let c : (other == from) ≡ false = ground arith in
    rw (at, pick_to) (rw c (other, refl, (ne, (x, at))))
pick_to-IsTarget from alive (x ∷ draws) (suc k) d (lt, inside) e f ne =
    let (to, o) = in_list alive x lt in
    let rest = pick_to-IsTarget from alive draws k d inside e f ne in
    rw (o, pick_to)
      (elim (Bool-cases (to == from)) [
        | inl c ↦ rw c rest
        | inr c ↦ rw c (to, refl, (ground arith, (x, o)))
      ])

-- The time that is left is shown a minute too long: above 60 seconds, unless they are whole
-- minutes, the minutes and seconds of the text are those of 60 seconds more.
pub fmt_secs-late :
    (secs : ℕ)
    → 60 < secs
    → 0 < secs % 60
    → (m : ℕ) × (s : ℕ) × (fmt_secs secs ≡ decimal m ++ text "m " ++ decimal s ++ text "s")
      × (m * 60 + s ≡ secs + 60)
unfolding fmt_secs
fmt_secs-late secs h k =
    let e : ltb 60 secs ≡ true = ground arith in ((secs + 59) / 60, secs % 60, simp e, omega arith)
