-- ===== src/Screens/Overview/Shown.antt =====
-- Dashboard.tsx: the uptime, the status of the cluster and the results of the key operations.
use lsmkv_enterprise.Common.{
  ℕ, suc, ◌+◌, ◌*◌, ◌/◌, ◌%◌, ◌≤◌, ◌<◌, ◌≡◌, ◌≢◌, ◌↔◌, ◌⊎◌, inl, inr, refl, sym, ap, subst, true,
  false, none, List, [], ◌∷◌, ◌++◌, Text, text, decimal, arith, length, filter, length-filter-le,
  All,
}
use lsmkv_enterprise.Failure.{
  NodeState, healthy, suspect, unreachable, recovering, rebalancing, NodeRuntimeState,
}
use lsmkv_enterprise.Screens.Overview.{
  Overview, fmt_uptime, all_healthy, is_up, is_down, cluster_status, KeyAction, set_key, get_key,
  delete_key, KeyReply, replied, failed_with, may_start, key_begun, key_replied, push_event,
}

-- The uptime is shown exactly: the hours, minutes and seconds of its text add up to it, with fewer
-- than 60 minutes and 60 seconds.
fmt_uptime-exact :
    (s : ℕ)
    → (h : ℕ) × (m : ℕ) × (sec : ℕ) × (fmt_uptime s
        ≡ decimal h ++ text "h " ++ decimal m ++ text "m " ++ decimal sec ++ text "s")
      × (h * 3600 + m * 60 + sec ≡ s)
      × (m < 60)
      × (sec < 60)
unfolding fmt_uptime
fmt_uptime-exact s =
    (s / 3600, (s % 3600) / 60, s % 60, refl, omega arith, omega arith, omega arith)

up-cases : (st : NodeState) → (st ≡ healthy) ⊎ (st ≢ healthy)
up-cases healthy = inl refl
up-cases suspect = inr (ground arith)
up-cases unreachable = inr (ground arith)
up-cases recovering = inr (ground arith)
up-cases rebalancing = inr (ground arith)

is_up-healthy : (n : NodeRuntimeState) → n.state ≡ healthy → (is_up n ≡ true) × (is_down n ≡ false)
is_up-healthy n h = (ground arith, ground arith)

is_up-other : (n : NodeRuntimeState) → n.state ≢ healthy → is_up n ≡ false
is_up-other n h = other n.state h
  where
    other : (st : NodeState) → st ≢ healthy → (elim st [ healthy ↦ true | _ ↦ false ]) ≡ false
    other healthy h = absurd (h refl)
    other suspect h = refl
    other unreachable h = refl
    other recovering h = refl
    other rebalancing h = refl

-- All nodes are up exactly if as many are counted.
pub all-counted :
    (ns : List NodeRuntimeState)
    → All (λ n. n.state ≡ healthy) ns
    → (length (filter is_up ns) ≡ length ns) × (length (filter is_down ns) ≡ 0)
all-counted [] h = (refl, refl)
all-counted (n ∷ ns) (h, hs) =
    let (up, down) = is_up-healthy n h in
    let (a, b) = all-counted ns hs in (rw up (ap suc a), rw down b)

pub counted-all :
    (ns : List NodeRuntimeState)
    → length ns ≤ length (filter is_up ns)
    → All (λ n. n.state ≡ healthy) ns
counted-all [] h = tt
counted-all (n ∷ ns) h = elim (up-cases n.state) [
  | inl e ↦ (e, counted-all ns (fewer (is_up-healthy n e).0 h))
  | inr ne ↦ absurd (too_few (is_up-other n ne) h)
]
  where
    fewer :
        is_up n ≡ true
        → length (n ∷ ns) ≤ length (filter is_up (n ∷ ns))
        → length ns ≤ length (filter is_up ns)
    fewer e h = ground arith

    too_few : is_up n ≡ false → length (n ∷ ns) ≤ length (filter is_up (n ∷ ns)) → ⊥
    too_few e h = ground (arith, length-filter-le is_up ns)

-- The page calls the cluster healthy exactly if every node is HEALTHY.
pub cluster_status-healthy :
    (ns : List NodeRuntimeState)
    → (cluster_status ns ≡ all_healthy) ↔ All (λ n. n.state ≡ healthy) ns
unfolding cluster_status
cluster_status-healthy ns =
    (λ e. counted-all ns (ground arith), λ h. let (a, b) = all-counted ns h in ground arith)

-- What a key operation leaves: no longer loading, with either a result or an error.
abbrev pub IsSettled : Overview → Type 0
IsSettled p =
    (p.key_loading ≡ false)
    × (((p.key_result ≢ none) × (p.key_error ≡ none))
        ⊎ ((p.key_result ≡ none) × (p.key_error ≢ none)))

begun-clear :
    (a : KeyAction) (p : Overview)
    → may_start a p ≡ true
    → key_begun a p ≡ record p { key_loading = true; key_error = none; key_result = none }
unfolding key_begun
begun-clear a p h = simp h

replied-IsSettled :
    (time : Text) (a : KeyAction) (seen : Text) (r : KeyReply) (p : Overview)
    → p.key_result ≡ none
    → p.key_error ≡ none
    → IsSettled (key_replied time a seen r p)
unfolding key_replied push_event
replied-IsSettled time a seen (failed_with message) p h k = (refl, inr (h, λ e. ground arith))
replied-IsSettled time set_key seen (replied key value) p h k = (refl, inl (λ e. ground arith, k))
replied-IsSettled time get_key seen (replied key value) p h k = (refl, inl (λ e. ground arith, k))
replied-IsSettled time delete_key seen (replied key value) p h k =
    (refl, inl (λ e. ground arith, k))

-- Every reply to a key operation that started, an exception too, ends the loading, with either a
-- result or an error on the page and none of before.
key_replied-settles :
    (time : Text) (a : KeyAction) (r : KeyReply) (p : Overview)
    → may_start a p ≡ true
    → IsSettled (key_replied time a p.key_input r (key_begun a p))
key_replied-settles time a r p h =
    subst (λ q. IsSettled (key_replied time a p.key_input r q)) (sym (begun-clear a p h))
      (replied-IsSettled time a p.key_input r _ refl refl)
