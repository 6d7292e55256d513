-- ===== src/Widgets/ReadPath/Search.antt =====
-- ReadPathAnimator.tsx: how a search ends.
use lsmkv_enterprise.Common.{
  ℕ, zero, suc, ◌+◌, ◌-◌, ◌<◌, ◌≡◌, refl, sym, ap, ◌∙◌, subst, Bool, true, false, some, List, [],
  ◌∷◌, ◌++◌, arith, Text, trim, ◌==◌, nat_eq, if◌then◌else◌,
}
use lsmkv_enterprise.Widgets.ReadPath.{
  PathView, not_found, search_or, searching, run_animation, shown_count, level_timers, concluded,
  fire_path, fire_paths, bloom_checks, bloom_answers,
}

last_level :
    (b l : Bool) (idx : ℕ) (v : PathView)
    → b ≡ false
    → l ≡ true
    → (concluded b l idx v).found_at ≡ some not_found
last_level true l idx v h k = absurd (ground arith)
last_level false true idx v h k = refl
last_level false false idx v h k = absurd (ground arith)

ends_not_found :
    (hit_level total idx count : ℕ) (latency : ℕ → ℕ) (v : PathView)
    → idx + suc count ≡ total
    → suc hit_level < total
    → (fire_paths (level_timers hit_level total idx latency (suc count)) v).found_at
      ≡ some not_found
unfolding level_timers fire_paths fire_path
ends_not_found hit_level total idx zero latency v e h =
    last_level (idx == hit_level) (suc idx == total) idx _ (ground arith) (ground arith)
ends_not_found hit_level total idx (suc count) latency v e h =
    ends_not_found hit_level total (suc idx) count latency _ (omega (arith, e)) h

begins :
    (levels : List ℕ) (hit_level bloom_latency : ℕ) (latency : ℕ → ℕ) (v : PathView) {c : ℕ}
    {key : Text}
    → trim v.key_input ≡ c ∷ key
    → v.running ≡ false
    → run_animation levels hit_level bloom_latency latency v
      ≡ searching levels hit_level bloom_latency latency v
unfolding run_animation
begins levels hit_level bloom_latency latency v e r =
    let w = searching levels hit_level bloom_latency latency v in
    ap (λ t. search_or t v w) e ∙ ap (λ b. if b then v else w) r

searched :
    (levels : List ℕ) (hit_level bloom_latency : ℕ) (latency : ℕ → ℕ) (v w : PathView) (n : ℕ)
    → shown_count levels ≡ suc n
    → suc hit_level < shown_count levels
    → (fire_paths
        (bloom_checks
          ∷ bloom_answers bloom_latency
          ∷ level_timers hit_level (shown_count levels) 0 latency (shown_count levels))
        w).found_at
      ≡ some not_found
unfolding fire_paths fire_path
searched levels hit_level bloom_latency latency v w n e h =
    let u = fire_path (bloom_answers bloom_latency) (fire_path bloom_checks w) in
    subst
      (λ k.
        (fire_paths (level_timers hit_level (shown_count levels) 0 latency k) u).found_at
        ≡ some not_found)
      (sym e) (ends_not_found hit_level (shown_count levels) 0 n latency u (omega (arith, e)) h)

-- A key that is found is reported as missing in the end: a search that hits a level above the last
-- one shown goes on with the other levels, and the answer of the last one says "not found".
pub run_animation-loses :
    (levels : List ℕ) (hit_level bloom_latency : ℕ) (latency : ℕ → ℕ) (v : PathView) {c : ℕ}
    {key : Text}
    → trim v.key_input ≡ c ∷ key
    → v.running ≡ false
    → v.timers ≡ []
    → suc hit_level < shown_count levels
    → (let w = run_animation levels hit_level bloom_latency latency v in
        (fire_paths w.timers w).found_at ≡ some not_found)
run_animation-loses levels hit_level bloom_latency latency v e r t h =
    let w = searching levels hit_level bloom_latency latency v in
    let n = shown_count levels - 1 in
    let whole : shown_count levels ≡ suc n = omega (arith, h) in
    let ts =
      bloom_checks
      ∷ bloom_answers bloom_latency
      ∷ level_timers hit_level (shown_count levels) 0 latency (shown_count levels) in
    subst (λ x. (fire_paths x.timers x).found_at ≡ some not_found)
      (sym (begins levels hit_level bloom_latency latency v e r))
      (subst (λ old. (fire_paths (old ++ ts) w).found_at ≡ some not_found) (sym t)
        (searched levels hit_level bloom_latency latency v w n whole h))
