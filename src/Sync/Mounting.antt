-- ===== src/Sync/Mounting.antt =====
-- syncEngine.ts: the registry that `triggerRefresh` goes through.
use lsmkv_enterprise.Common.{ℕ, ◌≡◌, ◌≢◌, refl, ap, List, [], ◌∷◌, ◌++◌, arith, nat_eq, All, true}
use lsmkv_enterprise.JsMap
use lsmkv_enterprise.Sync.{Engine, Registry, mount, unmount, unregister, trigger_refresh, run_all}

abbrev pub IsOther : ℕ → Engine → Type 0
IsOther id e = e.id ≢ id

unregister-last :
    (id : ℕ) (es : List Engine) (e : Engine)
    → e.id ≡ id
    → All (IsOther id) es
    → unregister id (es ++ e ∷ []) ≡ es
unfolding unregister
unregister-last id [] e i h = ground arith
unregister-last id (x ∷ xs) e i h = ground (arith, unregister-last id xs e i h.1, h.0)

remove-last : (id : ℕ) (xs : List ℕ) → All (λ x. x ≢ id) xs → JsMap.remove id (xs ++ id ∷ []) ≡ xs
unfolding JsMap.remove
remove-last id [] h = ground arith
remove-last id (x ∷ xs) h = ground (arith, remove-last id xs h.1, h.0)

-- A layout that is mounted and unmounted again leaves the registry and the intervals as they were,
-- but for its first round; `triggerRefresh` then starts the rounds of the other layouts only.
unmount-mount :
    (id : ℕ) (g : Registry)
    → All (IsOther id) g.refreshers
    → All (λ x. x ≢ id) g.intervals
    → let after = unmount id (mount id g) in
      (after.refreshers ≡ g.refreshers)
      × (after.intervals ≡ g.intervals)
      × ((trigger_refresh after).refreshes ≡ run_all g.refreshers (g.refreshes ++ id ∷ []))
unfolding mount unmount trigger_refresh
unmount-mount id g h k =
    let e = unregister-last id g.refreshers (record { id = id; mounted = true }) refl h in
    (e, remove-last id g.intervals k, ap (λ es. run_all es (g.refreshes ++ id ∷ [])) e)
