-- ===== src/Operations/Purge.antt =====
-- The purge timer of operationsStore.ts: which operations it forgets.
use mathlib.Core.List.{append_assoc}
use lsmkv_enterprise.Common.{
  ℕ, ◌≡◌, refl, sym, ◌∙◌, subst, Bool, true, false, not, [], ◌∷◌, ◌++◌, arith, Text, text_eq,
  Bool-cases, inl, inr, filter,
}
use lsmkv_enterprise.JsMap.{JsMap, Distinct, delete-Distinct, values}
use lsmkv_enterprise.JsMap.Filter.{delete_after, get-filter, only}
use lsmkv_enterprise.Operations.{Operation, Store, get, is_running_op}
use lsmkv_enterprise.Operations.Session.{is_stale, purge_entries, purge}

abbrev pub is_fresh : ℕ → Text × Operation → Bool
is_fresh now e = not (is_stale now e.1)

-- The loop at `entries`, with `pre` kept so far.
purge_entries-filter :
    (now : ℕ) (pre entries : JsMap Text Operation) (changed : Bool)
    → Distinct (pre ++ entries)
    → (purge_entries now entries (pre ++ entries, changed)).0 ≡ pre ++ filter (is_fresh now) entries
unfolding purge_entries
purge_entries-filter now pre [] changed d = refl
purge_entries-filter now pre ((id, op) ∷ entries) changed d = elim (Bool-cases (is_stale now op)) [
  | inl stale ↦
      rw (stale, delete_after pre id op entries d, purge_entries)
        (purge_entries-filter now pre entries true
          (subst Distinct (delete_after pre id op entries d) (delete-Distinct id _ d)))
  | inr fresh ↦
      rw (fresh, purge_entries)
        (later fresh (purge_entries-filter now (pre ++ (id, op) ∷ []) entries changed))
]
  where
    joined : (pre ++ (id, op) ∷ []) ++ entries ≡ pre ++ (id, op) ∷ entries
    joined = append_assoc pre ((id, op) ∷ []) entries

    later :
        is_stale now op ≡ false
        → (Distinct ((pre ++ (id, op) ∷ []) ++ entries)
            → (purge_entries now entries ((pre ++ (id, op) ∷ []) ++ entries, changed)).0
              ≡ (pre ++ (id, op) ∷ []) ++ filter (is_fresh now) entries)
        → (purge_entries now entries (pre ++ (id, op) ∷ entries, changed)).0
          ≡ pre ++ (id, op) ∷ filter (is_fresh now) entries
    later fresh ih =
        subst
          (λ m.
            (purge_entries now entries (m, changed)).0
            ≡ pre ++ (id, op) ∷ filter (is_fresh now) entries)
          joined
          (ih (subst Distinct (sym joined) d)
            ∙ append_assoc pre ((id, op) ∷ []) (filter (is_fresh now) entries))

pub purge-ops :
    (now : ℕ) (s : Store) → Distinct s.ops → (purge now s).ops ≡ filter (is_fresh now) s.ops
unfolding purge
purge-ops now s d = ground (arith, purge_entries-filter now [] s.ops false d)

-- A purge forgets the operations that are stale, and keeps every other with its state: an
-- operation is found afterwards exactly when it was there and is not stale.
pub get-purge :
    (now : ℕ) (s : Store) (id : Text)
    → Distinct s.ops
    → get id (purge now s) ≡ only (λ op. not (is_stale now op)) (get id s)
get-purge now s id d = rw (purge-ops now s d) (get-filter (λ op. not (is_stale now op)) id s.ops d)

-- What is running is not stale.
running-fresh : (now : ℕ) (op : Operation) → is_running_op op ≡ true → is_stale now op ≡ false
unfolding is_stale
running-fresh now op h = ground arith

pub filter-purge :
    (now : ℕ) (m : JsMap Text Operation)
    → filter is_running_op (values (filter (is_fresh now) m)) ≡ filter is_running_op (values m)
filter-purge now [] = refl
filter-purge now ((id, op) ∷ m) = ground (arith, filter-purge now m, running-fresh now op)
