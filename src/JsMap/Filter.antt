-- ===== src/JsMap/Filter.antt =====
-- Entries dropped by a test: what a loop that deletes them one by one comes to.
use lsmkv_enterprise.Common.{
  ◌≡◌, refl, ap, Bool, false, Option, none, some, [], ◌∷◌, ◌++◌, arith, Eq, ◌==◌, if◌then◌else◌,
  Bool-cases, inl, inr, filter,
}
use lsmkv_enterprise.JsMap.{JsMap, get, set, delete, Distinct}

abbrev pub only {κ} : {V : Type κ} → (V → Bool) → Option V → Option V
only p none = none
only p (some v) = if p v then some v else none

module _ {ℓ κ} {K : Type ℓ} {V : Type κ} ⦃e : Eq K⦄ where
  get-filter-none :
      (p : K × V → Bool) (k : K) (m : JsMap K V) → get k m ≡ none → get k (filter p m) ≡ none
  unfolding get
  get-filter-none p k [] h = refl
  get-filter-none p k ((j, w) ∷ m) h = ground (arith, get-filter-none p k m)

  pub filter-Distinct : (p : K × V → Bool) (m : JsMap K V) → Distinct m → Distinct (filter p m)
  filter-Distinct p [] d = tt
  filter-Distinct p ((j, w) ∷ m) d = elim (Bool-cases (p (j, w))) [
    | inl keep ↦ rw keep (get-filter-none p j m d.0, filter-Distinct p m d.1)
    | inr drop ↦ rw drop (filter-Distinct p m d.1)
  ]

  -- A key is kept with its value or not at all.
  pub get-filter :
      (p : V → Bool) (k : K) (m : JsMap K V)
      → Distinct m
      → get k (filter (λ (x : K × V). p x.1) m) ≡ only p (get k m)
  unfolding get
  get-filter p k [] d = refl
  get-filter p k ((j, w) ∷ m) d =
      ground
        (arith, e.same_iff j k, get-filter p k m, get-filter-none (λ (x : K × V). p x.1) j m d.0)

  get_append_none :
      (pre : JsMap K V) (j k : K) (v : V) (m : JsMap K V)
      → get j (pre ++ (k, v) ∷ m) ≡ none
      → (j == k) ≡ false
  unfolding get
  get_append_none [] j k v m h = ground (arith, e.same_iff j k, e.same_iff k j)
  get_append_none ((i, w) ∷ pre) j k v m h = ground (arith, get_append_none pre j k v m)

  pub delete_after :
      (pre : JsMap K V) (k : K) (v : V) (m : JsMap K V)
      → Distinct (pre ++ (k, v) ∷ m)
      → delete k (pre ++ (k, v) ∷ m) ≡ pre ++ m
  unfolding delete
  delete_after [] k v m d = ground (arith, e.same_iff k k)
  delete_after ((j, w) ∷ pre) k v m d =
      rw (get_append_none pre j k v m d.0) (ap (◌∷◌ (j, w)) (delete_after pre k v m d.1))

  pub set_absent : (k : K) (v : V) (m : JsMap K V) → get k m ≡ none → set k v m ≡ m ++ (k, v) ∷ []
  unfolding get set
  set_absent k v [] h = refl
  set_absent k v ((j, w) ∷ m) h = ground (arith, set_absent k v m)

  pub get-prefix :
      (pre : JsMap K V) (k : K) (v : V) (m : JsMap K V)
      → Distinct (pre ++ (k, v) ∷ m)
      → get k pre ≡ none
  unfolding get
  get-prefix [] k v m d = refl
  get-prefix ((j, w) ∷ pre) k v m d =
      ground (arith, get_append_none pre j k v m d.0, get-prefix pre k v m d.1)
