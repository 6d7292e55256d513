-- ===== src/JsMap.antt =====
-- The `Map` and `Set` of the language as the source uses them: in insertion order, a `set` of a
-- key that is there keeps its place, and a `delete` forgets it.
pub mod Filter
use lsmkv_enterprise.Common.{
  ◌≡◌, refl, ◌≢◌, inl, inr, Option, none, some, List, [], ◌∷◌, map, arith, Eq, ◌==◌, beq_refl,
  if◌then◌else◌, Bool-cases, All, subst, sym, ℕ, nat_eq,
}

abbrev pub JsMap {ℓ κ} : Type ℓ → Type κ → Type (ℓ ⊔ κ)
JsMap K V = List (K × V)

module _ {ℓ κ} {K : Type ℓ} {V : Type κ} where
  -- `Array.from(m.values())`.
  abbrev pub values : JsMap K V → List V
  values m = map (λ e. e.1) m

  abbrev pub keys : JsMap K V → List K
  keys m = map (λ e. e.0) m

module _ {ℓ κ} {K : Type ℓ} {V : Type κ} ⦃e : Eq K⦄ where
  unfoldable pub get : K → JsMap K V → Option V
  get k [] = none
  get k ((j, v) ∷ m) = if j == k then some v else get k m

  unfoldable pub set : K → V → JsMap K V → JsMap K V
  set k v [] = (k, v) ∷ []
  set k v ((j, w) ∷ m) = if j == k then (j, v) ∷ m else (j, w) ∷ set k v m

  unfoldable pub delete : K → JsMap K V → JsMap K V
  delete k [] = []
  delete k ((j, w) ∷ m) = if j == k then m else (j, w) ∷ delete k m

  pub get-set_self : (k : K) (v : V) (m : JsMap K V) → get k (set k v m) ≡ some v
  unfolding get set
  get-set_self k v [] = ground (arith, beq_refl k)
  get-set_self k v ((j, w) ∷ m) = ground (arith, get-set_self k v m)

  pub get-set :
      (k q : K) (v : V) (m : JsMap K V) → get q (set k v m) ≡ (if k == q then some v else get q m)
  unfolding get set
  get-set k q v [] = refl
  get-set k q v ((j, w) ∷ m) =
      ground (arith, e.same_iff j k, e.same_iff j q, e.same_iff k q, get-set k q v m)

  pub get-set_ne : (k q : K) (v : V) (m : JsMap K V) → k ≢ q → get q (set k v m) ≡ get q m
  get-set_ne k q v m h = ground (arith, get-set k q v m, e.same_iff k q)

  pub get-delete_ne : (k q : K) (m : JsMap K V) → k ≢ q → get q (delete k m) ≡ get q m
  unfolding get delete
  get-delete_ne k q [] h = refl
  get-delete_ne k q ((j, w) ∷ m) h =
      ground (arith, e.same_iff j k, e.same_iff j q, get-delete_ne k q m)

  get_nil : (k : K) → get k [] ≡ none
  unfolding get
  get_nil k = refl

  -- No key stands twice.
  abbrev pub Distinct : JsMap K V → Type κ
  Distinct [] = Unit
  Distinct ((k, v) ∷ m) = (get k m ≡ none) × Distinct m

  pub set-Distinct : (k : K) (v : V) (m : JsMap K V) → Distinct m → Distinct (set k v m)
  unfolding set
  set-Distinct k v [] d = (get_nil k, tt)
  set-Distinct k v ((j, w) ∷ m) d = elim (Bool-cases (j == k)) [
    | inl hit ↦ rw hit d
    | inr miss ↦
        rw miss
          (ground (arith, get-set k j v m, e.same_iff j k, e.same_iff k j), set-Distinct k v m d.1)
  ]

  get-delete-none : (k q : K) (m : JsMap K V) → get q m ≡ none → get q (delete k m) ≡ none
  unfolding get delete
  get-delete-none k q [] h = refl
  get-delete-none k q ((j, w) ∷ m) h = ground (arith, get-delete-none k q m)

  pub delete-Distinct : (k : K) (m : JsMap K V) → Distinct m → Distinct (delete k m)
  unfolding delete
  delete-Distinct k [] d = tt
  delete-Distinct k ((j, w) ∷ m) d = elim (Bool-cases (j == k)) [
    | inl hit ↦ rw hit d.1
    | inr miss ↦ rw miss (get-delete-none k j m d.0, delete-Distinct k m d.1)
  ]

  pub get-delete_self : (k : K) (m : JsMap K V) → Distinct m → get k (delete k m) ≡ none
  unfolding get delete
  get-delete_self k [] d = refl
  get-delete_self k ((j, w) ∷ m) d = ground (arith, e.same_iff j k, get-delete_self k m)

  -- What holds of every entry, and of the entry that is put in, holds after `set`.
  pub All-set {μ} :
      (P : K × V → Type μ) (k : K) (v : V) (m : JsMap K V) → P (k, v) → All P m → All P (set k v m)
  unfolding set
  All-set P k v [] p h = (p, tt)
  All-set P k v ((j, w) ∷ m) p h = elim (Bool-cases (j == k)) [
    | inl hit ↦ rw hit (subst (λ i. P (i, v)) (sym ((e.same_iff j k).0 hit)) p, h.1)
    | inr miss ↦ rw miss (h.0, All-set P k v m p h.1)
  ]

  pub All-delete {μ} : (P : K × V → Type μ) (k : K) (m : JsMap K V) → All P m → All P (delete k m)
  unfolding delete
  All-delete P k [] h = tt
  All-delete P k ((j, w) ∷ m) h = elim (Bool-cases (j == k)) [
    | inl hit ↦ rw hit h.1
    | inr miss ↦ rw miss (h.0, All-delete P k m h.1)
  ]

  pub All-get {μ} :
      (P : K × V → Type μ) (k : K) (v : V) (m : JsMap K V) → All P m → get k m ≡ some v → P (k, v)
  unfolding get
  All-get P k v [] h g = absurd (ground arith)
  All-get P k v ((j, w) ∷ m) h g = elim (Bool-cases (j == k)) [
    | inl hit ↦
        subst (λ i. P (i, v)) ((e.same_iff j k).0 hit) (subst (λ u. P (j, u)) (ground arith) h.0)
    | inr miss ↦ All-get P k v m h.1 (ground arith)
  ]

-- A `Set` of listeners, by their identities.
abbrev pub JsSet : Type 0
JsSet = List ℕ

unfoldable pub add : ℕ → JsSet → JsSet
add x [] = x ∷ []
add x (y ∷ ys) = if y == x then y ∷ ys else y ∷ add x ys

unfoldable pub remove : ℕ → JsSet → JsSet
remove x [] = []
remove x (y ∷ ys) = if y == x then ys else y ∷ remove x ys
