-- ===== src/LogGenerator/Templates.antt =====
-- useLogGenerator.ts: the templates that can be picked.
use lsmkv_enterprise.Common.{
  ℕ, ◌<◌, ◌≡◌, refl, true, false, Bool, some, List, [], ◌∷◌, arith, filter, length, get_elem?,
  Bool-cases, inl, inr, All, All-filter, All-map, zero, suc,
}
use lsmkv_enterprise.LogGenerator.{
  Template, templates, for_load, load_templates, has_level, level_of, pool_of, or_pool,
  pick_template,
}

-- An index in range finds an element that has what all have.
All-get_elem? :
    (P : Template → Type 0) (ts : List Template) (i : ℕ)
    → i < length ts
    → All P ts
    → (t : Template) × (get_elem? ts i ≡ some t) × P t
All-get_elem? P [] i b h = absurd (ground arith)
All-get_elem? P (t ∷ ts) zero b h = (t, refl, h.0)
All-get_elem? P (t ∷ ts) (suc i) b h = All-get_elem? P ts i (ground arith) h.1

or_pool-All :
    (P : Template → Type 0) (ts pool : List Template)
    → All P ts
    → All P pool
    → All P (or_pool ts pool)
or_pool-All P [] pool h k = k
or_pool-All P (t ∷ ts) pool h k = h

or_pool-positive : (ts pool : List Template) → 0 < length pool → 0 < length (or_pool ts pool)
or_pool-positive [] pool b = b
or_pool-positive (t ∷ ts) pool b = ground arith

filter-holds : (p : Template → Bool) (ts : List Template) → All (λ t. p t ≡ true) (filter p ts)
filter-holds p [] = tt
filter-holds p (t ∷ ts) = elim (Bool-cases (p t)) [
  | inl e ↦ rw e (e, filter-holds p ts)
  | inr e ↦ rw e (filter-holds p ts)
]

-- What all of a pool has, the picked template has.
picked :
    (P : Template → Type 0) (p : Template → Bool) (pool : List Template) (draw : ℕ → ℕ)
    → ((n : ℕ) → 0 < n → draw n < n)
    → 0 < length pool
    → All P pool
    → (t : Template) × (get_elem?
          (or_pool (filter p pool) pool)
          (draw (length (or_pool (filter p pool) pool)))
        ≡ some t)
      × P t
picked P p pool draw d b h =
    All-get_elem? P (or_pool (filter p pool) pool) _ (d _ (or_pool-positive (filter p pool) pool b))
      (or_pool-All P (filter p pool) pool (All-filter P p pool h) h)

pool_of-positive : (load_running : Bool) → 0 < length (pool_of load_running)
unfolding pool_of templates load_templates
pool_of-positive true = omega arith
pool_of-positive false = omega arith

anything : (ts : List Template) → All (λ t. false ≡ true → for_load t ≡ true) ts
anything [] = tt
anything (t ∷ ts) = ((λ e. absurd (ground arith)), anything ts)

pool_of-for_load :
    (load_running : Bool)
    → All (λ t. load_running ≡ true → for_load t ≡ true) (pool_of load_running)
unfolding pool_of load_templates
pool_of-for_load true = All-map (λ t k _. k) _ (filter-holds for_load templates)
pool_of-for_load false = anything templates

-- Whatever is drawn, a template is picked; while a load runs it is one about the WAL or the storage.
pub pick_template-for_load :
    (load_running : Bool) (percent : ℕ) (draw : ℕ → ℕ)
    → ((n : ℕ) → 0 < n → draw n < n)
    → (t : Template) × (pick_template load_running percent draw ≡ some t)
      × (load_running ≡ true → for_load t ≡ true)
unfolding pick_template
pick_template-for_load load_running percent draw d =
    picked (λ t. load_running ≡ true → for_load t ≡ true) (has_level (level_of percent))
      (pool_of load_running) draw d (pool_of-positive load_running) (pool_of-for_load load_running)
