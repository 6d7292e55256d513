-- ===== src/Widgets/Bloom/Answers.antt =====
-- BloomFilterViz.tsx: the filter has no false negatives, in any order of the callbacks.
use lsmkv_enterprise.Common.{
  ℕ, zero, suc, ◌<◌, ◌≡◌, refl, sym, ◌∙◌, ap, subst, Bool, true, Option, none, some, List, [], ◌∷◌,
  ◌++◌, arith, Text, text_eq, ◌==◌, length, get_elem?, All, All-append, All-map, Bool-cases, inl,
  inr, trim,
}
use lsmkv_enterprise.Widgets.Bloom.{
  hash_n, get_hashes, hit, Callback, commits, resolves, BloomView, all_clear, empty_view, set_bit,
  set_bits, or_nothing, is_set, all_set, includes, verdict_of, handle_set, handle_lookup,
  handle_reset, run_callback, without, BloomEvent, types, sets, looks_up, resets, switches, runs,
  bloom_step, bloom_run,
}

length-set_bit : (b : ℕ) (xs : List Bool) → length (set_bit b xs) ≡ length xs
unfolding set_bit
length-set_bit b [] = refl
length-set_bit zero (x ∷ xs) = refl
length-set_bit (suc b) (x ∷ xs) = ap suc (length-set_bit b xs)

length-set_bits : (bs : List ℕ) (xs : List Bool) → length (set_bits bs xs) ≡ length xs
unfolding set_bits
length-set_bits [] xs = refl
length-set_bits (b ∷ bs) xs = length-set_bits bs (set_bit b xs) ∙ length-set_bit b xs

is_set-set_bit_self : (b : ℕ) (xs : List Bool) → b < length xs → is_set (set_bit b xs) b ≡ true
unfolding is_set set_bit
is_set-set_bit_self b [] h = absurd (omega arith)
is_set-set_bit_self zero (x ∷ xs) h = refl
is_set-set_bit_self (suc b) (x ∷ xs) h = is_set-set_bit_self b xs (omega arith)

-- A bit that is set stays set.
is_set-set_bit : (b c : ℕ) (xs : List Bool) → is_set xs c ≡ true → is_set (set_bit b xs) c ≡ true
unfolding is_set set_bit
is_set-set_bit b c [] h = h
is_set-set_bit zero zero (x ∷ xs) h = refl
is_set-set_bit zero (suc c) (x ∷ xs) h = h
is_set-set_bit (suc b) zero (x ∷ xs) h = h
is_set-set_bit (suc b) (suc c) (x ∷ xs) h = is_set-set_bit b c xs h

is_set-set_bits :
    (bs : List ℕ) (c : ℕ) (xs : List Bool) → is_set xs c ≡ true → is_set (set_bits bs xs) c ≡ true
unfolding set_bits
is_set-set_bits [] c xs h = h
is_set-set_bits (b ∷ bs) c xs h = is_set-set_bits bs c (set_bit b xs) (is_set-set_bit b c xs h)

all_set-set_bits :
    (cs bs : List ℕ) (xs : List Bool) → all_set cs xs ≡ true → all_set cs (set_bits bs xs) ≡ true
unfolding all_set
all_set-set_bits [] bs xs h = refl
all_set-set_bits (c ∷ cs) bs xs h =
    ground (arith, is_set-set_bits bs c xs, all_set-set_bits cs bs xs)

all_set-set_bits_self :
    (bs : List ℕ) (xs : List Bool)
    → All (λ b. b < length xs) bs
    → all_set bs (set_bits bs xs) ≡ true
unfolding all_set set_bits
all_set-set_bits_self [] xs h = refl
all_set-set_bits_self (b ∷ bs) xs h =
    let first = is_set-set_bits bs b (set_bit b xs) (is_set-set_bit_self b xs h.0) in
    let rest =
      all_set-set_bits_self bs (set_bit b xs)
        (subst (λ n. All (λ c. c < n) bs) (sym (length-set_bit b xs)) h.1) in
    ground arith

get_hashes-lt : (key : Text) → All (λ b. b < 32) (get_hashes key)
unfolding get_hashes hash_n
get_hashes-lt key = (omega arith, (omega arith, (omega arith, tt)))

-- Every key that was inserted has its bits.
abbrev pub HasBits : List Bool → List Text → Type 0
HasBits bits keys = All (λ k. all_set (get_hashes k) bits ≡ true) keys

abbrev pub Answerable : Callback → Type 0
Answerable (commits key) = Unit {0}
Answerable (resolves key bits keys) = HasBits bits keys

pub record IsFaithful (v : BloomView) : Type 0 where
  pub full : length v.bits ≡ 32
  pub known : HasBits v.bits v.inserted_keys
  pub asked : All Answerable v.pending

length-all_clear : (n : ℕ) → length (all_clear n) ≡ n
unfolding all_clear
length-all_clear zero = refl
length-all_clear (suc n) = ap suc (length-all_clear n)

empty_view-IsFaithful : IsFaithful empty_view
unfolding empty_view
empty_view-IsFaithful = record { full = length-all_clear 32; known = tt; asked = tt }

set_bits-HasBits :
    (bs : List ℕ) (bits : List Bool) (keys : List Text)
    → HasBits bits keys
    → HasBits (set_bits bs bits) keys
set_bits-HasBits bs bits keys h = All-map (λ k e. all_set-set_bits (get_hashes k) bs bits e) keys h

run_callback-IsFaithful :
    (cb : Callback) (v : BloomView) → IsFaithful v → Answerable cb → IsFaithful (run_callback cb v)
unfolding run_callback
run_callback-IsFaithful (commits key) v f a =
    let fresh =
      all_set-set_bits_self (get_hashes key) v.bits
        (subst (λ n. All (λ c. c < n) (get_hashes key)) (sym f.full) (get_hashes-lt key)) in
    record {
      full = length-set_bits (get_hashes key) v.bits ∙ f.full;
      known =
          All-append _ v.inserted_keys (key ∷ [])
            (set_bits-HasBits (get_hashes key) v.bits v.inserted_keys f.known) (fresh, tt);
      asked = f.asked;
    }
run_callback-IsFaithful (resolves key bits keys) v f a = record {
  full = f.full;
  known = f.known;
  asked = f.asked;
}

without-All :
    (P : Callback → Type 0) (i : ℕ) (cbs : List Callback) → All P cbs → All P (without i cbs)
without-All P i [] h = h
without-All P zero (cb ∷ cbs) h = h.1
without-All P (suc i) (cb ∷ cbs) h = (h.0, without-All P i cbs h.1)

get_elem?-All :
    (P : Callback → Type 0) (i : ℕ) (cbs : List Callback) (cb : Callback)
    → All P cbs
    → get_elem? cbs i ≡ some cb
    → P cb
get_elem?-All P i [] cb h e = absurd (ground arith)
get_elem?-All P zero (x ∷ cbs) cb h e = subst P (ground arith) h.0
get_elem?-All P (suc i) (x ∷ cbs) cb h e = get_elem?-All P i cbs cb h.1 e

-- A click adds its callback, or changes nothing where the input is blank.
clicked-IsFaithful :
    (cb : Callback) (v : BloomView)
    → Answerable cb
    → IsFaithful v
    → IsFaithful (record v { result = none; key_input = []; pending = v.pending ++ cb ∷ [] })
clicked-IsFaithful cb v a f = record {
  full = f.full;
  known = f.known;
  asked = All-append Answerable v.pending _ f.asked (a, tt);
}

or_nothing-IsFaithful :
    (key : Text) (v w : BloomView) → IsFaithful v → IsFaithful w → IsFaithful (or_nothing key v w)
or_nothing-IsFaithful [] v w f g = f
or_nothing-IsFaithful (c ∷ key) v w f g = g

runs-IsFaithful :
    (i : ℕ) (v : BloomView)
    → IsFaithful v
    → (o : Option Callback) → get_elem? v.pending i ≡ o
    → IsFaithful (elim o [
      | none ↦ v
      | some cb ↦ run_callback cb (record v { pending = without i v.pending })
    ])
runs-IsFaithful i v f none e = f
runs-IsFaithful i v f (some cb) e =
    run_callback-IsFaithful cb _
      (record {
        full = f.full;
        known = f.known;
        asked = without-All Answerable i v.pending f.asked;
      })
      (get_elem?-All Answerable i v.pending cb f.asked e)

bloom_step-IsFaithful :
    (e : BloomEvent) (v : BloomView) → IsFaithful v → IsFaithful (bloom_step e v)
unfolding bloom_step handle_set handle_lookup handle_reset
bloom_step-IsFaithful (types key) v f = record { full = f.full; known = f.known; asked = f.asked }
bloom_step-IsFaithful sets v f =
    or_nothing-IsFaithful (trim v.key_input) v _ f
      (clicked-IsFaithful (commits (trim v.key_input)) v tt f)
bloom_step-IsFaithful looks_up v f =
    or_nothing-IsFaithful (trim v.key_input) v _ f
      (clicked-IsFaithful (resolves (trim v.key_input) v.bits v.inserted_keys) v f.known f)
bloom_step-IsFaithful resets v f = record {
  full = length-all_clear 32;
  known = tt;
  asked = f.asked;
}
bloom_step-IsFaithful switches v f = record { full = f.full; known = f.known; asked = f.asked }
bloom_step-IsFaithful (runs i) v f = runs-IsFaithful i v f (get_elem? v.pending i) refl

bloom_run-IsFaithful :
    (es : List BloomEvent) (v : BloomView) → IsFaithful v → IsFaithful (bloom_run es v)
unfolding bloom_run
bloom_run-IsFaithful [] v f = f
bloom_run-IsFaithful (e ∷ es) v f = bloom_run-IsFaithful es _ (bloom_step-IsFaithful e v f)

includes-HasBits :
    (key : Text) (bits : List Bool) (keys : List Text)
    → HasBits bits keys
    → includes key keys ≡ true
    → all_set (get_hashes key) bits ≡ true
unfolding includes
includes-HasBits key bits [] h e = absurd (ground arith)
includes-HasBits key bits (k ∷ keys) h e = elim (Bool-cases (k == key)) [
  | inl same ↦ subst (λ t. all_set (get_hashes t) bits ≡ true) ((text_eq.same_iff k key).0 same) h.0
  | inr other ↦ includes-HasBits key bits keys h.1 (ground arith)
]

-- What a lookup is to answer: a hit, if the key was inserted when it was asked.
abbrev pub AnswersRight : Callback → Type 0
AnswersRight (commits key) = Unit {0}
AnswersRight (resolves key bits keys) = includes key keys ≡ true → verdict_of key bits keys ≡ hit

Answerable-AnswersRight : (cb : Callback) → Answerable cb → AnswersRight cb
unfolding verdict_of
Answerable-AnswersRight (commits key) a = tt
Answerable-AnswersRight (resolves key bits keys) a =
    λ e. rw (includes-HasBits key bits keys a e, e) refl

-- The filter has no false negatives: after any clicks, with the callbacks of sets and lookups run
-- in any order, every lookup that is still to be answered will say "hit" if its key had been
-- inserted when it was asked, and a lookup asked now would say so too.
pub bloom_run-answers :
    (es : List BloomEvent)
    → let v = bloom_run es empty_view in
      All AnswersRight v.pending
      × ((key : Text) → AnswersRight (resolves key v.bits v.inserted_keys))
bloom_run-answers es =
    let f = bloom_run-IsFaithful es empty_view empty_view-IsFaithful in
    (
      All-map Answerable-AnswersRight _ f.asked,
      λ key. Answerable-AnswersRight (resolves key _ _) f.known,
    )
