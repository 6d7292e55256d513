-- ===== src/Widgets/Bloom.antt =====
-- components/storage/BloomFilterViz.tsx: the filter of 32 bits. The callbacks given to `setTimeout`
-- are the list `pending`, and any of them may run next. The animation's highlights are not kept,
-- nor the mode, which says whether a click is a set or a lookup.
pub mod Answers
use Prim.Native.Nat.{bit_xor}
use lsmkv_enterprise.Common.{
  ℕ, zero, suc, ◌+◌, ◌*◌, ◌%◌, Bool, true, false, ◌&&◌, ◌||◌, Option, none, some, List, [], ◌∷◌,
  ◌++◌, Text, ◌==◌, text_eq, if◌then◌else◌, get_elem?, trim, utf16,
}

abbrev pub bits_count : ℕ
bits_count = 32

-- `h = Math.imul(h ^ c, 0x9e3779b9)` on 32 bits, without a sign.
unfoldable pub mix : List ℕ → ℕ → ℕ
mix [] h = h
mix (c ∷ cs) h = mix cs ((bit_xor (h % 0x100000000) c * 0x9e3779b9) % 0x100000000)

unfoldable pub hash_n : Text → ℕ → ℕ
hash_n key seed =
    ((mix (utf16 key) (seed * 2654435761) % 0x100000000) % bits_count + bits_count) % bits_count

unfoldable pub get_hashes : Text → List ℕ
get_hashes key = hash_n key 1 ∷ hash_n key 37 ∷ hash_n key 101 ∷ []

pub data Verdict : Type 0 where
  hit miss false_positive : Verdict

-- The last callback of a `handleSet` or of a `handleLookup`, with what it closes over.
pub data Callback : Type 0 where
  commits : Text → Callback
  resolves : Text → List Bool → List Text → Callback

pub record BloomView : Type 0 where
  pub bits : List Bool
  pub key_input : Text
  pub result : Option Verdict
  pub inserted_keys : List Text
  pub pending : List Callback

unfoldable pub all_clear : ℕ → List Bool
all_clear zero = []
all_clear (suc n) = false ∷ all_clear n

unfoldable pub empty_view : BloomView
empty_view = record {
  bits = all_clear bits_count;
  key_input = [];
  result = none;
  inserted_keys = [];
  pending = [];
}

-- `next[b] = true`.
unfoldable pub set_bit : ℕ → List Bool → List Bool
set_bit b [] = []
set_bit zero (x ∷ xs) = true ∷ xs
set_bit (suc b) (x ∷ xs) = x ∷ set_bit b xs

unfoldable pub set_bits : List ℕ → List Bool → List Bool
set_bits [] bits = bits
set_bits (b ∷ bs) bits = set_bits bs (set_bit b bits)

-- `bits[b]`, where a missing bit is falsy.
unfoldable pub is_set : List Bool → ℕ → Bool
is_set [] b = false
is_set (x ∷ xs) zero = x
is_set (x ∷ xs) (suc b) = is_set xs b

unfoldable pub all_set : List ℕ → List Bool → Bool
all_set [] bits = true
all_set (b ∷ bs) bits = is_set bits b && all_set bs bits

unfoldable pub includes : Text → List Text → Bool
includes key [] = false
includes key (k ∷ ks) = (k == key) || includes key ks

unfoldable pub verdict_of : Text → List Bool → List Text → Verdict
verdict_of key bits inserted =
    if all_set (get_hashes key) bits
    then (if includes key inserted then hit else false_positive)
    else miss

abbrev schedule : Callback → BloomView → BloomView
schedule cb v = record v { result = none; key_input = []; pending = v.pending ++ cb ∷ [] }

abbrev pub or_nothing : Text → BloomView → BloomView → BloomView
or_nothing [] v w = v
or_nothing (c ∷ key) v w = w

unfoldable pub handle_set : BloomView → BloomView
handle_set v = or_nothing (trim v.key_input) v (schedule (commits (trim v.key_input)) v)

unfoldable pub handle_lookup : BloomView → BloomView
handle_lookup v =
    or_nothing (trim v.key_input) v
      (schedule (resolves (trim v.key_input) v.bits v.inserted_keys) v)

unfoldable pub handle_reset : BloomView → BloomView
handle_reset v = record v { bits = all_clear bits_count; result = none; inserted_keys = [] }

unfoldable pub run_callback : Callback → BloomView → BloomView
run_callback (commits key) v = record v {
  bits = set_bits (get_hashes key) v.bits;
  inserted_keys = v.inserted_keys ++ key ∷ [];
  result = none;
}
run_callback (resolves key bits inserted) v = record v {
  result = some (verdict_of key bits inserted);
}

abbrev pub without {ℓ} : {A : Type ℓ} → ℕ → List A → List A
without i [] = []
without zero (x ∷ xs) = xs
without (suc i) (x ∷ xs) = x ∷ without i xs

pub data BloomEvent : Type 0 where
  types : Text → BloomEvent
  sets looks_up resets switches : BloomEvent
  runs : ℕ → BloomEvent  -- the pending callback at a place

unfoldable pub bloom_step : BloomEvent → BloomView → BloomView
bloom_step (types key) v = record v { key_input = key }
bloom_step sets v = handle_set v
bloom_step looks_up v = handle_lookup v
bloom_step resets v = handle_reset v
bloom_step switches v = record v { result = none }
bloom_step (runs i) v = elim (get_elem? v.pending i) [
  | none ↦ v
  | some cb ↦ run_callback cb (record v { pending = without i v.pending })
]

unfoldable pub bloom_run : List BloomEvent → BloomView → BloomView
bloom_run [] v = v
bloom_run (e ∷ es) v = bloom_run es (bloom_step e v)
