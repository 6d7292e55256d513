-- ===== src/Widgets/WriteFeed.antt =====
-- components/storage/LiveWriteFeed.tsx: the tokens that fall into the memtable and the log of their
-- arrivals. `_keySeq` is a field; a latency and the time of an arrival are arguments. A token's horizontal
-- offset is left out.
pub mod Falling
use lsmkv_enterprise.Common.{
  ℕ, zero, suc, ◌+◌, ◌*◌, ◌/◌, min, Bool, true, false, ◌&&◌, Option, none, some, List, [], ◌∷◌,
  ◌++◌, Text, text, decimal, ◌==◌, nat_eq, leb, ltb, if◌then◌else◌, filter, take, slice_last,
}

pub record WriteToken : Type 0 where
  pub id : ℕ
  pub key : Text
  pub latency_ms : ℕ
  pub y : ℕ
  pub done : Bool

pub record WriteLogEntry : Type 0 where
  pub id : ℕ
  pub key : Text
  pub latency_ms : ℕ
  pub ts : Text

pub record Feed : Type 0 where
  pub tokens : List WriteToken
  pub write_log : List WriteLogEntry
  pub next_id : ℕ
  pub key_seq : ℕ

abbrev pub empty_feed : Feed
empty_feed = record { tokens = []; write_log = []; next_id = 0; key_seq = 1000 }

unfoldable pub spawn_token : ℕ → Feed → Feed
spawn_token latency_ms f = record f {
  tokens =
      slice_last 20 f.tokens
      ++ record {
        id = f.next_id;
        key = text "key_" ++ decimal f.key_seq;
        latency_ms = latency_ms;
        y = 0;
        done = false;
      }
        ∷ [];
  next_id = suc f.next_id;
  key_seq = suc f.key_seq;
}

-- The rate in halves of a token per second, and the interval in milliseconds.
unfoldable pub visual_rate : Bool → ℕ → ℕ
visual_rate load_running writes_per_sec =
    let effective_wps = if load_running && (writes_per_sec == 0) then 8 else writes_per_sec in
    if ltb 0 effective_wps then 2 * min effective_wps 20 else 1

-- `Math.round(1000 / vRate)`, half up.
abbrev round_div : ℕ → ℕ → ℕ
round_div a zero = 0
round_div a (suc b) = (2 * a + suc b) / (2 * suc b)

unfoldable pub interval_ms : Bool → ℕ → ℕ
interval_ms load_running writes_per_sec = round_div 2000 (visual_rate load_running writes_per_sec)

abbrev pub fall_step : ℕ → ℕ
fall_step writes_per_sec = if ltb 5 writes_per_sec then 5 else 3

abbrev pub entry_for : Text → WriteToken → WriteLogEntry
entry_for ts t = record { id = t.id; key = t.key; latency_ms = t.latency_ms; ts = ts }

-- One token of a frame, and whether it arrives in it.
unfoldable pub arrives : ℕ → WriteToken → Bool
arrives step t = if t.done then false else leb 100 (t.y + step)

unfoldable pub fall : ℕ → WriteToken → WriteToken
fall step t =
    if t.done
    then t
    else (if leb 100 (t.y + step)
        then record t { y = 100; done = true }
        else record t { y = t.y + step })

unfoldable pub fall_all : ℕ → List WriteToken → List WriteToken
fall_all step [] = []
fall_all step (t ∷ ts) = fall step t ∷ fall_all step ts

-- The arrivals of a frame go to the front of the log one after another.
unfoldable pub log_arrivals : Text → ℕ → List WriteToken → List WriteLogEntry → List WriteLogEntry
log_arrivals ts step [] wl = wl
log_arrivals ts step (t ∷ tokens) wl =
    log_arrivals ts step tokens (if arrives step t then take 12 (entry_for ts t ∷ wl) else wl)

unfoldable pub frame : Text → ℕ → Feed → Feed
frame ts writes_per_sec f =
    let step = fall_step writes_per_sec in
    record f {
      tokens = filter (λ t. ltb t.y 110) (fall_all step f.tokens);
      write_log = log_arrivals ts step f.tokens f.write_log;
    }
