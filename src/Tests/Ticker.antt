-- ===== src/Tests/Ticker.antt =====
-- useLogGenerator.ts: a ticker, and the placeholders of a line.
use lsmkv_enterprise.Common.{
  ℕ, ◌-◌, ◌<◌, inr, arith, ◌≡◌, refl, Bool, false, some, [], ◌∷◌, text, decimal,
}
use lsmkv_enterprise.Log.{initial}
use lsmkv_enterprise.LogGenerator.{
  Moment, Generator, timeout, renamed, ticker_run, interpolate, replace_from,
}
use lsmkv_enterprise.LogGenerator.Ticks.{IsTicking, ticker_run-goes_on}

abbrev last_index : ℕ → ℕ
last_index n = n - 1

abbrev moment : Bool → Moment
moment ws_active = record {
  ws_active = ws_active;
  load_running = false;
  ts = text "12:00:00.000";
  percent = 10;
  draw = last_index;
  node = text "node1";
  key_number = 7;
  number = 42;
  named_node = text "node2";
}

abbrev started_generator : Generator
started_generator = record { log = initial; timer = some 2000 }

last_index_in : (n : ℕ) → 0 < n → last_index n < n
last_index_in n h = omega arith

ticker_run-goes_on_example :
    IsTicking (
      ticker_run (timeout (moment false) ∷ renamed ∷ timeout (moment false) ∷ []) started_generator)
    × ((ticker_run
          (timeout (moment false) ∷ renamed ∷ timeout (moment false) ∷ [])
          started_generator).log.next_id
        ≡ 3)
ticker_run-goes_on_example =
    ticker_run-goes_on (timeout (moment false) ∷ renamed ∷ timeout (moment false) ∷ [])
      started_generator ((refl, last_index_in), (tt, ((refl, last_index_in), tt))) (inr refl)

-- All three placeholders, each as often as it stands.
interpolate_all :
    interpolate (text "{{node}}: {{n}} of {{n}} for key_{{k}}") 7 42 (text "node2")
    ≡ text "node2: 42 of 42 for key_7"
unfolding interpolate replace_from decimal
interpolate_all = refl
