-- ===== src/LogGenerator.antt =====
-- dashboard/frontend/src/hooks/useLogGenerator.ts: the ticker that writes lines into the log. The
-- random numbers are arguments: `percent` is a draw from 0 to 1 in whole hundredths, and `draw n` is
-- a draw of an index below `n`. The time of a line is an argument too.
pub mod Templates
pub mod Ticks
use lsmkv_enterprise.Common.{
  ℕ, zero, suc, ◌+◌, ◌-◌, Bool, true, false, ◌||◌, Option, none, some, List, [], ◌∷◌, ◌++◌, Text,
  text, decimal, starts_with, ltb, if◌then◌else◌, filter, length, get_elem?,
}
use lsmkv_enterprise.Log.{
  LogLevel, debug, info, warn, error, success, LogComponent, wal, replication, compaction, snapshot,
  heartbeat, election, storage, LogLine, LogStore, push,
}

pub record Template : Type 0 where
  pub level : LogLevel
  pub component : LogComponent
  pub msg : Text

abbrev template : LogLevel → LogComponent → Text → Template
template level component msg = record { level = level; component = component; msg = msg }

unfoldable pub templates : List Template
templates =
    template debug wal (text "WAL probe: offset={{n}} bytes → key_{{k}}")
    ∷ template info wal (text "WAL segment #{{n}} flushed — {{n}} KB in {{n}}ms")
    ∷ template info wal (text "WAL rotated: new segment seq={{n}}")
    ∷ template warn wal (text "WAL write latency elevated: {{n}}ms (threshold=50ms)")
    ∷ template info compaction (text "Compaction started: L{{n}} → L{{n}} ({{n}} files)")
    ∷ template info compaction (text "Compaction finished in {{n}}ms — {{n}} tombstones dropped")
    ∷ template debug compaction (text "Merge pass {{n}}: {{n}} keys written, {{n}} deleted")
    ∷ template warn compaction (text "Compaction queue depth: {{n}} (threshold=5)")
    ∷ template info replication (text "Replication ACK from {{node}}: seq={{n}}")
    ∷ template warn replication (text "Replication lag to {{node}}: {{n}}ms (high)")
    ∷ template error replication (text "Replication failure: {{node}} refused write seq={{n}}")
    ∷ template debug replication (text "Sync heartbeat: {{node}} seq={{n}} lag={{n}}ms")
    ∷ template info snapshot (text "Snapshot snap-{{n}} created: {{n}} keys captured")
    ∷ template info snapshot (text "Snapshot restore complete: {{n}} keys loaded")
    ∷ template debug heartbeat (text "Heartbeat OK: {{node}} rtt={{n}}ms")
    ∷ template warn heartbeat (text "Heartbeat delayed: {{node}} rtt={{n}}ms (threshold=100ms)")
    ∷ template error heartbeat (text "Heartbeat timeout: {{node}} unreachable after 3 retries")
    ∷ template info election (text "Leader election initiated by {{node}}")
    ∷ template success election (text "Leader elected: {{node}} — quorum achieved")
    ∷ template debug storage (text "MemTable probe: key_{{k}} → val_{{k}} (seq={{n}})")
    ∷ template info storage (text "MemTable flushed to SSTable — {{n}} entries in {{n}}ms")
    ∷ template info storage (text "SSTable L{{n}} created: {{n}} entries, {{n}} MB")
    ∷ template warn storage (text "Bloom false positive: key_{{k}} (fp_rate={{n}}%)")
    ∷ template debug storage (text "Block cache hit: key_{{k}} (ratio={{n}}%)")
    ∷ []

abbrev pub for_load : Template → Bool
for_load t = elim t.component [ wal ↦ true | storage ↦ true | _ ↦ false ]

unfoldable pub load_templates : List Template
load_templates = filter for_load templates

abbrev pub has_level : LogLevel → Template → Bool
has_level debug t = elim t.level [ debug ↦ true | _ ↦ false ]
has_level info t = elim t.level [ info ↦ true | _ ↦ false ]
has_level warn t = elim t.level [ warn ↦ true | _ ↦ false ]
has_level error t = elim t.level [ error ↦ true | _ ↦ false ]
has_level success t = elim t.level [ success ↦ true | _ ↦ false ]

-- Below 0.35, 0.75, 0.90 and 0.97.
abbrev pub level_of : ℕ → LogLevel
level_of percent =
    if ltb percent 35
    then debug
    else (if ltb percent 75
        then info
        else (if ltb percent 90 then warn else (if ltb percent 97 then error else success)))

unfoldable pub pool_of : Bool → List Template
pool_of load_running = if load_running then load_templates else templates

abbrev pub or_pool : List Template → List Template → List Template
or_pool [] pool = pool
or_pool (t ∷ ts) pool = t ∷ ts

unfoldable pub pick_template : Bool → ℕ → (ℕ → ℕ) → Option Template
pick_template load_running percent draw =
    let pool = pool_of load_running in
    let source = or_pool (filter (has_level (level_of percent)) pool) pool in
    get_elem? source (draw (length source))

-- `s.replace(/p/g, by)` for a plain text `p`, with the characters still to skip.
unfoldable pub replace_from : Text → Text → ℕ → Text → Text
replace_from p by skip [] = []
replace_from p by (suc skip) (c ∷ s) = replace_from p by skip s
replace_from p by zero (c ∷ s) = elim (starts_with p (c ∷ s)) [
  | true ↦ by ++ replace_from p by (length p - 1) s
  | false ↦ c ∷ replace_from p by 0 s
]

-- With the drawn numbers and node.
unfoldable pub interpolate : Text → ℕ → ℕ → Text → Text
interpolate tpl k n node =
    replace_from (text "{{node}}") node 0
      (replace_from (text "{{n}}") (decimal n) 0 (replace_from (text "{{k}}") (decimal k) 0 tpl))

-- What a tick meets: the WebSocket's flag, which the only caller of the hook leaves false, whether a load
-- runs, and its draws.
pub record Moment : Type 0 where
  pub ws_active : Bool
  pub load_running : Bool
  pub ts : Text
  pub percent : ℕ
  pub draw : ℕ → ℕ
  pub node : Text
  pub key_number : ℕ
  pub number : ℕ
  pub named_node : Text

pub record Generator : Type 0 where
  pub log : LogStore
  pub timer : Option ℕ  -- the delay of the pending tick

-- Where no template is picked, `tpl.level` throws before a line is pushed.
abbrev pub write_line : Moment → Option Template → Generator → Generator
write_line m none g = record g { timer = none }
write_line m (some tpl) g = record {
  log =
      push
        (record {
          ts = m.ts;
          level = tpl.level;
          node = m.node;
          component = tpl.component;
          message = interpolate tpl.msg m.key_number m.number m.named_node;
          is_new = none;
        })
        g.log;
  timer = some (if m.load_running then 700 else 2000);
}

unfoldable pub tick : Moment → Generator → Generator
tick m g =
    if m.ws_active
    then record g { timer = none }
    else write_line m (pick_template m.load_running m.percent m.draw) g

-- What happens to the ticker: its timeout ends, or the effect runs again, for other node names.
pub data TickerEvent : Type 0 where
  timeout : Moment → TickerEvent
  renamed : TickerEvent

-- A timeout ends only while one is pending. The cleanup of the effect clears it, and the effect sets
-- a new one.
unfoldable pub ticker_step : TickerEvent → Generator → Generator
ticker_step (timeout m) g = elim g.timer [ none ↦ g | some delay ↦ tick m g ]
ticker_step renamed g = record g { timer = some 2000 }

unfoldable pub ticker_run : List TickerEvent → Generator → Generator
ticker_run [] g = g
ticker_run (e ∷ es) g = ticker_run es (ticker_step e g)
