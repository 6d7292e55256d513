-- ===== src/Screens/LogPage/Templates.antt =====
-- pages/Logs.tsx: the page's own templates, and the line that is made of one. The random numbers are
-- arguments: `percent` is a draw from 0 to 1 in whole hundredths, and `draw n` one of an index below `n`.
use lsmkv_enterprise.Common.{
  ℕ, zero, suc, ◌<◌, ◌≡◌, refl, true, Option, none, some, List, [], ◌∷◌, Text, text, decimal, ◌++◌,
  filter, length, get_elem?, arith, All, Bool-cases, inl, inr,
}
use lsmkv_enterprise.Log.{
  LogLevel, debug, info, warn, error, success, LogComponent, wal, replication, compaction, snapshot,
  heartbeat, election, storage, LogLine,
}
use lsmkv_enterprise.LogGenerator.{Template, has_level, level_of, replace_from}

abbrev page_template : LogLevel → LogComponent → Text → Template
page_template level component msg = record { level = level; component = component; msg = msg }

unfoldable pub page_templates : List Template
page_templates =
    page_template debug wal (text "WAL probe: offset={{n}} bytes → {{k}}")
    ∷ page_template info wal (text "WAL segment #{{n}} flushed — {{s}} KB in {{n}}ms")
    ∷ page_template info wal (text "WAL rotated: new segment seq={{s}}")
    ∷ page_template warn wal (text "WAL write latency elevated: {{n}}ms (threshold=50ms)")
    ∷ page_template info compaction (text "Compaction started: L{{n}} → L{{n}} ({{n}} files)")
    ∷ page_template info compaction
        (text "Compaction finished in {{n}}ms — {{n}} tombstones dropped")
    ∷ page_template debug compaction (text "Merge pass {{n}}: {{n}} keys written, {{n}} deleted")
    ∷ page_template warn compaction (text "Compaction queue depth: {{n}} (threshold=5)")
    ∷ page_template info replication (text "Replication ACK from {{node}}: seq={{s}}")
    ∷ page_template warn replication (text "Replication lag to {{node}}: {{n}}ms (high)")
    ∷ page_template error replication (text "Replication failure: {{node}} refused write seq={{s}}")
    ∷ page_template debug replication (text "Sync heartbeat: {{node}} seq={{s}} lag={{n}}ms")
    ∷ page_template info snapshot (text "Snapshot snap-{{s}} created: {{n}} keys captured")
    ∷ page_template info snapshot (text "Snapshot restore complete: {{n}} keys loaded")
    ∷ page_template debug snapshot (text "Snapshot GC: retaining {{n}} snapshots, removed {{n}}")
    ∷ page_template debug heartbeat (text "Heartbeat OK: {{node}} rtt={{n}}ms")
    ∷ page_template warn heartbeat
        (text "Heartbeat delayed: {{node}} rtt={{n}}ms (threshold=100ms)")
    ∷ page_template error heartbeat (text "Heartbeat timeout: {{node}} unreachable after 3 retries")
    ∷ page_template info election (text "Leader election initiated by {{node}}")
    ∷ page_template success election (text "Leader elected: {{node}} — quorum achieved")
    ∷ page_template info election (text "Replica {{node}} promoted to primary")
    ∷ page_template debug storage (text "MemTable probe: key_{{k}} → {{k}} (seq={{s}})")
    ∷ page_template info storage (text "MemTable flushed to SSTable — {{n}} entries in {{n}}ms")
    ∷ page_template info storage (text "SSTable L{{n}} created: {{n}} entries, {{n}} MB")
    ∷ page_template warn storage (text "Bloom false positive: key_{{k}} (fp_rate={{n}}%)")
    ∷ page_template debug storage (text "Block cache hit: {{k}} (ratio={{n}}%)")
    ∷ []

unfoldable pub pick_page_template : ℕ → (ℕ → ℕ) → Option Template
pick_page_template percent draw = elim (filter (has_level (level_of percent)) page_templates) [
  | [] ↦ get_elem? page_templates 0
  | t ∷ ts ↦ get_elem? (t ∷ ts) (draw (length (t ∷ ts)))
]

unfoldable pub page_interpolate : Text → ℕ → ℕ → ℕ → Text → Text
page_interpolate tpl k s n node = replace_from (text "{{node}}") node 0 (
    replace_from (text "{{n}}") (decimal n) 0 (
      replace_from (text "{{s}}") (decimal s) 0
        (replace_from (text "{{k}}") (text "key_" ++ decimal k) 0 tpl)))

-- The drawn numbers and nodes of a line; a drawn node that is missing is "node0".
pub record Draws : Type 0 where
  pub percent : ℕ
  pub draw : ℕ → ℕ
  pub node : Text
  pub key_number : ℕ
  pub sequence : ℕ
  pub number : ℕ
  pub named_node : Text

unfoldable pub generate_log : Text → Draws → Option LogLine
generate_log ts d = elim (pick_page_template d.percent d.draw) [
  | none ↦ none
  | some tpl ↦ some (record {
    ts = ts;
    level = tpl.level;
    node = d.node;
    component = tpl.component;
    message = page_interpolate tpl.msg d.key_number d.sequence d.number d.named_node;
    is_new = some true;
  })
]

get_elem?-All :
    (P : Template → Type 0) (ts : List Template) (i : ℕ)
    → i < length ts
    → All P ts
    → (t : Template) × (get_elem? ts i ≡ some t) × P t
get_elem?-All P [] i b h = absurd (omega arith)
get_elem?-All P (t ∷ ts) zero b h = (t, refl, h.0)
get_elem?-All P (t ∷ ts) (suc i) b h = get_elem?-All P ts i (omega arith) h.1

levels-hold :
    (level : LogLevel) (ts : List Template)
    → All (λ t. has_level level t ≡ true) (filter (has_level level) ts)
levels-hold level [] = tt
levels-hold level (t ∷ ts) = elim (Bool-cases (has_level level t)) [
  | inl e ↦ rw e (e, levels-hold level ts)
  | inr e ↦ rw e (levels-hold level ts)
]

every_level : (level : LogLevel) → 0 < length (filter (has_level level) page_templates)
unfolding page_templates
every_level debug = omega arith
every_level info = omega arith
every_level warn = omega arith
every_level error = omega arith
every_level success = omega arith

drawn :
    (level : LogLevel) (draw : ℕ → ℕ) (pool : List Template)
    → ((n : ℕ) → 0 < n → draw n < n)
    → 0 < length pool
    → All (λ t. has_level level t ≡ true) pool
    → (t : Template) × ((elim pool [
      | [] ↦ get_elem? page_templates 0
      | t ∷ ts ↦ get_elem? (t ∷ ts) (draw (length (t ∷ ts)))
    ])
        ≡ some t)
      × (has_level level t ≡ true)
drawn level draw [] d b h = absurd (omega arith)
drawn level draw (t ∷ ts) d b h = get_elem?-All _ (t ∷ ts) _ (d _ b) h

-- Whatever is drawn, the page picks a page_template of the drawn level.
pick_page_template-level :
    (percent : ℕ) (draw : ℕ → ℕ)
    → ((n : ℕ) → 0 < n → draw n < n)
    → (t : Template) × (pick_page_template percent draw ≡ some t)
      × (has_level (level_of percent) t ≡ true)
unfolding pick_page_template
pick_page_template-level percent draw d =
    drawn (level_of percent) draw _ d (every_level (level_of percent))
      (levels-hold (level_of percent) page_templates)
