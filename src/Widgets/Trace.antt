-- ===== src/Widgets/Trace.antt =====
-- components/keys/QueryTrace.tsx: the steps of a request and their animation. Latencies are in tenths
-- of a millisecond, as are the due times; a random latency is an argument, `latency i` for the step
-- at place `i`, and so are the two random numbers of a write's texts. Icons and colors are left out.
pub mod Timers
use Prim.Native.Nat.{bit_xor}
use lsmkv_enterprise.Common.{
  ℕ, zero, suc, ◌+◌, ◌-◌, ◌*◌, ◌%◌, min, Bool, true, false, ◌&&◌, not, Option, none, some, List, [],
  ◌∷◌, ◌++◌, map, Text, text, decimal, ◌==◌, nat_eq, text_eq, if◌then◌else◌, length, get_elem?,
  take, utf16,
}
use lsmkv_enterprise.Failure.{NodeRuntimeState}

pub data StepStatus : Type 0 where
  pending running done error : StepStatus

pub record TraceStep : Type 0 where
  pub id : Text
  pub label : Text
  pub detail : Text
  pub latency : ℕ
  pub status : StepStatus

pub data QueryType : Type 0 where
  get_query set_query : QueryType

-- `h = (h * 33) ^ c`, of which the last 32 bits are what the next round and the result read.
unfoldable pub mix_unit : List ℕ → ℕ → ℕ
mix_unit [] h = h
mix_unit (c ∷ cs) h = mix_unit cs (bit_xor ((h * 33) % 0x100000000) c)

unfoldable pub hash_key : Text → ℕ
hash_key key = (mix_unit (utf16 key) 5381 % 0x100000000) % 360

-- `nodes.length || 3`.
unfoldable pub count_nodes : List NodeRuntimeState → ℕ
count_nodes [] = 3
count_nodes (n ∷ nodes) = length (n ∷ nodes)

abbrev mod_of : ℕ → ℕ → ℕ
mod_of a zero = 0
mod_of a (suc b) = a % suc b

unfoldable pub primary_idx : Text → List NodeRuntimeState → ℕ
primary_idx key nodes = mod_of (hash_key key) (count_nodes nodes)

unfoldable pub primary_name : ℕ → List NodeRuntimeState → Text
primary_name idx nodes = elim (get_elem? nodes idx) [
  | none ↦ text "node" ++ decimal idx
  | some n ↦ n.name
]

unfoldable pub without_place : ℕ → List NodeRuntimeState → List NodeRuntimeState
without_place i [] = []
without_place zero (n ∷ nodes) = nodes
without_place (suc i) (n ∷ nodes) = n ∷ without_place i nodes

unfoldable pub replicas_of : ℕ → List NodeRuntimeState → List NodeRuntimeState
replicas_of idx nodes = take 2 (without_place idx nodes)

abbrev joined : List NodeRuntimeState → Text
joined [] = text "node1, node2"
joined (n ∷ []) = n.name
joined (n ∷ m ∷ ns) = n.name ++ text ", " ++ m.name

abbrev trace_step : Text → Text → Text → ℕ → TraceStep
trace_step id label detail latency = record {
  id = id;
  label = label;
  detail = detail;
  latency = latency;
  status = pending;
}

unfoldable pub build_get_steps : Text → List NodeRuntimeState → (ℕ → ℕ) → List TraceStep
build_get_steps key nodes latency =
    let idx = primary_idx key nodes in
    trace_step (text "hash") (text "Consistent Hash")
      (text "Hash(\""
        ++ key
        ++ text "\") = "
        ++ decimal (hash_key key)
        ++ text "° → partition "
        ++ decimal idx)
      0
    ∷ trace_step (text "route") (text "Route to Primary")
        (text "Primary: "
          ++ primary_name idx nodes
          ++ text " (port "
          ++ decimal (7001 + idx)
          ++ text ")")
        (latency 1)
    ∷ trace_step (text "bloom") (text "Bloom Filter Check")
        (text "3 hash functions → bits set → MIGHT EXIST (fp_rate 0.4%)") (latency 2)
    ∷ trace_step (text "l0") (text "Level 0 Scan")
        (text "Check " ++ decimal (2 + idx) ++ text " L0 SSTables → MISS") (latency 3)
    ∷ trace_step (text "l1") (text "Level 1 Scan") (text "Binary search in 2 L1 SSTables → MISS")
        (latency 4)
    ∷ trace_step (text "l2") (text "Level 2 — FOUND")
        (text "Block offset 0x3A2F → read 4KB block → decompress Snappy → extract value")
        (latency 5)
    ∷ trace_step (text "return") (text "Return to Client")
        (text "Value ready · total read amplification: 3 SSTables") (latency 6)
    ∷ []

unfoldable pub build_set_steps :
    Text → Text → List NodeRuntimeState → (ℕ → ℕ) → ℕ → ℕ → List TraceStep
build_set_steps key value nodes latency seq used =
    let idx = primary_idx key nodes in
    let count = count_nodes nodes in
    trace_step (text "hash") (text "Consistent Hash")
      (text "Hash(\"" ++ key ++ text "\") → partition " ++ decimal idx) 0
    ∷ trace_step (text "primary") (text "Route to Primary")
        (text "Primary: " ++ primary_name idx nodes ++ text " accepts write") (latency 1)
    ∷ trace_step (text "wal") (text "WAL Append")
        (text "seq=" ++ decimal seq ++ text " appended to WAL segment — durable") (latency 2)
    ∷ trace_step (text "memtable") (text "MemTable Insert")
        (text "SkipList insert: key=\""
          ++ key
          ++ text "\" value=\""
          ++ take 20 value
          ++ text "\" · "
          ++ decimal used
          ++ text "KB used")
        (latency 3)
    ∷ trace_step (text "replicate") (text "Replicate to Followers")
        (text "Sending to: "
          ++ joined (replicas_of idx nodes)
          ++ text " (RF="
          ++ decimal (min count 3)
          ++ text ")")
        (latency 4)
    ∷ trace_step (text "quorum") (text "Quorum Achieved")
        (decimal (min count 2)
          ++ text " / "
          ++ decimal (min count 3)
          ++ text " replicas ACK'd (majority)")
        (latency 5)
    ∷ trace_step (text "ack") (text "ACK to Client")
        (text "Write committed · linearizable consistency guaranteed") (latency 6)
    ∷ []

-- The two callbacks of the step at a place; the second one knows whether it is an error.
pub data TraceTimer : Type 0 where
  runs : ℕ → TraceTimer
  ends : ℕ → Bool → TraceTimer

abbrev pub is_missed : QueryType → Option Text → TraceStep → Bool
is_missed set_query result s = false
is_missed get_query (some r) s = false
is_missed get_query none s = s.id == text "l2"

-- The timers of the steps from a place on, with their due times in tenths of a millisecond.
unfoldable pub trace_timers :
    QueryType → Option Text → ℕ → ℕ → List TraceStep → List (ℕ × TraceTimer)
trace_timers q result i acc [] = []
trace_timers q result i acc (s ∷ steps) =
    let next = acc + (s.latency * 8 + 3000) in
    (acc, runs i)
    ∷ (next - 1000, ends i (is_missed q result s))
    ∷ trace_timers q result (suc i) next steps

unfoldable pub put_status : ℕ → StepStatus → List TraceStep → List TraceStep
put_status i status [] = []
put_status zero status (s ∷ steps) = record s { status = status } ∷ steps
put_status (suc i) status (s ∷ steps) = s ∷ put_status i status steps

unfoldable pub fire_step : TraceTimer → List TraceStep → List TraceStep
fire_step (runs i) steps = put_status i running steps
fire_step (ends i missed) steps = put_status i (if missed then error else done) steps

unfoldable pub fire_trace : List (ℕ × TraceTimer) → List TraceStep → List TraceStep
fire_trace [] steps = steps
fire_trace ((due, t) ∷ timers) steps = fire_trace timers (fire_step t steps)

unfoldable pub total_latency : List TraceStep → ℕ
total_latency [] = 0
total_latency (s ∷ steps) = s.latency + total_latency steps
