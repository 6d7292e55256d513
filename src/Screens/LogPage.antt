-- ===== src/Screens/LogPage.antt =====
-- pages/Logs.tsx: the entries that the page makes of events and messages, and what it shows of the
-- log store. A `Set` is a list in insertion order. `lower` stands for `toLowerCase`, which the search
-- applies to any text.
pub mod Templates
pub mod Toggles
pub mod Events
use lsmkv_enterprise.Common.{
  ℕ, zero, suc, ◌+◌, Bool, true, false, ◌&&◌, ◌||◌, not, Option, none, some, List, [], ◌∷◌, ◌++◌,
  Text, text, decimal, ◌==◌, Eq, nat_eq, text_eq, ltb, if◌then◌else◌, length, filter, any,
  slice_last, contains, ◌≡◌, ◌↔◌, refl, ap, ◌∙◌, sym, arith,
}
use lsmkv_enterprise.Failure.{
  NodeState, healthy, suspect, unreachable, recovering, rebalancing, ClusterEvent, ClusterEventType,
  failure_injected, partition_created, partition_healed, rebalance_started,
}
use lsmkv_enterprise.Log.{
  LogLevel, debug, info, warn, error, success, LogComponent, wal, replication, compaction, snapshot,
  heartbeat, election, storage, cluster, LogLine, LogEntry, LogStore, push,
}

abbrev level_code : LogLevel → ℕ
level_code debug = 0
level_code info = 1
level_code warn = 2
level_code error = 3
level_code success = 4

abbrev component_code : LogComponent → ℕ
component_code wal = 0
component_code replication = 1
component_code compaction = 2
component_code snapshot = 3
component_code heartbeat = 4
component_code election = 5
component_code storage = 6
component_code cluster = 7

pub coded {ℓ} :
    {A : Type ℓ} (code : A → ℕ) (of_code : ℕ → A)
    → ((a : A) → of_code (code a) ≡ a)
    → (a b : A) → ((code a == code b) ≡ true) ↔ (a ≡ b)
coded code of_code back a b = (
  λ e. sym (back a) ∙ (ap of_code ((nat_eq.same_iff (code a) (code b)).0 e) ∙ back b),
  λ e. (nat_eq.same_iff (code a) (code b)).1 (ap code e),
)

pub level_of_code : ℕ → LogLevel
level_of_code zero = debug
level_of_code (suc zero) = info
level_of_code (suc (suc zero)) = warn
level_of_code (suc (suc (suc zero))) = error
level_of_code (suc (suc (suc (suc n)))) = success

pub level_back : (l : LogLevel) → level_of_code (level_code l) ≡ l
unfolding level_of_code
level_back debug = refl
level_back info = refl
level_back warn = refl
level_back error = refl
level_back success = refl

pub component_of_code : ℕ → LogComponent
component_of_code zero = wal
component_of_code (suc zero) = replication
component_of_code (suc (suc zero)) = compaction
component_of_code (suc (suc (suc zero))) = snapshot
component_of_code (suc (suc (suc (suc zero)))) = heartbeat
component_of_code (suc (suc (suc (suc (suc zero))))) = election
component_of_code (suc (suc (suc (suc (suc (suc zero)))))) = storage
component_of_code (suc (suc (suc (suc (suc (suc (suc n))))))) = cluster

pub component_back : (c : LogComponent) → component_of_code (component_code c) ≡ c
unfolding component_of_code
component_back wal = refl
component_back replication = refl
component_back compaction = refl
component_back snapshot = refl
component_back heartbeat = refl
component_back election = refl
component_back storage = refl
component_back cluster = refl

instance abbrev pub level_eq : Eq LogLevel
level_eq = record {
  same = λ a b. level_code a == level_code b;
  same_iff = coded level_code level_of_code level_back;
}

instance abbrev pub component_eq : Eq LogComponent
component_eq = record {
  same = λ a b. component_code a == component_code b;
  same_iff = coded component_code component_of_code component_back;
}

unfoldable pub all_levels : List LogLevel
all_levels = debug ∷ info ∷ warn ∷ error ∷ success ∷ []

unfoldable pub all_components : List LogComponent
all_components =
    wal ∷ replication ∷ compaction ∷ snapshot ∷ heartbeat ∷ election ∷ storage ∷ cluster ∷ []

unfoldable pub component_name : LogComponent → Text
component_name wal = text "WAL"
component_name replication = text "REPLICATION"
component_name compaction = text "COMPACTION"
component_name snapshot = text "SNAPSHOT"
component_name heartbeat = text "HEARTBEAT"
component_name election = text "ELECTION"
component_name storage = text "STORAGE"
component_name cluster = text "CLUSTER"

unfoldable pub event_level : ClusterEvent → LogLevel
event_level ev = elim ev.type [
  | failure_injected ↦ error
  | partition_created ↦ elim ev.node_state [ some unreachable ↦ error | _ ↦ warn ]
  | partition_healed ↦ elim ev.node_state [
    | some unreachable ↦ error
    | some suspect ↦ warn
    | _ ↦ success
  ]
  | _ ↦ elim ev.node_state [
    | some unreachable ↦ error
    | some suspect ↦ warn
    | some recovering ↦ success
    | _ ↦ info
  ]
]

unfoldable pub event_component : ClusterEvent → LogComponent
event_component ev = elim ev.type [
  | partition_created ↦ replication
  | partition_healed ↦ replication
  | rebalance_started ↦ elim ev.node_state [
    | some unreachable ↦ heartbeat
    | some recovering ↦ election
    | _ ↦ compaction
  ]
  | _ ↦ elim ev.node_state [
    | some unreachable ↦ heartbeat
    | some recovering ↦ election
    | _ ↦ cluster
  ]
]

abbrev event_node : Option ℕ → Text
event_node none = text "cluster"
event_node (some id) = text "node" ++ decimal id

-- The entry without its id, which the store replaces by its own.
unfoldable pub cluster_event_to_log : Text → ClusterEvent → LogLine
cluster_event_to_log ts ev = record {
  ts = ts;
  level = event_level ev;
  node = event_node ev.node_id;
  component = event_component ev;
  message = ev.message;
  is_new = some true;
}

-- The page's handler on the event bus.
unfoldable pub handle_event : Text → ClusterEvent → LogStore → LogStore
handle_event ts ev = push (cluster_event_to_log ts ev)

-- A parsed message of the socket, whose fields other than the time may be missing.
pub record LogMessage : Type 0 where
  pub ts : Text
  pub level : Option LogLevel
  pub node : Option Text
  pub component : Option LogComponent
  pub message : Option Text

abbrev or_given {ℓ} : {A : Type ℓ} → Option A → A → A
or_given none d = d
or_given (some a) d = a

abbrev pub message_line : LogMessage → LogLine
message_line m = record {
  ts = m.ts;
  level = or_given m.level info;
  node = or_given m.node (text "node0");
  component = or_given m.component cluster;
  message = or_given m.message [];
  is_new = some true;
}

-- `onmessage`: a paused page drops the message, and so does a text that is no JSON.
unfoldable pub on_message : Bool → Option LogMessage → LogStore → LogStore
on_message paused none log = log
on_message true (some m) log = log
on_message false (some m) log = push (message_line m) log

pub record LogFilter : Type 0 where
  pub search : Text
  pub active_levels : List LogLevel
  pub active_components : List LogComponent
  pub active_node : Text

unfoldable pub initial_filter : LogFilter
initial_filter = record {
  search = [];
  active_levels = all_levels;
  active_components = all_components;
  active_node = text "all";
}

abbrev finds : (Text → Text) → Text → LogEntry → Bool
finds lower [] l = true
finds lower (c ∷ search) l =
    contains (lower (c ∷ search)) (lower l.message)
    || (contains (c ∷ search) l.node
        || contains (lower (c ∷ search)) (lower (component_name l.component)))

unfoldable pub passes_filter : (Text → Text) → LogFilter → LogEntry → Bool
passes_filter lower f l =
    any (◌==◌ l.level) f.active_levels
    && (any (◌==◌ l.component) f.active_components
        && (((f.active_node == text "all") || (l.node == f.active_node)) && finds lower f.search l))

unfoldable pub filtered : (Text → Text) → LogFilter → List LogEntry → List LogEntry
filtered lower f logs = filter (passes_filter lower f) logs

module _ {ℓ} {A : Type ℓ} ⦃e : Eq A⦄ where
  -- Both `toggleLevel` and `toggleComponent`.
  unfoldable pub toggle : A → List A → List A
  toggle x prev =
      if any (◌==◌ x) prev
      then (if ltb 1 (length prev) then filter (λ y. not (x == y)) prev else prev)
      else prev ++ x ∷ []

unfoldable pub toggle_level : LogLevel → LogFilter → LogFilter
toggle_level lvl f = record f { active_levels = toggle lvl f.active_levels }

unfoldable pub toggle_component : LogComponent → LogFilter → LogFilter
toggle_component c f = record f { active_components = toggle c f.active_components }

pub record LevelCounts : Type 0 where
  pub debugs : ℕ
  pub infos : ℕ
  pub warns : ℕ
  pub errors : ℕ
  pub successes : ℕ

abbrev pub bump : LogLevel → LevelCounts → LevelCounts
bump debug c = record c { debugs = suc c.debugs }
bump info c = record c { infos = suc c.infos }
bump warn c = record c { warns = suc c.warns }
bump error c = record c { errors = suc c.errors }
bump success c = record c { successes = suc c.successes }

unfoldable pub count_levels : List LogEntry → LevelCounts → LevelCounts
count_levels [] c = c
count_levels (l ∷ logs) c = count_levels logs (bump l.level c)

abbrev pub no_counts : LevelCounts
no_counts = record { debugs = 0; infos = 0; warns = 0; errors = 0; successes = 0 }

abbrev pub is_significant : LogEntry → Bool
is_significant l = elim l.level [ warn ↦ true | error ↦ true | success ↦ true | _ ↦ false ]

unfoldable pub timeline_events : List LogEntry → List LogEntry
timeline_events logs = slice_last 20 (filter is_significant logs)
