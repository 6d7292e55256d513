-- ===== src/Tests/Pages.antt =====
-- The event bus, the log, the ring and the polling loop on short inputs.
use lsmkv_enterprise.Common.{
  true, false, ℕ, ◌≡◌, ◌⊎◌, none, some, List, [], ◌∷◌, text, arith, slice_last,
}
use lsmkv_enterprise.Failure.{ClusterEvent, node_recovered}
use lsmkv_enterprise.EventBus.{Bus, stamp, emit_all}
use lsmkv_enterprise.EventBus.History.{emit_all-history}
use lsmkv_enterprise.Log.{LogLine, LogStore, info, wal, stamp_from}
use lsmkv_enterprise.Log.Window.{one, many, write_all, write_all-entries}
use lsmkv_enterprise.Ring.{RingNode, find_owner}
use lsmkv_enterprise.Ring.Owner.{Nearest, find_owner-Nearest}
use lsmkv_enterprise.Ring.Rebalance.{find_owner-joins}
use lsmkv_enterprise.Api.{NodeStorage, SnapshotRecord, ready}
use lsmkv_enterprise.ClusterStore.{ClusterStoreState, ClusterStore, initial}
use lsmkv_enterprise.Sync.{Settled, fulfilled, rejected, StorageReply, nodes, Replies, colored}
use lsmkv_enterprise.Sync.{Registry}
use lsmkv_enterprise.Sync.Rounds.{do_refreshes, do_refreshes-latest}

abbrev recovered : ClusterEvent
recovered = record {
  type = node_recovered;
  node_id = some 1;
  node_state = none;
  failure = none;
  partition = none;
  message = text "back";
  timestamp = 0;
}

abbrev bus : Bus
bus = record { handlers = 1 ∷ 2 ∷ []; history = recovered ∷ []; deliveries = [] }

emit_all-history_example :
    (emit_all ((3, recovered) ∷ (4, recovered) ∷ []) bus).history
    ≡ slice_last 500 (recovered ∷ stamp 3 recovered ∷ stamp 4 recovered ∷ [])
emit_all-history_example = emit_all-history ((3, recovered) ∷ (4, recovered) ∷ []) bus (omega arith)

abbrev line : LogLine
line = record {
  ts = text "12:00";
  level = info;
  node = text "node1";
  component = wal;
  message = text "flushed";
  is_new = none;
}

abbrev log : LogStore
log = record { entries = []; listeners = 1 ∷ []; next_id = 4; notified = [] }

write_all-entries_example :
    (write_all (one line ∷ many (line ∷ line ∷ []) ∷ []) log).entries
    ≡ slice_last 300 (stamp_from 4 (line ∷ line ∷ line ∷ []))
write_all-entries_example =
    write_all-entries (one line ∷ many (line ∷ line ∷ []) ∷ []) log (omega arith)

abbrev left : RingNode
left = record { id = 0; angle = 90000; addr = none }

abbrev right : RingNode
right = record { id = 1; angle = 270000; addr = none }

find_owner-Nearest_example :
    (o : RingNode) × (find_owner 300000 (right ∷ left ∷ []) ≡ some o.id)
    × Nearest 300000 (right ∷ left ∷ []) o
find_owner-Nearest_example =
    find_owner-Nearest 300000 (right ∷ left ∷ []) (λ e. ground arith)
      (omega arith, (omega arith, tt))

find_owner-joins_example :
    (find_owner 80000 (right ∷ left ∷ []) ≡ some 0)
    ⊎ (find_owner 80000 (right ∷ left ∷ []) ≡ find_owner 80000 (right ∷ []))
find_owner-joins_example = find_owner-joins 80000 left (right ∷ []) []

abbrev snap : SnapshotRecord
snap = record {
  id = text "a";
  name = text "a";
  created_at = text "now";
  size_mb = 1;
  status = ready;
  node_count = 3;
}

abbrev store : ClusterStore
store = record { state = initial; listeners = 1 ∷ []; calls = [] }

-- Only the snapshots arrive.
abbrev some_replies : Settled StorageReply → Replies
some_replies storage = record {
  cluster = rejected;
  node_infos = rejected;
  replication = rejected;
  storage = storage;
  snapshots = fulfilled (snap ∷ []);
}

-- The storage of the first node, whose colors are not set yet.
abbrev disk : NodeStorage
disk = record {
  id = 0;
  name = text "node0";
  port = 7001;
  color = [];
  hex = [];
  key_count = some 10;
  memtable = record { size = some 1; entries = some 10; max_mb = 64 };
  wal = record { size = none; segments = none };
  sstables = [];
  compaction_queue = none;
  compaction_runs = none;
  bloom_hit_rate = none;
  write_amplification = none;
  read_amplification = none;
  total_disk = none;
}

-- The storage arrives in the first of two rounds.
abbrev two_rounds : List (ℕ × Replies)
two_rounds = (5, some_replies (fulfilled (nodes (disk ∷ [])))) ∷ (6, some_replies rejected) ∷ []

do_refreshes-latest_example :
    let t : ClusterStoreState = (do_refreshes two_rounds store).state in
    (t.node_infos ≡ [])
    × (t.snapshots ≡ snap ∷ [])
    × (t.storage_data ≡ colored disk ∷ [])
    × (t.cluster_info ≡ none)
    × (t.replication_data ≡ none)
    × (t.last_sync_at ≡ some 6)
    × (t.last_sync_epoch ≡ 2)
    × (t.connected ≡ false)
do_refreshes-latest_example =
    do_refreshes-latest two_rounds store ((λ e. ground arith), ((λ e. ground arith), tt))

abbrev registry : Registry
registry = record {
  refreshers = record { id = 1; mounted = true } ∷ [];
  intervals = 1 ∷ [];
  refreshes = 1 ∷ [];
}
