-- ===== src/Background.antt =====
-- dashboard/frontend/src/services/backgroundOps.ts: the long-running operations, each as the list of
-- its calls of the operations store and of `triggerRefresh`, for what the awaited promises came to.
-- What else runs while one of them waits is put between these calls.
pub mod Outcomes
use lsmkv_enterprise.Common.{
  ℕ, ◌+◌, Bool, true, false, Option, none, some, List, [], ◌∷◌, ◌++◌, Text, text, decimal, pos,
  if◌then◌else◌,
}
use lsmkv_enterprise.Operations.Calls.{
  Call, starts, updates, completes, fails, cancels, starts_poll, refreshes,
}

pub record LoadParams : Type 0 where
  pub writes : ℕ
  pub reads : ℕ
  pub deletes : ℕ
  pub parallelism : ℕ

-- The answer to `/api/demo/generate-load`; `offline` is any exception.
pub data LoadAnswer : Type 0 where
  offline accepted : LoadAnswer
  rejected : Option Text → LoadAnswer

-- A template id such as `load-${Date.now()}`.
abbrev pub stamped_id : Text → ℕ → Text
stamped_id prefix now = prefix ++ decimal now

abbrev or_words : Option Text → Text → Text
or_words none d = d
or_words (some t) d = t

unfoldable pub start_load_generation : ℕ → LoadParams → LoadAnswer → List Call
start_load_generation now params answer =
    let id = stamped_id (text "load-") now in
    let total_ops = params.writes + params.reads + params.deletes in
    starts id (text "Generate Load") ∷ (elim answer [
      | accepted ↦ starts_poll id total_ops ∷ []
      | rejected error ↦ fails id (or_words error (text "Backend rejected request")) ∷ []
      | offline ↦ fails id (text "Backend offline") ∷ []
    ])

-- The post to `/api/demo/stop-load` is ignored, whatever it comes to.
unfoldable pub stop_load_generation : List Call
stop_load_generation = cancels ∷ refreshes ∷ []

-- What the awaited calls of an operation came to. A restore, a flush, a compaction and a snapshot
-- take any exception for a simulated backend; a change of the nodes fails with its message.
pub data Flow : Type 0 where
  flush : Option Bool → Flow  -- the answer's `simulated`
  compact : Bool → Flow  -- whether there was an answer
  snapshot : Text → Option Bool → Flow  -- the answer's `ok`
  restore : Text → Bool → Flow  -- whether there was an answer
  add_node remove_node : Option (Option Text) → Flow  -- an exception, and its message

abbrev message : Option Text → Text
message e = or_words e (text "Unknown error")

abbrev quoted : Text → Text
quoted name = text "\"" ++ (name ++ text "\"")

unfoldable pub flow_id : ℕ → Flow → Text
flow_id now (flush r) = stamped_id (text "flush-") now
flow_id now (compact r) = stamped_id (text "compact-") now
flow_id now (snapshot name r) = stamped_id (text "snap-") now
flow_id now (restore name r) = stamped_id (text "restore-") now
flow_id now (add_node r) = stamped_id (text "add-node-") now
flow_id now (remove_node r) = stamped_id (text "remove-node-") now

abbrev pub flow_name : Flow → Text
flow_name (flush r) = text "Flush MemTable"
flow_name (compact r) = text "Compact Now"
flow_name (snapshot name r) = text "Snapshot: " ++ name
flow_name (restore name r) = text "Restore: " ++ name
flow_name (add_node r) = text "Add Node"
flow_name (remove_node r) = text "Remove Node"

-- From the first update to the end, for the operation's id.
unfoldable pub flow_body : Text → Flow → List Call
flow_body id (flush none) =
    updates id (pos 30) ∷ completes id (text "Flush complete (simulated)") ∷ refreshes ∷ []
flow_body id (flush (some simulated)) =
    let sim = if simulated then text " (simulated)" else [] in
    updates id (pos 30) ∷ completes id (text "MemTable flushed to SSTable" ++ sim) ∷ refreshes ∷ []
flow_body id (compact false) =
    updates id (pos 20)
    ∷ updates id (pos 50)
    ∷ completes id (text "Compaction complete (simulated)")
    ∷ refreshes
    ∷ []
flow_body id (compact true) =
    updates id (pos 20)
    ∷ updates id (pos 50)
    ∷ updates id (pos 90)
    ∷ completes id (text "All levels compacted")
    ∷ refreshes
    ∷ []
flow_body id (snapshot name none) =
    updates id (pos 20)
    ∷ updates id (pos 60)
    ∷ completes id (text "Snapshot " ++ (quoted name ++ text " saved (simulated)"))
    ∷ refreshes
    ∷ []
flow_body id (snapshot name (some answer_ok)) =
    updates id (pos 20)
    ∷ updates id (pos 60)
    ∷ completes id (
        if answer_ok
        then text "Snapshot " ++ (quoted name ++ text " saved")
        else text "Snapshot saved (simulated)")
    ∷ refreshes
    ∷ []
flow_body id (restore name false) =
    updates id (pos 15)
    ∷ updates id (pos 60)
    ∷ completes id (text "Restore " ++ (quoted name ++ text " complete (simulated)"))
    ∷ refreshes
    ∷ []
flow_body id (restore name true) =
    updates id (pos 15)
    ∷ updates id (pos 60)
    ∷ updates id (pos 90)
    ∷ completes id (text "Restored to snapshot " ++ quoted name)
    ∷ refreshes
    ∷ []
flow_body id (add_node none) =
    updates id (pos 10)
    ∷ updates id (pos 30)
    ∷ updates id (pos 70)
    ∷ updates id (pos 90)
    ∷ completes id (text "Node joined cluster successfully")
    ∷ refreshes
    ∷ []
flow_body id (add_node (some e)) =
    updates id (pos 10) ∷ updates id (pos 30) ∷ fails id (message e) ∷ refreshes ∷ []
flow_body id (remove_node none) =
    updates id (pos 10)
    ∷ updates id (pos 40)
    ∷ updates id (pos 80)
    ∷ completes id (text "Node removed, keys redistributed")
    ∷ refreshes
    ∷ []
flow_body id (remove_node (some e)) =
    updates id (pos 10) ∷ updates id (pos 40) ∷ fails id (message e) ∷ refreshes ∷ []

unfoldable pub flow_calls : ℕ → Flow → List Call
flow_calls now f = let id = flow_id now f in starts id (flow_name f) ∷ flow_body id f

-- The calls at the times of a clock, from a tick on.
abbrev pub timed : (ℕ → ℕ) → ℕ → List Call → List (ℕ × Call)
timed clock i [] = []
timed clock i (c ∷ cs) = (clock i, c) ∷ timed clock (i + 1) cs
