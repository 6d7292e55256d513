-- ===== src/EventBus.antt =====
-- dashboard/frontend/src/services/eventBus.ts: the event bus. A handler is a number; the calls of
-- handlers, whose exceptions are dropped, are the list `deliveries`.
pub mod History
use lsmkv_enterprise.Common.{
  ℕ, Bool, List, [], ◌∷◌, ◌++◌, map, ◌==◌, nat_eq, slice_last, if◌then◌else◌,
}
use lsmkv_enterprise.Failure.{ClusterEvent}
use lsmkv_enterprise.JsMap.{JsSet}
use lsmkv_enterprise.JsMap

pub record Bus : Type 0 where
  pub handlers : JsSet
  pub history : List ClusterEvent
  pub deliveries : List (ℕ × ClusterEvent)

abbrev pub empty : Bus
empty = record { handlers = []; history = []; deliveries = [] }

unfoldable pub subscribe : ℕ → Bus → Bus
subscribe handler b = record b { handlers = JsMap.add handler b.handlers }

unfoldable pub unsubscribe : ℕ → Bus → Bus
unsubscribe handler b = record b { handlers = JsMap.remove handler b.handlers }

-- A missing timestamp is 0.
abbrev pub stamp : ℕ → ClusterEvent → ClusterEvent
stamp now e = record e { timestamp = if e.timestamp == 0 then now else e.timestamp }

unfoldable pub emit : ℕ → ClusterEvent → Bus → Bus
emit now e b = record b {
  history = slice_last 499 b.history ++ stamp now e ∷ [];
  deliveries = b.deliveries ++ map (λ h. (h, stamp now e)) b.handlers;
}

unfoldable pub clear : Bus → Bus
clear b = record b { history = [] }

-- Events at their times, one after another.
unfoldable pub emit_all : List (ℕ × ClusterEvent) → Bus → Bus
emit_all [] b = b
emit_all ((now, e) ∷ es) b = emit_all es (emit now e b)
