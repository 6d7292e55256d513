-- ===== src/Lib.antt =====
-- The dashboard of the LSM key-value store: the stores, services, contexts, pages and components of
-- dashboard/frontend/src/ that hold its state.
--
-- The parts. Background operations (services/backgroundOps.ts) register with the operations store
-- (store/operationsStore.ts), which polls the backend for a running load, keeps the running
-- operations in the browser's session and restores them at a page load. The sync engine
-- (store/syncEngine.ts) fetches the backend's state every 5 seconds, or when `triggerRefresh` is
-- called, into the cluster store (store/clusterStore.ts). The cluster context
-- (context/ClusterContext.tsx) keeps the nodes and partitions of the simulation
-- (services/simulation.ts), whose events go through the event bus (services/eventBus.ts), and a
-- history for replays. The log store (store/logStore.ts) is a rolling buffer, into which the
-- log generator (hooks/useLogGenerator.ts) writes. The ring
-- (utils/hashRing.ts, utils/ringGeometry.ts) says which node owns a key. The metrics hook
-- (hooks/useMetricsWS.ts) keeps a socket to the backend open. The pages show these parts, and keep
-- the state of their own controls and animations.
--
-- The files:
--   Operations        store/operationsStore.ts, the reads and mutations
--   Operations.Polling, Session, Calls
--                     its polls (startLoadPoll, _resumeLoadPoll, stopLoadPoll), its constructor
--                     and purge timer, and all of its calls as one type with the function `step`
--   Background        services/backgroundOps.ts, each function as a list of such calls
--   Api               the payloads of api/cluster.ts, api/live.ts, types/storage.ts
--   ClusterStore      store/clusterStore.ts
--   Sync              store/syncEngine.ts (doRefresh, triggerRefresh, useSyncEngine)
--   Failure           types/failure.ts
--   EventBus          services/eventBus.ts
--   Log               store/logStore.ts
--   LogGenerator      hooks/useLogGenerator.ts
--   Simulation        services/simulation.ts
--   Context           context/ClusterContext.tsx
--   Socket            hooks/useMetricsWS.ts, the connection
--   Urls              api/client.ts, and the address of the metrics socket
--   Ring              utils/hashRing.ts, resolveOwnerIndex of utils/ringGeometry.ts
--   Common, JsMap     shared lemmas; `Map` and `Set` in insertion order
--   Screens           pages/Dashboard.tsx (Overview), Logs.tsx (LogPage), Timeline.tsx, Snapshots.tsx
--                     (SnapshotPage), Rebalancing.tsx (Rebalance), Storage.tsx (StoragePage),
--                     ChaosEngineering.tsx (ChaosPage), Cluster.tsx (ClusterPage), Replication.tsx
--                     (ReplicationPage), Metrics.tsx (MetricsPage), HashRing.tsx (RingPage), and the
--                     sockets that Logs.tsx, Storage.tsx and LiveWriteFeed.tsx keep (PageSocket)
--   Widgets           components/storage/BloomFilterViz.tsx (Bloom), LSMTreeDiagram.tsx (LsmTree),
--                     CompactionAnimator.tsx (Compaction), LiveWriteFeed.tsx (WriteFeed),
--                     ReadPathAnimator.tsx (ReadPath), components/replication/PacketFlow.tsx (Packets),
--                     components/keys/QueryTrace.tsx (Trace), components/ToastContainer.tsx (Toasts),
--                     components/BackgroundTasksWidget.tsx (Tasks),
--                     components/hashring/RebalancingTokens.tsx (Migration)
--   Tests             concrete runs
-- The other modules below a part are named for what they prove; LogPage.Templates also holds the
-- templates of that page.
--
-- The model. A method is a function of the state; a listener is a number, and what listeners see
-- is a list in the state. `Date.now()` is an argument. The code after an `await` is one step, so
-- every interleaving is a list of steps: a poll may answer after its interval was cleared, and the
-- calls of a background operation have any other calls of the store between them. `setTimeout` is
-- a list of timers in the order of their due times; in the metrics hook a timer or a socket is a
-- number, and any of the pending ones may be next. A React callback closes over the state of a
-- render, which is the argument `seen`. A text is a list of code points.
--
-- Numbers are natural numbers. A lag of a running node is in tenths of a millisecond, that of a
-- payload in thousandths, and an angle in thousandths of
-- a degree, in which the constants of the source are exact; `Math.round` of a quotient is rounded
-- exactly, half up, where the source rounds a float. `(ms / 1000).toFixed(2)` is the parameter
-- `seconds`. The loop of `syncNodes` has the number of backend nodes as fuel, and the digits of a
-- number the number and one; both are enough.
--
-- The state of a page or of a component is a record, and its handlers, effects and timers are
-- functions of it. A random number is an argument. Where a component sets several timers, any of the
-- pending ones may fire next, unless their delays fix the order.
--
-- Not modelled: what the components render, and the hooks that only re-read a store; the lines
-- that the log generator seeds at its mount, and the clock format of its times; the other clients
-- of api/, which are single requests; formatting and sums of floats for display; the backend in
-- dashboard/api and the key-value store in lsmkv, which are Python.
pub mod Common
pub mod JsMap
pub mod Operations
pub mod Background
pub mod Api
pub mod ClusterStore
pub mod Sync
pub mod Failure
pub mod EventBus
pub mod Log
pub mod LogGenerator
pub mod Simulation
pub mod Context
pub mod Ring
pub mod Socket
pub mod Urls
pub mod Widgets
pub mod Screens
pub mod Tests
