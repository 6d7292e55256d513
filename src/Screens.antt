-- ===== src/Screens.antt =====
-- The state of the pages of dashboard/frontend/src/pages/.
pub mod Timeline
pub mod Rebalance
pub mod SnapshotPage
pub mod LogPage
pub mod Overview
pub mod StoragePage
pub mod PageSocket
pub mod ClusterPage
pub mod ReplicationPage
pub mod RingPage
pub mod MetricsPage
pub mod ChaosPage
