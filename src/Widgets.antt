-- ===== src/Widgets.antt =====
-- The stateful components of dashboard/frontend/src/components/.
pub mod Bloom
pub mod LsmTree
pub mod Trace
pub mod Compaction
pub mod Toasts
pub mod WriteFeed
pub mod Packets
pub mod Migration
pub mod Tasks
pub mod ReadPath
