-- ===== src/Tests.antt =====
-- Runs of the models on concrete data, where the hypotheses of the theorems hold.
mod Store
mod Nodes
mod Pages
mod Sockets
mod Ticker
mod Animations
mod Screens
