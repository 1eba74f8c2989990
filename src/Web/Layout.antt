-- ===== src/Web/Layout.antt =====
-- web/src/lib/debugger-layout.ts: the timeline of the causal debugger.
pub mod Causality
pub mod Order
pub mod Edges
pub mod Timeline
pub mod Lanes
pub mod Sorting
pub mod Nodes
pub mod Changes
