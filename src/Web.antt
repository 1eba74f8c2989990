-- ===== src/Web.antt =====
-- The web interface of web/src: its data, the layout of the debugger, and what the views compute.
pub mod Types
pub mod Layout
pub mod Tracing
pub mod Locks
pub mod Keyboard
pub mod Csv
pub mod Playback
pub mod Kinds
pub mod Graph
pub mod Tree
pub mod Rows
pub mod Services
pub mod Audit
pub mod App
pub mod Tests
