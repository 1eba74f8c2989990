-- ===== src/Sdk.antt =====
-- The TypeScript SDK, sdks/typescript/src.
pub mod Types
pub mod TraceContext
pub mod Client
pub mod Raceway
pub mod AutoTrack
pub mod Runtime
pub mod BabelPlugin
