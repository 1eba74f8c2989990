-- ===== src/Web/App.antt =====
-- web/src/App.tsx: the state of the application, without its rendering.
pub mod Details
pub mod TraceList
pub mod Routes
pub mod Auth
pub mod Services
pub mod Tests
