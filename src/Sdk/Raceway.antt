-- ===== src/Sdk/Raceway.antt =====
-- sdks/typescript/src/raceway.ts: the class `Raceway`. Its methods are functions on a `Session`:
-- the instance, and the context that `racewayContext.getStore()` gives. `console` output is left
-- out, and so are the deprecated methods, which do nothing else.
pub mod Config
pub mod Session
pub mod Location
pub mod Capture
pub mod Track
pub mod Wrap
pub mod Requests
pub mod Performed
pub mod Chain
pub mod Guarding
pub mod Disabled
pub mod Handover
pub mod Frames
pub mod Stopping
pub mod Tests
