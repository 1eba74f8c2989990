-- ===== src/Sdk/TraceContext.antt =====
-- sdks/typescript/src/trace-context.ts: the trace headers that a service reads and writes. The
-- random values of `uuidv4` and `randomBytes` are arguments.
pub mod Clock
pub mod Parent
pub mod Payload
pub mod Incoming
pub mod Outgoing
pub mod Vector
pub mod UuidHex
pub mod RoundTrip
pub mod Tests
