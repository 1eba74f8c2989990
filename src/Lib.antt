-- ===== src/Lib.antt =====
-- Raceway: the TypeScript side of a causality tracker for distributed programs.
--
-- A service uses the SDK (sdks/typescript). Its middleware gives each request a context, its
-- methods record events in that context, and its client buffers the events and sends them to the
-- server. Headers carry the context to the next service. The web interface (web/src) shows the
-- events that the server hands out; it finds their order again from the vectors that the SDK wrote.
--
-- Sdk models the SDK:
--   Sdk/Types: sdks/typescript/src/types.ts, a record for each interface.
--   Sdk/TraceContext: sdks/typescript/src/trace-context.ts. Clock has incrementClockVector and
--     makeClockComponent, Parent has parseTraceParent, isHex, uuidToTraceParent and
--     traceParentToUuid, Payload has parseRacewayClock, Incoming has parseIncomingTraceHeaders, and
--     Outgoing has buildPropagationHeaders.
--   Sdk/Client: sdks/typescript/src/client.ts. flush is cut at its `await`: `flush` goes up to the
--     request, `settle` from the answer to the end. Client/Accounting runs a client through any
--     sequence of calls, timer ticks and answers.
--   Sdk/Raceway: sdks/typescript/src/raceway.ts. Config has the constructor, Capture has
--     captureEvent and buildMetadata, Track the track methods, Wrap withLock and trackFunction,
--     Requests the middleware, propagationHeaders, flush and stop, and Location has
--     captureLocation and parseLocation.
--   Sdk/AutoTrack: sdks/typescript/src/auto-track.ts, the proxies, over a heap of objects.
--   Sdk/Runtime: sdks/typescript/src/runtime.ts, the one instance of instrumented code.
--   Sdk/BabelPlugin: sdks/typescript/babel-plugin/src/index.ts, which puts calls of that instance
--     into programs. The parent has the visitors, Traversal their use on a program, and Semantics
--     what programs do, for the part of the syntax that the visitors look at and make.
--
-- Web models what the web interface computes:
--   Web/Types: web/src/types.ts, the events.
--   Web/Layout: web/src/lib/debugger-layout.ts. Causality has happensBefore, Edges
--     computeCausalEdges, Timeline computeTimelineLayout and getThreadLabel, and
--     Changes getStateChangesForEvent.
--   Web/Locks: web/src/components/views/analysis/LockContentionView.tsx. Locks has the loop over
--     the lock events, Locks/Metrics what comes before and after it.
--   Web/Keyboard: web/src/hooks/useKeyboardShortcuts.ts, the key handler.
--   Web/App: web/src/App.tsx. Details has fetchTraceDetails and the effects that call it, TraceList
--     fetchTraces and loadMoreTraces, Routes the paths and the effect that follows them, Auth the
--     check of the login, Services fetchServices. What waits for the server is cut at its `await`,
--     and a run is a list of what happens: selections, refreshes, and answers in any order.
--   Web/Playback: web/src/components/views/debugger/CausalDebuggerView.tsx with the keys of
--     DebuggerControls.tsx, the position in the events and the playback.
--   Web/Graph: web/src/components/features/events/TraceDAGView.tsx, the links of the causal graph and
--     the levels of its nodes.
--   Web/Tree: web/src/components/features/events/TreeView.tsx, the groups of events of a request.
--   Web/Rows: web/src/components/features/events/TimelineView.tsx, the rows of overlapping events.
--   Web/Services: web/src/components/features/services/ServiceTimelineView.tsx, the lanes of the
--     services and the connections between them.
--   Web/Audit: web/src/components/views/audit/AuditTrailView.tsx, the variables of a trace, and in
--     Audit/Player the steps through the accesses of one, whose state is in Audit/States.
--   Web/Kinds: web/src/lib/event-utils.ts, what is shown of the kind of an event.
--   Web/Csv: exportToCSV of web/src/lib/export.ts.
--   Web/Tracing puts the SDK's events before the web interface's happensBefore.
--
-- Scripts/ValidateTrace models validateTrace of scripts/validate-trace.ts, and Scripts/Seeding the
-- script scripts/seed-database.ts, which makes the metadata that the former reads.
--
-- Prelude, Text, Json and Maps are shared. A JavaScript string is the list of its UTF-16 code units
-- (Text), a Map or a Set is a list in the order of insertion (Maps), and a value of type `any` is a
-- JSON value (Json), whose numbers are whole and not negative; the numbers of the program are
-- counters, statuses and times in milliseconds, which stay far below 2^53.
--
-- All functions recur on lists, texts, syntax trees or a number of repetitions, but for
-- calculate_level of Web/Graph and the walks of Web/Tree to parents and to children, whose nested
-- calls and rounds are bounded by the number of events: each call of the first visits an event that
-- the calls around it have not visited, and each round of the others goes to an event on which the
-- rounds before have not been, unless parents form a circle, where the source does not end.
--
-- What is not under the repository's control is a parameter: JSON and base64url (Codec), random
-- ids, the clock, the host name and the environment (Platform), `getTime` of a date, the stack
-- trace, the encoding of parts of a path (Uri), the parsing of URLs (Browser), what an instrumented
-- program calls (Host), and the answers of the server.
--
-- Not modelled: console output, rendering and drawing, the formats of floating-point numbers, the
-- server and the SDKs in other languages, and of the Babel plugin `await` and the assignment operators
-- other than `=`.
pub mod Prelude
pub mod Text
pub mod Json
pub mod Maps
pub mod Scripts
pub mod Sdk
pub mod Web
