-- ===== src/Lib.antt =====
-- errorcore: models of the SDK that records the I/O of a Node.js process and reports its errors, and
-- proofs about them.
--
-- The SDK's recorders turn each request, query and socket of the process into an event and push it
-- into one ring buffer, stamped by a Lamport clock that peers also move. When an error is thrown the
-- capturer takes the request's events out of the buffer, within a limit on captures per window, and
-- sends the package. Large bodies go to a spool in memory, the requests in flight are tracked until
-- they end, and counters of the SDK's own health are kept. A transport dispatcher sends packages by a
-- worker or from a queue of the main thread; what cannot be sent goes to a signed dead-letter file,
-- which the next start drains. What is captured at all depends on a mode, which the user or errors
-- switch.
--
--   Common          shared names; Common/Tests Boolean tests on numbers, Common/Lists, Common/Ints,
--                   Common/Maps JavaScript maps with string keys as lists of entries,
--                   Common/Results what a function that may throw returns
--   Clock           src/context/event-clock.ts: EventClock.tick, merge and current are tick, merge
--                   and current; Clock/Laws the stamps
--   Buffer          src/buffer/io-event-buffer.ts: the state of IOEventBuffer and its evictions
--     Slot          src/types.ts: events, slots and eviction records
--     Compact       estimateBytes and compactSuccessfulSlot
--     Writes        push, updatePayloadBytes, compactCompletedRequest, releaseCompletedRequest,
--                   compactDetachedSlot and clear
--     Reads         filterByRequestId, getRecent, getRecentWithContext, getEvictionLog, drain and
--                   the statistics
--     Queue         the queue that a ring holds; Cells, Evict, Frame, Store, Push and Queries
--                   relate the operations to it, Log the eviction log, Accounting the counters
--   Spool           src/spool/payload-spool.ts: the entries, sweeping and the pressure levels;
--                   Spool/Store the store operation, and the proofs in Entries, Accounts, Bounds,
--                   Stored, ReadBack and Runs
--   RateLimiter     src/security/rate-limiter.ts; Window the rate admitted, Drops the summaries
--   RequestTracker  src/context/request-tracker.ts; Invariant and Sweep the tracker, Conservation
--                   where its contexts end up, Cleanup the listeners of registerRequestCleanup
--   Health          src/health/health-metrics.ts; Latency the samples kept, Percentile their ranks
--   Assembly        src/capture/package-assembly-dispatcher.ts: the requests to the worker and their
--                   promises; Settlement and Runs how they are settled, Ids the request ids
--   StackOwnership  src/capture/stack-ownership.ts: the frames of a stack that are the application's
--   CaptureMode     src/capture-mode.ts: the defaults of the modes; Resolve the settings that a mode
--                   resolves to, its Laws how these depend on each other
--     Resources     src/capture-mode-controller.ts: the calls of applyModeState, and Effects what
--                   the callbacks of src/sdk.ts do, Reflects what a state asks of the resources,
--                   Steps and Laws the transitions
--     Diff          diffModeStates; Complete relates it to equality
--     Controller    the state of the controller and, in Steps, its operations, cut at their waits:
--                   microtasks, the chain of switches and the switch that runs are part of the state;
--                   Intent and its Order the switches of the user and of adaptive capture
--   DeadLetters     src/transport/dead-letter-store.ts: the types of the store
--     Envelope      parseRawEnvelope, parseEnvelope and the signatures; Verifier createHmacVerifier
--     Store         the operations of DeadLetterStore; Printed the lines, Entries what a drain finds in
--                   them, RoundTrip relates an append to a drain, Resign reSignAll to it
--     Startup       drainDeadLetters of src/sdk.ts; Progress its loop, Kept what it leaves
--   Transport       src/transport/transport.ts: send and flush of TransportDispatcher; Pending the
--                   ids of the requests, Counts where a promise stands, Settlement and Runs how it
--                   is settled, Queue the loop over the queue, Bounds the sizes of the queue and of
--                   the resolvers
--
-- State is a record that each operation takes and returns; what an operation reads of the world (the
-- time, the heap, the depth of a queue) is an argument, and what it calls outside is a value in its
-- result. JavaScript numbers are natural numbers, or integers where the code can go below zero.
-- Object identity, which `storedSlots` depends on, is a number per slot. Loops over a range of
-- cursors recurse on the rounds that are left. The loop of `enforceByteBudget` recurses on fuel, the
-- number of slots, which suffices because each round evicts one. Quotients of the pressure levels
-- and percentiles are compared as products of natural numbers, without the rounding of floating
-- point.
--
-- Not modelled: the shutdown of the transport dispatcher and the transports themselves, file system
-- calls that throw, the capture of errors and local variables, the scrubbing of personal data, the
-- hooks into drivers and web frameworks, encryption, the configuration and the viewer. Much of it is
-- glue to the runtime; the guards of the error capturer and the limits on clones can be added in the
-- same way.
pub mod Common
pub mod Clock
pub mod Buffer
pub mod Spool
pub mod RateLimiter
pub mod RequestTracker
pub mod Health
pub mod Assembly
pub mod StackOwnership
pub mod CaptureMode
pub mod Transport
pub mod DeadLetters
