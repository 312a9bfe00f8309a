-- ===== src/Lib.antt =====
-- The groundcover Go SDK: what it does with a captured event, from the event to the wire.
--
-- The parts and how they interact. A capture builds an event, merges the request scope and the
-- options of the call into it, hands it to BeforeSend, hashes the identity, labels it and enqueues
-- it (client.go). The package-level functions do so with the client that Init made last
-- (client_global.go), and a middleware (nethttp, contrib) for the panics and errors of the
-- handlers that it runs, each in a scope of its own. The bounded buffer (internal/ringbuf) keeps
-- the newest events that fit its bounds on items and bytes. The worker
-- (internal/transport/worker.go) takes batches from the buffer and sends each, with retries; the
-- counters (internal/selfmetrics) account for every event, and a throttled log
-- (internal/logthrottle) reports trouble. internal/safeguard keeps panics of user code from the
-- program.
--
--   Base          Boolean tests, lists, Go's 64-bit words and a small ℤ.
--   Ring          internal/ringbuf/ringbuf.go: New, Push, PopBatch, DrainAll, Len, Bytes. Core has
--                 the contents as a queue, Inv the validity of a buffer, Fifo the specification;
--                 Push, Batch and Drain show that the operations implement it; Frame has the
--                 fields that they leave alone, Weight the bound on the byte account. Feed is about several
--                 pushes. Queue is the specification as a program, and Refinement compares the two
--                 over any calls.
--   Metrics       internal/selfmetrics/selfmetrics.go and stats.go: every counter, Snapshot, Stats.
--                 Collector is prometheus/prometheus.go.
--   Transport     internal/transport: Config is WorkerConfig.withDefaults, Sender is classify and
--                 parseRetryAfter, Http is HTTPSender.Send, Backoff is expBackoff, classifyRetry and
--                 the generator of util.go, Delivery is deliverBatch and sendWithRetry, Worker is
--                 dispatchReady, and Lifecycle is Start, loop, Notify, dispatch, Flush and Close as a
--                 step relation, with Settled for what they keep, Flushed and Returns for what
--                 Flush delivers, Missed for what it misses, and Progress for how much they can
--                 do.
--   Pipeline      enqueue, dispatch and metricsObserver as a step relation over the buffer, the
--                 counters and the sends under way. Accounts and Conservation have its invariant.
--   Throttle      internal/logthrottle/logthrottle.go: admit, logAt. Counts and Limits.
--   Capture       The root package: Attributes (attributes.go), Event (level.go, user.go, event.go),
--                 Scope (scope.go, with Requests for requests that are served at once), Title
--                 (title.go), Fingerprint (fingerprint.go, with Stable), Client (the
--                 captures, finishAndEnqueue and enqueue of client.go), Settings (config.go),
--                 Wire (wire.go: the metadata, the payload, the estimate of sizes), ErrorType
--                 (errors.go), Identifiers (uuid.go), Resource (resource.go and Version), Version
--                 (normalizeModuleVersion of version.go), Stack (stacktrace.go), Hasher
--                 (hasher.go), Logger (logger.go), Debug (debug.go, in the bytes of Utf8).
--                 Attributes/Unordered forgets the order of a map's entries, and AnyOrder shows
--                 what does not depend on it.
--   Guard         internal/safeguard/safeguard.go: Do, Recover and Go, over any state.
--   Middleware    nethttp/middleware.go and contrib: Http has net/http, gin, iris, echo, fiber,
--                 fasthttp and negroni, Rpc has the interceptors of grpc (with
--                 Method for the names of methods). Faithful compares each with
--                 its handler; Policy is one middleware for all, by a table, and Uniform compares
--                 each with that.
--   Sdk           client.go from the outside: newClient (Setup), the entry points (Calls), the
--                 global client of client_global.go (Global, with Session for any calls of it),
--                 what of an identity reaches the wire (Privacy), and what of the captures a drain
--                 of the buffer sends (Delivered).
--
-- How the code is modelled. A method that holds a lock is one function from the state to the
-- state; interleavings are sequences of steps. A slice is a list, its length a number without
-- bound. The byte account of the buffer, the counters, the backoff and the jitter are 64-bit words
-- with their wrap-around, compared as signed integers where the code does; where a theorem needs
-- that sizes stay below 2 ^ 62 or a limit below 2 ^ 63, it says so. What a goroutine does to the
-- world is a list of effects: the sends of a batch have theirs settled when the batch is
-- dispatched, and the pipeline releases them one by one, among all others. A nil Observer does
-- nothing. User code that panics is a value: an option or a hasher that gives none, an OnDrop or a
-- debug writer that answers so, a BeforeSend, an encoder or a sender whose outcome is a panic. Scopes live in a store, contexts carry their
-- numbers, so that two contexts share a scope exactly if the code has them share the pointer. Go
-- maps are association lists whose first entry counts.
--
-- Fuel. shrink takes as many rounds as the buffer has entries, drain and take_batch likewise;
-- deliver_from takes MaxRetries + 1, dispatch_rounds one more than the entries. Delivery and
-- dispatch give none where fuel runs out, and their theorems show that they never do. format_uint
-- has 16 rounds for the 16 digits of a 64-bit number, and decimal 19 for those of an int.
--
-- In Sdk, the worker's work is an argument: the batches that it takes in a flush of Recover or
-- between two calls, and what it adds to the counters. A Close in the background is no part of it.
--
-- Interleavings. Pipeline follows the senders and the captures, one locked call or atomic update
-- at a time; Lifecycle follows the worker's goroutine with one caller of Flush and one of Close,
-- one operation on a channel, the buffer or the wait group at a time. The return of inflight.Wait
-- is a step before the select of waitInflight; the close of the channel done, which nobody but the
-- waiting goroutine sees, goes with it.
--
-- Parameters. http.ParseTime and the clock, the encoder, the sender and the context of a batch,
-- what %v prints, the identity hasher and HMAC-SHA256, gzip, the check of a URL, the HTTP client,
-- the random bytes, the host's environment, the frames on the runtime's stack, what a framework
-- keeps of a request, the code of a gRPC error and all user code are arguments of the definitions
-- that use them.
--
-- Not modelled. JSON marshalling; the log line of a contained panic; the text of log/slog and of the Prometheus exposition; examples and test helpers. dispatch_ready runs on a
-- buffer that nobody else changes meanwhile; Pipeline and Lifecycle have the case in which they
-- do. A handler that puts another scope into its request's context, and a middleware with a client
-- of its own, are left out. Metrics.Snapshot reads all counters at once. Attribute values that
-- hold themselves, chains of Unwrap that run in a circle and Go strings that are no UTF-8 are left
-- out.
pub mod Base
pub mod Ring
pub mod Metrics
pub mod Transport
pub mod Pipeline
pub mod Throttle
pub mod Capture
pub mod Guard
pub mod Middleware
pub mod Sdk
