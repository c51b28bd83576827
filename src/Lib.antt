-- ===== src/Lib.antt =====
-- Control Center's core: plugin policy, the job queue, event log, storage rules and browser proxy.
--
-- A Control Center host runs plugins. Every piece of host-managed work asks internal/core/policy
-- first: it holds whether a plugin is enabled, its budgets for the hour, the day and the month, and
-- the money that paid calls have reserved and committed. internal/core/jobs runs the plugins' work
-- from a durable queue in SQLite: jobs are enqueued (by a plugin, a user or a cron schedule), claimed
-- under a lease with a fence number, renewed, retried and finished. Both publish to
-- internal/core/events, a log whose durable subscribers select event types by pattern, each with a
-- cursor that a handler's success moves; retention deletes old events that no cursor is before. All
-- keep their tables through internal/core/storage, which applies migrations and confines a plugin's
-- SQL to its table prefix. A plugin's browser reaches the network through the proxy of
-- internal/core/browser, which checks addresses, and only to hosts of its allowlist. A plugin's calls
-- of a model go through internal/core/ai, which reserves the most that a route may cost, tries its
-- attempts and settles what they charged; internal/core/credentials keeps the secrets that they need,
-- sealed; internal/core/web streams the log to the administrator's page. The queue calls
-- policy's gate inside its own transactions; its answer is the type Jobs.Types.Verdict, and an
-- argument of the definitions that ask.
--
-- Policy/ (internal/core/policy)
--   Types       policy.go and the tables of migrations.go; transactions: an error rolls back
--   Queries     queries.go: readStateRow, windowUsage, takeReservation, recordBudgetExceeded
--   Admin       admin.go: Register, Enable, Disable, SetBudget
--   Store       store.go: CheckWork, ReserveSpendTx, SettleSpendTx, ReleaseSpendTx,
--               SettleOrphanedReservations
--   View        usage of a period and the flags of a plugin, for statements
--   Enabling, Admission, Rejection, Overflow, Commit, Settlement, Overcharge, Automation,
--   History   proofs
-- Jobs/ (internal/core/jobs)
--   Types       jobs.go and the tables of migrations.go
--   Queue       enqueue.go, enqueueTx of cron.go, retention.go and BackoffPolicy.delay of queue.go
--   Worker/     worker.go: Claiming has claimOne and the fence; Attempts has the heartbeat, finish with
--               its endings, Progress and flushLogs
--   Schedules   considerSlot and CatchUpSchedules of cron.go
--   Bits, Cron  the cron expressions of cron.go
--   Rows, Steps, Kept, Transitions, Lifecycle, Ownership, Retries, Due, Idempotency, Slots   proofs
-- Events/ (internal/core/events)
--   Pattern     pattern.go: validation, CompilePattern, Matches, sqlPrefix
--   Log         events.go and log.go: prepare, PublishTx, TailTx, readAfter, Query; input of scoped.go
--   Durable/    durable.go: Subscribing has names, retry policies, ensureCursor and subscribeDurable;
--               Dispatching has the leases, step, dispatch and recordFailure; Operating has RetryPaused,
--               SkipPaused, ResetCursor and RemoveSubscriber
--   Live        log.go: liveSub, drainOnce and fanOut
--   Cleanup     retention.go: RunRetention
--   World       histories of all these, and the reset of handleSubscriberAction in
--               internal/core/web/handlers_events.go
--   Matching, Prefix, Querying, Publishing, Progress, Retained, Rows, Owed, Keeping, Positions, Polling,
--   Settling, Delivery, Draining   proofs
-- Storage/ (internal/core/storage)
--   Authorizing authorizer.go: authorize, isSequenceTable, tableAllowed, and the prefix of prefix.go
--   Migrating   migrate.go: Apply, applyPrefixed, applyOne, applyOnePrefixed, validateOrder, schemaOutside;
--               pluginMigrator of prefix.go
--   Foreign, Recorded, Applying, Ended, Leaving, Rerun   proofs
-- Browser/ (internal/core/browser)
--   Allowlist   allowlist.go: parseAllowlist, canonicalHost, checkURLScheme
--   Proxy       checkResolvedIP of allowlist.go, checkHost and dialChecked of ssrf.go
--   Reach, Public   proofs
-- Ai/ (internal/core/ai)
--   Route, Compile   compile.go and validName of providers.go: routes, what they may cost, charges
--   Records     the tables of migrations.go, attemptOutcome and providerResult of service.go
--   Dispatch, Calls   execute of dispatch.go: the loop over the attempts; the two transactions around it.
--               spillover and markDispatching of service.go
--   Requests    Chat, Embed and validateEmbed of dispatch.go, route of service.go
--   Recovery    recover and finalizeConservative of service.go
--   Cost, Estimate, Planned, Accounts, Waiting, Ledger, Bounded, Finished, Served, Recovered,
--   Restart     proofs; Samples has concrete calls for Tests
-- Credentials/ (internal/core/credentials)
--   Envelope    crypto.go: appendLP, bindAAD, encrypt, decrypt
--   Binding, RoundTrip   proofs
-- Web/ (internal/core/web)
--   Stream      stream.go: resumePoint, toWire, sseMessage, handleStream
--   Batches, Replay, Delivery   proofs
-- Stamp is rfc of internal/core/jobs/queue.go: the time stamps, which SQL compares as text. Backoff is the
-- doubling of a delay that jobs/queue.go and events/events.go share.
-- Common/ holds the Boolean tests, texts as bytes, tables with a key, and int64 words. Each Tests module
-- runs the models at concrete inputs.
--
-- A database is a record of tables, and an operation a function from it to a result with a new one;
-- the SQL of each statement is a function on the table that it names. A transaction that fails leaves
-- its database as it was, except where policy commits a budget rejection on purpose, and where the
-- SQL of a plugin's migration has ended the transaction before (Storage.Migrating.SqlEnd). What the source
-- draws from its environment is an argument: the time, the reservation id, the owner of a worker, the
-- time zone's wall minute, the error that a handler returned. Histories (Policy.History, Jobs.Steps,
-- Events.World) are lists of calls, each with its time, so that workers and processes interleave in
-- any order. In Events.World a process polls and finishes what it found in separate steps, with any
-- steps of others between them. SQL's LIKE is an argument of Query, and what the SQL of a migration
-- does is one of Apply.
--
-- Money and durations are int64 words in two's complement (Common/Word). Table sums are natural
-- numbers, and a sum that does not fit int64 is an error of the query, or of the upsert that would
-- store it, as in SQLite's STRICT tables. Ids of events are taken to be below 2 ^ 63 - 1. Loops over a list
-- recurse on it; the doubling of a retry delay recurses on the attempt number, which bounds it; the
-- loop over a cron range recurses on a bound above the largest value of a field, and the parser
-- refuses what lies outside. The rounds of drainOnce have fuel; Draining shows how much is enough.
--
-- Ai composes with Policy: execute and finalize_conservative call ReserveSpendTx, SettleSpendTx and
-- ReleaseSpendTx on the policy tables that stand in the same record. What happens around each attempt
-- (a context that is done, a write that fails, a credential, the provider's result) is a function of
-- its ordinal. Web composes with Events: each round of a stream calls Query on the log that it sees,
-- and the rounds are a list, which ends where the observation does. AES-GCM, encoding/json, strconv and
-- the renewal of a session are arguments; the theorems name what they rely on.
--
-- Left out: goroutines, timers and the map of running attempts; the marshalling of arguments and of
-- event payloads, and outside PublishTx the limit on their size; the fraction of a job's progress; the read-only listings; the watchers' own code;
-- the handlers that empty the queues of live subscriptions; SQLite's connections and the blobs of
-- storage. Of the browser only the allowlist and the proxy's checks are modelled, of AI neither the
-- adapters of providers nor the stored configuration, of credentials the envelope alone, of the web
-- server the event stream and the subscriber actions. Search, harness, notifications, push, plugin host
-- and the plugins are not modelled.
pub mod Common
pub mod Stamp
pub mod Backoff
pub mod Policy
pub mod Jobs
pub mod Events
pub mod Storage
pub mod Browser
pub mod Ai
pub mod Credentials
pub mod Web
