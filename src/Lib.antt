-- ===== src/Lib.antt =====
-- Verification of the durable core of the harness security gateway.
--
-- The gateway takes messages from chat connectors, authorizes them against exact bindings, runs each
-- one in an isolated harness runner and delivers the reply. agentd keeps what must not be lost in an
-- SQLite database, internal/corestore: the Runs, the inbound receipts with a replay horizon for each
-- connector, the current session of each session scope, and the outbox of replies. sandboxd, which
-- executes a Run, keeps a ledger of its own, internal/sandboxstore: the accepted requests, their event
-- logs, the staged outcomes, the sessions, and the leases of workspaces and credentials. This library
-- models both stores and what stands around them: the service between the connectors and corestore
-- (internal/agentservice) with the protocol that it speaks (internal/connectorwire), the compiled
-- policy that authorizes a message (internal/agentpolicy), the session scopes (internal/sessionauth),
-- the protocol between agentd and sandboxd (internal/executionwire), and the events by which a runner
-- reports a Run to sandboxd (internal/runnerwire).
--
-- Files:
--   Prelude, Prelude/*       Boolean tests, byte strings, results, and SQL tables as lists of rows with
--                            one function for each kind of statement and the laws of those functions
--   Text                     UTF-8, and the character classes of Go that the validators use
--   CoreStore/Types          internal/corestore/types.go, and the tables of its migrations
--   CoreStore/Validate       internal/corestore/validate.go
--   CoreStore/Options        validateAdmissionOptions of store.go, and the lease bounds
--   CoreStore/Tables         the WHERE tests, sessions.go, and the end of a transaction (`attempt`)
--   CoreStore/Evict          evictInboundReceipts of runs.go
--   CoreStore/Ingest         IngestTextRun, sessionScopeBusy and checkInboundCapacity of runs.go
--   CoreStore/Dispatch       ClaimQueuedRun, PrepareRunStart, MarkRunRunning and ListRunningRuns
--   CoreStore/Finish         FinishRun and sameFinish of runs.go
--   CoreStore/Outbox         insertDeliveryTx and ClaimTextDeliveries of outbox.go
--   CoreStore/Completion     CompleteDelivery and retryBackoff of outbox.go
--   CoreStore/Maintenance    InspectSession and ResetSession of maintenance.go
--   CoreStore/Invariant      well-formed databases, with a proof for each operation below it
--   CoreStore/Trace          sequences of operations; below it what holds along them
--   CoreStore/Admission, CoreStore/Admission/Limits, CoreStore/Replay, CoreStore/Dispatch/Claim,
--   CoreStore/Finish/Repeat, CoreStore/Completion/Backoff, CoreStore/Completion/Repeat
--                            the results of single operations
--   CoreStore/Scenarios      one message from its ingest to its delivery, on concrete inputs
--   AgentPolicy              internal/agentpolicy/policy.go
--   SessionAuth              Validate of internal/sessionauth/scope.go
--   ConnectorWire            internal/connectorwire/types.go and validate.go
--   AgentService             Ingest, Claim and Complete of internal/agentservice/service.go
--   AgentService/Hash        the bytes that hashInboundEvent and hashInboundEventV1 hash
--   AgentService/Admission, AgentService/Completes, AgentService/Answers, AgentService/Hash/RoundTrip
--                            the service together with the policy and the store
--   ExecutionWire            internal/executionwire/types.go and validate.go
--   SandboxStore/Types       the types of internal/sandboxstore/store.go and the tables of migrate.go
--   SandboxStore/Validate    the argument checks of runs.go, and hostepoch.Validate
--   SandboxStore/Tables      getRunQuerier and scanRun, and the credential checks of credentials.go
--   SandboxStore/Sessions    internal/sandboxstore/sessions.go
--   SandboxStore/Register    RegisterStart and GetRun of runs.go
--   SandboxStore/Runtime     the runtime intent and reference, MarkCancelling, ConfirmRuntimeStopped
--                            and the lists of runs.go
--   SandboxStore/Events      AppendEvent, ReconcileInterrupted and transition of events.go
--   SandboxStore/Staged      StageTerminal and stagedTerminal of staged.go, and below it what they read
--                            back of what they store
--   SandboxStore/Snapshot    GetSnapshot and listEventsQuerier of events.go
--   SandboxStore/History, SandboxStore/Invariant, SandboxStore/Trace
--                            the event log of a Run, and that each operation keeps it: the proofs are
--                            given once for every property that fits the interface `IsStable`
--   AgentService/Scenarios, SandboxStore/Scenarios
--                            the service and the ledger on concrete inputs
--   RunnerWire               the run events of internal/runnerwire/types.go
--   RunnerWire/Sequence      internal/runnerwire/sequence.go
--
-- A Go function has the snake_case of its name here, and a method of Store takes the database and
-- returns its outcome with the database after it. A transaction begins with the write lock
-- (_txlock=immediate), so the operations on one database are a sequence, and each is one step. An
-- error rolls the database back to what it was, except where the code commits a rejection: then the
-- eviction stays. Callbacks (the authorizer, the sources of identifiers and tokens, the clock) are the
-- answers that they would give.
--
-- Times are milliseconds, windows and leases nanoseconds, both natural numbers; a clock reading or an
-- occurrence time of 0 stands for every value that is not after the Unix epoch, all of which the code
-- refuses alike. Where the code tests for an overflow of int64 the model has the same test, and the seq
-- of the event validator wraps at 2^64; those of a ledger need no wrap, since none passes 512 (a theorem
-- below). No function uses fuel: loops are recursion on their list, and the loop of retryBackoff on its
-- count of rounds.
--
-- Parameters stand for what the code calls and this library does not read: json.Marshal and SHA-256
-- behind fingerprints and digests, StartRunFingerprint, the clock readings, and the random run ids and
-- claim tokens.
--
-- Deadlines are taken in UTC, while MarshalText judges the year in the zone that a deadline carries: the
-- two differ only within a day of the bounds of the years.
--
-- Not modelled: error texts; failures of SQLite (except that Service.Complete takes whether the
-- transaction of CompleteDelivery can be begun), of the file system and of contexts; the SQL text
-- itself, which is taken as the table functions that it denotes; the triggers that repeat a check of
-- the Go code; opening and migrating a database; the checks of the configuration that run before
-- Compile builds its tables; in sandboxstore, the registration of targets and the registration and
-- revocation of credentials. The other packages (sandboxd's controller and service, the dispatch loop
-- of agentd, HTTP, Docker, connectors and provider relays) are outside this library.
pub mod Prelude
pub mod Text
pub mod CoreStore
pub mod RunnerWire
pub mod AgentPolicy
pub mod SessionAuth
pub mod ConnectorWire
pub mod AgentService
pub mod ExecutionWire
pub mod SandboxStore
