-- ===== src/Lib.antt =====
-- Kovael is an orchestrator of agents: a task is claimed, goes through the phases of one
-- Architect, Operator, Verifier cycle, and is logged, retried and reconciled. This library models
-- the services that keep the state of this, each as a record and one function for each method,
-- with a step and a run over the calls that clients make.
--
-- The parts, and the files under src/ of the repository:
--   Claims      protocols/TaskClaimMachine.ts: the ledger of task claims (`register`, `tryClaim`,
--               `markRunning`, `markRetryQueued`, `release`, `prune`, `dueForRetry`, `stats`)
--   Triad       protocols/TriadStateMachine.ts: the phases of a cycle (`transition`, `trail`)
--   Retries     services/RetryQueue.ts: failures wait for a retry (`enqueueFailure`, `sweep`)
--   Reconciler  services/Reconciler.ts: stalled claims are released, old ones removed (`sweep`)
--   Circuit     services/CircuitBreaker.ts: `canDispatch`, `recordFailure`, `recordSuccess`
--   Rates       services/RateLimitTracker.ts: a sliding window of dispatches for each agent
--   Limiter     services/RateLimiter.ts: a token bucket for each client (`consume`, `clientKey`)
--   Ring        services/TraceRingBuffer.ts: the newest traces (`put`, `list`, `trimTo`)
--   CycleLog    services/CycleLog.ts: the numbered rows of a cycle and their Merkle root
--   Chairs      services/ChairRegistry.ts: agents' sessions and their mirror on disk
--   Governor    services/ResourceGovernor.ts: the active and the idle profile
--   Sanitizer   services/TraceSanitizers.ts: a trace cut down to the bytes of the buffer
--   Healer      services/SelfHealer.ts: a repair by a patch that the tests accept, or its rollback
--   Hooks       services/HookRunner.ts: the hooks around a cycle (`run`, `shouldAbort`)
--   Bridge      MevBridge.ts: the choice of the architect, and the loop of Architect, Operator and
--               Verifier to a receipt or an exception (`execute`)
--   Mesh        MeshOrchestrator.ts: `injectTask`, and the counters of phases and receipts
--   Dispatches  MeshOrchestrator.ts: the counters of chair dispatches
--   Bus         services/ConversationBus.ts: topics, histories, mentions, and the round table
--               (`convene`) and the committee of a topic
--   Consensus   services/ConsensusEngine.ts: the weighted vote (`evaluateCommittee`)
--   Gate        services/ApiTokenGate.ts: bearer tokens on requests and upgrades
--   Envelope    services/ChairDispatchSecurity.ts: sealed dispatches and proofs of replies
--   Hub         services/AgentHubStore.ts: an agent's dispatches, its outbox with leases, its chain
--               of receipts and its memory
--   Common, Table  the shared helpers, and JavaScript's `Map` with text keys
--   Examples    runs of the definitions, and the theorems at concrete inputs
-- Retries and Reconciler hold the ledger of Claims that they share in the program. Mesh holds the
-- retry queue, the governor, the hooks and the bridge; what else the orchestrator does while a call
-- waits is any function on its state, and so is what others do to the bus while `convene` waits.
--
-- Names are the source's in this library's spelling: `tryClaim` is `try_claim`. A method takes its
-- object and the clock's reading, and returns the new object beside its result; it is synchronous,
-- so it reads the clock once. What is emitted is kept in a list, newest first. An exception is
-- `none` or an error value. Times and counts are natural numbers, and a comparison of a
-- difference is written as one of a sum, so that a clock that runs backwards is covered.
--
-- Fuel: `CycleLog.reduce` has as many rounds as there are leaves, enough since a round makes a
-- level of two or more digests shorter; `Sanitizer.shrink` as many as there are spans, enough since
-- a round drops one; `Common.Decimal.digits` one more than its number, enough since a round divides
-- it by ten. The round table's loop goes down in the turns left and then in the
-- queue. Every other loop is structural.
--
-- Parameters: the hash functions and the JSON texts of the log and the registry, the bounding of a
-- trace's payload in Ring, the sanitizing of one span, Node's `isIP` of the limiter, the
-- dispatcher of the retry queue; of the healer the commands of git and the tests, with the
-- reading and the checks of a patch; of the hooks what a handler does; of the bridge the prompt of
-- a persona and the stages that throw; of the orchestrator the path of a workspace; of the round
-- table the replies of the chairs; of the hub the JSON texts and the proofs of replies; of
-- the envelopes Node's ciphers, digests and JSON texts.
--
-- Not modelled: the wiring, the broadcasts and the idle mode of the orchestrator, migrations of
-- databases, the sealing of their columns, HTTP, sockets, child processes, the loaders of
-- configuration, output, and the cockpit under packages/. Of a committee, the
-- traces and the synthesized votes. Token counts are in millionths with a refill
-- rate in thousandths, and the retry queue's factor is a whole number.
pub mod Common
pub mod Table
pub mod Claims
pub mod Triad
pub mod Retries
pub mod Reconciler
pub mod Circuit
pub mod Rates
pub mod Limiter
pub mod Ring
pub mod Sanitizer
pub mod CycleLog
pub mod Chairs
pub mod Governor
pub mod Healer
pub mod Hooks
pub mod Bridge
pub mod Mesh
pub mod Dispatches
pub mod Bus
pub mod Hub
pub mod Envelope
pub mod Consensus
pub mod Gate
pub mod Examples
