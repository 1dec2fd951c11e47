-- ===== src/Lib.antt =====
-- Agents submit payment, trustline and contract intents to 4evergent. An intent passes the policy
-- engine, is written to the activity log, and is executed by a queue of workers that retries what
-- fails, while a recovery service and a reconciler repair records that a crash or a slow network
-- left behind. Schedules hand intents to the same queue when they are due. This library models those parts and proves what each of them promises.
--
-- Which file models which part:
--   Base, Base/*          tests on numbers and texts, sorting, string maps in insertion order (a
--                         JavaScript Map), and the interface Floats of IEEE numbers
--   Shared                packages/shared/src/types.ts: intents, rules, decisions, activities
--   Shared/Auth           packages/shared/src/auth.ts, production-auth.ts, dev-auth.ts
--   Execution             packages/database/src/execution-types.ts
--   Execution/Retry       packages/database/src/execution-policy.ts and shouldRetryNow
--   Execution/Store       packages/database/src/execution-store.ts: InMemoryExecutionStore
--   Execution/Queue       apps/api/src/execution-queue.ts: claim, complete, fail, runExecution and
--                         processDue; Queue/Manual models retry and cancel
--   Execution/Recovery    apps/api/src/execution-recovery.ts
--   Execution/Reconciler  packages/stellar/src/reconciler.ts
--   Execution/Workers     the steps of all of the above on one store, as a relation
--   Activity              packages/database/src/index.ts: InMemoryActivityStore, createActivity
--   Policy/Checks, Daily, Engine   packages/policy/src/engine.ts: the checks of
--                         evaluateWithRules, the daily limit, and their order
--   Approval              packages/database/src/index.ts: InMemoryApprovalStore, createApproval,
--                         validateApprovalTransition
--   Intents               packages/agent-core/src/intent-validator.ts
--   Network               packages/stellar/src/network-guard.ts, submitter.ts; Network/Gate has what
--                         passes them
--   Pipeline              packages/stellar/src/pipeline.ts: Pipeline/Execute models the steps of
--                         execute and Pipeline/Approved those of executeApproved, their children
--                         Admission what comes before; Gate, Steps, Once and Attempts are about
--                         what they send, Unkeyed about what they record
--   Agents                packages/database/src/agent-store.ts, authorization.ts
--   Server                apps/api/src/index.ts: the executor that the queue is given;
--                         Server/Handler models handleIntent, Server/Approvals handleApprove and
--                         handleReject
--   Policy/Rules, Validation   packages/policy/src/validation.ts: normalizePolicyRules and
--                         validatePolicyRules
--   Policy/Configs        packages/database/src/in-memory-policy-config-store.ts and
--                         policy-config-store.ts; getRules of apps/api/src/index.ts
--   Schedules             packages/database/src/schedule-types.ts and the in-memory store of
--                         schedule-store.ts; Schedules/Sqlite models its SQLite store, and
--                         Schedules/Calls the function from ids to records that both implement
--   Schedules/Cron, Validation   packages/database/src/schedule-validation.ts: the fields of an
--                         expression, and the next run of a whole one
--   Scheduler             apps/api/src/scheduler.ts; Scheduler/Execution models
--                         schedule-execution.ts
--   Server/Schedules, Scheduling, Requests   apps/api/src/index.ts: the handlers of schedules, the
--                         agents' status as the scheduler and its handler have it, and the intents
--                         of request bodies
--   Coordinator           apps/api/src/account-sequence-coordinator.ts; Coordinator/Steps has the
--                         calls, the starts and the ends of tasks as a relation
--   Stellar               packages/stellar/src/transaction-builder.ts (Stellar/Builder, Memo),
--                         simulator.ts (Stellar/Simulator) and testnet-local-signer.ts
--                         (Stellar/Local) over the records Sdk, Numbers and Horizon
--   Tests/*               runs at concrete inputs
--
-- A store is a value that each operation takes and returns. An awaited call is where another
-- operation may run, so the queue's claim and the end of a run are separate steps of Workers, and
-- a worker claims by a copy of a record that may be old. A call of execute, of executeApproved or of
-- a handler is one step: what another call does while it waits is not modelled, so the theorems
-- about them cover calls of which one ends before the next begins, and Attempts says so. A pass of
-- processDue happens at one time, its time. A time is a number of milliseconds, where
-- the source has ISO texts of equal length, whose order is the same. Amounts are read by parseFloat
-- into the interface Floats, whose operations stay parameters: no theorem uses a law of them.
-- The run that a worker makes, the pre-check and the status provider are values and functions that
-- the definitions take; Server joins the queue's executor to the pipeline. The pipeline takes the
-- transaction builder, the simulator, the signer and Horizon as the record Parts, and notes each
-- transaction that it gives to Horizon. Loops are structural recursion on the list they walk, so
-- no fuel is needed; Queue/Passes runs processDue at a list of times.
--
-- The search for a schedule's next run looks at 525600 minutes, the bound of the source, and is
-- recursion on that number. Local dates are the record Calendar, a parsed JSON value is the type Json
-- of Base/Json, and a table of SQLite is the list of its rows, on which select, insert, update and
-- delete are functions; the JSON text in a column is a parameter that is parsed back. Stellar/Local
-- makes the pipeline's Parts from the builder, the simulator and the signer.
--
-- Not modelled: the SQLite stores of activities, approvals, agents and executions, whose methods are
-- SQL statements run by a native driver; the handlers that create agents, put policies, and retry or
-- cancel executions; timers, HTTP, the command line and the web client; the Stellar SDK and Horizon,
-- which are interfaces; the contracts in Rust. The in-memory stores do not throw, so the handlers
-- that record a store's exception are left out of recovery and reconciliation.
pub mod Activity
pub mod Agents
pub mod Approval
pub mod Base
pub mod Coordinator
pub mod Execution
pub mod Intents
pub mod Network
pub mod Pipeline
pub mod Policy
pub mod Scheduler
pub mod Schedules
pub mod Server
pub mod Shared
pub mod Stellar
pub mod Tests
