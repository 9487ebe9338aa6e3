-- ===== src/Lib.antt =====
-- Fleetplane: a control plane that provisions machines at cloud providers and leases them. This
-- library models its kernel and proves what makes it correct.
--
-- The parts and their files (paths from the repository's root):
--   Phase: internal/phase/phase.go, the phases of a machine and the legal transitions.
--   Capacity: internal/capacity/capacity.go, vectors, requests and Fits.
--   Billing: internal/billing/billing.go and pkg/sdk/provider/billing.go, what a lifetime costs and
--     when a machine should be ended. Paid, Boundary and Termination are about these, Ranks and
--     Percentile about the adaptive buffer.
--   Provider: pkg/sdk/provider, the references, reports and errors that a driver returns.
--   Store: internal/storage, the tables and each write to them, in a child module per table; Rows
--     has lookup, update and count for all of them.
--   Engine: internal/operations/engine.go and internal/app/resolve.go, the only caller of provider
--     mutations. Base, Dispatch, Poll, Verify and Drive are the code. Trail, Handlers, Progress,
--     Polling, Observing, Safety and Moves are about the transitions that it makes in the journal,
--     Recovery about crashes and restarts, Pacing about the delays.
--   Scheduler: internal/scheduler/scheduler.go. Scheduler itself has reserve, which grants a lease;
--     Ranking, Parked, Estimate, Ladder and Resume are the rest of the code. Steps and Reserve are
--     about reserve; Sound, Keeps, Rungs, Satisfied and Resumed about the invariant of the tables;
--     Ordered, AcqRows, Answers, Agrees, Order and Retreat about what Satisfy and Resume come to.
--   LeaseManager: internal/lease/manager.go, which ends leases.
--   Provision: Prepare of internal/provision/provision.go, the plan of a create.
--   Reconcile: internal/reconcile/reconcile.go. Queue, Idle, Backoff, Pools, Scaling and Cycle
--     (RunOnce) and Poolless (ReclaimPoolless) are the code; Passes and Stages carry properties
--     through its loops and its stages; Budget, Floors, Keeps, Leased and Swept are about what a
--     cycle and a sweep leave.
--   Discovery: sweepKind of internal/reconcile/discovery.go, with Unmatched and Sweep; Sights carries
--     properties through its two loops; Keeps is about what it writes of an observation, Orphans and
--     Ghosts about the machines that a sweep gives up or finds.
--   Machines: internal/provision/park.go, journalDelete of internal/reconcile/reconcile.go and the
--     gates, drain, undrain and protection of internal/app: what is journaled for the engine.
--     Operator is internal/app/park.go; Gates, Row and Retry are about what these leave behind.
--   Service: CreateResource and DeleteResource of internal/app/service.go from their transaction on,
--     Journal of internal/provision/provision.go, and in Acquire the service Acquire of
--     internal/app/acquire.go. Replays, Deletes and Accepts are about them.
--   Pacing: providers/pacing/pacer.go, and in Recovery how long it holds calls back.
--   Examples: the theorems at concrete values.
--
-- How they interact: a request or the reconciler journals an operation (Machines) in the same
-- transaction that moves the machine's phase; the engine drives it, TxB before the provider call and
-- TxC after it, until it is terminal and the phase follows; the scheduler puts leases on ready and
-- allocated machines, or starts or creates one for a request; the lease manager ends the leases and
-- frees the machine; the reconciler starts, creates, parks and deletes machines to match the pools'
-- specs; discovery matches what the provider lists with the records.
--
-- The model. The database is the record Db of tables, each a list of rows; a transaction is a
-- function to an Outcome, and an error leaves the database as it was. The unique indexes and foreign
-- keys that the code relies on are checked where a row is written. Functions keep the code's names in
-- snake case: Transition of the journal is Operations.transition, driverAndAction is
-- driver_and_action. A handler of the engine takes a World, that is the clocks, the configuration,
-- the jitter and the provider's answers, which are arbitrary functions, and returns the database and
-- the calls it made. Identifiers, names and texts are numbers, compared for equality and order only;
-- the empty string is 0. Instants are unix milliseconds and durations nanoseconds, natural numbers:
-- they do not reach 2^63 before the year 2262, and where the code clamps a negative value,
-- subtraction stops at 0. Capacities are int64 and wrap, and so does the shift of the backoff. A
-- JSON column is empty, undecodable or a decoded document. ORDER BY is a stable sort.
--
-- Bounds and fuel: the only loop on fuel is that of NextBoundary, with one round more than it takes
-- to pass the minimum duration and one increment; the theorem on it says that this is enough for
-- increments of a millisecond and more.
--
-- The scheduler and the reconciler read an environment: one clock reading per call, the fresh ids,
-- the classes, the pool and its checkpoint, and what the providers support. The label names
-- "fleetplane.io/acquisition" and "fleetplane.io/pool" are 1 and 2. RecentTerminal always fails, as
-- its query does, so that the estimates take their fallbacks. The loops of a cycle run over the rows
-- that it listed at its start, as the code's do, while each change sees the tables as they are.
--
-- Not modelled: the goroutines, tickers, channels and locks around the operations, logs and metrics,
-- the details of events, the HTTP API, the command line, the drivers, the tables of
-- pools, checkpoints and classes, the loops that pick pools, providers and kinds, and the services
-- that assemble statistics and costs.
pub mod Prelude
pub mod Phase
pub mod Capacity
pub mod Billing
pub mod Provider
pub mod Store
pub mod Engine
pub mod Provision
pub mod Reconcile
pub mod Scheduler
pub mod LeaseManager
pub mod Discovery
pub mod Pacing
pub mod Machines
pub mod Service
pub mod Examples
