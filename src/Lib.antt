-- ===== src/Lib.antt =====
-- RunnerLoom's Controller: a verification of its resource accounting and of the database operations
-- that carry it.
--
-- The Controller (internal/core) keeps one SQLite database. Operators change the cluster through
-- plans, GitHub's listener and the task service ask for VMs, the scheduler picks a Node for each,
-- and Nodes report what their VMs do and fetch commands. Every write runs in one transaction under
-- one lock, so an operation is a function from a database to a result with the next database.
--
-- Files and code:
--   * Base: lists, texts, errors (`Fail` and plain errors as `Fault`, a Go function's two results as
--     `Result`) and `Base.Int64`, Go's int64 with its wrap-around written out.
--   * Resources, Config, Config/Names, Config/Validate, Instance: internal/core/model.go. `Validate`
--     keeps the order of its checks and the places it complains about; texts of complaints are left
--     out. `Platform` stands for the URL parser, clean paths and case folding.
--   * Reservations: internal/core/reservations.go.
--   * Scheduler, Scheduler/Place: `candidates` of internal/core/store.go and `placeTx` of
--     internal/core/task.go. Scheduler/Order is about the order of the rows.
--   * Task, Task/State, Task/Check, Task/Spec, Task/Title: internal/core/task.go, the records, the
--     states that are derived for a reader, the checks of a guest's result and of a submitted task,
--     and a task's title. Task/Life is about the states.
--   * Store: the tables of `Store.init` as lists, and the reads and writes by key.
--     Store/Plans (Plan, Apply, `mergeConfig`, `checkCapacityUpdate`), Store/Allocate (Allocate,
--     SetJIT, StopInstance), Store/Messages (PersistMessage, demand, Drain), Store/Sync (Sync with
--     its loop over the instances, the images and the delivery of commands), Store/Tasks (placement,
--     `DispatchTasks`, CancelTask, ReportTask and what a client sees of a task), Store/Submit
--     (SubmitTask), Store/Clients (the clients of the task service and their certificates),
--     Store/Identity (internal/core/identity.go: invitations, enrolments and the Nodes' identities)
--     and Store/Maintenance (internal/core/maintenance.go).
--   * Ledger: what the bookkeeping promises, stated over ℕ without the code's loops; its children
--     prove that the scheduler's int64 sums are these numbers and that each change keeps them.
--   * Safety: the invariant of a database (`IsSafe`) and the operations on it, one module to a group:
--     Operations, Syncing, Tasks, Reports, Messages, Apply; Sound is about `Validate`; Repeats and
--     Again are about requests that come twice; Submit and Submitted are about SubmitTask, Clients and
--     Certificates about revoked and renewed clients, Enrol and Joined about Nodes that join, Retire
--     about maintenance; Effects says what the operations on one VM do to every row. Runs takes
--     the operations that keep the ledger as steps in any order; History takes every operation,
--     and Access shows which of them may touch a revocation.
--   * GitHub: internal/github/provider.go. GitHub/Intake is `PersistThenAcknowledge`, GitHub/Reconcile
--     is `Reconcile`; `Answers` and `JitApi` stand for GitHub's API and may answer anything. Steps
--     says as a relation what Reconcile may do and Followed that it does so; Durable and Acquired are
--     about the messages.
--   * Agent: internal/agent/agent.go, the agent's side of Sync and its cycle. Delivered and Synced are
--     about the Controller's reply as the agent reads it, Cycle about the delay.
--   * Host: Host/Outcome is `boundResult` of internal/host/task.go, with the size of its JSON text, and
--     Sizes and Bounded are about its loop; Host/Subnet is `availableSubnet` of
--     internal/host/suggest.go, and Disjoint is about what it suggests.
--   * Tests: the example cluster of `Example()` in internal/core/runtime.go through these operations.
--
-- Modelled so: times are nanoseconds in ℕ, and one operation reads the clock once; random IDs, hashes
-- and the JSON size of a payload are arguments; a sealed column opens only under the identity that it
-- was sealed for; a JSON column holds the typed value. The number of elements of a slice is in ℕ and
-- does not wrap; every other int64 does. Loops run over a list, except that of `boundResult`, whose
-- fuel is the number of its rounds.
--
-- `Apply` stands apart from the steps of Runs, since its sums are exact only while all VMs together
-- hold less than 2^62 of each resource.
--
-- `Pki` stands for the certificates: signing a request, parsing one, and SHA-256.
--
-- Not modelled: I/O errors of the database (a violated unique key is), the compaction of its file,
-- the network, X.509, files, libvirt and the command line; of the agent its enrolment, renewal and
-- downloads, and of GitHub's listener its polling and its bindings.
pub mod Base
pub mod Resources
pub mod Config
pub mod Instance
pub mod Reservations
pub mod Scheduler
pub mod Task
pub mod Store
pub mod Ledger
pub mod Safety
pub mod GitHub
pub mod Host
pub mod Agent
mod Tests
