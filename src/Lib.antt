-- ===== src/Lib.antt =====
-- The printer simulation (apps/api/src): a queue coordinator that hands print jobs to simulated printers,
-- with the scheduler, the job lifecycle, the clock and the locks that it stands on (domain), and the
-- services around it that load, change and save simulations and measure them (application).
--
-- The parts, and the files that model them.
-- - Entities: entities.ts and errors.ts, with the enums of packages/contracts/src/primitives.ts.
-- - Lifecycle: lifecycle.ts, the state machine of a job (`transitionJob`) and its invariants
--   (`assertJobInvariants`).
-- - Clock: clock.ts, simulated time at five speeds.
-- - Sync: synchronization/, the queue's buffer (Sync/Buffer, bounded-buffer.ts), the permits for ready
--   printers (Sync/Semaphore, counting-semaphore.ts), the queue's mutex (Sync/FairMutex, fair-mutex.ts)
--   and each printer's lease (Sync/LeaseMutex, binary-lease-mutex.ts).
-- - Scheduler: scheduling/scheduler.ts, `rankJobs` and `selectNextJob`, with aging and predicted service.
-- - Coordinator: coordinator.ts. Coordinator/State has the state and the private helpers, Checks the
--   snapshot and `assertSystemInvariants`, Execute the wrapper `#execute` of every command, and the
--   commands stand in Jobs (submission, activation, cancellation, priority), Work/Dispatch
--   (`dispatch`) and Work/Pages (`advancePage`), Printers with Permits, Recovery and Editing (availability, faults, recovery, the
--   list of printers) and Simulation (scheduler, clock, reset). Create has the constructor and the
--   way through a saved state (`exportState`, `restore`, `fromState`, `fork`).
-- - Metrics: metrics.ts, the timing of a job, summaries of samples, throughput, fairness, utilization.
-- - Application: Application/Service has simulation-service.ts with the records of
--   persistence/simulation-repository.ts: Loading the locks, the creation and the restoration of a
--   coordinator, Mutation the call `mutate` that every request goes through. It forks the coordinator,
--   runs the request's commands on the fork, saves the state with the repository, and only then caches
--   the fork and tells the listeners. Application/Benchmark (benchmark.ts) runs a workload on identical
--   printers, Application/Timeline (analytics.ts) makes intervals of saved events, and
--   Application/Burst (burst.ts) makes jobs from a seed.
-- - Http: Http/Resources and Http/State have http/resources.ts, what is shown of a coordinator: its jobs,
--   its metrics, and the state with its warnings.
-- - Agents: Agents/Daemon has agents/automation-daemon.ts, which ticks the simulations: its ticks in
--   flight, its failures and its circuit, up to how each tick ends.
-- - Common: the shared tests, list functions, the dictionary for JavaScript's Map, the stable sort for
--   Array.prototype.sort, calls that may throw, doubles, and laws of `bit_xor`.
-- A module X/Laws, or one with a name of what it shows, has the theorems on X; X/Samples has runs on
-- concrete data.
--
-- How the code corresponds.
-- - A method that mutates an object is a function from the object to its outcome and the object
--   afterwards (`Action`); what was written before a throw stays written. A command of the
--   coordinator is `x_action`, the closure that the code gives to `#execute`, and `x`, which passes
--   it on. Commands run one after the other under the queue mutex, as the code's do.
-- - `randomUUID` is an argument: `uuid`, or `fresh`, which numbers the values that a command draws.
--   A promise is granted, or pending for a numbered waiter, and a timer is the call `time_out`.
-- - An id is a UUID read as a number, with 0 for the empty string, so that the order of canonical
--   UUIDs, for `<` and for `localeCompare`, is the order of the numbers. A name is a list of UTF-16
--   code units.
-- - Numbers are natural numbers. The tests for safe integers are written out where the code has them,
--   and sums beyond the safe range are not rounded; where the code refuses NaN, negative numbers or
--   fractions, there is nothing to refuse. Differences that stop at 0 stand for `Math.max(0, ...)`
--   or for values that an earlier test keeps in order.
-- - Printer speeds are whole numbers of 1/2^52 pages per minute, as every double from 1 to 600 is.
--   The sum in the median, the times of pages and the predicted service are rounded to doubles as in
--   the code (Common/Double); `bestPrinterFor` compares quotients by multiplying crosswise, which
--   differs where two unequal quotients round to one double.
-- - Clock times are in quarters of a millisecond where the code has fractions.
-- - A loop over a Map that replaces values of known keys goes over the values at its start.
-- - The repository, the hash of a request, logarithms, normal values and the hash behind an id are
--   arguments. What the theorems ask of a repository stands in the records `IsRepository` (reading
--   changes nothing, a failed commit has no effect, a successful one saves the state and is logged) and `IsRecorder`
--   (a commit records its request); Application/Service/Samples has one in memory that satisfies both.
-- - `mutate` and `getCoordinator` run from the moment they hold the simulation's lock to the moment they
--   give it back, with no other call for the simulation between, as `runExclusive` has it.
-- - The fairness index is computed in doubles; other quotients of the metrics are fractions. A random number is a 32-bit state over 2^32.
-- Loops run over lists. The rounds of the benchmark are counted by the number of jobs, which the theorem on
-- it shows to be enough; the decimal digits of a number are counted by the number itself.
--
-- Not modelled: texts (error messages, the scheduler's summary, the names of changed fields, `queueMutex`
-- of the snapshot), durations and redacted parameters of audit records, hashes of workloads, the
-- workers, what an automation tick does, the routes of HTTP, sockets, the SQL behind the repository and the web
-- application, which call what is modelled or read from it.
mod Common
pub mod Entities
pub mod Lifecycle
pub mod Clock
pub mod Sync
pub mod Scheduler
pub mod Coordinator
pub mod Metrics
pub mod Application
pub mod Http
pub mod Agents
