-- ===== src/Coordinator.antt =====
-- apps/api/src/domain/coordinator.ts: the queue coordinator. Its state and helpers, the checks of
-- the whole system, the wrapper of every command, and the commands by their subject.
pub mod State
pub mod Checks
pub mod Execute
pub mod Jobs
pub mod Work
pub mod Printers
pub mod Simulation
pub mod Create
mod Samples
