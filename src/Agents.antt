-- ===== src/Agents.antt =====
-- agents/automation-daemon.ts: the agent that ticks the loaded simulations.
pub mod Daemon
