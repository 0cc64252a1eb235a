-- ===== src/Http.antt =====
-- apps/api/src/http: what the API shows of a simulation.
pub mod Resources
pub mod State
