-- ===== src/Application.antt =====
-- apps/api/src/application: what the API does around the domain.
pub mod Benchmark
pub mod Burst
pub mod Service
pub mod Timeline
