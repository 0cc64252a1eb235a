-- ===== src/Sync.antt =====
-- apps/api/src/domain/synchronization: the queue's buffer and the three locks.
pub mod Buffer
pub mod Semaphore
pub mod FairMutex
pub mod LeaseMutex
mod Samples
