-- ===== src/Suse.antt =====
-- The thread scheduler, planificador/suse.c.
pub mod State
pub mod Monad
pub mod Access
pub mod Queues
pub mod Transitions
pub mod Planner
pub mod Semaphores
pub mod Service
pub mod Metrics
pub mod Effects
pub mod Runs
mod Examples
