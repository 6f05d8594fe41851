-- ===== src/Suse/Runs.antt =====
-- Total correctness of the handlers of suse.c: the run returns, and what it leaves.
pub mod Returns
pub mod Waits
pub mod Signals
pub mod Closing
