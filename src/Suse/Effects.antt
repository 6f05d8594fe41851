-- ===== src/Suse/Effects.antt =====
-- What the commands of suse.c do to the held locks and to ACTUAL_MULTIPROG.
pub mod Triple
pub mod Quiet
pub mod Parts
pub mod Bound
pub mod Updates
pub mod Balance
pub mod Signals
pub mod Requests
