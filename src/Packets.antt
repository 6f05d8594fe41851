-- ===== src/Packets.antt =====
-- The packets of the scheduler: utils_suse/libraries.c.
pub mod Codec
pub mod RoundTrip
mod Examples
