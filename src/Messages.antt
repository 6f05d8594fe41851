-- ===== src/Messages.antt =====
-- The messages between the servers and their clients: utils_suse/message.c.
pub mod Bytes
pub mod Codec
pub mod Reading
pub mod RoundTrip
pub mod Wire
mod Examples
