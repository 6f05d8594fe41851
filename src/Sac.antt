-- ===== src/Sac.antt =====
-- The file system server, filesystem/sac_handlers.c.
pub mod State
pub mod Monad
pub mod Search
pub mod Blocks
pub mod Nodes
pub mod Deletion
pub mod Resize
pub mod Room
pub mod Table
pub mod Walk
pub mod Lookup
pub mod Growth
pub mod Data
pub mod FileBytes
pub mod Memory
pub mod FileReading
pub mod SameNames
pub mod FileWriting
pub mod WriteErrors
pub mod Answers
pub mod Server
pub mod Client
pub mod Exchange
pub mod ReadBack
pub mod Missing
pub mod Renaming
mod Examples
mod DataExamples
