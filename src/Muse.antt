-- ===== src/Muse.antt =====
-- The memory server MUSE, memoria/main_memory.c.
pub mod State
pub mod Monad
pub mod Frames
pub mod Clock
pub mod Choice
pub mod Turns
pub mod Run
pub mod Victim
pub mod Eviction
pub mod Replacement
pub mod Paging
pub mod Search
pub mod NewPage
mod Examples
pub mod Loading
pub mod Heap
pub mod Segments
pub mod Alloc
pub mod Reload
pub mod Metadata
pub mod Walk
pub mod Errors
mod HeapExamples
pub mod Maps
pub mod Data
pub mod Reading
pub mod Writing
pub mod Buffer
pub mod Stored
pub mod LastPage
pub mod Sync
pub mod Mapping
pub mod Unmapped
pub mod Mapped
pub mod Synced
mod DataExamples
pub mod Service
pub mod Served
mod SyncExamples
mod MapExamples
