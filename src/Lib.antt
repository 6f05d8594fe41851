-- ===== src/Lib.antt =====
-- A model of LINUSE, three servers that imitate services of an operating system, and proofs about it.
--
-- planificador/suse.c is the thread scheduler SUSE. Suse/State has its data: threads in a heap, to
-- which the queues, processes and semaphores hold pointers, as the C code does. Suse/Monad says what a
-- handler can do: return, read through a bad pointer (fault), lock a mutex that it holds (deadlock) or
-- wait on a semaphore at zero (waits). Suse/Access has the list searches, Suse/Queues the
-- remover_ULT_... functions, Suse/Transitions the state changes of a thread, Suse/Planner the SJF
-- choice of schedule_next, Suse/Semaphores the shared semaphores, Suse/Metrics the counts, and
-- Suse/Service the handlers and the dispatch on a request. Function names are those of the C code; a
-- function that the C code writes as one body with branches has its branches as helpers beside it.
-- A process that a C function looks up by its socket is named by that id and looked up where the code
-- reads through the pointer. Lists of the commons library are the model's lists: list_add appends,
-- list_get gives NULL past the end, list_find and list_remove_by_condition take the first match, and
-- each thread that a search passes is read. list_sort, the clock, double and close are parameters.
-- Suse/Effects proves what every request keeps, Suse/Runs the exact runs, Suse/Examples runs them.
--
-- filesystem/sac_handlers.c holds the operations of SAC, the file system server. Sac/State has the
-- disk of filesystem/sac_servidor.h: its bytes, which the blocks of pointers and the data share, and,
-- apart from them, the table of nodes and the bitmap; Sac/Monad the commands, with s_bitmap and
-- s_tablaDeNodos locked and unlocked one by one, since the code returns between the two. Sac/Search is the search by path, Sac/Blocks the bitmap and
-- agregar_nodo, Sac/Nodes creation, renaming and listing, Sac/Deletion the borrar_... functions,
-- Sac/Resize truncar_archivo and what it calls, Sac/Data leer_archivo and escribir_archivo on the bytes of
-- the disk, Sac/Answers the strings and answers. Sac/Server is filesystem/sac_servidor.c: the sac_server_
-- functions, their dispatch and the handler of a packet; Sac/Client is filesystem/sac_cliente.c: the
-- callbacks of FUSE, each a message to that server and its answer. string_split, dirname, basename,
-- strlen, the texts of char pointers and the socket's connection are parameters. Sac/Room, Sac/Table,
-- Sac/Walk, Sac/Lookup, Sac/Renaming, Sac/Growth, Sac/FileBytes, Sac/Memory, Sac/FileReading, Sac/SameNames,
-- Sac/FileWriting, Sac/WriteErrors, Sac/Exchange, Sac/ReadBack and Sac/Missing hold the proofs,
-- Sac/Examples and Sac/DataExamples run them.
-- The handlers use SAC's state from one client at a time. An offset of 2^31 or more, which the code
-- passes to div as an int, is a fault here.
--
-- utils_suse/message.c is the wire format. Messages/Bytes has numbers as bytes and a cursor over a
-- buffer, Messages/Codec the encoders and decoders, with tamDataFunction of the file system. The
-- machine is little-endian; `none` is an access out of a buffer or an array. Messages/Reading,
-- Messages/RoundTrip and Messages/Wire hold the proofs.
--
-- utils_suse/libraries.c has the packets that SUSE and its client exchange. Packets/Codec is the values in
-- a packet, its header and the lists of strings that it carries; Packets/RoundTrip has the proofs and
-- Packets/Examples runs them. A socket delivers the bytes in order; `none` is an access out of a buffer.
--
-- memoria/main_memory.c is the memory server MUSE. Muse/State has frames, pages, segments and programs,
-- Muse/Monad its commands and mutexes, Muse/Frames the bitmaps and the swap file, Muse/Clock the clock
-- replacement and page_with_free_size. A pointer to the start of a frame is the number of that frame;
-- memory and swap file are read by frame and offset. Muse/Choice is the clock algorithm as searches of a
-- list of pages; Muse/Search and Muse/Turns show what they choose, Muse/Run and Muse/Victim that the loops
-- make the same choice, Muse/Eviction, Muse/Replacement, Muse/NewPage and Muse/Paging what comes of it.
-- Muse/Loading brings a page back from the swap file, Muse/Heap reads and writes the metadata of a heap
-- segment, Muse/Segments has the searches, the compaction and memory_free, Muse/Alloc memory_malloc;
-- Muse/Maps loads the pages of a mapped file, Muse/Data has memory_get and memory_cpy, Muse/Sync
-- memory_sync, Muse/Mapping memory_map and memory_unmap. Muse/Service is memoria/muse.c, the dispatch and
-- the answers to the messages of libs/libMuse/libmuse.c, and Muse/Served has the proofs about it.
-- Muse/Reload, Muse/Metadata, Muse/Walk, Muse/Errors, Muse/Reading, Muse/Writing,
-- Muse/Buffer, Muse/Stored, Muse/Synced, Muse/Mapped,
-- Muse/Unmapped and Muse/LastPage hold the proofs about them; Muse/Examples,
-- Muse/HeapExamples, Muse/DataExamples, Muse/SyncExamples and Muse/MapExamples run them.
-- A page holds a metadata at least, five bytes.
-- The walks over the blocks of a segment run on fuel, at least the number of blocks.
-- The while(true) of the replacement runs on fuel: four turns are enough where a page is present.
--
-- One request of SUSE runs at a time, so the locks matter for the handler that holds them only. The
-- recursions of SUSE are on lists. borrar_directorio runs on fuel for its depth and the loop of
-- get_new_space on fuel for its turns: the first needs the number of live nodes and one more; the
-- second may run until the disk is full. The loop of escribir_archivo runs on fuel for its turns: one is
-- enough for a write inside a block. The theorems hold for any fuel, or for any that is not zero.
-- Not modelled: sockets, configuration and log files; the 32-bit limit of a semaphore's
-- VALUE; the start of the file system server and of its client; the rest of utils_suse; the
-- start of MUSE and its loop on a socket; the rest of its client libs/libMuse.
pub mod Common
pub mod Messages
pub mod Muse
pub mod Packets
pub mod Sac
pub mod Suse
