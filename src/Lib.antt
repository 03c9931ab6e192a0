-- ===== src/Lib.antt =====
-- A model of phylum, the file system library of this repository for SD cards, serial flash and memory
-- (src/ from the repository's root), with the theorems about it.
--
-- The library's layers: a storage backend reads, writes and erases blocks of a Geometry; addresses
-- (src/phylum/addressing.h) name bytes of a block; block allocators hand out blocks; layouts chain
-- blocks of entries; super blocks, file indices, file tables and files are built on these; B+ trees,
-- in memory (src/phylum/tree.h) and persisted, map keys to values.
--
-- Common: shared names, Boolean tests, machine words, arrays, and code that may stop at an assertion.
-- Addressing: src/phylum/addressing.h. Types has the structs, Geom the methods of Geometry, Addr those
--   of BlockAddress, Room and Layouts what they mean. An address is a pair of numbers, and every
--   operation that wraps at a machine word is written with its wrap.
-- Keys: src/phylum/keys.h. The loops have an 8-bit counter; fuel bounds their rounds, one for each key
--   and one more, which is shown to be enough for fewer than 256 keys.
-- Tree: src/phylum/tree.h. An array is a function from its index, so slots beyond the keys in use keep
--   what memory held there; memory that no constructor clears is a parameter (garbage). A node has one
--   parent, so a pointer is the node itself, and a call that changes a node returns it. Find has the
--   reading operations and remove, Insert has add, Before has find_last_less_then, whose searches below a
--   removed key take fuel, and Down and Greatest are about it; Invariant has the search-tree invariant, and
--   the other modules prove what each operation does. VALUE is read as an unsigned number, 0 for a removed
--   one. An assertion that fails, a null pointer or a read out of range is a stop, none.
--
-- Alloc: src/phylum/block_alloc.h and src/block_alloc.cpp. Sequence is about runs of the sequential and
--   the debugging allocator, Pool about the queue allocator and a client, whose calls are a step relation.
--   The geometry is a reference that initialize sets, and a failed assertion is a stop, none.
-- Files: where files lie. Extents is src/phylum/file_allocation.h and the allocators over one extent
--   (src/file_index.cpp, src/simple_file.cpp); Prealloc is src/size_calcs.h, src/file_preallocator.cpp and
--   the loop of src/phylum/file_layout.h that calls it, with the sizes of four structs as parameters;
--   Placement is what they promise. IndexSearch is the search of src/file_index.cpp, over a parameter for
--   what a read of a block's head gives; its 33 rounds are shown to be enough for 32-bit extents.
-- Memory: src/backends/linux_memory/linux_memory.cpp, with the bytes as a function from an offset; Store
--   proves what a storage backend promises.
-- Backend: src/phylum/backend.h as a record Storage of operations, which Memory fills, and the heads of
--   blocks (src/phylum/private.h). How the compiler lays out a struct is a parameter, a Codec; Answers is
--   storage that always answers, though an operation may fail.
-- Cache: src/caching_storage.cpp over any Storage; Transparent proves what reads through the cache give.
-- Layout: src/phylum/layout.h over any storage, allocator and structs. A method that returns false early
--   is a chain of parts. Writes and Reserve are about find_available, InBlock and RoundTrip about append
--   and walk in one block, LastRoom about where the two disagree. walk_to_end takes fuel, which a chain of
--   blocks with a cycle uses up. FreePile: src/free_pile.cpp, a layout with structs of its own.
-- SuperBlocks: src/super_block_manager.cpp, over any storage, allocator and struct that begins with a link.
--   Changes has create, rollover and save; a rollover takes fuel, one round for each block of the chain from
--   the super block back to the anchors. Chain is what a walk reads of a chain of blocks; Links, Puts, Steps,
--   Laid and Create prove what create leaves in storage.
-- SerialFlash: src/backends/arduino_serial_flash/serial_flash_allocator.cpp, over any storage, with its map
--   of bits as bytes. Map reads it as a set; Select and Least are about which block is allocated, Freeing
--   about free, also where the storage fails.
-- Reclaimer: src/unused_block_reclaimer.cpp, over the models of the super blocks and of that
--   allocator, which share the storage; Keeps is about what it does not touch.
-- Blocked: src/blocked_file.cpp, over any storage, codecs of the structs, and a Supply of blocks (the two
--   virtual methods; extent_supply and allocator_supply are the two classes of the source). Save has what
--   writes, Seek what follows the chain, Reading what reads; a loop along the chain takes fuel, which a
--   chain with a cycle uses up, and the loop of a write two rounds for each byte. Client writes and reads a
--   file as its callers do. Chain is what a file leaves in storage; Refilled and ReadBack are about
--   a reader of it, Flushing, Advance, Rounds and WriteOn about writing on, RoundTrip about both, and AfterSeek
--   about a read after a seek.
-- Files.Index: src/file_index.cpp, whose calls use a cache each (Cache.Calls, Cache.Through); FreshIndex is
--   about formatting and searching an index, whose 33 rounds are enough for extents of 32-bit numbers. A walk over the records
--   of a block takes fuel.
-- Simple: src/simple_file.cpp over Blocked and Files.Index, which share the storage; Table is
--   src/file_table.cpp and src/phylum/file_descriptor.h, Mounting src/phylum/file_layout.h, and Full is about
--   a file whose extent is full.
--
-- Not modelled: the persisted tree and the file system on it, the checksums and keys of its nodes; hardware backends (input and output),
-- logging and printing, and the copies of other projects (blake2b, rotations). In the tree find_all,
-- which always returns false, the list of leaves that only it reads, and the change tracker are left out.
pub mod Common
pub mod Addressing
pub mod Keys
pub mod Tree
pub mod Alloc
pub mod Files
pub mod Memory
pub mod Cache
pub mod Backend
pub mod Layout
pub mod FreePile
pub mod SuperBlocks
pub mod SerialFlash
pub mod Reclaimer
pub mod Blocked
pub mod Simple
mod Tests
