-- ===== src/Files.antt =====
-- The placement of files on blocks: extents, their allocation, and the search of a file's index.
pub mod Extents
pub mod Prealloc
pub mod Placement
pub mod IndexSearch
pub mod Index
pub mod FreshIndex
