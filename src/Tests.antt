-- ===== src/Tests.antt =====
-- Witnesses of the theorems at concrete inputs, and tests of the definitions.
mod Trees
mod Addresses
mod Allocators
mod Placements
mod Memories
mod Caches
mod Flat
mod Layouts
mod SuperBlocks
mod Flash
mod Reclaiming
mod BlockedFiles
mod SimpleFiles
