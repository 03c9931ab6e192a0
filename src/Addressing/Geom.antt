-- ===== src/Addressing/Geom.antt =====
-- `struct Geometry` of src/phylum/addressing.h. `pages * sectors * size` is an `int` product in the
-- source, whose overflow is undefined; the model reduces it as the uint32_t that is returned.
use consfs.Common.{ℕ, ◌-◌, ◌+◌, ◌*◌, ◌/◌, ◌%◌, ◌^◌, Bool, ◌&&◌, ltb, u16, u32, u64, sub32}
use consfs.Addressing.Types.{SectorAddress, BlockAddress, Geometry, file_sector_size}

unfoldable pub sectors_per_block : Geometry → ℕ
sectors_per_block g = u16 (g.pages_per_block * g.sectors_per_page)

-- Returned as a block_index_t, a uint32_t.
unfoldable pub number_of_sectors : Geometry → ℕ
unfolding sectors_per_block
number_of_sectors g = u32 (g.number_of_blocks * sectors_per_block g)

unfoldable pub block_size : Geometry → ℕ
block_size g = u32 (g.pages_per_block * g.sectors_per_page * g.sector_size)

unfoldable pub size : Geometry → ℕ
size g = u64 (block_size g * g.number_of_blocks)

-- The geometry that files use: the same blocks, cut into sectors of 512 bytes.
unfoldable pub file_geometry : Geometry → Geometry
file_geometry g = record {
  first = 0;
  number_of_blocks = g.number_of_blocks;
  pages_per_block = u16 (block_size g / file_sector_size / g.sectors_per_page);
  sectors_per_page = g.sectors_per_page;
  sector_size = file_sector_size;
}

unfoldable pub geometry_valid : Geometry → Bool
geometry_valid g =
    ltb 0 g.number_of_blocks
    && (ltb 0 g.pages_per_block && (ltb 0 g.sectors_per_page && ltb 0 g.sector_size))

unfoldable pub contains_sector : Geometry → SectorAddress → Bool
contains_sector g a = ltb a.block g.number_of_blocks && ltb a.sector (sectors_per_block g)

unfoldable pub contains : Geometry → BlockAddress → Bool
contains g a = ltb a.block g.number_of_blocks && ltb a.position (block_size g)

unfoldable pub block_tail_address_from : Geometry → BlockAddress → ℕ → BlockAddress
block_tail_address_from g a sz = record {
  block = a.block;
  position = sub32 (block_size g) (u32 sz);
}

-- `position + tail_size` is a size_t sum, here of 64 bits, and the difference is returned as uint32_t.
unfoldable pub remaining_in_block_before_tail : Geometry → BlockAddress → ℕ → ℕ
remaining_in_block_before_tail g a tail_size =
    u32 ((block_size g + 2 ^ 64 - u64 (a.position + tail_size)) % 2 ^ 64)

unfoldable pub from_physical_block_layout : Geometry → ℕ → Geometry
from_physical_block_layout g number_of_physical_blocks = record g {
  number_of_blocks = number_of_physical_blocks / (g.sectors_per_page * g.pages_per_block);
}
