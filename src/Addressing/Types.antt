-- ===== src/Addressing/Types.antt =====
-- The constants and the structs of src/phylum/addressing.h, with the methods that need no geometry.
use consfs.Common.{ℕ, ◌-◌, ◌^◌, ◌≡◌, ◌↔◌, ◌≢◌, Bool, true, not, ◌&&◌, ◌==◌, arith}

-- `SectorSize`
abbrev pub file_sector_size : ℕ
file_sector_size = 512

abbrev pub block_index_invalid : ℕ
block_index_invalid = 2 ^ 32 - 1

abbrev pub sector_index_invalid : ℕ
sector_index_invalid = 2 ^ 16 - 1

abbrev pub position_index_invalid : ℕ
position_index_invalid = 2 ^ 32 - 1

-- `block` is a uint32_t and `sector` a uint16_t.
pub record SectorAddress : Type 0 where
  pub block : ℕ
  pub sector : ℕ

abbrev pub invalid_sector_address : SectorAddress
invalid_sector_address = record { block = block_index_invalid; sector = sector_index_invalid }

unfoldable pub sector_address_valid : SectorAddress → Bool
sector_address_valid a =
    not (a.block == block_index_invalid) && not (a.sector == sector_index_invalid)

unfoldable pub sector_address_eq : SectorAddress → SectorAddress → Bool
sector_address_eq a b = a.block == b.block && a.sector == b.sector

-- Both are uint32_t.
pub record BlockAddress : Type 0 where
  pub block : ℕ
  pub position : ℕ

abbrev pub invalid_block_address : BlockAddress
invalid_block_address = record { block = block_index_invalid; position = position_index_invalid }

-- The last three are uint16_t, the first two uint32_t.
pub record Geometry : Type 0 where
  pub first : ℕ
  pub number_of_blocks : ℕ
  pub pages_per_block : ℕ
  pub sectors_per_page : ℕ
  pub sector_size : ℕ

unfoldable pub is_valid_block : ℕ → Bool
is_valid_block b = not (b == block_index_invalid) && not (b == 0)

pub is_valid_block_iff : (b : ℕ) → (is_valid_block b ≡ true) ↔ ((b ≢ block_index_invalid) × (b ≢ 0))
unfolding is_valid_block
is_valid_block_iff b = ground arith
