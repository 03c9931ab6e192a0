-- ===== src/Tests/Caches.antt =====
-- A cache over memory.
use consfs.Common.{ℕ, ◌+◌, ◌<◌, ◌≡◌, true, some, refl, arith}
use consfs.Addressing.{
  BlockAddress, Geometry, SectorAddress, sector_address_eq, invalid_sector_address, is_valid_block,
  block_index_invalid,
}
use consfs.Addressing.Geom.{block_size, contains}
use consfs.Addressing.Addr.{valid, sector, sector_offset, sector_number, of_sector}
use consfs.Memory.{
  Memory, VerificationMode, erase_block, read_memory, write_memory, offset_of, copy_to,
}
use consfs.Memory.Store.{erase_block-geometry}
use consfs.Backend.{Storage}
use consfs.Cache.{Cache, copy_from, cached_read, cached_erase}
use consfs.Cache.Transparent.{IsCached, cached_read-IsCached, cached_read-cached_erase}

abbrev memory : Storage
memory = record {
  State = Memory;
  geometry = λ m. m.geometry;
  read = read_memory;
  write = write_memory;
  erase = erase_block;
  erase-geometry = erase_block-geometry;
}

abbrev card : Geometry
card = record {
  first = 0;
  number_of_blocks = 4;
  pages_per_block = 4;
  sectors_per_page = 4;
  sector_size = 512;
}

abbrev sevens : Memory
sevens = record {
  geometry = card;
  size = 32768;
  bytes = λ _. 7;
  verification = VerificationMode.erased_only;
  strict_sectors = true;
}

abbrev place : BlockAddress
place = record { block = 2; position = 1030 }

abbrev empty_cache : Cache memory
empty_cache = record { target = sevens; held = invalid_sector_address; buffer = λ _. 0 }

empty-IsCached : IsCached memory empty_cache
unfolding sector_address_eq
empty-IsCached = record { sound = λ a real e. absurd (real (same_block a e)) }
  where
    same_block :
        (a : SectorAddress)
        → sector_address_eq invalid_sector_address a ≡ true
        → a.block ≡ block_index_invalid
    same_block a e = ground (arith, e)

cached_read-IsCached_example :
    (r : (ℕ → ℕ) × Cache memory) × (cached_read memory empty_cache place 10 ≡ some (true, r))
    × ((i : ℕ) → sector_offset place card + i < 512 → r.0 i ≡ 7)
    × (r.1.target ≡ sevens)
    × IsCached memory r.1
unfolding read_memory of_sector sector sector_number offset_of contains block_size valid
    is_valid_block sector_offset
cached_read-IsCached_example =
    cached_read-IsCached memory empty_cache place 10 (λ _. 7) empty-IsCached
      (λ e. absurd (omega arith)) refl refl

-- The sector of `place` is held.
abbrev full_cache : Cache memory
full_cache = record { target = sevens; held = record { block = 2; sector = 2 }; buffer = λ _. 7 }

abbrev erased : Memory
erased = record sevens { bytes = copy_to (λ _. 7) 16384 8192 (λ _. 0xff) }

cached_read-cached_erase_example :
    (after : Cache memory) × (cached_erase memory full_cache 2 ≡ some (true, after))
    × (after.target ≡ erased)
    × (cached_read memory after place 10
        ≡ some (true, (copy_from memory (λ _. 7) (sector_offset place card), after)))
unfolding erase_block contains block_size sector_address_eq sector sector_number
cached_read-cached_erase_example =
    cached_read-cached_erase memory full_cache place 10 2 (true, erased) refl refl refl
