-- ===== src/Tests/Memories.antt =====
-- Memory for a geometry of 4 blocks of 8192 bytes.
use consfs.Common.{ℕ, ◌+◌, ◌*◌, ◌≤◌, ◌<◌, ◌≡◌, ◌⊎◌, true, none, some, refl, arith}
use consfs.Addressing.{BlockAddress, Geometry, is_valid_block}
use consfs.Addressing.Geom.{block_size, contains, geometry_valid, number_of_sectors}
use consfs.Addressing.Addr.{valid, sector_offset}
use consfs.Memory.{
  Memory, VerificationMode, open_memory, offset_of, erase_block, read_memory, verify_erased,
  write_memory,
}
use consfs.Memory.Store.{IsInside, write_memory-read}

abbrev card : Geometry
card = record {
  first = 0;
  number_of_blocks = 4;
  pages_per_block = 4;
  sectors_per_page = 4;
  sector_size = 512;
}

-- Memory that holds 7 everywhere.
abbrev sevens : Memory
sevens = record {
  geometry = card;
  size = 32768;
  bytes = λ _. 7;
  verification = VerificationMode.erased_only;
  strict_sectors = true;
}

opens : open_memory card (λ _. 7) ≡ some sevens
unfolding open_memory geometry_valid number_of_sectors
opens = refl

abbrev place : BlockAddress
place = record { block = 2; position = 1024 }

-- The bytes there are not erased, so a write is refused.
not_erased : write_memory sevens place (λ i. i) 3 ≡ none
unfolding write_memory offset_of verify_erased contains block_size
not_erased = refl

place-IsInside : IsInside sevens place 100
unfolding block_size valid sector_offset is_valid_block
place-IsInside = record {
  real = refl;
  some_bytes = omega arith;
  block_in = omega arith;
  start_in = omega arith;
  end_in = omega arith;
  sector_in = omega arith;
  whole = refl;
  words = omega arith;
  sector_word = omega arith;
}

write_memory-read_example :
    (m1 : Memory) × (erase_block sevens 2 ≡ some (true, m1))
    × (m2 : Memory) × (write_memory m1 place (λ i. i) 100 ≡ some (true, m2))
    × (e : ℕ → ℕ) × (read_memory m2 place 100 ≡ some (true, e))
    × ((i : ℕ) → i < 100 → e i ≡ i)
    × ((j : ℕ)
        → (j < 2 * block_size card) ⊎ (2 * block_size card + block_size card ≤ j)
        → m2.bytes j ≡ 7)
write_memory-read_example = write_memory-read sevens place (λ i. i) 100 place-IsInside
