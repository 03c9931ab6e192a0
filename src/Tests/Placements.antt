-- ===== src/Tests/Placements.antt =====
-- Files in a geometry of 1000 blocks of 8192 bytes.
use consfs.Common.{
  ℕ, ◌*◌, ◌≤◌, ◌<◌, ◌≡◌, ◌≢◌, ◌⊎◌, Bool, true, false, Option, some, List, [], ◌∷◌, refl, arith,
  length, if◌then◌else◌, ◌==◌,
}
use mathlib.Core.Option.{some-injective}
use consfs.Addressing.{Geometry, block_index_invalid}
use consfs.Addressing.Geom.{block_size, size, sectors_per_block, contains}
use consfs.Alloc.{AllocatedBlock, BlockType}
use consfs.Files.Extents.{
  Extent, FileAllocation, ExtentAllocator, allocate_extent, allocate_extent-total, middle_block,
  first_half, second_half, extent_empty,
}
use consfs.Files.Prealloc.{
  Sizes, allocate_files, effective_file_block_size, effective_index_block_size,
  index_block_overhead, file_block_overhead, blocks_required_for_data, blocks_required_for_index,
  allocate_each, allocate_file, required, place,
}
use consfs.Files.Placement.{
  IsUsable, AllModest, allocate_files-owners, owners, scale, blocks_required_for_data-holds,
}
use consfs.Files.IndexSearch.{
  IndexHead, search, next_region, seek_block, IsBefore, search-total, seek_block-IsBefore,
  seek_block-last,
}

abbrev four : Extent
four = record { start = 10; nblocks = 4 }

allocate_extent-total_example :
    (r : AllocatedBlock × ExtentAllocator) × (allocate_extent
        (record { extent = four; block = 14 })
        BlockType.index
      ≡ some r)
    × (10 ≤ r.0.block)
    × (r.0.block < 14)
    × ((10 ≤ 14) × (14 < 14) × (r.0.block ≡ 14) ⊎ ((14 < 10) ⊎ (14 ≤ 14)) × (r.0.block ≡ 10))
allocate_extent-total_example =
    allocate_extent-total (record { extent = four; block = 14 }) BlockType.index (omega arith)

abbrev sizes : Sizes
sizes = record {
  index_record = 32;
  index_block_tail = 20;
  file_sector_tail = 2;
  file_block_tail = 40;
}

abbrev card : Geometry
card = record {
  first = 0;
  number_of_blocks = 1000;
  pages_per_block = 4;
  sectors_per_page = 4;
  sector_size = 512;
}

card-IsUsable : IsUsable sizes card
unfolding effective_file_block_size effective_index_block_size index_block_overhead
    file_block_overhead block_size sectors_per_block
card-IsUsable = omega arith

-- 256 kilobytes, and the rest of the card.
card-AllModest : AllModest sizes card (256 ∷ 0 ∷ [])
unfolding blocks_required_for_data effective_file_block_size file_block_overhead block_size size
    sectors_per_block
card-AllModest = (
  λ some_size n e. let same = some-injective _ _ e in omega (arith, same),
  (λ none_it. absurd (omega arith), tt),
)

two_files :
    allocate_files sizes card (256 ∷ 0 ∷ [])
    ≡ some (
      true,
      record {
        index = record { start = 2; nblocks = 2 };
        content = record { start = 4; nblocks = 35 };
      }
          ∷ record {
            index = record { start = 39; nblocks = 2 };
            content = record { start = 41; nblocks = 958 };
          }
          ∷ [],
    )
unfolding allocate_files allocate_each allocate_file required place blocks_required_for_data
    blocks_required_for_index effective_file_block_size effective_index_block_size
    index_block_overhead file_block_overhead block_size size sectors_per_block contains
two_files = refl

allocate_files-owners_example :
    (r : Bool × List FileAllocation) × (allocate_files sizes card (256 ∷ 0 ∷ []) ≡ some r)
    × (r.0 ≡ true
        → (length r.1 ≡ 2)
          × ((b : ℕ) → (owners r.1 b ≤ 1) × ((b < 2) ⊎ (1000 ≤ b) → owners r.1 b ≡ 0)))
allocate_files-owners_example =
    allocate_files-owners sizes card (256 ∷ 0 ∷ []) card-IsUsable card-AllModest

blocks_required_for_data-holds_example :
    (n : ℕ) × (blocks_required_for_data sizes card 256 ≡ some n)
    × (256 * scale card < effective_file_block_size sizes card * n)
unfolding effective_file_block_size file_block_overhead block_size size sectors_per_block
blocks_required_for_data-holds_example =
    blocks_required_for_data-holds sizes card 256 (omega arith) (omega arith) (omega arith)

-- The index of `four` is filled up to its third block, whose records begin at byte 900.
abbrev head_at : ℕ → IndexHead
head_at b =
    if b == 12
    then record { valid = true; position = 900 }
    else if b == 11
    then record { valid = true; position = 400 }
    else if b == 10
    then record { valid = true; position = 0 }
    else record { valid = false; position = 0 }

abbrev heads : ℕ → Option IndexHead
heads b = some (head_at b)

finds_third : seek_block heads 1000 four ≡ some (some 12)
unfolding seek_block search next_region middle_block first_half second_half extent_empty
finds_third = refl

search-total_example : (r : Option ℕ) × (search heads 1000 4 four block_index_invalid ≡ some r)
search-total_example =
    search-total heads 1000 3 four block_index_invalid (omega arith) (omega arith)

seek_block-IsBefore_example :
    (b : ℕ) × (seek_block heads 1000 four ≡ some (some b))
    × (10 ≤ b)
    × (b < 14)
    × IsBefore heads 1000 b
seek_block-IsBefore_example =
    seek_block-IsBefore heads 1000 four (omega arith) (λ b low high. (head_at b, refl))
      (record {
        head = head_at 10;
        read = refl;
        good = refl;
        before = omega arith;
        real = λ e. absurd (omega arith);
      })

abbrev three : Extent
three = record { start = 10; nblocks = 3 }

-- The last of the three blocks has the position sought.
misses_last : seek_block heads 900 three ≡ some (some 11)
unfolding seek_block search next_region middle_block first_half second_half extent_empty
misses_last = refl

seek_block-last_example : seek_block heads 900 three ≢ some (some 12)
seek_block-last_example = seek_block-last heads 900 three 1 refl (omega arith) (omega arith)
