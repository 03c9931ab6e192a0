-- ===== src/Files/Prealloc.antt =====
-- src/size_calcs.h, src/file_preallocator.cpp and `FileLayout::allocate` of src/phylum/file_layout.h.
-- `none` is a division by zero or a failed assertion.
use Prim.Native.Nat.{max}
use consfs.Common.{
  ℕ, ◌+◌, ◌-◌, ◌*◌, ◌/◌, ◌%◌, ◌^◌, Bool, true, false, not, Option, some, List, [], ◌∷◌, ltb, ◌==◌,
  if◌then◌else◌, u32, u64, add32, sub32, ◌>>=◌, ◌>>◌, check,
}
use consfs.Addressing.{Geometry, file_sector_size}
use consfs.Addressing.Geom.{block_size, sectors_per_block, size, contains}
use consfs.Files.Extents.{FileAllocation}

-- The `sizeof` of four structs, which the compiler lays out.
pub record Sizes : Type 0 where
  pub index_record : ℕ
  pub index_block_tail : ℕ
  pub file_sector_tail : ℕ
  pub file_block_tail : ℕ

-- A difference of two uint64_t.
abbrev pub sub64 : ℕ → ℕ → ℕ
sub64 a b = (a + 2 ^ 64 - b % 2 ^ 64) % 2 ^ 64

unfoldable pub file_block_overhead : Sizes → Geometry → ℕ
file_block_overhead z g =
    u64 (file_sector_size + z.file_block_tail + sub64 (sectors_per_block g) 2 * z.file_sector_tail)

unfoldable pub effective_file_block_size : Sizes → Geometry → ℕ
effective_file_block_size z g = sub64 (block_size g) (file_block_overhead z g)

unfoldable pub index_block_overhead : Sizes → ℕ
index_block_overhead z = u64 (file_sector_size + z.index_block_tail)

unfoldable pub effective_index_block_size : Sizes → Geometry → ℕ
effective_index_block_size z g = sub64 (block_size g) (index_block_overhead z)

-- `BlockedFile::IndexFrequency`
abbrev pub index_frequency : ℕ
index_frequency = 8

unfoldable pub blocks_required_for_index : Sizes → Geometry → ℕ → Option ℕ
blocks_required_for_index z g nblocks = do
  check (not (z.index_record == 0))
  let indices_per_block = effective_index_block_size z g / z.index_record
  check (not (indices_per_block == 0))
  let index_entries = add32 (nblocks / index_frequency) 1
  some (u32 (max 1 (index_entries / indices_per_block)))

abbrev pub kilobyte : ℕ
kilobyte = 1024

abbrev pub megabyte : ℕ
megabyte = 1024 * 1024

unfoldable pub blocks_required_for_data : Sizes → Geometry → ℕ → Option ℕ
blocks_required_for_data z g opaque_size = do
  let scale = if ltb (size g) (1024 * megabyte) then kilobyte else megabyte
  check (not (effective_file_block_size z g == 0))
  some (u32 (u64 (opaque_size * scale) / effective_file_block_size z g + 1))

-- `FilePreallocator`; `head` is a block_index_t.
pub record Preallocator : Type 0 where
  pub head : ℕ
  pub geometry : Geometry

abbrev pub new_preallocator : Geometry → Preallocator
new_preallocator g = record { head = 2; geometry = g }

abbrev pub no_allocation : FileAllocation
no_allocation = record {
  index = record { start = 0; nblocks = 0 };
  content = record { start = 0; nblocks = 0 };
}

-- What a call returns, with the `file` that it sets and the state that it leaves.
pub record Placed : Type 0 where
  pub ok : Bool
  pub file : FileAllocation
  pub after : Preallocator

-- The numbers of data blocks and of index blocks.
unfoldable pub required : Sizes → Preallocator → ℕ → Option (ℕ × ℕ)
required z p maximum_size =
    if ltb 0 maximum_size
    then (do
      nblocks ← blocks_required_for_data z p.geometry maximum_size
      n ← blocks_required_for_index z p.geometry nblocks
      some (nblocks, u32 (n * 2)))
    else (do
      let nblocks = sub32 (sub32 p.geometry.number_of_blocks p.head) 1
      n ← blocks_required_for_index z p.geometry nblocks
      some (sub32 nblocks (u32 (n * 2)), u32 (n * 2)))

-- The extents, with the two tests of the head.
unfoldable pub place : Preallocator → ℕ → ℕ → Placed
place p nblocks index_blocks =
    let behind_index = add32 p.head index_blocks in
    let behind_data = add32 behind_index nblocks in
    if nblocks == 0
    then record { ok = false; file = no_allocation; after = p }
    else if not (contains p.geometry (record { block = behind_index; position = 0 }))
    then record { ok = false; file = no_allocation; after = record p { head = behind_index } }
    else if not (contains p.geometry (record { block = behind_data; position = 0 }))
    then record { ok = false; file = no_allocation; after = record p { head = behind_data } }
    else record {
      ok = true;
      file = record {
        index = record { start = p.head; nblocks = index_blocks };
        content = record { start = behind_index; nblocks = nblocks };
      };
      after = record p { head = behind_data };
    }

-- `FilePreallocator::allocate`; of the descriptor only its maximum size is used.
unfoldable pub allocate_file : Sizes → Preallocator → ℕ → Option Placed
allocate_file z p maximum_size = do n ← required z p maximum_size; some (place p n.0 n.1)

-- The loop of `FileLayout::allocate`, over the maximum sizes of the files, with the allocations that it
-- sets; it ends at the first failure.
unfoldable pub allocate_each : Sizes → List ℕ → Preallocator → Option (Bool × List FileAllocation)
allocate_each z [] p = some (true, [])
allocate_each z (maximum_size ∷ rest) p = allocate_file z p maximum_size >>= λ r.
    if r.ok
    then (allocate_each z rest r.after >>= λ s. some (s.0, r.file ∷ s.1))
    else some (false, r.file ∷ [])

unfoldable pub allocate_files : Sizes → Geometry → List ℕ → Option (Bool × List FileAllocation)
allocate_files z g sizes = allocate_each z sizes (new_preallocator g)
