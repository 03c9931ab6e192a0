-- ===== src/Files/Extents.antt =====
-- src/phylum/file_allocation.h, `ExtentAllocator` of src/file_index.cpp and the allocation of
-- `ExtentBlockedFile` of src/simple_file.cpp.
use consfs.Common.{
  ℕ, ◌+◌, ◌/◌, ◌^◌, ◌≤◌, ◌<◌, ◌≡◌, Bool, true, false, ◌&&◌, Option, some, refl, arith, ltb, leb,
  ◌==◌, if◌then◌else◌, add32, sub32, ◌>>◌, check, le→leb, lt→ltb, lt_or_le, inl, inr, ◌⊎◌,
}
use consfs.Addressing.{BlockAddress, Geometry, block_index_invalid}
use consfs.Addressing.Geom.{block_size}
use consfs.Addressing.Addr.{valid}
use consfs.Alloc.{AllocatedBlock, BlockType}

-- Both are uint32_t.
pub record Extent : Type 0 where
  pub start : ℕ
  pub nblocks : ℕ

pub record FileAllocation : Type 0 where
  pub index : Extent
  pub content : Extent

unfoldable pub contains_block : Extent → ℕ → Bool
contains_block e b = leb e.start b && ltb b (add32 e.start e.nblocks)

unfoldable pub contains_address : Extent → BlockAddress → Bool
contains_address e a = contains_block e a.block

unfoldable pub final_sector : Extent → Geometry → BlockAddress
final_sector e g = record {
  block = sub32 (add32 e.start e.nblocks) 1;
  position = sub32 (block_size g) 512;
}

unfoldable pub beginning : Extent → BlockAddress
beginning e = record { block = e.start; position = 0 }

unfoldable pub end_of : Extent → BlockAddress
end_of e = record { block = add32 e.start e.nblocks; position = 0 }

unfoldable pub extent_eq : Extent → Extent → Bool
extent_eq e f = e.start == f.start && e.nblocks == f.nblocks

unfoldable pub allocation_eq : FileAllocation → FileAllocation → Bool
allocation_eq a b = extent_eq a.index b.index && extent_eq a.content b.content

unfoldable pub middle_block : Extent → ℕ
middle_block e = add32 e.start (e.nblocks / 2)

unfoldable pub first_half : Extent → Extent
first_half e = record { start = e.start; nblocks = e.nblocks / 2 }

unfoldable pub second_half : Extent → Extent
second_half e = record { start = add32 e.start (e.nblocks / 2); nblocks = e.nblocks / 2 }

unfoldable pub extent_empty : Extent → Bool
extent_empty e = e.nblocks == 0

-- `ExtentAllocator`: `none` is its failed assertion.
pub record ExtentAllocator : Type 0 where
  pub extent : Extent
  pub block : ℕ

unfoldable pub allocate_extent :
    ExtentAllocator → BlockType → Option (AllocatedBlock × ExtentAllocator)
allocate_extent a type = do
  let b = if contains_block a.extent a.block then a.block else a.extent.start
  check (contains_block a.extent b)
  some (record { block = b; age = 0; erased = false }, record a { block = add32 a.block 1 })

-- `ExtentBlockedFile::allocate`, with the file's extent and its head.
unfoldable pub allocate_next : Extent → BlockAddress → AllocatedBlock
allocate_next e head =
    let next = add32 head.block 1 in
    let block =
      if valid head
      then (if contains_block e next then next else block_index_invalid)
      else e.start in
    record { block = block; age = 0; erased = false }

-- An extent that is not empty and ends before the last 32-bit number.
pub record IsProper (e : Extent) : Type 0 where
  pub some_block : 0 < e.nblocks
  pub fits : e.start + e.nblocks < 2 ^ 32

contains_block-true :
    (e : Extent) (b : ℕ)
    → IsProper e
    → e.start ≤ b
    → b < e.start + e.nblocks
    → contains_block e b ≡ true
unfolding contains_block
contains_block-true e b proper low high =
    let sum : add32 e.start e.nblocks ≡ e.start + e.nblocks = omega (arith, proper.fits) in
    rw (sum, le→leb e.start b low, lt→ltb b (e.start + e.nblocks) high) refl

pub contains_block-false :
    (e : Extent) (b : ℕ)
    → IsProper e
    → (b < e.start) ⊎ (e.start + e.nblocks ≤ b)
    → contains_block e b ≡ false
unfolding contains_block
contains_block-false e b proper out =
    let sum : add32 e.start e.nblocks ≡ e.start + e.nblocks = omega (arith, proper.fits) in
    rw sum (ground (arith, out))

-- Over a proper extent, which is not empty and ends before the last 32-bit number, the assertion of the
-- extent allocator does not fail, whatever its next block: it gives that block if the extent has it,
-- and otherwise the first block of the extent.
pub allocate_extent-total :
    (a : ExtentAllocator) (type : BlockType)
    → IsProper a.extent
    → (r : AllocatedBlock × ExtentAllocator) × (allocate_extent a type ≡ some r)
      × (a.extent.start ≤ r.0.block)
      × (r.0.block < a.extent.start + a.extent.nblocks)
      × ((a.extent.start ≤ a.block)
            × (a.block < a.extent.start + a.extent.nblocks)
            × (r.0.block ≡ a.block)
          ⊎ ((a.block < a.extent.start) ⊎ (a.extent.start + a.extent.nblocks ≤ a.block))
            × (r.0.block ≡ a.extent.start))
unfolding allocate_extent
allocate_extent-total a type proper = elim (in_or_out a.extent a.block) [
  | inl (low, high) ↦ (
    (record { block = a.block; age = 0; erased = false }, record a { block = add32 a.block 1 }),
    let yes_it = contains_block-true a.extent a.block proper low high in rw (yes_it, yes_it) refl,
    low,
    high,
    inl (low, high, refl),
  )
  | inr out ↦ (
    (
      record { block = a.extent.start; age = 0; erased = false },
      record a { block = add32 a.block 1 },
    ),
    rw
        (
          contains_block-false a.extent a.block proper out,
          contains_block-true a.extent a.extent.start proper (omega arith)
              (omega (arith, proper.some_block)),
        )
        refl,
    omega arith,
    omega (arith, proper.some_block),
    inr (out, refl),
  )
]
  where
    in_or_out :
        (e : Extent) (b : ℕ)
        → ((e.start ≤ b) × (b < e.start + e.nblocks)) ⊎ ((b < e.start) ⊎ (e.start + e.nblocks ≤ b))
    in_or_out e b = elim (lt_or_le b e.start) [
      | inl low ↦ inr (inl low)
      | inr low ↦ elim (lt_or_le b (e.start + e.nblocks)) [
        | inl high ↦ inl (low, high)
        | inr high ↦ inr (inr high)
      ]
    ]
