-- ===== src/Memory.antt =====
-- src/backends/linux_memory/linux_memory.cpp, built without PHYLUM_READ_ONLY: storage in memory. `none`
-- is a failed assertion. The bytes at `ptr_` are a function from an offset, and the log is left out.
pub mod Store
use consfs.Common.{
  ℕ, zero, suc, ◌+◌, ◌-◌, ◌*◌, ◌^◌, Bool, true, false, ◌&&◌, Option, none, some, ltb, leb, ◌==◌,
  if◌then◌else◌, u32, u64, ◌>>=◌, ◌>>◌, check,
}
use consfs.Addressing.{BlockAddress, Geometry}
use consfs.Addressing.Geom.{block_size, contains, geometry_valid, number_of_sectors}
use consfs.Addressing.Addr.{valid, sector_offset}

abbrev pub erase_byte : ℕ
erase_byte = 0xff

pub data VerificationMode : Type 0 where
  erased_only appending : VerificationMode

pub record Memory : Type 0 where
  pub geometry : Geometry
  pub size : ℕ
  pub bytes : ℕ → ℕ
  pub verification : VerificationMode
  pub strict_sectors : Bool

-- `open()`: the bytes of the new memory are the ones that `randomize` writes, which also sets the size
-- again, to a product of 32 bits.
unfoldable pub open_memory : Geometry → (ℕ → ℕ) → Option Memory
open_memory g random = do
  check (geometry_valid g)
  some (record {
    geometry = g;
    size = u32 (number_of_sectors g * g.sector_size);
    bytes = random;
    verification = VerificationMode.erased_only;
    strict_sectors = true;
  })

-- `open(void *, Geometry)` of an object whose modes are set.
unfoldable pub open_at : Memory → (ℕ → ℕ) → Geometry → Option Memory
open_at m bytes g = do
  check (geometry_valid g)
  some (record m { geometry = g; size = u64 (number_of_sectors g * g.sector_size); bytes = bytes })

unfoldable pub offset_of : Memory → BlockAddress → ℕ
offset_of m a = u64 (a.block * block_size m.geometry + a.position)

-- `memcpy` of `n` bytes to the offset `o`, or `memset` where `source` is constant.
abbrev pub copy_to : (ℕ → ℕ) → ℕ → ℕ → (ℕ → ℕ) → ℕ → ℕ
copy_to bytes o n source i = if leb o i && ltb i (o + n) then source (i - o) else bytes i

unfoldable pub erase_block : Memory → ℕ → Option (Bool × Memory)
erase_block m block = do
  check (contains m.geometry (record { block = block; position = 0 }))
  let p = u64 (block * block_size m.geometry)
  some (true, record m { bytes = copy_to m.bytes p (block_size m.geometry) (λ _. erase_byte) })

-- The second component of the result is what `d` holds after the call, at the places below `n`.
unfoldable pub read_memory : Memory → BlockAddress → ℕ → Option (Bool × (ℕ → ℕ))
read_memory m a n = do
  check (valid a)
  check (contains m.geometry a)
  check (
      if m.strict_sectors
      then leb n m.geometry.sector_size
        && leb (u64 (sector_offset a m.geometry + n)) m.geometry.sector_size
      else true)
  check (leb (u64 (offset_of m a + n)) m.size)
  some (true, λ i. m.bytes (offset_of m a + i))

-- `verify_erased`
unfoldable pub verify_erased : (ℕ → ℕ) → ℕ → ℕ → Bool
verify_erased bytes p zero = true
verify_erased bytes p (suc n) = bytes p == erase_byte && verify_erased bytes (p + 1) n

abbrev pub verify : Memory → ℕ → ℕ → Bool
verify m p n = elim m.verification [ erased_only ↦ verify_erased m.bytes p n | appending ↦ true ]

unfoldable pub write_memory : Memory → BlockAddress → (ℕ → ℕ) → ℕ → Option (Bool × Memory)
write_memory m a d n = do
  check (contains m.geometry a)
  check (leb n m.geometry.sector_size)
  check (leb (u64 (offset_of m a + n)) m.size)
  check (verify m (offset_of m a) n)
  some (true, record m { bytes = copy_to m.bytes (offset_of m a) n d })
