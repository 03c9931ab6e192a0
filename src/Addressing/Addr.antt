-- ===== src/Addressing/Addr.antt =====
-- `struct BlockAddress` of src/phylum/addressing.h. A method that moves the address returns the new one;
-- `none` is a failed assertion. Division by a `sector_size` of 0 is undefined in the source.
use consfs.Common.{
  ℕ, ◌+◌, ◌*◌, ◌/◌, ◌%◌, ◌^◌, Bool, true, false, not, ◌&&◌, Option, some, ltb, leb, ◌==◌,
  if◌then◌else◌, u16, u32, add32, sub32, ◌>>◌, check,
}
use consfs.Addressing.Types.{
  SectorAddress, BlockAddress, Geometry, block_index_invalid, position_index_invalid,
}
use consfs.Addressing.Geom.{block_size}

-- `BlockAddress(geometry, addr, offset)`
unfoldable pub of_sector : Geometry → SectorAddress → ℕ → BlockAddress
of_sector g a offset = record {
  block = a.block;
  position = u32 (a.sector * g.sector_size + offset);
}

unfoldable pub valid : BlockAddress → Bool
valid a = not (a.block == block_index_invalid) && not (a.position == position_index_invalid)

unfoldable pub is_zero : BlockAddress → Bool
is_zero a = a.block == 0 && a.position == 0

unfoldable pub remaining_in_sector : BlockAddress → Geometry → ℕ
remaining_in_sector a g = sub32 g.sector_size (a.position % g.sector_size)

unfoldable pub remaining_in_block : BlockAddress → Geometry → ℕ
remaining_in_block a g = sub32 (block_size g) a.position

unfoldable pub sector_offset : BlockAddress → Geometry → ℕ
sector_offset a g = u16 (a.position % g.sector_size)

unfoldable pub sector_number : BlockAddress → Geometry → ℕ
sector_number a g = u16 (a.position / g.sector_size)

unfoldable pub sector : BlockAddress → Geometry → SectorAddress
unfolding sector_number
sector a g = record { block = a.block; sector = sector_number a g }

unfoldable pub seek : BlockAddress → ℕ → BlockAddress
seek a n = record a { position = n }

unfoldable pub add : BlockAddress → ℕ → BlockAddress
add a n = record a { position = add32 a.position n }

unfoldable pub is_beginning_of_block : BlockAddress → Bool
is_beginning_of_block a = a.position == 0

unfoldable pub beginning_of_block : BlockAddress → BlockAddress
beginning_of_block a = record a { position = 0 }

unfoldable pub advance : BlockAddress → ℕ → BlockAddress
advance a s = record a { position = add32 a.position (u32 s) }

-- The second half of the method: with too little of the sector left, go to the next sector.
unfoldable pub follow : BlockAddress → Geometry → ℕ → BlockAddress
unfolding remaining_in_sector
follow a g n =
    if leb n (remaining_in_sector a g)
    then a
    else record a { position = add32 a.position (remaining_in_sector a g) }

unfoldable pub add_or_move_to_following_sector :
    BlockAddress → Geometry → ℕ → Option (Bool × BlockAddress)
unfolding follow remaining_in_block remaining_in_sector
add_or_move_to_following_sector a g n = do
  check (leb n g.sector_size)
  if ltb (remaining_in_block a g) n
      then some (false, a)
      else some (
        true,
        follow
            (if leb n (remaining_in_sector a g)
              then record a { position = add32 a.position n }
              else a)
            g n,
      )

unfoldable pub find_room : BlockAddress → Geometry → ℕ → Option (Bool × BlockAddress)
unfolding follow remaining_in_block
find_room a g n = do
  check (leb n g.sector_size)
  if ltb (remaining_in_block a g) n then some (false, a) else some (true, follow a g n)

unfoldable pub can_write_entry_before_tail : BlockAddress → Geometry → ℕ → ℕ → Option Bool
unfolding remaining_in_block
can_write_entry_before_tail a g entry_size tail_size = do
  check (leb (add32 entry_size tail_size) g.sector_size)
  some (leb (add32 entry_size tail_size) (remaining_in_block a g))

unfoldable pub tail_sector : BlockAddress → Geometry → Bool
tail_sector a g = leb (sub32 (block_size g) g.sector_size) a.position

unfoldable pub tail_data_of : ℕ → Geometry → ℕ → BlockAddress
tail_data_of block g sz = record { block = block; position = sub32 (block_size g) (u32 sz) }

unfoldable pub tail_sector_of : ℕ → Geometry → BlockAddress
tail_sector_of block g = record { block = block; position = sub32 (block_size g) g.sector_size }

unfoldable pub from : ℕ → BlockAddress
from value = record { block = u32 (value / 2 ^ 32); position = value % 2 ^ 32 }

-- The low half of the shifted block is 0, so the `|` of the source is a sum.
unfoldable pub value : BlockAddress → ℕ
value a = a.block * 2 ^ 32 + a.position

unfoldable pub eq : BlockAddress → BlockAddress → Bool
eq a b = a.block == b.block && a.position == b.position
