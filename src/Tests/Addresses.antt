-- ===== src/Tests/Addresses.antt =====
-- Addresses in a geometry of 4 blocks of 4 pages of 4 sectors of 512 bytes.
use consfs.Common.{◌+◌, ◌/◌, ◌≡◌, ◌↔◌, true, false, some, refl, arith}
use consfs.Addressing.{BlockAddress, Geometry}
use consfs.Addressing.Geom.{block_size, file_geometry}
use consfs.Addressing.Addr.{
  find_room, add_or_move_to_following_sector, from, value, of_sector, sector, sector_offset,
  tail_sector,
}
use consfs.Addressing.Room.{
  IsSound, FindsRoom, AddsOrMoves, find_room-FindsRoom, add_or_move-AddsOrMoves,
}
use consfs.Addressing.Layouts.{
  from-value, value-from, of_sector-sector, tail_sector_iff, block_size-file_geometry,
}

abbrev card : Geometry
card = record {
  first = 0;
  number_of_blocks = 4;
  pages_per_block = 4;
  sectors_per_page = 4;
  sector_size = 512;
}

abbrev near_end : BlockAddress
near_end = record { block = 2; position = 1000 }

card-IsSound : IsSound card
card-IsSound = omega arith

-- 24 bytes are left in the sector, so 100 bytes go to the next one.
find_room_moves : find_room near_end card 100 ≡ some (true, record { block = 2; position = 1024 })
unfolding find_room block_size
find_room_moves = refl

find_room_fails :
    find_room (record { block = 2; position = 8150 }) card 100
    ≡ some (false, record { block = 2; position = 8150 })
unfolding find_room block_size
find_room_fails = refl

find_room-FindsRoom_example : FindsRoom near_end card 100 (find_room near_end card 100)
unfolding block_size
find_room-FindsRoom_example =
    find_room-FindsRoom near_end card 100 card-IsSound (omega arith) (omega arith)

add_or_move-AddsOrMoves_example :
    AddsOrMoves near_end card 100 (add_or_move_to_following_sector near_end card 100)
unfolding block_size
add_or_move-AddsOrMoves_example =
    add_or_move-AddsOrMoves near_end card 100 card-IsSound (omega arith) (omega arith)

from-value_example : from (value near_end) ≡ near_end
from-value_example = from-value near_end (omega arith)

value-from_example : value (from 0x2000003e8) ≡ 0x2000003e8
value-from_example = value-from 0x2000003e8 (omega arith)

of_sector-sector_example :
    of_sector card (sector near_end card) (sector_offset near_end card) ≡ near_end
unfolding block_size
of_sector-sector_example = of_sector-sector near_end card card-IsSound (omega arith) (omega arith)

tail_sector_iff_example :
    (tail_sector near_end card ≡ true) ↔ (near_end.position / card.sector_size + 1 ≡ 16)
unfolding block_size
tail_sector_iff_example = tail_sector_iff near_end card card-IsSound (omega arith) (omega arith)

abbrev wide_sectors : Geometry
wide_sectors = record {
  first = 0;
  number_of_blocks = 4;
  pages_per_block = 2;
  sectors_per_page = 4;
  sector_size = 1024;
}

block_size-file_geometry_example : block_size (file_geometry wide_sectors) ≡ block_size wide_sectors
unfolding block_size
block_size-file_geometry_example =
    block_size-file_geometry wide_sectors 4 (omega arith) (omega arith) refl
