-- ===== src/Tests/Layouts.antt =====
-- Layouts over storage that never fails, with entries of 16 bytes and tails of 4.
use consfs.Common.{
  ℕ, suc, ◌≡◌, ◌≤◌, Bool, true, false, not, ◌&&◌, none, some, [], ◌∷◌, refl, arith, ◌==◌, inr,
  if◌then◌else◌, leb, ltb,
}
use consfs.Addressing.{BlockAddress, block_index_invalid, is_valid_block}
use consfs.Addressing.Geom.{block_size}
use consfs.Addressing.Addr.{
  valid, add, find_room, follow, remaining_in_block, remaining_in_sector, tail_data_of,
}
use consfs.Addressing.TailRoom.{room_at}
use consfs.Alloc.{AllocatedBlock, BlockType}
use consfs.Backend.{Codec, load}
use consfs.Layout.{Format, Entry, Layout, new_layout, needs_block, find_available, walk}
use consfs.Layout.Reserve.{HasSpace, IsReserved, find_available-Reserves}
use consfs.Layout.InBlock.{HasRoomForTwo}
use consfs.Layout.RoundTrip.{IsSpacious, AllGood, append_all, walk_all, walk_all-append_all}
use consfs.Layout.LastRoom.{walk-last_room}
use consfs.Tests.Flat.{flat, flat_geometry, flat_answers, counting, Bytes}

-- A number in so many bytes, each of which holds it.
abbrev in_bytes : ℕ → Codec ℕ
in_bytes k = record {
  size = suc k;
  encode = λ x i. x;
  decode = λ bytes. bytes 0;
  Fits = λ x. Unit {0};
  decode-encode = λ x bytes fits same. same 0 (omega arith);
}

abbrev format : Format
format = record {
  Head = ℕ;
  Tail = ℕ;
  head_codec = in_bytes 25;
  tail_codec = in_bytes 3;
  new = λ type. block_index_invalid;
  fill = λ h. h;
  head_valid = λ h. true;
  link = λ h block. block;
  tail_of = λ block. block;
  linked = λ tail. tail;
  linked-tail_of = λ block. refl;
}

abbrev numbers : Entry ℕ
numbers = record { codec = in_bytes 15; entry_valid = λ e. not (e == 0xff) }

abbrev erased : Bytes
erased = λ b p. 0xff

abbrev writer : Layout flat counting format
writer =
    new_layout flat counting format erased 5 (record { block = 3; position = 512 }) BlockType.index

space : HasSpace flat_geometry 16 4
unfolding block_size
space = omega arith

find_available-Reserves_example :
    (r : BlockAddress × Layout flat counting format) × (find_available flat counting format writer
        16 0
      ≡ some r)
    × (valid r.0 ≡ true
        → IsReserved flat_geometry 16 4 r.0
          × (r.1.address ≡ add r.0 16)
          × (needs_block flat counting format writer 16 ≡ false
              → (r.0.block ≡ 3) × (512 ≤ r.0.position))
          × (needs_block flat counting format writer 16 ≡ true
              → (k : AllocatedBlock × ℕ) → counting.allocate 5 BlockType.index ≡ some k
              → r.0.block ≡ k.0.block))
unfolding block_size
find_available-Reserves_example =
    find_available-Reserves flat flat_answers counting format writer 16 0 space refl
      (λ h. (omega arith, inr (omega arith)))
      (λ needs. ((record { block = 5; age = 0; erased = false }, 6), refl))

two : HasRoomForTwo flat flat_answers counting format numbers flat_geometry
unfolding block_size
two = record { space = omega arith; some_byte = omega arith }

spacious :
    IsSpacious flat flat_answers counting format numbers flat_geometry
      (record { block = 3; position = 512 })
      2
unfolding block_size room_at find_room follow remaining_in_block remaining_in_sector add
spacious = (
  record { real = λ e. absurd (omega arith); behind_head = omega arith; before_tail = omega arith },
  (
    record {
      real = λ e. absurd (omega arith);
      behind_head = omega arith;
      before_tail = omega arith;
    },
    tt,
  ),
)

good : AllGood flat flat_answers counting format numbers (7 ∷ 9 ∷ [])
good = (record { fits = tt; good = refl }, (record { fits = tt; good = refl }, tt))

walk_all-append_all_example :
    (r : Bool × Layout flat counting format) × (append_all flat flat_answers counting format numbers
        (7 ∷ 9 ∷ [])
        writer
      ≡ some r)
    × (r.0 ≡ true
        → (reader : Layout flat counting format) → reader.storage ≡ r.1.storage
        → reader.iterator ≡ room_at flat_geometry 16 (record { block = 3; position = 512 })
        → (l' : Layout flat counting format) × (walk_all flat flat_answers counting format numbers 2
              reader
            ≡ some (7 ∷ 9 ∷ [], l')))
walk_all-append_all_example =
    walk_all-append_all flat flat_answers counting format numbers (7 ∷ 9 ∷ []) writer
      (λ s a k. refl) two spacious good

-- 28 bytes are left: one entry of 16 and the tail of 4, but not two entries.
abbrev late : Layout flat counting format
late = record {
  storage = λ b p. if b == 3 && leb 8164 p && ltb p 8180 then 7 else 0xffffffff;
  allocator = 5;
  address = record { block = 3; position = 8148 };
  iterator = record { block = 3; position = 8164 };
  type = BlockType.index;
}

walk-last_room_example :
    (needs_block flat counting format (record late { address = late.iterator }) 16 ≡ false)
    × (walk flat counting format numbers late
        ≡ some (none, record late { address = late.iterator }))
unfolding block_size valid load tail_data_of is_valid_block
walk-last_room_example =
    walk-last_room flat counting format numbers late (true, 0xffffffff) refl (omega arith)
      (omega arith) refl refl
