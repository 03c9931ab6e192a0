-- ===== src/Tests/Flash.antt =====
-- A block that is freed and one that is allocated, on storage that never fails.
use consfs.Common.{
  ℕ, ◌+◌, ◌<◌, ◌≡◌, Bool, true, false, Option, some, none, ◌==◌, if◌then◌else◌, refl, arith, ◌⊎◌,
  ◌>>=◌,
}
use consfs.Alloc.{AllocatedBlock, BlockType}
use consfs.Backend.{Codec, load, BlockHead, magic_key, magic_valid}
use consfs.Addressing.{is_valid_block}
use consfs.SerialFlash.{
  Map, Flash, new_tracker, is_free, visit_block, allocate_flash, allocate_internal, free_flash,
  scan_one, scan_blocks, scan_from, scan_block, is_block_free, is_taken, note_free, note_one,
  take_anchors, set_block_taken, set_block_free, set_range_free, first_preallocated,
}
use consfs.SerialFlash.Map.{IsBytes}
use consfs.SerialFlash.Select.{Head, Candidate}
use consfs.SerialFlash.Least.{Reads, Least, allocate_internal-Least}
use consfs.SerialFlash.Freeing.{HeadsFit, Freed, free_flash-Freed}
use consfs.Tests.Flat.{flat, flat_answers, Bytes}
use consfs.Tests.SuperBlocks.{number, type_of_number, type_of_number-number}

abbrev pub head_bytes : BlockHead → ℕ → ℕ
head_bytes h i =
    if i == 0
    then h.magic
    else if i == 1
    then number h.type
    else if i == 2
    then h.age
    else if i == 3
    then h.timestamp
    else h.linked_block

abbrev pub head_from : (ℕ → ℕ) → BlockHead
head_from bytes = record {
  magic = bytes 0;
  type = type_of_number (bytes 1);
  age = bytes 2;
  timestamp = bytes 3;
  linked_block = bytes 4;
}

pub head_from-head_bytes :
    (h : BlockHead) (bytes : ℕ → ℕ)
    → ((i : ℕ) → i < 5 → bytes i ≡ head_bytes h i)
    → head_from bytes ≡ h
head_from-head_bytes h bytes same =
    rw
      (
        same 0 (omega arith),
        same 1 (omega arith),
        same 2 (omega arith),
        same 3 (omega arith),
        same 4 (omega arith),
        type_of_number-number h.type,
      )
      refl

abbrev pub head_codec : Codec BlockHead
head_codec = record {
  size = 5;
  encode = head_bytes;
  decode = head_from;
  Fits = λ h. Unit {0};
  decode-encode = λ h bytes fits same. head_from-head_bytes h bytes same;
}

abbrev head_of : BlockType → ℕ → BlockHead
head_of type age = record {
  magic = magic_key;
  type = type;
  age = age;
  timestamp = 0;
  linked_block = 0;
}

-- The blocks 4 and 5 are free, with ages of 5 and 3; the rest are of files.
abbrev pub used : Bytes
used b p =
    if b == 4
    then head_bytes (head_of BlockType.unallocated 5) p
    else if b == 5
    then head_bytes (head_of BlockType.unallocated 3) p
    else head_bytes (head_of BlockType.file 1) p

abbrev pub flash : Flash flat head_codec
flash = record { preallocated = λ i. 0; storage = used; map = λ i. 0 }

abbrev heads_used : ℕ → Head
heads_used b = (true, head_from (λ i. used b (0 + i)))

reads : Reads flat head_codec flash.map heads_used flash.storage
unfolding load
reads b = refl

pub clear-IsBytes : IsBytes flash.map
clear-IsBytes i = omega arith

allocate_internal-Least_example :
    ((a : AllocatedBlock) × (map : Map) × (allocate_internal flat head_codec flash BlockType.file
        ≡ some (a, record flash { map = map }))
      × IsBytes map
      × Least flat head_codec flash.map heads_used 8 a map)
    ⊎ ((allocate_internal flat head_codec flash BlockType.file ≡ none)
        × ((k : ℕ) → ¬ Candidate flash.map heads_used 8 k))
allocate_internal-Least_example =
    allocate_internal-Least flat head_codec flash BlockType.file heads_used reads clear-IsBytes
      (omega arith) (omega arith)

heads_fit : HeadsFit flat flat_answers head_codec
heads_fit = record { decoded = λ bytes. _; freed = λ h age fits small. _ }

free_flash-Freed_example :
    (g : Flash flat head_codec) × ((free_flash flat head_codec flash 6 0 ≡ some (true, g))
        × Freed flat flat_answers head_codec flash g 6 0
      ⊎ (free_flash flat head_codec flash 6 0 ≡ some (false, g)) × (g.map ≡ flash.map))
free_flash-Freed_example =
    free_flash-Freed flat flat_answers head_codec flash 6 0 heads_fit clear-IsBytes (omega arith)
      (omega arith)

-- The block of age 3 is the one allocated.
abbrev block_given : Option (AllocatedBlock × Flash flat head_codec) → ℕ
block_given none = 0
block_given (some r) = r.0.block

given_five : block_given (allocate_internal flat head_codec flash BlockType.file) ≡ 5
unfolding allocate_internal scan_one scan_blocks scan_from scan_block is_block_free is_taken load
    note_free note_one take_anchors set_block_taken set_block_free magic_valid
given_five = refl

-- A tracker has the block that it is told, and the anchors, as taken.
abbrev tracked : ℕ → Option Bool
tracked block = new_tracker >>= (λ m. visit_block m 9) >>= λ m. is_free m block

tracker_taken :
    (tracked 9 ≡ some false)
    × (tracked 2 ≡ some false)
    × (tracked 10 ≡ some true)
    × (tracked 64 ≡ some false)
unfolding new_tracker visit_block is_free set_range_free take_anchors set_block_taken set_block_free
    is_block_free
tracker_taken = (refl, refl, refl, refl)

-- With no block in the map, an allocation stops at the assertion.
abbrev full : Flash flat head_codec
full = record { preallocated = λ i. 0; storage = used; map = λ i. 255 }

full_stops : allocate_flash flat head_codec full BlockType.file ≡ none
unfolding allocate_flash first_preallocated is_valid_block allocate_internal scan_one scan_blocks
    scan_from scan_block is_block_free is_taken load note_free note_one take_anchors set_block_taken
    set_block_free magic_valid
full_stops = refl
