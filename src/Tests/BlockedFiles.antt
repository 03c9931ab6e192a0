-- ===== src/Tests/BlockedFiles.antt =====
-- A file that is written and read back, on storage that never fails.
use consfs.Common.{
  ℕ, ◌+◌, ◌*◌, ◌/◌, ◌%◌, ◌^◌, ◌≤◌, ◌<◌, ◌≡◌, true, false, some, List, [], ◌∷◌, ltb, ◌==◌,
  if◌then◌else◌, u32, refl, arith, lt→ltb, ◌∙◌,
}
use consfs.Addressing.{block_index_invalid, invalid_block_address, is_valid_block}
use consfs.Addressing.Addr.{valid, tail_sector, tail_sector_of, add}
use consfs.Addressing.Geom.{block_size, file_geometry}
use consfs.Backend.{Codec, magic_key, magic_valid, load}
use consfs.Blocked.{
  FileBlockHead, FileSectorTail, FileBlockTail, FileFormat, Supply, BlockedFile, OpenMode, new_file,
}
use consfs.Blocked.Reading.{Got}
use consfs.Blocked.Refilled.{ErasedIsUnwritten}
use consfs.Blocked.Client.{read_all, store_content}
use consfs.Blocked.Flushing.{Gives, FormatHolds}
use consfs.Blocked.RoundTrip.{read_all-store_content}
use consfs.Blocked.Seek.{
  seek_to, seek_visiting, seek_info, seek_from, seek_round, seek_tail, seek_sector,
}
use consfs.Blocked.Reading.{read}
use consfs.Blocked.AfterSeek.{read-seek_to}
use consfs.Tests.Flat.{flat, flat_answers, Bytes}
use consfs.Tests.SuperBlocks.{never_fails}
use consfs.Tests.Flash.{head_codec}

-- A number of 16 bits in two bytes.
abbrev pub low_high : ℕ → ℕ → ℕ
low_high n i = if i == 0 then n % 256 else n / 256

abbrev pub sector_codec : Codec FileSectorTail
sector_codec = record {
  size = 2;
  encode = λ t i. low_high t.bytes i;
  decode = λ bytes. record { bytes = bytes 0 + 256 * bytes 1 };
  Fits = λ t. t.bytes < 2 ^ 16;
  decode-encode = λ t bytes fits same. λ i. record {
    bytes = two_bytes t.bytes (bytes 0) (bytes 1) (same 0 (omega arith)) (same 1 (omega arith)) i;
  };
}
  where
    two_bytes : (n a b : ℕ) → a ≡ n % 256 → b ≡ n / 256 → a + 256 * b ≡ n
    two_bytes n a b low high = omega (arith, low, high)

pub block_tail_read :
    (t : FileBlockTail) (bytes : ℕ → ℕ)
    → t.sector.bytes < 2 ^ 16
    → bytes 0 ≡ t.sector.bytes % 256
    → bytes 1 ≡ t.sector.bytes / 256
    → bytes 2 ≡ t.bytes_in_block
    → bytes 3 ≡ t.linked_block
    → record {
      sector = record { bytes = bytes 0 + 256 * bytes 1 };
      bytes_in_block = bytes 2;
      linked_block = bytes 3;
    }
      ≡ t
block_tail_read t bytes fits low high in_block linked =
    let sum : bytes 0 + 256 * bytes 1 ≡ t.sector.bytes = omega (arith, low, high) in
    rw (sum, in_block, linked) refl

-- Its last two fields take a byte each, which holds them.
abbrev pub block_codec : Codec FileBlockTail
block_codec = record {
  size = 4;
  encode = λ t i.
      if ltb i 2
      then low_high t.sector.bytes i
      else if i == 2
      then t.bytes_in_block
      else t.linked_block;
  decode = λ bytes. record {
    sector = record { bytes = bytes 0 + 256 * bytes 1 };
    bytes_in_block = bytes 2;
    linked_block = bytes 3;
  };
  Fits = λ t. t.sector.bytes < 2 ^ 16;
  decode-encode = λ t bytes fits same.
      block_tail_read t bytes fits (same 0 (omega arith)) (same 1 (omega arith))
        (same 2 (omega arith)) (same 3 (omega arith));
}

pub file_head_read :
    (h : FileBlockHead) (bytes : ℕ → ℕ)
    → ((i : ℕ)
        → i < 7
        → bytes i ≡ (
            if ltb i 5
            then head_codec.encode h.block i
            else if i == 5
            then h.file_id
            else h.version))
    → record { block = head_codec.decode bytes; file_id = bytes 5; version = bytes 6 } ≡ h
file_head_read h bytes same =
    let first =
      head_codec.decode-encode h.block bytes tt
        (λ i small. same i (omega arith) ∙ rw (lt→ltb i 5 small) refl) in
    rw (first, same 5 (omega arith), same 6 (omega arith)) refl

abbrev pub file_format : FileFormat
file_format = record {
  head_codec = record {
    size = 7;
    encode = λ h i.
        if ltb i 5 then head_codec.encode h.block i else if i == 5 then h.file_id else h.version;
    decode =
        λ bytes. record { block = head_codec.decode bytes; file_id = bytes 5; version = bytes 6 };
    Fits = λ h. Unit {0};
    decode-encode = λ h bytes fits same. file_head_read h bytes same;
  };
  sector_codec = sector_codec;
  block_codec = block_codec;
}

holds : FormatHolds file_format
holds = record {
  small = record { sector_small = omega arith; block_small = omega arith };
  sector = λ n small. small;
  block = λ l small in_block linked. small;
  head_small = omega arith;
}

erased_tails : ErasedIsUnwritten file_format
erased_tails = record {
  sector = λ bytes erased. omega (arith, erased 0 (omega arith), erased 1 (omega arith));
  block = λ bytes erased. omega (arith, erased 0 (omega arith), erased 1 (omega arith));
}

-- Blocks from a counter.
abbrev counted_supply : Supply flat
counted_supply = record {
  State = ℕ;
  allocate = λ t s head. some (record { block = s; age = 0; erased = false }, s + 1);
  free = λ t s block. some (t, s);
}

abbrev counted_gives : Gives counted_supply
counted_gives = record {
  Given = λ s k. k < s;
  Has = λ s n. (0 < s) × (s + n < block_index_invalid);
  fewer = λ s n has. (has.0, omega (arith, has.1));
  gives = λ t s head n has. (
    record { block = s; age = 0; erased = false },
    s + 1,
    refl,
    (omega arith, omega (arith, has.1)),
    λ h. omega (arith, h),
    omega arith,
    λ k h. omega (arith, h),
    has.0,
    omega (arith, has.1),
    refl,
  );
}

abbrev zeros : Bytes
zeros b p = 0

-- Three writes, over two blocks.
abbrev pieces : List ℕ
pieces = 700 ∷ 0 ∷ 9000 ∷ []

large_blocks : 2 * 512 ≤ block_size (file_geometry (flat.geometry zeros))
unfolding block_size file_geometry
large_blocks = omega arith

read_all-store_content_example :
    (h : BlockedFile flat counted_supply file_format) × (store_content flat counted_supply
        file_format
        (λ i. i % 251)
        pieces
        (new_file flat counted_supply file_format zeros 3 1 OpenMode.write invalid_block_address
          (λ i. 7))
      ≡ some (true, h))
    × (h.length ≡ u32 9700)
    × (got : Got) × (read_all flat counted_supply file_format 9701 0 100
          (new_file flat counted_supply file_format h.storage 3 2 OpenMode.read h.beg (λ i. 7))
        ≡ some got)
    × (got.count ≡ 9700)
    × ((i : ℕ) → i < 9700 → got.byte i ≡ i % 251)
read_all-store_content_example =
    read_all-store_content flat flat_answers counted_supply file_format counted_gives (λ i. i % 251)
      zeros 3 3 1 2 0 100 invalid_block_address (λ i. 7) (λ i. 7) pieces never_fails holds
      erased_tails large_blocks (omega arith, omega arith) (omega arith)

-- One block with a head and a sector of 100 bytes, and no link.
abbrev one_sector : Bytes
one_sector b p =
    if p == 0
    then magic_key
    else if p == 1022
    then 100
    else if p == 1023
    then 0
    else if p == 8191
    then block_index_invalid
    else p

-- A reader that has read 10 of the 100 bytes.
abbrev reader : BlockedFile flat counted_supply file_format
unfolding new_file
reader =
    record (new_file flat counted_supply file_format one_sector 3 1 OpenMode.read
      (record { block = 3; position = 0 }) (λ i. i + 512)) {
        buffavailable = 100;
        buffpos = 10;
        position = 10;
      }

reader_at_beginning : BlockedFile flat counted_supply file_format
reader_at_beginning = record reader {
  buffer = λ i. one_sector 3 (512 + i);
  position = 0;
  version = 6;
  head = record { block = 3; position = 512 };
}

sought_beginning :
    seek_to flat counted_supply file_format 3 0 reader ≡ some (true, reader_at_beginning)
unfolding reader reader_at_beginning seek_to seek_visiting seek_info seek_from seek_round seek_tail
    seek_sector load magic_valid valid tail_sector tail_sector_of add new_file is_valid_block
    block_size file_geometry
sought_beginning = refl

read-seek_to_example :
    (got : Got) × (g : BlockedFile flat counted_supply file_format) × (read flat counted_supply
        file_format 3 reader_at_beginning 20
      ≡ some (got, g))
    × (got.count ≡ 20)
    × ((i : ℕ) → got.byte i ≡ reader_at_beginning.buffer (10 + i))
    × (g.head ≡ reader_at_beginning.head)
    × (g.seek_offset ≡ reader_at_beginning.seek_offset)
unfolding reader
read-seek_to_example =
    read-seek_to flat counted_supply file_format 3 3 0 20 reader reader_at_beginning true refl
      (omega arith) (omega arith) sought_beginning
