-- ===== src/Tests/SimpleFiles.antt =====
-- The index of a file that is formatted, and a file whose extent is full, on storage that never fails.
use consfs.Common.{
  ℕ, ◌<◌, ◌≡◌, true, none, some, ltb, ◌==◌, if◌then◌else◌, refl, arith, lt→ltb, ◌∙◌,
}
use consfs.Addressing.{block_index_invalid}
use consfs.Addressing.Addr.{valid, tail_sector}
use consfs.Addressing.Geom.{block_size, file_geometry}
use consfs.Backend.{Storage, Answers, magic_valid}
use consfs.Files.Extents.{Extent, FileAllocation}
use consfs.Files.Index.{IndexFormat, IndexBlockHead, IndexRecord, format_blocks, seek_index_block}
use consfs.Files.FreshIndex.{HeadHolds, seek_index_block-format_blocks}
use consfs.Blocked.{OpenMode, no_block}
use consfs.Simple.{SimpleFile, Blocks, write_simple}
use consfs.Simple.Full.{AtEnd, write_simple-full}
use consfs.SuperBlocks.Chain.{Succeeds}
use consfs.Tests.Flat.{flat, flat_answers, Bytes, flat_geometry, flat_read, flat_write, flat_erase}
use consfs.Tests.SuperBlocks.{never_fails}
use consfs.Tests.Flash.{head_codec}
use consfs.Tests.BlockedFiles.{file_format}

index_head_read :
    (h : IndexBlockHead) (bytes : ℕ → ℕ)
    → ((i : ℕ) → i < 6 → bytes i ≡ (if ltb i 5 then head_codec.encode h.block i else h.position))
    → record { block = head_codec.decode bytes; position = bytes 5 } ≡ h
index_head_read h bytes same =
    let first =
      head_codec.decode-encode h.block bytes tt
        (λ i small. same i (omega arith) ∙ rw (lt→ltb i 5 small) refl) in
    rw (first, same 5 (omega arith)) refl

index_record_read :
    (r : IndexRecord) (bytes : ℕ → ℕ)
    → bytes 0 ≡ r.position
    → bytes 1 ≡ r.address.block
    → bytes 2 ≡ r.address.position
    → record { position = bytes 0; address = record { block = bytes 1; position = bytes 2 } } ≡ r
index_record_read r bytes at block position = rw (at, block, position) refl

-- A field in a byte each, which holds it.
abbrev index_structs : IndexFormat
index_structs = record {
  head_codec = record {
    size = 6;
    encode = λ h i. if ltb i 5 then head_codec.encode h.block i else h.position;
    decode = λ bytes. record { block = head_codec.decode bytes; position = bytes 5 };
    Fits = λ h. Unit {0};
    decode-encode = λ h bytes fits same. index_head_read h bytes same;
  };
  tail_codec = record {
    size = 1;
    encode = λ x i. x;
    decode = λ bytes. bytes 0;
    Fits = λ x. Unit {0};
    decode-encode = λ x bytes fits same. same 0 (omega arith);
  };
  record_codec = record {
    size = 3;
    encode = λ r i.
        if i == 0 then r.position else if i == 1 then r.address.block else r.address.position;
    decode = λ bytes. record {
      position = bytes 0;
      address = record { block = bytes 1; position = bytes 2 };
    };
    Fits = λ r. Unit {0};
    decode-encode = λ r bytes fits same.
        index_record_read r bytes (same 0 (omega arith)) (same 1 (omega arith))
          (same 2 (omega arith));
  };
}

head_holds : HeadHolds index_structs
unfolding magic_valid
head_holds = record {
  small = omega arith;
  fits = tt;
  erased = λ bytes erased. rw (erased 0 (omega arith)) refl;
}

abbrev index_extent : Extent
index_extent = record { start = 2; nblocks = 5 }

abbrev zeros : Bytes
zeros b p = 0

seek_index_block-format_blocks_example :
    (t : Bytes) × (format_blocks flat (λ i. 7) index_structs index_extent zeros ≡ some (true, t))
    × ((position : ℕ)
        → seek_index_block flat (λ i. 7) index_structs t position index_extent ≡ some (some 2))
seek_index_block-format_blocks_example =
    seek_index_block-format_blocks flat flat_answers never_fails (λ i. 7) index_structs index_extent
      zeros head_holds refl (record { some_block = omega arith; fits = omega arith })

-- The same storage with 32 blocks.
abbrev flat_of_32 : Storage
flat_of_32 = record {
  State = Bytes;
  geometry = λ s. record flat_geometry { number_of_blocks = 32 };
  read = flat_read;
  write = flat_write;
  erase = flat_erase;
  erase-geometry = λ s b r e. refl;
}

abbrev flat_of_32_answers : Answers flat_of_32
flat_of_32_answers = record {
  view = λ s. s;
  reads = λ s a n. (_, refl, λ h i small. refl);
  writes = λ s a d n. (_, refl, refl, λ h b p. refl);
  erases = λ s block. (_, refl, refl, λ h b p. refl);
}

flat_of_32-Succeeds : Succeeds flat_of_32 flat_of_32_answers
flat_of_32-Succeeds = record {
  reads = λ s a n. refl;
  writes = λ s a d n. refl;
  erases = λ s block. refl;
}

abbrev allocation : FileAllocation
allocation = record {
  index = record { start = 2; nblocks = 10 };
  content = record { start = 12; nblocks = 9 };
}

-- A file in the last sector of the ninth and last block of its extent, behind eight blocks of 7648 bytes and
-- 14 sectors of 510, with room for one byte.
abbrev last_blocks : Blocks flat_of_32 file_format index_structs (λ i. 7)
last_blocks = record {
  storage = zeros;
  supply = allocation.content;
  id = 0;
  buffer = λ i. 0;
  buffavailable = 0;
  buffpos = 507;
  unflushed = 507;
  seek_offset = 0;
  bytes_in_block = 7647;
  position = 68831;
  length = 68831;
  version = 1;
  blocks_in_file = 8;
  pending = no_block;
  mode = OpenMode.write;
  head = record { block = 20; position = 7680 };
  beg = record { block = 12; position = 0 };
}

abbrev last_file : SimpleFile flat_of_32 file_format index_structs (λ i. 7)
last_file = record {
  blocked = last_blocks;
  file = allocation;
  previous_index_block = 20;
  index = record { extent = allocation.index; head = record { block = 2; position = 518 } };
  seeking_nblocks = block_index_invalid;
}

last_blocks-AtEnd :
    AtEnd flat_of_32 flat_of_32_answers file_format index_structs (λ i. 7) last_blocks
unfolding tail_sector block_size file_geometry valid
last_blocks-AtEnd = record {
  writes = refl;
  no_ahead = refl;
  none_pending = refl;
  last_sector = refl;
  real = refl;
  proper = record { some_block = omega arith; fits = omega arith };
  last_block = refl;
}

write_simple-full_example :
    write_simple flat_of_32 file_format index_structs (λ i. 7) last_file (λ i. i) 2 true true ≡ none
write_simple-full_example =
    write_simple-full flat_of_32 flat_of_32_answers file_format index_structs (λ i. 7) last_file
      (λ i. i) 2 flat_of_32-Succeeds last_blocks-AtEnd (omega arith) (omega arith) (omega arith)
      refl (omega arith) (omega arith)
