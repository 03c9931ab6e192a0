-- ===== src/Simple/Full.antt =====
-- What `SimpleFile::write` of src/simple_file.cpp does where its extent is full.
use consfs.Common.{
  ℕ, suc, ◌+◌, ◌-◌, ◌*◌, ◌%◌, ◌≤◌, ◌<◌, ◌≡◌, ◌≢◌, true, false, not, none, some, arith, refl, ap,
  ◌∙◌, lt→ltb, ==_ne, ==_iff, Bool-cases, inl, inr, add32,
}
use consfs.Addressing.{block_index_invalid, invalid_block_address, file_sector_size, is_valid_block}
use consfs.Addressing.Addr.{valid, beginning_of_block}
use consfs.Alloc.{allocated_valid}
use consfs.Backend.{Storage, Answers}
use consfs.SuperBlocks.Chain.{Succeeds}
use consfs.Files.Extents.{IsProper, allocate_next, contains_block-false}
use consfs.Files.Prealloc.{index_frequency, sub64}
use consfs.Files.Index.{IndexFormat, append_index}
use consfs.Blocked.{FileFormat, extent_supply, is_read, no_block, at_tail, put_tail}
use consfs.Blocked.Save.{
  write, flush, save_sector, pend_block, write_buffer, move_on, block_tail, flush_writing,
  write_round, write_from, leave_block, save_partial, Writing, copied,
}
use consfs.Simple.{SimpleFile, Blocks, write_simple}

module _ (T : Storage) (K : Answers T) (F : FileFormat) (X : IndexFormat) (garbage : ℕ → ℕ) where
  -- The file is open for writing in the last sector of the last block of its extent.
  pub record AtEnd (b : Blocks T F X garbage) : Type 0 where
    pub writes : is_read b.mode ≡ false
    pub no_ahead : b.buffavailable ≡ 0
    pub none_pending : b.pending ≡ no_block
    pub last_sector : at_tail T (extent_supply T) F b ≡ true
    pub real : valid b.head ≡ true
    pub proper : IsProper b.supply
    pub last_block : b.head.block + 1 ≡ b.supply.start + b.supply.nblocks

  no_next : (b : Blocks T F X garbage) → AtEnd b → allocate_next b.supply b.head ≡ no_block
  unfolding allocate_next
  no_next b end =
      let fits = end.proper.fits in
      let next : add32 b.head.block 1 ≡ b.supply.start + b.supply.nblocks =
        omega (arith, end.last_block, fits) in
      let outside =
        contains_block-false b.supply (b.supply.start + b.supply.nblocks) end.proper
          (inr (omega arith)) in
      rw (end.real, next, outside) refl

  -- The sector is written, and there is none to go on with.
  flush-AtEnd :
      (b : Blocks T F X garbage)
      → Succeeds T K
      → AtEnd b
      → b.buffpos ≢ 0
      → b.unflushed ≢ 0
      → (h : Blocks T F X garbage) × (flush T (extent_supply T) F b ≡ some (true, h))
        × (h.head ≡ invalid_block_address)
        × (h.blocks_in_file ≡ b.blocks_in_file)
  unfolding flush save_sector pend_block write_buffer move_on allocated_valid is_valid_block
  flush-AtEnd b ok end some_bytes unsaved =
      let g = record b { pending = no_block } in
      let full = put_tail F.block_codec (block_tail T (extent_supply T) F g) b.buffer in
      let (w, w_is, same, bytes) = K.writes b.storage b.head full file_sector_size in
      let good = ok.writes b.storage b.head full file_sector_size in
      let apart : b.head.block ≢ block_index_invalid =
        λ e. absurd (omega (arith, e, end.last_block, end.proper.fits)) in
      (
        record b {
          storage = w.1;
          buffer = λ i. 0;
          pending = no_block;
          head = invalid_block_address;
          bytes_in_block = 0;
          buffpos = 0;
          unflushed = 0;
        },
        rw
            (
              end.writes,
              ==_ne b.buffpos 0 some_bytes,
              ==_ne b.unflushed 0 unsaved,
              end.last_sector,
              no_next b end,
              lt→ltb 0 b.buffpos (omega (arith, some_bytes)),
              end.none_pending,
              end.no_ahead,
            )
            (rw
              (
                w_is,
                good,
                ==_ne b.buffpos 0 some_bytes,
                ==_ne b.head.block block_index_invalid apart,
              )
              refl),
        refl,
        refl,
      )

  -- The first round of a write fills the sector, and the second one has no room in it.
  fill_round :
      (b : Blocks T F X garbage) (ptr : ℕ → ℕ) (size n : ℕ)
      → AtEnd b
      → sub64 (sub64 file_sector_size F.block_codec.size) b.buffpos ≡ n
      → 0 < n
      → n < size
      → let start : Writing T (extent_supply T) F = record {
        file = b;
        to_write = size;
        wrote = 0;
        returned = false;
      } in
        write_round T (extent_supply T) F ptr size true start
        ≡ some (copied T (extent_supply T) F ptr n start)
  unfolding write_round
  fill_round b ptr size n end room_is some_room more =
      rw
        (
          end.last_sector,
          room_is,
          lt→ltb n size more,
          ==_ne n 0 (λ e. absurd (omega (arith, e, some_room))),
        )
        refl

  full_round :
      (w : Writing T (extent_supply T) F) (ptr : ℕ → ℕ) (size : ℕ) (h : Blocks T F X garbage)
      → AtEnd w.file
      → sub64 (sub64 file_sector_size F.block_codec.size) w.file.buffpos ≡ 0
      → flush T (extent_supply T) F w.file ≡ some (true, h)
      → h.head ≡ invalid_block_address
      → write_round T (extent_supply T) F ptr size true w
        ≡ some (record w { file = h; returned = true })
  unfolding write_round flush_writing valid
  full_round w ptr size h end no_room flushed head =
      let none_left : not (valid h.head) ≡ true = rw head refl in
      rw (end.last_sector, no_room, flushed)
        (ap (λ r. some (record w { file = h; returned = r })) none_left)

  write-rounds :
      (b v h : Blocks T F X garbage) (ptr : ℕ → ℕ) (size k left wrote : ℕ)
      → AtEnd b
      → 2 * size ≡ suc (suc k)
      → size ≢ 0
      → write_round T
          (extent_supply T)
          F
          ptr
          size
          true
          (record { file = b; to_write = size; wrote = 0; returned = false })
        ≡ some (record { file = v; to_write = left; wrote = wrote; returned = false })
      → left ≢ 0
      → write_round T
          (extent_supply T)
          F
          ptr
          size
          true
          (record { file = v; to_write = left; wrote = wrote; returned = false })
        ≡ some (record { file = h; to_write = left; wrote = wrote; returned = true })
      → write T (extent_supply T) F b ptr size true true ≡ some (wrote, h)
  unfolding write leave_block write_from save_partial
  write-rounds b v h ptr size k left wrote end fuel some_size first more second =
      rw (end.writes, end.real, fuel, ==_ne size 0 some_size, first, ==_ne left 0 more, second) refl

  -- A write of more bytes than the sector has room for takes those, and ends with no head.
  write-AtEnd :
      (b : Blocks T F X garbage) (ptr : ℕ → ℕ) (size : ℕ)
      → Succeeds T K
      → AtEnd b
      → b.buffpos + F.block_codec.size < file_sector_size
      → file_sector_size < size + b.buffpos + F.block_codec.size
      → b.unflushed ≤ b.buffpos
      → (h : Blocks T F X garbage) × (write T (extent_supply T) F b ptr size true true
          ≡ some (file_sector_size - F.block_codec.size - b.buffpos, h))
        × (h.head ≡ invalid_block_address)
        × (h.blocks_in_file ≡ b.blocks_in_file)
  write-AtEnd b ptr size ok end some_room more unsaved =
      let n = file_sector_size - F.block_codec.size - b.buffpos in
      let start : Writing T (extent_supply T) F = record {
        file = b;
        to_write = size;
        wrote = 0;
        returned = false;
      } in
      let w = copied T (extent_supply T) F ptr n start in
      let end_w : AtEnd w.file = record {
        writes = end.writes;
        no_ahead = end.no_ahead;
        none_pending = end.none_pending;
        last_sector = end.last_sector;
        real = end.real;
        proper = end.proper;
        last_block = end.last_block;
      } in
      let room_is : sub64 (sub64 file_sector_size F.block_codec.size) b.buffpos ≡ n =
        omega (arith, some_room) in
      let no_room : sub64 (sub64 file_sector_size F.block_codec.size) w.file.buffpos ≡ 0 =
        omega (arith, some_room) in
      let (h, flushed, head, blocks) =
        flush-AtEnd w.file ok end_w (λ e. absurd (omega (arith, e, some_room)))
          (λ e. absurd (omega (arith, e, some_room, unsaved))) in
      let wrote : 0 + n ≡ n = omega arith in
      let fuel : 2 * size ≡ suc (suc (2 * size - 2)) = omega (arith, more, some_room) in
      (
        h,
        write-rounds b w.file h ptr size (2 * size - 2) w.to_write w.wrote end fuel
              (λ e. absurd (omega (arith, e, more, some_room)))
              (fill_round b ptr size n end room_is (omega (arith, some_room))
                (omega (arith, more, some_room)))
              (λ e. absurd (omega (arith, e, more, some_room)))
              (full_round w ptr size h end_w no_room flushed head)
            ∙ ap (λ k. some (k, h)) wrote,
        head,
        blocks,
      )

  -- Noting a block that is not one stops.
  note_invalid :
      (f : SimpleFile T F X garbage) (ptr : ℕ → ℕ) (size n : ℕ) (b : Blocks T F X garbage)
      → write T (extent_supply T) F f.blocked ptr size true true ≡ some (n, b)
      → 0 < n
      → b.head.block ≡ block_index_invalid
      → 0 < b.blocks_in_file
      → b.blocks_in_file % index_frequency ≡ 0
      → f.previous_index_block ≢ block_index_invalid
      → write_simple T F X garbage f ptr size true true ≡ none
  unfolding write_simple append_index valid beginning_of_block
  note_invalid f ptr size n b wrote some_bytes full some_blocks eighth noted =
      let first = lt→ltb 0 n some_bytes in
      let later = lt→ltb 0 b.blocks_in_file some_blocks in
      let multiple = (==_iff (b.blocks_in_file % index_frequency) 0).1 eighth in
      let other = ==_ne f.previous_index_block b.head.block (λ e. noted (e ∙ full)) in
      let no_block = (==_iff b.head.block block_index_invalid).1 full in
      elim (Bool-cases (valid f.index.head)) [
        | inl real ↦ rw (wrote, first, later, other, multiple, real, no_block) refl
        | inr bad ↦ rw (wrote, first, later, other, multiple, bad) refl
      ]

  -- Where no operation of the storage fails, the file is open for writing in the last sector of the last block of
  -- its extent, whose number in the file is a multiple of 8 and not 0, that sector has room for some bytes
  -- and no more unflushed ones than it holds, and the last block noted in the index is not the invalid one:
  -- a write of more bytes than there is room for stops at a failed assertion.
  pub write_simple-full :
      (f : SimpleFile T F X garbage) (ptr : ℕ → ℕ) (size : ℕ)
      → Succeeds T K
      → AtEnd f.blocked
      → f.blocked.buffpos + F.block_codec.size < file_sector_size
      → f.blocked.unflushed ≤ f.blocked.buffpos
      → 0 < f.blocked.blocks_in_file
      → f.blocked.blocks_in_file % index_frequency ≡ 0
      → f.previous_index_block ≢ block_index_invalid
      → file_sector_size < size + f.blocked.buffpos + F.block_codec.size
      → write_simple T F X garbage f ptr size true true ≡ none
  write_simple-full f ptr size ok end some_room unsaved some_blocks eighth noted more =
      let (h, wrote, head, blocks) = write-AtEnd f.blocked ptr size ok end some_room more unsaved in
      note_invalid f ptr size (file_sector_size - F.block_codec.size - f.blocked.buffpos) h wrote
        (omega (arith, some_room)) (ap (λ a. a.block) head) (omega (arith, blocks, some_blocks))
        (ap (λ n. n % index_frequency) blocks ∙ eighth) noted
