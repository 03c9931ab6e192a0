-- ===== src/Blocked/Save.antt =====
-- The methods of src/blocked_file.cpp that write: `save_sector`, `flush`, `write` and `close`.
use consfs.Common.{
  ℕ, zero, suc, ◌+◌, ◌-◌, ◌*◌, Bool, true, false, not, ◌&&◌, ◌||◌, Option, none, some, ltb, leb,
  ◌==◌, if◌then◌else◌, add32, u16, ◌>>=◌, ◌>>◌, check,
}
use consfs.Addressing.{BlockAddress, file_sector_size, invalid_block_address, is_valid_block}
use consfs.Addressing.Addr.{valid, add}
use consfs.Alloc.{AllocatedBlock, allocated_valid}
use consfs.Backend.{Storage}
use consfs.Files.Prealloc.{Sizes, sub64, effective_file_block_size}
use consfs.Blocked.{
  FileBlockTail, FileFormat, is_multiple_writes, put_tail, no_block, Supply, BlockedFile, read_only,
  at_tail, initialize_block,
}

-- The sizes that files use; the other two are of the index.
abbrev pub sizes_of : FileFormat → Sizes
sizes_of F = record {
  index_record = 0;
  index_block_tail = 0;
  file_sector_tail = F.sector_codec.size;
  file_block_tail = F.block_codec.size;
}

pub record SavedSector : Type 0 where
  pub saved : ℕ
  pub head : BlockAddress
  pub allocated : AllocatedBlock

module _ (T : Storage) (S : Supply T) (F : FileFormat) where
  -- The block that follows, if there is one, with its head written.
  unfoldable pub pend_block : BlockedFile T S F → Option (BlockedFile T S F)
  pend_block f =
      if allocated_valid f.pending
      then some f
      else S.allocate f.storage f.supply f.head >>= λ a.
          let g = record f { supply = a.1; pending = a.0 } in
          if allocated_valid a.0
          then (initialize_block T S F g a.0 f.head.block >>= λ r. check (valid r.0) >> some r.1)
          else some g

  abbrev pub block_tail : BlockedFile T S F → FileBlockTail
  block_tail f = record {
    sector = record { bytes = f.buffpos };
    bytes_in_block = f.bytes_in_block;
    linked_block = f.pending.block;
  }

  -- The buffer with its tail goes to the head.
  unfoldable pub write_buffer :
      Bool
      → BlockAddress
      → AllocatedBlock
      → BlockedFile T S F
      → Option (SavedSector × BlockedFile T S F)
  write_buffer flushing following allocated f =
      T.write f.storage f.head f.buffer file_sector_size >>= λ w.
      if not w.0
      then some
          (record { saved = 0; head = f.head; allocated = f.pending }, record f { storage = w.1 })
      else some (
        record { saved = f.buffpos; head = following; allocated = allocated },
        if flushing
            then record f { storage = w.1; buffer = λ i. 0; pending = no_block }
            else record f { storage = w.1 },
      )

  unfoldable pub save_sector : BlockedFile T S F → Bool → Option (SavedSector × BlockedFile T S F)
  save_sector f flushing =
      check (not (read_only T S F f))
      >> check (ltb 0 f.buffpos && f.buffavailable == 0)
      >> (if at_tail T S F f
          then (pend_block f >>= λ g.
              write_buffer flushing (record { block = g.pending.block; position = 0 }) g.pending
                (record g { buffer = put_tail F.block_codec (block_tail g) g.buffer }))
          else write_buffer flushing (add f.head file_sector_size) no_block (record f {
            buffer = put_tail F.sector_codec (record { bytes = f.buffpos }) f.buffer;
          }))

  -- Where the file goes on after a sector is saved.
  unfoldable pub move_on : SavedSector → BlockedFile T S F → Option (BlockedFile T S F)
  move_on s f =
      if f.head.block == s.head.block
      then some (record f { head = s.head })
      else if allocated_valid s.allocated && is_valid_block s.head.block
      then (initialize_block T S F f s.allocated f.head.block >>= λ r.
          check (valid r.0)
          >> some (record r.1 {
            head = r.0;
            blocks_in_file = add32 r.1.blocks_in_file 1;
            bytes_in_block = 0;
          }))
      else some (record f { head = invalid_block_address; bytes_in_block = 0 })

  unfoldable pub flush : BlockedFile T S F → Option (Bool × BlockedFile T S F)
  flush f =
      if read_only T S F f
      then some (false, f)
      else if (f.buffpos == 0 || ltb 0 f.buffavailable) || f.unflushed == 0
      then some (true, f)
      else save_sector f true >>= λ s.
          if s.0.saved == 0
          then some (false, s.1)
          else move_on s.0 s.1 >>= λ g. some (true, record g { buffpos = 0; unflushed = 0 })

  unfoldable pub close_file : BlockedFile T S F → Option (BlockedFile T S F)
  close_file f = flush f >>= λ r. some r.1

  -- The state of the loop of `write`; `returned` is an early return.
  pub record Writing : Type 0 where
    pub file : BlockedFile T S F
    pub to_write : ℕ
    pub wrote : ℕ
    pub returned : Bool

  -- A flush that fails returns from `write`.
  unfoldable pub flush_writing : Bool → Writing → Option Writing
  flush_writing spanning w = flush w.file >>= λ r.
      some (record w { file = r.1; returned = not r.0 || (spanning && not (valid r.1.head)) })

  abbrev pub room : BlockedFile T S F → ℕ
  room f =
      sub64
        (sub64 file_sector_size
          (if at_tail T S F f then F.block_codec.size else F.sector_codec.size))
        f.buffpos

  abbrev pub copied : (ℕ → ℕ) → ℕ → Writing → Writing
  copied ptr n w = record w {
    file = record w.file {
      buffer = λ i.
          if leb w.file.buffpos i && ltb i (w.file.buffpos + n)
          then ptr (w.wrote + (i - w.file.buffpos))
          else w.file.buffer i;
      buffpos = u16 (w.file.buffpos + n);
      unflushed = u16 (w.file.unflushed + n);
      length = add32 w.file.length n;
      position = add32 w.file.position n;
      bytes_in_block = add32 w.file.bytes_in_block n;
    };
    wrote = w.wrote + n;
    to_write = w.to_write - n;
  }

  -- One round of the loop.
  unfoldable pub write_round : (ℕ → ℕ) → ℕ → Bool → Writing → Option Writing
  write_round ptr size span_sectors w =
      let n = if ltb (room w.file) w.to_write then room w.file else w.to_write in
      if not span_sectors && not (n == size)
      then flush_writing false w
      else if room w.file == 0
      then flush_writing true w
      else some (copied ptr n w)

  -- On fuel; two rounds for each byte are enough where writes may span sectors.
  unfoldable pub write_from : ℕ → (ℕ → ℕ) → ℕ → Bool → Writing → Option Writing
  write_from zero ptr size span_sectors w = if w.to_write == 0 then some w else none
  write_from (suc fuel) ptr size span_sectors w =
      if w.to_write == 0
      then some w
      else write_round ptr size span_sectors w >>= λ v.
          let rest = write_from fuel ptr size span_sectors v in if v.returned then some v else rest

  -- A write that may not span blocks goes to the next block where the rest of this one is too short;
  -- false where `write` returns 0.
  unfoldable pub leave_block : BlockedFile T S F → ℕ → Bool → Option (Bool × BlockedFile T S F)
  leave_block f size span_blocks =
      if not span_blocks
        && (ltb 0 f.bytes_in_block
            && ltb
                (sub64 (effective_file_block_size (sizes_of F) (T.geometry f.storage))
                  f.bytes_in_block)
                size)
      then (flush f >>= λ r. some (r.0 && valid r.1.head, r.1))
      else some (true, f)

  -- With several writes to a sector, what is in the buffer is saved at once.
  unfoldable pub save_partial : Writing → Option (ℕ × BlockedFile T S F)
  save_partial w =
      if not w.returned && (ltb 0 w.file.buffpos && is_multiple_writes w.file.mode)
      then (save_sector w.file false >>= λ s. some (if s.0.saved == 0 then 0 else w.wrote, s.1))
      else some (w.wrote, w.file)

  unfoldable pub write :
      BlockedFile T S F → (ℕ → ℕ) → ℕ → Bool → Bool → Option (ℕ × BlockedFile T S F)
  write f ptr size span_sectors span_blocks =
      check (not (read_only T S F f))
      >> check (span_sectors || leb size (sub64 file_sector_size F.block_codec.size))
      >> (if not (valid f.head)
          then some (0, f)
          else leave_block f size span_blocks >>= λ r.
              if not r.0
              then some (0, r.1)
              else write_from (2 * size) ptr size span_sectors
                  (record { file = r.1; to_write = size; wrote = 0; returned = false })
                >>= save_partial)
