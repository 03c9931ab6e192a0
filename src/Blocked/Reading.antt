-- ===== src/Blocked/Reading.antt =====
-- `read` of src/blocked_file.cpp.
use consfs.Common.{
  ℕ, ◌+◌, ◌-◌, ◌%◌, ◌^◌, Bool, true, false, not, ◌||◌, Option, some, ltb, leb, ◌==◌, if◌then◌else◌,
  add32, u16, ◌>>=◌, ◌>>◌, check,
}
use consfs.Addressing.{file_sector_size, sector_index_invalid, block_index_invalid}
use consfs.Addressing.Addr.{valid, add, eq, is_beginning_of_block}
use consfs.Backend.{Storage}
use consfs.Blocked.{
  FileFormat, tail_of_buffer, end_of_file, Supply, BlockedFile, read_only, at_tail,
}
use consfs.Blocked.Seek.{seek_to}

-- What a read gives: how many bytes, and which.
pub record Got : Type 0 where
  pub count : ℕ
  pub byte : ℕ → ℕ

module _ (T : Storage) (S : Supply T) (F : FileFormat) where
  -- What the tail of the sector in the buffer says: how many bytes are available, and where the next
  -- sector is.
  unfoldable pub take_tail : BlockedFile T S F → BlockedFile T S F
  take_tail f =
      if at_tail T S F f
      then (let tail = tail_of_buffer F.block_codec f.buffer in
          record f {
            buffavailable = tail.sector.bytes;
            head =
                if not (tail.linked_block == block_index_invalid)
                then record { block = tail.linked_block; position = file_sector_size }
                else end_of_file;
          })
      else record f {
        buffavailable = (tail_of_buffer F.sector_codec f.buffer).bytes;
        head = add f.head file_sector_size;
      }

  -- A sector that is not written ends the file; a seek may have ended inside the sector.
  unfoldable pub settle : BlockedFile T S F → Bool × BlockedFile T S F
  settle f =
      if f.buffavailable == 0 || f.buffavailable == sector_index_invalid
      then (false, record f { buffavailable = 0; length = f.position })
      else if ltb 0 f.seek_offset
      then (true, record f { buffpos = f.seek_offset; seek_offset = 0 })
      else (true, f)

  unfoldable pub read_sector : BlockedFile T S F → Option (Bool × BlockedFile T S F)
  read_sector f =
      let g = record f {
        head = if is_beginning_of_block f.head then add f.head file_sector_size else f.head;
      } in
      T.read g.storage g.head file_sector_size >>= λ r.
      if not r.0
      then some (false, record g { buffer = r.1 })
      else some (settle (take_tail (record g { buffer = r.1 })))

  -- The next sector into the buffer; false where `read` returns 0.
  unfoldable pub refill : ℕ → BlockedFile T S F → Option (Bool × BlockedFile T S F)
  refill fuel f =
      let g = record f { buffpos = 0; buffavailable = 0 } in
      if eq g.head end_of_file
      then some (false, g)
      else if valid g.head
      then read_sector g
      else seek_to T S F fuel 0 g >>= λ r. if r.0 then read_sector r.1 else some (false, r.1)

  unfoldable pub take_bytes : ℕ → BlockedFile T S F → Option (Got × BlockedFile T S F)
  take_bytes size f =
      let remaining = u16 (f.buffavailable + 2 ^ 16 - f.buffpos % 2 ^ 16) in
      let n = if ltb size remaining then size else remaining in
      check (leb (f.buffpos + n) file_sector_size)
      >> some (
        record { count = n; byte = λ i. f.buffer (f.buffpos + i) },
        record f { buffpos = u16 (f.buffpos + n); position = add32 f.position n },
      )

  -- Fuel is for the seek of a file whose head is not valid.
  unfoldable pub read : ℕ → BlockedFile T S F → ℕ → Option (Got × BlockedFile T S F)
  read fuel f size =
      check (read_only T S F f)
      >> (if f.buffavailable == f.buffpos then refill fuel f else some (true, f))
      >>= λ r. if r.0 then take_bytes size r.1 else some (record { count = 0; byte = λ i. 0 }, r.1)
