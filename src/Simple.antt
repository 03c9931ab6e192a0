-- ===== src/Simple.antt =====
-- src/phylum/simple_file.h and src/simple_file.cpp: a file in an extent, with its index. The storage and the
-- layout of the structs are parameters. `none` is a failed assertion, or fuel that runs out.
pub mod Table
pub mod Mounting
pub mod Full
use consfs.Common.{
  ℕ, ◌+◌, ◌-◌, ◌*◌, ◌%◌, ◌^◌, Bool, true, false, not, ◌&&◌, Option, none, some, ltb, ◌==◌,
  if◌then◌else◌, u32, u64, add32, ◌>>=◌,
}
use consfs.Addressing.{BlockAddress, block_index_invalid, invalid_block_address}
use consfs.Addressing.Addr.{beginning_of_block}
use consfs.Backend.{Storage}
use consfs.Files.Extents.{FileAllocation}
use consfs.Files.Prealloc.{sub64, index_frequency, effective_file_block_size}
use consfs.Files.Index.{
  IndexFormat, FileIndex, new_index, record_valid, format_index, initialize_index, seek_index,
  append_index,
}
use consfs.Blocked.{
  FileFormat, OpenMode, extent_supply, BlockedFile, new_file, geometry, read_only, initialize_file,
  format_file,
}
use consfs.Blocked.Save.{sizes_of, write, flush, close_file}
use consfs.Blocked.Seek.{no_bound, Visitor, no_visitor, seek_visiting}
use consfs.Blocked.Reading.{Got, read}

module _ (T : Storage) (F : FileFormat) (X : IndexFormat) (garbage : ℕ → ℕ) where
  -- `ExtentBlockedFile`
  abbrev pub Blocks : Type 0
  Blocks = BlockedFile T (extent_supply T) F

  pub record SimpleFile : Type 0 where
    pub blocked : Blocks
    pub file : FileAllocation
    pub previous_index_block : ℕ
    pub index : FileIndex
    pub seeking_nblocks : ℕ

  unfoldable pub new_simple : T.State → FileAllocation → ℕ → OpenMode → (ℕ → ℕ) → SimpleFile
  new_simple storage file id mode buffer = record {
    blocked =
        new_file T (extent_supply T) F storage file.content id mode invalid_block_address buffer;
    file = file;
    previous_index_block = 0;
    index = new_index file.index;
    seeking_nblocks = block_index_invalid;
  }

  -- The file and its index share the storage.
  abbrev pub with_index : SimpleFile → T.State × FileIndex → SimpleFile
  with_index f x = record f { blocked = record f.blocked { storage = x.0 }; index = x.1 }

  -- What `SimpleFile::block` sees of the file, as the visitor of its own seek.
  pub record Noting : Type 0 where
    pub index : FileIndex
    pub seeking_nblocks : ℕ

  -- What the append returns is only logged.
  unfoldable pub note_block : Visitor T (extent_supply T) F Noting
  note_block block position v =
      let n = add32 v.1.seeking_nblocks 1 in
      if v.1.seeking_nblocks == block_index_invalid
      then some v
      else if not (n % index_frequency == 0)
      then some (v.0, record v.1 { seeking_nblocks = n })
      else append_index T garbage X v.0.storage v.1.index position
          (record { block = block; position = 0 })
        >>= λ r.
            some (record v.0 { storage = r.1.0 }, record { index = r.1.1; seeking_nblocks = n })

  unfoldable pub seek_simple : ℕ → ℕ → SimpleFile → Option (Bool × SimpleFile)
  seek_simple fuel desired f =
      seek_index T garbage X fuel f.blocked.storage f.index desired >>= λ end.
      if not end.0
      then some (false, f)
      else if not (record_valid end.1)
      then (seek_visiting T (extent_supply T) F fuel (no_visitor T (extent_supply T) F)
            (record { block = f.file.content.start; position = 0 }) 0 desired (f.blocked, tt)
          >>= λ r. some (r.0, record f { blocked = r.1.0 }))
      else seek_visiting T (extent_supply T) F fuel note_block end.1.address (u32 end.1.position)
          desired (f.blocked, record { index = f.index; seeking_nblocks = 0 })
        >>= λ r. some (
          r.0,
          record f {
            blocked = r.1.0;
            index = r.1.1.index;
            seeking_nblocks = if r.0 then block_index_invalid else r.1.1.seeking_nblocks;
          },
        )

  unfoldable pub read_simple : ℕ → SimpleFile → ℕ → Option (Got × SimpleFile)
  read_simple fuel f size =
      read T (extent_supply T) F fuel f.blocked size >>= λ r. some (r.0, record f { blocked = r.1 })

  -- A write that has come to a block whose number in the file is a multiple of 8 notes the block.
  unfoldable pub write_simple : SimpleFile → (ℕ → ℕ) → ℕ → Bool → Bool → Option (ℕ × SimpleFile)
  write_simple f ptr size span_sectors span_blocks =
      write T (extent_supply T) F f.blocked ptr size span_sectors span_blocks >>= λ r.
      let b = r.1 in
      let g = record f { blocked = b } in
      if ltb 0 r.0
        && (ltb 0 b.blocks_in_file
            && (not (f.previous_index_block == b.head.block)
                && b.blocks_in_file % index_frequency == 0))
      then (append_index T garbage X b.storage f.index (sub64 b.position b.bytes_in_block)
            (beginning_of_block b.head)
          >>= λ a.
              let h = with_index g a.1 in
              if a.0
              then some (r.0, record h { previous_index_block = b.head.block })
              else some (0, h))
      else some (r.0, g)

  unfoldable pub initialize_simple : ℕ → SimpleFile → Option (Bool × SimpleFile)
  initialize_simple fuel f =
      let g = record f { blocked = initialize_file T (extent_supply T) F f.blocked } in
      initialize_index T garbage X fuel g.blocked.storage g.index >>= λ i.
      if not i.0
      then some (false, record g { index = i.1 })
      else seek_simple fuel no_bound (record g { index = i.1 }) >>= λ r.
          if not r.0
          then some (false, r.1)
          else if read_only T (extent_supply T) F r.1.blocked
          then seek_simple fuel 0 r.1
          else some (true, r.1)

  unfoldable pub format_simple : SimpleFile → Option (Bool × SimpleFile)
  format_simple f = format_file T (extent_supply T) F f.blocked >>= λ b.
      let g = record f { blocked = b.1 } in
      if not b.0
      then some (false, g)
      else format_index T garbage X g.blocked.storage g.index >>= λ i.
          let h = with_index g i.1 in
          if not i.0
          then some (false, h)
          else append_index T garbage X h.blocked.storage h.index 0 h.blocked.head >>= λ a.
              some (a.0, with_index h a.1)

  unfoldable pub erase_simple : ℕ → SimpleFile → Option (Bool × SimpleFile)
  erase_simple fuel f =
      let g = record f { blocked = initialize_file T (extent_supply T) F f.blocked } in
      initialize_index T garbage X fuel g.blocked.storage g.index >>= λ i.
      if not i.0
      then some (false, record g { index = i.1 })
      else seek_simple fuel 0 (record g { index = i.1 }) >>= λ r.
          if r.0 then format_simple r.1 else some (false, r.1)

  unfoldable pub flush_simple : SimpleFile → Option (Bool × SimpleFile)
  flush_simple f =
      flush T (extent_supply T) F f.blocked >>= λ r. some (r.0, record f { blocked = r.1 })

  unfoldable pub close_simple : SimpleFile → Option SimpleFile
  close_simple f =
      close_file T (extent_supply T) F f.blocked >>= λ b. some (record f { blocked = b })

  unfoldable pub in_final_block : SimpleFile → Bool
  in_final_block f =
      add32 f.blocked.head.block 1 == add32 f.file.content.start f.file.content.nblocks

  unfoldable pub maximum_size : SimpleFile → ℕ
  maximum_size f = u64 (
      f.file.content.nblocks
      * effective_file_block_size (sizes_of F) (geometry T (extent_supply T) F f.blocked))
