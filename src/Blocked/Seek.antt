-- ===== src/Blocked/Seek.antt =====
-- The methods of src/blocked_file.cpp that follow the chain: `seek`, `walk` and `erase_all_blocks`.
use consfs.Common.{
  ℕ, zero, suc, ◌-◌, ◌%◌, ◌^◌, Bool, true, false, not, ◌&&◌, ◌||◌, Option, none, some, ltb, leb,
  ◌==◌, if◌then◌else◌, add32, u16, u32, ◌>>=◌, ◌>>◌, check,
}
use consfs.Addressing.{
  BlockAddress, file_sector_size, invalid_block_address, sector_index_invalid, is_valid_block,
}
use consfs.Addressing.Addr.{valid, add, tail_sector, tail_sector_of}
use consfs.Backend.{Storage, load, magic_valid}
use consfs.Files.Prealloc.{sub64}
use consfs.Blocked.{
  FileBlockTail, FileFormat, tail_of_buffer, Supply, BlockedFile, geometry, erase_file,
}

pub record SeekInfo : Type 0 where
  pub address : BlockAddress
  pub version : ℕ
  pub bytes : ℕ
  pub bytes_in_block : ℕ
  pub blocks : ℕ

abbrev pub nothing_sought : SeekInfo
nothing_sought = record {
  address = invalid_block_address;
  version = 0;
  bytes = 0;
  bytes_in_block = 0;
  blocks = 0;
}

abbrev pub no_bound : ℕ
no_bound = 2 ^ 64 - 1

module _ (T : Storage) (S : Supply T) (F : FileFormat) where
  -- The file, with the state of the visitor.
  abbrev pub Visited : Type 0 → Type 0
  Visited V = BlockedFile T S F × V

  -- What the visitor does with a block and its position in the file.
  abbrev pub Visitor : Type 0 → Type 0
  Visitor V = ℕ → ℕ → Visited V → Option (Visited V)

  abbrev pub no_visitor : Visitor (Unit {0})
  no_visitor block position v = some v

  -- The state of the loop of `seek`; `broken` is set where the loop ends, and `failed` where a read fails.
  pub record Seeking : Type 0 where
    pub info : SeekInfo
    pub desired : ℕ
    pub scanned : Bool
    pub broken : Bool
    pub failed : Bool

  abbrev pub visit_on :
      {V : Type 0} → Visitor V → ℕ → Seeking → Visited V → Option (Seeking × Visited V)
  visit_on visit block k v = visit block (add32 k.info.bytes v.0.position) v >>= λ u. some (k, u)

  -- A round at the last sector of a block: over the whole block, or into it from its first sector.
  unfoldable pub seek_tail :
      {V : Type 0} → Visitor V → FileBlockTail → Seeking → Visited V → Option (Seeking × Visited V)
  seek_tail visit tail k v =
      let here = k.info.address in
      if is_valid_block tail.linked_block && leb tail.bytes_in_block k.desired
      then visit_on visit here.block
          (record k {
            info = record k.info {
              address = tail_sector_of tail.linked_block (geometry T S F v.0);
              bytes = add32 k.info.bytes tail.bytes_in_block;
              bytes_in_block = 0;
              blocks = add32 k.info.blocks 1;
            };
            desired = k.desired - tail.bytes_in_block;
          })
          v
      else if not k.scanned
      then visit_on visit here.block
          (record k {
            info = record k.info {
              address = record { block = here.block; position = file_sector_size };
              bytes_in_block = 0;
            };
            scanned = true;
          })
          v
      else if ltb k.desired tail.sector.bytes
      then some (
        record k {
          info = record k.info {
            address = add here (u32 k.desired);
            bytes = add32 k.info.bytes k.desired;
            bytes_in_block = add32 k.info.bytes_in_block k.desired;
          };
          broken = true;
        },
        v,
      )
      else some (record k { broken = true }, v)

  -- A round at another sector.
  unfoldable pub seek_sector : ℕ → Seeking → Seeking
  seek_sector bytes k =
      if bytes == 0 || bytes == sector_index_invalid
      then record k { broken = true }
      else if leb bytes k.desired
      then record k {
        info = record k.info {
          address = add k.info.address file_sector_size;
          bytes = add32 k.info.bytes bytes;
          bytes_in_block = add32 k.info.bytes_in_block bytes;
        };
        desired = k.desired - bytes;
      }
      else record k {
        info = record k.info {
          address = add k.info.address (u32 k.desired);
          bytes = add32 k.info.bytes k.desired;
          bytes_in_block = add32 k.info.bytes_in_block k.desired;
        };
        broken = true;
      }

  unfoldable pub seek_round :
      {V : Type 0} → Visitor V → Seeking → Visited V → Option (Seeking × Visited V)
  seek_round visit k v = T.read v.0.storage k.info.address file_sector_size >>= λ r.
      let f = record v.0 { buffer = r.1 } in
      if not r.0
      then some (record k { info = nothing_sought; broken = true; failed = true }, (f, v.1))
      else if tail_sector k.info.address (geometry T S F f)
      then seek_tail visit (tail_of_buffer F.block_codec r.1) k (f, v.1)
      else some (seek_sector (tail_of_buffer F.sector_codec r.1).bytes k, (f, v.1))

  -- On fuel, which a chain of blocks with a cycle uses up.
  unfoldable pub seek_from :
      {V : Type 0} → ℕ → Visitor V → Seeking → Visited V → Option (Seeking × Visited V)
  seek_from zero visit k v = none
  seek_from (suc fuel) visit k v = seek_round visit k v >>= λ r.
      let rest = seek_from fuel visit r.0 r.1 in if r.0.broken then some r else rest

  -- The `seek` that gives a SeekInfo, with `verify_head_block` set, as in its one call.
  unfoldable pub seek_info :
      {V : Type 0}
      → ℕ
      → Visitor V
      → BlockAddress
      → ℕ
      → ℕ
      → Visited V
      → Option (SeekInfo × Visited V)
  seek_info fuel visit start position_at_start desired v =
      check (valid start)
      >> load T F.head_codec v.0.storage (record { block = start.block; position = 0 })
      >>= λ r.
          let f = record v.0 { head = start; position = position_at_start } in
          if not r.0 || not (magic_valid r.1.block)
          then some (nothing_sought, (f, v.1))
          else seek_from fuel visit
              (record {
                info = record {
                  address = tail_sector_of start.block (geometry T S F f);
                  version = r.1.version;
                  bytes = 0;
                  bytes_in_block = 0;
                  blocks = 0;
                };
                desired = desired;
                scanned = false;
                broken = false;
                failed = false;
              })
              (f, v.1)
            >>= λ q. some (q.0.info, q.1)

  -- The file at the place that is found.
  abbrev pub sought : SeekInfo → BlockedFile T S F → BlockedFile T S F
  sought info f =
      let offset = u16 (info.address.position % file_sector_size) in
      record f {
        seek_offset = offset;
        version = info.version;
        head = add info.address (2 ^ 32 - offset);
        blocks_in_file = info.blocks;
        bytes_in_block = info.bytes_in_block;
        position = add32 f.position info.bytes;
      }

  -- The `seek` from an address.
  unfoldable pub seek_visiting :
      {V : Type 0} → ℕ → Visitor V → BlockAddress → ℕ → ℕ → Visited V → Option (Bool × Visited V)
  seek_visiting fuel visit start position_at_start desired v =
      seek_info fuel visit start position_at_start (sub64 desired position_at_start) v >>= λ r.
      let f = sought r.0 r.1.0 in
      if not (valid r.0.address)
      then some (false, r.1)
      else if desired == no_bound
      then some (true, (record f { length = add32 position_at_start r.0.bytes }, r.1.1))
      else some (f.position == desired, (f, r.1.1))

  unfoldable pub seek_to : ℕ → ℕ → BlockedFile T S F → Option (Bool × BlockedFile T S F)
  seek_to fuel desired f =
      seek_visiting fuel no_visitor (if valid f.beg then f.beg else f.head) 0 desired (f, tt)
      >>= λ r. some (r.0, r.1.0)

  unfoldable pub walk_file : {V : Type 0} → ℕ → Visitor V → Visited V → Option (Bool × Visited V)
  walk_file fuel visit v = seek_to fuel 0 v.0 >>= λ r.
      if not r.0
      then some (false, (r.1, v.1))
      else seek_visiting fuel visit r.1.head 0 no_bound (r.1, v.1)

  -- `Eraser`
  abbrev pub eraser : Visitor (Unit {0})
  eraser block position v = S.free v.0.storage v.0.supply block >>= λ r.
      some (record v.0 { storage = r.0; supply = r.1 }, v.1)

  -- What the walk returns is not looked at.
  unfoldable pub erase_all_blocks : ℕ → BlockedFile T S F → Option (Bool × BlockedFile T S F)
  erase_all_blocks fuel f =
      seek_visiting fuel eraser f.beg 0 no_bound (f, tt) >>= λ r. erase_file T S F r.1.0
