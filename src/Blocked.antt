-- ===== src/Blocked.antt =====
-- src/phylum/blocked_file.h and src/blocked_file.cpp: a file as a chain of blocks of sectors, with the
-- structs of src/phylum/file_system.h in them. `none` is a failed assertion.
pub mod Seek
pub mod Save
pub mod Reading
pub mod AfterSeek
pub mod Client
pub mod Chain
pub mod Refilled
pub mod ReadBack
pub mod Flushing
pub mod Advance
pub mod Rounds
pub mod WriteOn
pub mod RoundTrip
use consfs.Common.{
  ℕ, ◌+◌, ◌-◌, ◌^◌, Bool, true, false, not, ◌&&◌, ◌||◌, Option, none, some, ltb, leb, ◌==◌,
  if◌then◌else◌, add32, ◌>>=◌, ◌>>◌, check,
}
use consfs.Addressing.{
  BlockAddress, Geometry, file_sector_size, block_index_invalid, invalid_block_address,
}
use consfs.Addressing.Geom.{file_geometry}
use consfs.Addressing.Addr.{valid, tail_sector, beginning_of_block}
use consfs.Alloc.{AllocatedBlock, BlockType, allocated_valid}
use consfs.Backend.{Storage, Codec, load, store, BlockHead, new_head, magic_key, magic_valid}
use consfs.Files.Extents.{Extent, allocate_next}
use consfs.SuperBlocks.{Reuses}

-- The reserved fields, and those that nothing uses, are left to the codec.
pub record FileBlockHead : Type 0 where
  pub block : BlockHead
  pub file_id : ℕ
  pub version : ℕ

pub record FileSectorTail : Type 0 where
  pub bytes : ℕ

-- `linked_block` is the one field of the struct `block`.
pub record FileBlockTail : Type 0 where
  pub sector : FileSectorTail
  pub bytes_in_block : ℕ
  pub linked_block : ℕ

-- How the compiler lays out the structs.
pub record FileFormat : Type 1 where
  pub head_codec : Codec FileBlockHead
  pub sector_codec : Codec FileSectorTail
  pub block_codec : Codec FileBlockTail

-- `FileBlockHead::fill` of a new head.
abbrev pub filled_head : BlockHead
filled_head = record (new_head BlockType.file) { magic = magic_key; age = 0; timestamp = 0 }

pub data OpenMode : Type 0 where
  read write multiple_writes : OpenMode

abbrev pub is_read : OpenMode → Bool
is_read OpenMode.read = true
is_read _ = false

abbrev pub is_multiple_writes : OpenMode → Bool
is_multiple_writes OpenMode.multiple_writes = true
is_multiple_writes _ = false

-- `tail_info`: the struct at the end of a sector that is read.
abbrev pub tail_of_buffer : {A : Type 0} → Codec A → (ℕ → ℕ) → A
tail_of_buffer c buffer = c.decode (λ i. buffer (file_sector_size - c.size + i))

abbrev pub put_tail : {A : Type 0} → Codec A → A → (ℕ → ℕ) → ℕ → ℕ
put_tail c x buffer i =
    if ltb i (file_sector_size - c.size)
    then buffer i
    else c.encode x (i - (file_sector_size - c.size))

-- An AllocatedBlock that is not set.
abbrev pub no_block : AllocatedBlock
no_block = record { block = block_index_invalid; age = 0; erased = false }

abbrev pub end_of_file : BlockAddress
end_of_file = invalid_block_address

-- The virtual methods `allocate` and `free`, the first with the head of the file. An allocator may read
-- the storage, and `free` may change it.
pub record Supply (T : Storage) : Type 1 where
  pub State : Type 0
  pub allocate : T.State → State → BlockAddress → Option (AllocatedBlock × State)
  pub free : T.State → State → ℕ → Option (T.State × State)

-- `ExtentBlockedFile`
abbrev pub extent_supply : (T : Storage) → Supply T
extent_supply T = record {
  State = Extent;
  allocate = λ s e head. some (allocate_next e head, e);
  free = λ s e block. some (s, e);
}

-- `AllocatedBlockedFile`, over an allocator that leaves the storage as it is.
abbrev pub allocator_supply : (T : Storage) → Reuses → Supply T
allocator_supply T B = record {
  State = B.State;
  allocate = λ s b head. B.allocate b BlockType.file;
  free = λ s b block. B.free b block 0 >>= λ r. some (s, r.1);
}

module _ (T : Storage) (S : Supply T) (F : FileFormat) where
  pub record BlockedFile : Type 0 where
    pub storage : T.State
    pub supply : S.State
    pub id : ℕ
    pub buffer : ℕ → ℕ
    pub buffavailable : ℕ
    pub buffpos : ℕ
    pub unflushed : ℕ
    pub seek_offset : ℕ
    pub bytes_in_block : ℕ
    pub position : ℕ
    pub length : ℕ
    pub version : ℕ
    pub blocks_in_file : ℕ
    pub pending : AllocatedBlock
    pub mode : OpenMode
    pub head : BlockAddress
    pub beg : BlockAddress

  -- The constructor does not clear the buffer: `garbage` is what memory held.
  unfoldable pub new_file : T.State → S.State → ℕ → OpenMode → BlockAddress → (ℕ → ℕ) → BlockedFile
  new_file storage supply id mode head garbage = record {
    storage = storage;
    supply = supply;
    id = id;
    buffer = garbage;
    buffavailable = 0;
    buffpos = 0;
    unflushed = 0;
    seek_offset = 0;
    bytes_in_block = 0;
    position = 0;
    length = 0;
    version = 0;
    blocks_in_file = 0;
    pending = no_block;
    mode = mode;
    head = head;
    beg = head;
  }

  abbrev pub geometry : BlockedFile → Geometry
  geometry f = file_geometry (T.geometry f.storage)

  abbrev pub read_only : BlockedFile → Bool
  read_only f = is_read f.mode

  abbrev pub at_tail : BlockedFile → Bool
  at_tail f = tail_sector f.head (geometry f)

  abbrev pub block_head : BlockedFile → AllocatedBlock → ℕ → FileBlockHead
  block_head f allocated previous = record {
    block = record filled_head { age = allocated.age; linked_block = previous };
    file_id = f.id;
    version = f.version;
  }

  -- `initialize` of a block, with the address of its first sector for data.
  unfoldable pub initialize_block :
      BlockedFile → AllocatedBlock → ℕ → Option (BlockAddress × BlockedFile)
  initialize_block f allocated previous =
      check (allocated_valid allocated)
      >> (if allocated.erased then some (true, f.storage) else T.erase f.storage allocated.block)
      >>= λ e.
          if not e.0
          then some (invalid_block_address, record f { storage = e.1 })
          else store T F.head_codec e.1 (record { block = allocated.block; position = 0 })
              (block_head f allocated previous)
            >>= λ w. some (
              if w.0
                  then record { block = allocated.block; position = file_sector_size }
                  else invalid_block_address,
              record f { storage = w.1 },
            )

  -- `initialize` of the file
  unfoldable pub initialize_file : BlockedFile → BlockedFile
  initialize_file f = record f {
    length = 0;
    position = 0;
    buffpos = 0;
    unflushed = 0;
    buffavailable = 0;
    seek_offset = 0;
    bytes_in_block = 0;
    blocks_in_file = 0;
  }

  unfoldable pub format_file : BlockedFile → Option (Bool × BlockedFile)
  unfolding initialize_file
  format_file f =
      let clear = initialize_file (record f { version = add32 f.version 1 }) in
      S.allocate clear.storage clear.supply clear.head >>= λ a.
      initialize_block (record clear { supply = a.1 }) a.0 block_index_invalid >>= λ r.
      some (true, record r.1 { head = r.0; beg = beginning_of_block r.0 })

  unfoldable pub erase_file : BlockedFile → Option (Bool × BlockedFile)
  erase_file f = format_file (initialize_file f)

  unfoldable pub exists : BlockedFile → Option (Bool × BlockedFile)
  exists f =
      if not (valid f.head)
      then some (false, f)
      else load T F.head_codec f.storage f.head >>= λ r.
          if r.0 && magic_valid r.1.block
          then some (true, record f { beg = f.head })
          else some (false, f)
