-- ===== src/Simple/Table.antt =====
-- src/phylum/file_table.h and src/file_table.cpp, with src/phylum/file_descriptor.h: the table of the files in
-- the first block.
use consfs.Common.{
  ℕ, zero, suc, ◌||◌, Bool, true, false, not, Option, none, some, ◌==◌, if◌then◌else◌, refl,
}
use consfs.Addressing.{block_index_invalid}
use consfs.Alloc.{BlockType}
use consfs.Backend.{Storage, Codec, BlockHead, new_head, fill_magic, magic_valid, magic_key}
use consfs.Layout.{Format, Entry, Layout, new_layout, write_new_head, append_entry, walk}
use consfs.Files.Extents.{FileAllocation}
use consfs.Files.Index.{empty_allocates}

-- `name` is an array of 16 characters.
pub record FileDescriptor : Type 0 where
  pub name : ℕ → ℕ
  pub maximum_size : ℕ

-- Whether a string ends before a place.
abbrev pub ends_before : (ℕ → ℕ) → ℕ → Bool
ends_before s zero = false
ends_before s (suc i) = ends_before s i || s i == 0

-- `strncpy` fills the array with zeros behind the end; the last character is always 0.
unfoldable pub new_descriptor : (ℕ → ℕ) → ℕ → FileDescriptor
new_descriptor s maximum_size = record {
  name = λ i. if i == 15 then 0 else if ends_before s i then 0 else s i;
  maximum_size = maximum_size;
}

-- `strcmp(a, b) == 0` from a place on; `none` is a read behind both arrays.
unfoldable pub same_string : ℕ → (ℕ → ℕ) → (ℕ → ℕ) → ℕ → Option Bool
same_string zero a b i = none
same_string (suc left) a b i =
    let rest = same_string left a b (suc i) in
    if not (a i == b i) then some false else if a i == 0 then some true else rest

unfoldable pub compatible : FileDescriptor → FileDescriptor → Option Bool
compatible d other =
    if not (d.maximum_size == other.maximum_size)
    then some false
    else same_string 16 d.name other.name 0

-- `magic` is the key of a BlockMagic.
pub record FileTableEntry : Type 0 where
  pub magic : ℕ
  pub fd : FileDescriptor
  pub alloc : FileAllocation

-- The structs of a table: a head is a block head, and a tail has the link.
pub record TableFormat : Type 1 where
  pub head_codec : Codec BlockHead
  pub tail_codec : Codec ℕ
  pub entry_codec : Codec FileTableEntry

abbrev pub table_format : TableFormat → Format
table_format Y = record {
  Head = BlockHead;
  Tail = ℕ;
  head_codec = Y.head_codec;
  tail_codec = Y.tail_codec;
  new = new_head;
  fill = fill_magic;
  head_valid = magic_valid;
  link = λ h block. record h { linked_block = block };
  tail_of = λ block. block;
  linked = λ tail. tail;
  linked-tail_of = λ block. refl;
}

abbrev pub table_entries : TableFormat → Entry FileTableEntry
table_entries Y = record { codec = Y.entry_codec; entry_valid = λ e. e.magic == magic_key }

module _ (T : Storage) (Y : TableFormat) where
  abbrev pub FileTable : Type 0
  FileTable = Layout T empty_allocates (table_format Y)

  unfoldable pub new_table : T.State → FileTable
  new_table s =
      new_layout T empty_allocates (table_format Y) s tt (record { block = 0; position = 0 })
        BlockType.index

  unfoldable pub erase_table : FileTable → Option (Bool × FileTable)
  erase_table t = write_new_head T empty_allocates (table_format Y) t 0 block_index_invalid

  unfoldable pub write_table : FileTable → FileTableEntry → Option (Bool × FileTable)
  write_table t entry = append_entry T empty_allocates (table_format Y) (table_entries Y) t entry

  unfoldable pub read_table : FileTable → Option (Option FileTableEntry × FileTable)
  read_table t = walk T empty_allocates (table_format Y) (table_entries Y) t
