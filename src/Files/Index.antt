-- ===== src/Files/Index.antt =====
-- `FileIndex` of src/phylum/file_index.h and src/file_index.cpp: records of places of a file, in the blocks
-- of an extent. `none` is a failed assertion, or fuel that runs out.
use consfs.Common.{
  ℕ, zero, suc, ◌-◌, ◌^◌, Bool, true, false, not, ◌&&◌, Option, none, some, ltb, ◌==◌,
  if◌then◌else◌, u32, add32, ◌>>=◌, ◌>>◌, check, refl,
}
use consfs.Addressing.{BlockAddress, block_index_invalid, invalid_block_address}
use consfs.Addressing.Addr.{valid, is_zero}
use consfs.Alloc.{BlockType, allocate_nothing}
use consfs.Backend.{
  Storage, Allocates, Codec, load, store, BlockHead, new_head, fill_magic, magic_valid,
}
use consfs.Layout.{Format, Entry, Layout, new_layout, append, walk}
use consfs.Cache.Calls.{caching}
use consfs.Files.Extents.{
  Extent, ExtentAllocator, allocate_extent, middle_block, first_half, extent_empty, beginning,
}
use consfs.Files.IndexSearch.{next_region}

-- The reserved fields are left to the codec.
pub record IndexBlockHead : Type 0 where
  pub block : BlockHead
  pub position : ℕ

pub record IndexRecord : Type 0 where
  pub position : ℕ
  pub address : BlockAddress

unfoldable pub record_valid : IndexRecord → Bool
record_valid r = valid r.address && not (is_zero r.address)

-- A record whose address is not set.
abbrev pub no_record : IndexRecord
no_record = record { position = 0; address = invalid_block_address }

-- How the compiler lays out the structs; an `IndexBlockTail` has the link.
pub record IndexFormat : Type 1 where
  pub head_codec : Codec IndexBlockHead
  pub tail_codec : Codec ℕ
  pub record_codec : Codec IndexRecord

abbrev pub index_format : IndexFormat → Format
index_format X = record {
  Head = IndexBlockHead;
  Tail = ℕ;
  head_codec = X.head_codec;
  tail_codec = X.tail_codec;
  new = λ t. record { block = new_head t; position = 0 };
  fill = λ h. record h { block = fill_magic h.block };
  head_valid = λ h. magic_valid h.block;
  link = λ h block. record h { block = record h.block { linked_block = block } };
  tail_of = λ block. block;
  linked = λ tail. tail;
  linked-tail_of = λ block. refl;
}

abbrev pub index_entries : IndexFormat → Entry IndexRecord
index_entries X = record { codec = X.record_codec; entry_valid = record_valid }

-- A head of an index, filled, for a place of the file.
abbrev pub index_head : ℕ → IndexBlockHead
index_head position = record { block = fill_magic (new_head BlockType.index); position = position }

abbrev pub extent_allocates : Allocates
extent_allocates = record { State = ExtentAllocator; allocate = allocate_extent }

-- `empty_allocator`
abbrev pub empty_allocates : Allocates
empty_allocates = record { State = Unit {0}; allocate = λ s type. some (allocate_nothing type, s) }

-- `extent` is the one of the file's allocation.
pub record FileIndex : Type 0 where
  pub extent : Extent
  pub head : BlockAddress

abbrev pub new_index : Extent → FileIndex
new_index extent = record { extent = extent; head = invalid_block_address }

module _ (T : Storage) (garbage : ℕ → ℕ) (X : IndexFormat) where
  -- The storage through the cache that each call of the index makes.
  abbrev pub cached : Storage
  cached = caching T garbage

  -- `IndexBlockLayout::format`: the loop over the halves, on fuel; 33 rounds are enough for 32 bits.
  unfoldable pub erase_middles : ℕ → Extent → T.State → Option (Bool × T.State)
  erase_middles zero region s = none
  erase_middles (suc fuel) region s =
      if extent_empty region
      then some (true, s)
      else cached.erase s (middle_block region) >>= λ r.
          let rest = erase_middles fuel (first_half region) r.1 in
          if r.0 then rest else some (false, r.1)

  unfoldable pub write_index_head : T.State → ℕ → Option (Bool × T.State)
  write_index_head s block = cached.erase s block >>= λ e.
      if not e.0
      then some (false, e.1)
      else store cached X.head_codec e.1 (record { block = block; position = 0 }) (index_head 0)

  -- The first half of a region starts where the region does.
  unfoldable pub format_blocks : Extent → T.State → Option (Bool × T.State)
  format_blocks extent s = erase_middles 33 extent s >>= λ r.
      if not r.0 then some (false, r.1) else write_index_head r.1 extent.start

  unfoldable pub format_index : T.State → FileIndex → Option (Bool × (T.State × FileIndex))
  format_index s x = format_blocks x.extent s >>= λ r.
      if not r.0
      then some (false, (r.1, x))
      else some (true, (r.1, record x { head = beginning x.extent }))

  -- `IndexBlockLayout::seek`; `none` in the result is a read that fails.
  unfoldable pub find_block : ℕ → T.State → ℕ → Extent → ℕ → Option (Option ℕ)
  find_block zero s position region valid_block = none
  find_block (suc fuel) s position region valid_block =
      if extent_empty region
      then some (some valid_block)
      else load cached X.head_codec s (record { block = middle_block region; position = 0 })
        >>= λ r.
            let good = magic_valid r.1.block in
            let rest =
              find_block fuel s position
                (next_region (λ b. none) position region
                  (record { valid = good; position = r.1.position }))
                (if good then middle_block region else valid_block) in
            if not r.0
            then some none
            else if good && r.1.position == position
            then some (some (middle_block region))
            else rest

  unfoldable pub seek_index_block : T.State → ℕ → Extent → Option (Option ℕ)
  seek_index_block s position extent = find_block 33 s position extent block_index_invalid

  -- A layout for reading.
  abbrev pub reading_at : T.State → ℕ → Layout cached empty_allocates (index_format X)
  reading_at s block =
      new_layout cached empty_allocates (index_format X) s tt
        (record { block = block; position = 0 }) BlockType.index

  unfoldable pub walk_to_last :
      ℕ
      → Layout cached empty_allocates (index_format X)
      → Option (Layout cached empty_allocates (index_format X))
  walk_to_last zero l = none
  walk_to_last (suc fuel) l =
      walk cached empty_allocates (index_format X) (index_entries X) l >>= λ r.
      let rest = walk_to_last fuel r.1 in elim (r.0) [ none ↦ some r.1 | some e ↦ rest ]

  unfoldable pub initialize_index : ℕ → T.State → FileIndex → Option (Bool × FileIndex)
  initialize_index fuel s x = seek_index_block s (2 ^ 64 - 1) x.extent >>= λ found. elim found [
    | none ↦ some (false, x)
    | some block ↦
        check (not (block == block_index_invalid))
        >> walk_to_last fuel (reading_at s block)
        >>= λ l. some (true, record x { head = l.address })
  ]

  -- The last record that is not behind the position.
  unfoldable pub select_record :
      ℕ → ℕ → Layout cached empty_allocates (index_format X) → IndexRecord → Option IndexRecord
  select_record zero position l selected = none
  select_record (suc fuel) position l selected =
      walk cached empty_allocates (index_format X) (index_entries X) l >>= λ r. elim (r.0) [
        | none ↦ some selected
        | some e ↦
            let rest = select_record fuel position r.1 e in
            if position == e.position
            then some e
            else if ltb position e.position
            then some selected
            else rest
      ]

  unfoldable pub seek_index : ℕ → T.State → FileIndex → ℕ → Option (Bool × IndexRecord)
  seek_index fuel s x position =
      check (valid x.head) >> seek_index_block s position x.extent >>= λ found. elim found [
        | none ↦ some (false, no_record)
        | some block ↦
            select_record fuel position (reading_at s block) no_record >>= λ r. some (true, r)
      ]

  -- The position is an uint32_t.
  unfoldable pub append_index :
      T.State → FileIndex → ℕ → BlockAddress → Option (Bool × (T.State × FileIndex))
  append_index s x position address =
      check (valid x.head)
      >> check (valid address)
      >> append cached extent_allocates (index_format X) (index_entries X)
          (new_layout cached extent_allocates (index_format X) s
            (record { extent = x.extent; block = add32 x.head.block 1 }) x.head BlockType.index)
          (record { position = u32 position; address = address }) (index_head (u32 position))
      >>= λ r.
          if r.0
          then some (true, (r.1.storage, record x { head = r.1.address }))
          else some (false, (r.1.storage, x))
