-- ===== src/FreePile.antt =====
-- src/phylum/free_pile.h and src/free_pile.cpp: a layout that keeps free blocks. The sizes and bytes of
-- its structs are parameters.
use consfs.Common.{ℕ, Bool, true, Option, some, refl, ◌||◌, ◌>>=◌, if◌then◌else◌}
use consfs.Addressing.{BlockAddress, block_index_invalid, file_sector_size, is_valid_block}
use consfs.Alloc.{BlockType}
use consfs.Backend.{Storage, Allocates, Codec, BlockHead, new_head, fill_magic, magic_valid}
use consfs.Layout.{
  Format, Entry, Layout, new_layout, write_new_head, append_entry, find_append_location,
}

-- `FreePileBlockHead` has the block head alone, and `FreePileBlockTail` the link.
unfoldable pub fill_free_head : BlockHead → BlockHead
fill_free_head h = record (fill_magic h) { age = 0; timestamp = 0 }

pub record FreePileEntry : Type 0 where
  pub available : ℕ
  pub taken : ℕ

unfoldable pub free_entry_valid : FreePileEntry → Bool
free_entry_valid e = is_valid_block e.available || is_valid_block e.taken

abbrev pub free_format : Codec BlockHead → Codec ℕ → Format
free_format head tail = record {
  Head = BlockHead;
  Tail = ℕ;
  head_codec = head;
  tail_codec = tail;
  new = new_head;
  fill = fill_free_head;
  head_valid = magic_valid;
  link = λ h block. record h { linked_block = block };
  tail_of = λ block. block;
  linked = λ tail. tail;
  linked-tail_of = λ block. refl;
}

abbrev pub free_entries : Codec FreePileEntry → Entry FreePileEntry
free_entries codec = record { codec = codec; entry_valid = free_entry_valid }

module _ (T : Storage) (A : Allocates) (head : Codec BlockHead) (tail : Codec ℕ)
    (codec : Codec FreePileEntry) where
  pub record FreePile : Type 0 where
    pub storage : T.State
    pub allocator : A.State
    pub location : BlockAddress

  abbrev pub layout_at : FreePile → BlockAddress → Layout T A (free_format head tail)
  layout_at p a =
      new_layout T A (free_format head tail) p.storage p.allocator a BlockType.free_block

  abbrev pub after : FreePile → Layout T A (free_format head tail) → FreePile
  after p l = record p { storage = l.storage; allocator = l.allocator }

  unfoldable pub format_pile : FreePile → ℕ → Option (Bool × FreePile)
  format_pile p block =
      write_new_head T A (free_format head tail)
        (layout_at p (record { block = block; position = 0 })) block block_index_invalid
      >>= λ r.
          if r.0
          then some (
            true,
            record (after p r.1) {
              location = record { block = block; position = file_sector_size };
            },
          )
          else some (r.0, after p r.1)

  unfoldable pub locate_pile : ℕ → FreePile → ℕ → Option (Bool × FreePile)
  locate_pile fuel p block =
      find_append_location T A (free_format head tail) (free_entries codec) fuel
        (layout_at p (record { block = block; position = 0 })) block
      >>= λ r. if r.0 then some (true, record p { location = r.1.address }) else some (r.0, p)

  unfoldable pub append_to_pile : FreePile → FreePileEntry → Option (Bool × FreePile)
  append_to_pile p e =
      append_entry T A (free_format head tail) (free_entries codec) (layout_at p p.location) e
      >>= λ r.
          if r.0
          then some (true, record (after p r.1) { location = r.1.address })
          else some (r.0, after p r.1)

  -- The entry is `{ block }`, whose second field is 0.
  unfoldable pub free_to_pile : FreePile → ℕ → Option (Bool × FreePile)
  free_to_pile p block = append_to_pile p (record { available = block; taken = 0 })
