-- ===== src/SuperBlocks/Links.antt =====
-- The links that `create` of src/super_block_manager.cpp makes.
use consfs.Common.{ℕ, ◌^◌, ◌<◌, ◌≡◌, refl, arith, sub32}
use consfs.Alloc.{BlockType}
use consfs.Backend.{new_head, fill_magic, magic_key}
use consfs.SuperBlocks.{SuperBlockLink, new_link, set_type, set_timestamp}
use consfs.SuperBlocks.Changes.{chain_to, first_link}

abbrev pub anchor_link : SuperBlockLink → SuperBlockLink
anchor_link l = set_type l BlockType.anchor

abbrev pub second_link : SuperBlockLink → SuperBlockLink
second_link l = anchor_link (set_timestamp (anchor_link l) (sub32 l.header.timestamp 1))

abbrev pub third_link : SuperBlockLink → SuperBlockLink
third_link l = set_timestamp (second_link l) (sub32 (second_link l).header.timestamp 1)

-- The fields are in the range of their types.
pub record IsWords (l : SuperBlockLink) : Type 0 where
  pub magic : l.header.magic ≡ magic_key
  pub age : l.header.age < 2 ^ 32
  pub timestamp : l.header.timestamp < 2 ^ 32
  pub linked_block : l.header.linked_block < 2 ^ 32
  pub sector : l.sector < 2 ^ 16
  pub chained_block : l.chained_block < 2 ^ 32

-- The links that `create` writes behind the super block, for the blocks of the super block, the link
-- to it, and the link to that.
abbrev pub middle_link : ℕ → SuperBlockLink
middle_link b0 = chain_to b0 first_link

abbrev pub upper_link : ℕ → ℕ → SuperBlockLink
upper_link b0 b1 = chain_to b1 (middle_link b0)

abbrev pub next_link : ℕ → ℕ → ℕ → SuperBlockLink
next_link b0 b1 b2 = chain_to b2 (upper_link b0 b1)

pub made-IsWords :
    (type : BlockType) (t b : ℕ)
    → t < 2 ^ 32
    → b < 2 ^ 32
    → IsWords (set_timestamp (record (set_type first_link type) { chained_block = b }) t)
unfolding new_link new_head fill_magic
made-IsWords type t b small block_small = record {
  magic = refl;
  age = omega arith;
  timestamp = small;
  linked_block = omega arith;
  sector = omega arith;
  chained_block = block_small;
}
