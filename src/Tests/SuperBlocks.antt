-- ===== src/Tests/SuperBlocks.antt =====
-- A super block that is made and found, on storage that never fails.
use consfs.Common.{
  ℕ, ◌+◌, ◌<◌, ◌≡◌, true, false, some, ltb, ◌==◌, if◌then◌else◌, refl, arith, lt→ltb, ◌∙◌,
}
use consfs.Addressing.{SectorAddress, invalid_sector_address}
use consfs.Addressing.Geom.{sectors_per_block}
use consfs.Alloc.{AllocatedBlock, BlockType}
use consfs.Backend.{Codec, magic_valid}
use consfs.SuperBlocks.{SuperBlockLink, SuperBlock, Reuses, Manager, new_link, locate}
use consfs.SuperBlocks.Changes.{start_of, create}
use consfs.SuperBlocks.Chain.{Succeeds, ErasedIsNoLink, HasSectors}
use consfs.SuperBlocks.Create.{Supplies, created, create-Locates}
use consfs.Tests.Flat.{flat, flat_geometry, flat_answers, Bytes}

abbrev pub number : BlockType → ℕ
number BlockType.zero_block = 0
number BlockType.anchor = 1
number BlockType.super_block_link = 2
number BlockType.super_block = 3
number BlockType.journal = 4
number BlockType.file = 5
number BlockType.leaf_block = 6
number BlockType.index = 7
number BlockType.free_block = 8
number BlockType.error = 9
number BlockType.unallocated = 10

abbrev pub type_of_number : ℕ → BlockType
type_of_number n =
    if n == 0
    then BlockType.zero_block
    else if n == 1
    then BlockType.anchor
    else if n == 2
    then BlockType.super_block_link
    else if n == 3
    then BlockType.super_block
    else if n == 4
    then BlockType.journal
    else if n == 5
    then BlockType.file
    else if n == 6
    then BlockType.leaf_block
    else if n == 7
    then BlockType.index
    else if n == 8
    then BlockType.free_block
    else if n == 9
    then BlockType.error
    else BlockType.unallocated

pub type_of_number-number : (t : BlockType) → type_of_number (number t) ≡ t
type_of_number-number BlockType.zero_block = refl
type_of_number-number BlockType.anchor = refl
type_of_number-number BlockType.super_block_link = refl
type_of_number-number BlockType.super_block = refl
type_of_number-number BlockType.journal = refl
type_of_number-number BlockType.file = refl
type_of_number-number BlockType.leaf_block = refl
type_of_number-number BlockType.index = refl
type_of_number-number BlockType.free_block = refl
type_of_number-number BlockType.error = refl
type_of_number-number BlockType.unallocated = refl

-- Seven bytes, each of which holds a field.
abbrev pub link_bytes : SuperBlockLink → ℕ → ℕ
link_bytes l i =
    if i == 0
    then l.header.magic
    else if i == 1
    then number l.header.type
    else if i == 2
    then l.header.age
    else if i == 3
    then l.header.timestamp
    else if i == 4
    then l.header.linked_block
    else if i == 5
    then l.sector
    else l.chained_block

abbrev pub link_from : (ℕ → ℕ) → SuperBlockLink
link_from bytes = record {
  header = record {
    magic = bytes 0;
    type = type_of_number (bytes 1);
    age = bytes 2;
    timestamp = bytes 3;
    linked_block = bytes 4;
  };
  sector = bytes 5;
  chained_block = bytes 6;
}

pub link_from-link_bytes :
    (l : SuperBlockLink) (bytes : ℕ → ℕ)
    → ((i : ℕ) → i < 7 → bytes i ≡ link_bytes l i)
    → link_from bytes ≡ l
link_from-link_bytes l bytes same =
    rw
      (
        same 0 (omega arith),
        same 1 (omega arith),
        same 2 (omega arith),
        same 3 (omega arith),
        same 4 (omega arith),
        same 5 (omega arith),
        same 6 (omega arith),
        type_of_number-number l.header.type,
      )
      refl

abbrev pub link_codec : Codec SuperBlockLink
link_codec = record {
  size = 7;
  encode = link_bytes;
  decode = link_from;
  Fits = λ l. Unit {0};
  decode-encode = λ l bytes fits same. link_from-link_bytes l bytes same;
}

-- A super block with a number behind its link.
pub record Numbered : Type 0 where
  pub link : SuperBlockLink
  pub number_behind : ℕ

abbrev pub numbered_bytes : Numbered → ℕ → ℕ
numbered_bytes s i = if ltb i 7 then link_bytes s.link i else s.number_behind

pub numbered-read :
    (s : Numbered) (bytes : ℕ → ℕ)
    → ((i : ℕ) → i < 8 → bytes i ≡ numbered_bytes s i)
    → record { link = link_from bytes; number_behind = bytes 7 } ≡ s
numbered-read s bytes same =
    let first =
      link_from-link_bytes s.link bytes
        (λ i small. same i (omega arith) ∙ rw (lt→ltb i 7 small) refl) in
    rw (first, same 7 (omega arith)) refl

abbrev pub numbered : SuperBlock
numbered = record {
  Super = Numbered;
  super_codec = record {
    size = 8;
    encode = numbered_bytes;
    decode = λ bytes. record { link = link_from bytes; number_behind = bytes 7 };
    Fits = λ s. Unit {0};
    decode-encode = λ s bytes fits same. numbered-read s bytes same;
  };
  link_codec = link_codec;
  link_of = λ s. s.link;
  with_link = λ s l. record s { link = l };
  link_of-with_link = λ s l. refl;
  link_inside = omega arith;
  link_first = λ s i small. rw (lt→ltb i 7 small) refl;
}

abbrev pub reusing : Reuses
reusing = record {
  State = ℕ;
  allocate = λ s type. some (record { block = s; age = 0; erased = false }, s + 1);
  free = λ s block age. some (true, s);
}

abbrev block_of : ℕ → AllocatedBlock
block_of n = record { block = n; age = 0; erased = false }

-- A manager over storage with zeros everywhere, whose allocator starts behind the anchors.
abbrev pub manager : Manager flat reusing numbered
manager = record { location = invalid_sector_address; storage = λ b p. 0; blocks = 3 }

abbrev seven : Numbered
seven = record { link = new_link BlockType.super_block; number_behind = 7 }

abbrev counted : Numbered → Numbered
counted s = record s { number_behind = s.number_behind + 1 }

pub never_fails : Succeeds flat flat_answers
never_fails = record { reads = λ s a n. refl; writes = λ s a d n. refl; erases = λ s block. refl }

erased_bytes : ErasedIsNoLink numbered
unfolding magic_valid
erased_bytes bytes erased = rw (erased 0 (omega arith)) refl

sectors : HasSectors numbered flat_geometry
unfolding sectors_per_block
sectors = record { fits = omega arith; word = omega arith; two = omega arith }

abbrev supplies : Supplies flat flat_answers reusing numbered 3
supplies = record {
  super_at = block_of 3;
  middle_at = block_of 4;
  upper_at = block_of 5;
  one = 4;
  two = 5;
  end = 6;
  gives_super = refl;
  gives_middle = refl;
  gives_upper = refl;
  super_behind = omega arith;
  middle_behind = omega arith;
  upper_behind = omega arith;
  super_real = omega arith;
  middle_real = omega arith;
  upper_real = omega arith;
  super_middle = λ e. omega arith;
  super_upper = λ e. omega arith;
  middle_upper = λ e. omega arith;
}

create-Locates_example :
    (storage : Bytes) × (create flat reusing numbered
        (λ c. record c { super = counted c.super })
        (λ s. s)
        manager
        seven
      ≡ some (
        some (counted (created flat flat_answers reusing numbered seven)),
        record { location = start_of 3; storage = storage; blocks = 6 },
      ))
    × ((where_at : SectorAddress) (blocks : ℕ)
        → locate flat reusing numbered
            (record { location = where_at; storage = storage; blocks = blocks })
          ≡ some (
            some (counted (created flat flat_answers reusing numbered seven)),
            record { location = start_of 3; storage = storage; blocks = blocks },
          ))
create-Locates_example =
    create-Locates flat flat_answers reusing numbered counted (λ s. s) manager seven never_fails
      erased_bytes sectors (λ l words. _) _ refl supplies
