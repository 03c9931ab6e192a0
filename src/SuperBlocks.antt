-- ===== src/SuperBlocks.antt =====
-- src/phylum/super_block_manager.h and src/super_block_manager.cpp: the chain of blocks from the anchors
-- to the super block. `none` is a failed assertion.
pub mod Changes
pub mod Chain
pub mod Links
pub mod Puts
pub mod Steps
pub mod Laid
pub mod Create
use consfs.Common.{
  ℕ, zero, suc, ◌+◌, ◌-◌, ◌^◌, ◌≤◌, ◌<◌, ◌≡◌, Bool, true, false, not, ◌&&◌, ◌||◌, Option, none,
  some, List, [], ◌∷◌, ◌++◌, ltb, ◌==◌, if◌then◌else◌, u16, add32, sub32, ◌>>=◌, ◌>>◌, check,
}
use consfs.Addressing.{
  SectorAddress, BlockAddress, Geometry, block_index_invalid, invalid_sector_address,
  sector_address_valid,
}
use consfs.Addressing.Geom.{sectors_per_block}
use consfs.Addressing.Addr.{of_sector}
use consfs.Alloc.{AllocatedBlock, BlockType}
use consfs.Backend.{
  Storage, Codec, load, store, BlockHead, new_head, fill_magic, magic_valid, timestamp_invalid,
}

pub record SuperBlockLink : Type 0 where
  pub header : BlockHead
  pub sector : ℕ
  pub chained_block : ℕ

unfoldable pub new_link : BlockType → SuperBlockLink
new_link type = record { header = new_head type; sector = 0; chained_block = 0 }

-- A super block is a struct that begins with its link (`MinimumSuperBlock`), so a link is read at its
-- address.
pub record SuperBlock : Type 1 where
  pub Super : Type 0
  pub super_codec : Codec Super
  pub link_codec : Codec SuperBlockLink
  pub link_of : Super → SuperBlockLink
  pub with_link : Super → SuperBlockLink → Super
  pub link_of-with_link : (s : Super) (l : SuperBlockLink) → link_of (with_link s l) ≡ l
  pub link_inside : link_codec.size ≤ super_codec.size
  pub link_first :
      (s : Super) (i : ℕ)
      → i < link_codec.size
      → super_codec.encode s i ≡ link_codec.encode (link_of s) i

-- `ReusableBlockAllocator`
pub record Reuses : Type 1 where
  pub State : Type 0
  pub allocate : State → BlockType → Option (AllocatedBlock × State)
  pub free : State → ℕ → ℕ → Option (Bool × State)

abbrev pub anchor_blocks : List ℕ
anchor_blocks = 1 ∷ 2 ∷ []

abbrev pub chain_length : ℕ
chain_length = 2

abbrev pub start_sector : ℕ
start_sector = 0

-- A link and where it is.
pub record Found : Type 0 where
  pub link : SuperBlockLink
  pub where_at : SectorAddress

abbrev pub nothing_found : Found
nothing_found = record {
  link = new_link BlockType.super_block_link;
  where_at = invalid_sector_address;
}

-- The result of `walk`, with the blocks that it tells the visitor.
pub record Walked : Type 0 where
  pub ok : Bool
  pub found : Found
  pub visited : List ℕ

abbrev pub set_timestamp : SuperBlockLink → ℕ → SuperBlockLink
set_timestamp l t = record l { header = record l.header { timestamp = t } }

abbrev pub set_type : SuperBlockLink → BlockType → SuperBlockLink
set_type l type = record l { header = record l.header { type = type } }

module _ (T : Storage) (B : Reuses) (P : SuperBlock) where
  pub record Manager : Type 0 where
    pub location : SectorAddress
    pub storage : T.State
    pub blocks : B.State

  abbrev pub address_of : Manager → SectorAddress → BlockAddress
  address_of m a = of_sector (T.geometry m.storage) a 0

  unfoldable pub read_link : Manager → SectorAddress → Option (Bool × SuperBlockLink)
  read_link m a = load T P.link_codec m.storage (address_of m a)

  unfoldable pub write_link : Manager → SectorAddress → SuperBlockLink → Option (Bool × Manager)
  write_link m a l = store T P.link_codec m.storage (address_of m a) l >>= λ r.
      some (r.0, record m { storage = r.1 })

  unfoldable pub erase_at : Manager → ℕ → Option (Bool × Manager)
  erase_at m block = T.erase m.storage block >>= λ r. some (r.0, record m { storage = r.1 })

  -- Whether a link that is read takes the place of the one found.
  unfoldable pub is_newer : SuperBlockLink → SuperBlockLink → Bool
  is_newer l found =
      found.header.timestamp == timestamp_invalid || ltb found.header.timestamp l.header.timestamp

  -- The loop of `find_link` from sector `s` on, with the number of sectors left.
  unfoldable pub find_link_from : ℕ → ℕ → Manager → ℕ → Found → Option (Bool × Found)
  find_link_from zero s m block found = some (true, found)
  find_link_from (suc left) s m block found =
      read_link m (record { block = block; sector = s }) >>= λ r.
      let rest = find_link_from left (s + 1) m block (
        if is_newer r.1 found.link
        then record { link = r.1; where_at = record { block = block; sector = s } }
        else found) in
      if not r.0
      then some (false, found)
      else if not (magic_valid r.1.header)
      then some (true, found)
      else rest

  unfoldable pub find_link : Manager → ℕ → Found → Option (Bool × Found)
  find_link m block found =
      find_link_from (sectors_per_block (T.geometry m.storage)) start_sector m block found

  -- The links of the anchors.
  unfoldable pub find_anchor : List ℕ → Manager → Found → Option (Bool × Found)
  find_anchor [] m found = some (true, found)
  find_anchor (block ∷ rest) m found =
      find_link m block found >>= λ r. if r.0 then find_anchor rest m r.1 else some (false, r.1)

  -- The loop along the chain.
  unfoldable pub follow_chain : ℕ → ℕ → Manager → Found → List ℕ → Option Walked
  follow_chain zero desired m found visited =
      some (record { ok = false; found = found; visited = visited })
  follow_chain (suc rounds) desired m found visited =
      find_link m found.link.chained_block found >>= λ r.
      let seen = visited ++ (found.link.chained_block ∷ []) in
      let rest = follow_chain rounds desired m r.1 seen in
      if not (r.0 && sector_address_valid r.1.where_at)
      then some (record { ok = false; found = r.1; visited = seen })
      else if r.1.link.chained_block == desired
      then some (record { ok = true; found = r.1; visited = seen })
      else rest

  unfoldable pub walk_chain : Manager → ℕ → Option Walked
  walk_chain m desired = find_anchor anchor_blocks m nothing_found >>= λ r.
      if not r.0 || not (sector_address_valid r.1.where_at)
      then some (record { ok = false; found = r.1; visited = [] })
      else if not (desired == block_index_invalid) && r.1.link.chained_block == desired
      then some (record { ok = true; found = r.1; visited = [] })
      else follow_chain (chain_length + 1) desired m r.1 []

  -- The overload of `walk` for a visitor alone, with the blocks that it is told.
  unfoldable pub walk_visited : Manager → Option (Bool × List ℕ)
  walk_visited m = walk_chain m block_index_invalid >>= λ w. some (w.ok, w.visited)

  -- The super block that is read, if the call succeeds.
  unfoldable pub locate : Manager → Option (Option P.Super × Manager)
  locate m = walk_chain m block_index_invalid >>= λ w.
      if not w.ok
      then some (none, record m { location = invalid_sector_address })
      else load T P.super_codec m.storage (address_of m w.found.where_at) >>= λ r.
          some (if r.0 then some r.1 else none, record m { location = w.found.where_at })
