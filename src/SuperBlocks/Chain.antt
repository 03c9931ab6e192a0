-- ===== src/SuperBlocks/Chain.antt =====
-- How `walk` and `locate` of src/super_block_manager.cpp read a chain of links.
use consfs.Common.{
  ℕ, zero, suc, ◌+◌, ◌-◌, ◌*◌, ◌^◌, ◌≤◌, ◌<◌, ◌≡◌, ◌≢◌, true, false, some, List, [], ◌∷◌, ◌++◌,
  ◌==◌, if◌then◌else◌, u32, refl, arith, ap, ◌∙◌, ==_ne, Bool-cases, inl, inr,
}
use consfs.Addressing.{BlockAddress, Geometry, block_index_invalid, sector_address_valid}
use consfs.Addressing.Geom.{sectors_per_block}
use consfs.Addressing.Addr.{of_sector}
use consfs.Backend.{Storage, Codec, load, Answers, magic_valid, new_head}
use consfs.SuperBlocks.{
  SuperBlockLink, new_link, SuperBlock, Reuses, Found, nothing_found, anchor_blocks, Manager,
  address_of, read_link, is_newer, find_link_from, find_link, find_anchor, follow_chain, walk_chain,
  locate,
}

-- No operation of the storage fails.
pub record Succeeds (T : Storage) (K : Answers T) : Type 0 where
  pub reads : (s : T.State) (a : BlockAddress) (n : ℕ) → (K.reads s a n).0.0 ≡ true
  pub writes : (s : T.State) (a : BlockAddress) (d : ℕ → ℕ) (n : ℕ) → (K.writes s a d n).0.0 ≡ true
  pub erases : (s : T.State) (block : ℕ) → (K.erases s block).0.0 ≡ true

-- Erased bytes are no link.
abbrev pub ErasedIsNoLink : SuperBlock → Type 0
ErasedIsNoLink P =
    (bytes : ℕ → ℕ)
    → ((i : ℕ) → i < P.link_codec.size → bytes i ≡ 0xff)
    → magic_valid (P.link_codec.decode bytes).header ≡ false

-- A super block fits in a sector, and a block has two sectors or more.
pub record HasSectors (P : SuperBlock) (g : Geometry) : Type 0 where
  pub fits : P.super_codec.size ≤ g.sector_size
  pub word : g.sector_size < 2 ^ 16
  pub two : 2 ≤ sectors_per_block g

module _ (T : Storage) (K : Answers T) (B : Reuses) (P : SuperBlock) where
  -- The block holds the link in its first sector, and nothing behind that.
  pub record Holds (g : Geometry) (bytes : ℕ → ℕ → ℕ) (block : ℕ) (l : SuperBlockLink)
      : Type 0 where
    pub at_start : (i : ℕ) → i < P.link_codec.size → bytes block i ≡ P.link_codec.encode l i
    pub behind : (i : ℕ) → g.sector_size ≤ i → bytes block i ≡ 0xff

  -- A link that is read back.
  pub record IsLink (l : SuperBlockLink) : Type 0 where
    pub fits : P.link_codec.Fits l
    pub good : magic_valid l.header ≡ true

  pub address-start :
      (m : Manager T B P) (block : ℕ)
      → address_of T B P m (record { block = block; sector = 0 })
        ≡ record { block = block; position = 0 }
  unfolding of_sector
  address-start m block =
      let zero_position : u32 (0 * (T.geometry m.storage).sector_size + 0) ≡ 0 = omega arith in
      ap (λ (p : ℕ). record { block = block; position = p }) zero_position

  address-second :
      (m : Manager T B P) (block : ℕ)
      → (T.geometry m.storage).sector_size < 2 ^ 16
      → address_of T B P m (record { block = block; sector = 1 })
        ≡ record { block = block; position = (T.geometry m.storage).sector_size }
  unfolding of_sector
  address-second m block word =
      let position : u32 (1 * (T.geometry m.storage).sector_size + 0)
          ≡ (T.geometry m.storage).sector_size =
        omega arith in
      ap (λ (p : ℕ). record { block = block; position = p }) position

  -- A read of a struct gives the struct whose bytes are there.
  load-at :
      {X : Type 0} (c : Codec X) (s : T.State) (a : BlockAddress) (x : X)
      → Succeeds T K
      → c.Fits x
      → ((i : ℕ) → i < c.size → K.view s a.block (a.position + i) ≡ c.encode x i)
      → load T c s a ≡ some (true, x)
  unfolding load
  load-at c s a x ok fits held =
      let (r, r_is, bytes) = K.reads s a c.size in
      let read = ok.reads s a c.size in
      let same = c.decode-encode x r.1 fits (λ i small. bytes read i small ∙ held i small) in
      rw (r_is, read, same) refl

  read_link-start :
      (m : Manager T B P) (block : ℕ) (l : SuperBlockLink)
      → Succeeds T K
      → IsLink l
      → Holds (T.geometry m.storage) (K.view m.storage) block l
      → read_link T B P m (record { block = block; sector = 0 }) ≡ some (true, l)
  unfolding read_link
  read_link-start m block l ok link holds = rw (address-start m block) (
      load-at P.link_codec m.storage (record { block = block; position = 0 }) l ok link.fits
        (λ i small. ap (K.view m.storage block) (zero_add i) ∙ holds.at_start i small))
    where
      zero_add : (i : ℕ) → 0 + i ≡ i
      zero_add i = omega arith

  read_link-second :
      (m : Manager T B P) (block : ℕ) (l : SuperBlockLink)
      → Succeeds T K
      → ErasedIsNoLink P
      → (T.geometry m.storage).sector_size < 2 ^ 16
      → Holds (T.geometry m.storage) (K.view m.storage) block l
      → (q : SuperBlockLink) × (read_link T B P m (record { block = block; sector = 1 })
          ≡ some (true, q))
        × (magic_valid q.header ≡ false)
  unfolding read_link load
  read_link-second m block l ok erased word holds =
      let a : BlockAddress = record {
        block = block;
        position = (T.geometry m.storage).sector_size;
      } in
      let (r, r_is, bytes) = K.reads m.storage a P.link_codec.size in
      let read = ok.reads m.storage a P.link_codec.size in
      (
        P.link_codec.decode r.1,
        rw (address-second m block word, r_is, read) refl,
        erased r.1 (λ i small. bytes read i small ∙ holds.behind (a.position + i) (omega arith)),
      )

  abbrev pub newer : Found → SuperBlockLink → ℕ → Found
  newer found l block =
      if is_newer T B P l found.link
      then record { link = l; where_at = record { block = block; sector = 0 } }
      else found

  pub find_link-Holds :
      (m : Manager T B P) (block : ℕ) (l : SuperBlockLink) (found : Found)
      → Succeeds T K
      → ErasedIsNoLink P
      → HasSectors P (T.geometry m.storage)
      → IsLink l
      → Holds (T.geometry m.storage) (K.view m.storage) block l
      → find_link T B P m block found ≡ some (true, newer found l block)
  unfolding find_link find_link_from
  find_link-Holds m block l found ok erased has link holds =
      let k = sectors_per_block (T.geometry m.storage) - 2 in
      let rounds : sectors_per_block (T.geometry m.storage) ≡ suc (suc k) =
        omega (arith, has.two) in
      let first = read_link-start m block l ok link holds in
      let (q, second, bad) = read_link-second m block l ok erased has.word holds in
      let next : 0 + 1 ≡ suc zero = refl in rw (rounds, first, link.good, second, bad) refl

  abbrev pub at_start_of : SuperBlockLink → ℕ → Found
  at_start_of l block = record { link = l; where_at = record { block = block; sector = 0 } }

  -- One round of the loop along the chain, for a block whose link is newer.
  follow_chain-Holds :
      (rounds desired : ℕ) (m : Manager T B P) (l : SuperBlockLink) (found : Found)
      (visited : List ℕ)
      → Succeeds T K
      → ErasedIsNoLink P
      → HasSectors P (T.geometry m.storage)
      → IsLink l
      → Holds (T.geometry m.storage) (K.view m.storage) found.link.chained_block l
      → is_newer T B P l found.link ≡ true
      → found.link.chained_block ≢ block_index_invalid
      → follow_chain T B P (suc rounds) desired m found visited ≡ (
          if l.chained_block == desired
          then some (record {
            ok = true;
            found = at_start_of l found.link.chained_block;
            visited = visited ++ (found.link.chained_block ∷ []);
          })
          else follow_chain T B P rounds desired m
              (at_start_of l found.link.chained_block)
              (visited ++ (found.link.chained_block ∷ [])))
  unfolding follow_chain sector_address_valid
  follow_chain-Holds rounds desired m l found visited ok erased has link holds is_new valid =
      let found_is = find_link-Holds m found.link.chained_block l found ok erased has link holds in
      rw (found_is, is_new, ==_ne found.link.chained_block block_index_invalid valid) refl

  -- Where the walk starts: at the newer of the links of the two anchors.
  abbrev pub chosen : SuperBlockLink → SuperBlockLink → Found
  chosen first second = newer (at_start_of first 1) second 2

  -- The anchors, and three blocks behind them, each with the link to the next and newer than the one
  -- before. The last, whose link goes nowhere, is the super block's.
  pub record Chain (g : Geometry) (bytes : ℕ → ℕ → ℕ) : Type 0 where
    pub first : SuperBlockLink
    pub second : SuperBlockLink
    pub upper : SuperBlockLink
    pub middle : SuperBlockLink
    pub last : SuperBlockLink
    pub first_link : IsLink first
    pub second_link : IsLink second
    pub upper_link : IsLink upper
    pub middle_link : IsLink middle
    pub last_link : IsLink last
    pub first_holds : Holds g bytes 1 first
    pub second_holds : Holds g bytes 2 second
    pub upper_holds : Holds g bytes (chosen first second).link.chained_block upper
    pub middle_holds : Holds g bytes upper.chained_block middle
    pub last_holds : Holds g bytes middle.chained_block last
    pub start_valid : (chosen first second).link.chained_block ≢ block_index_invalid
    pub upper_valid : upper.chained_block ≢ block_index_invalid
    pub middle_valid : middle.chained_block ≢ block_index_invalid
    pub ends : last.chained_block ≡ block_index_invalid
    pub upper_newer : is_newer T B P upper (chosen first second).link ≡ true
    pub middle_newer : is_newer T B P middle upper ≡ true
    pub last_newer : is_newer T B P last middle ≡ true

  find_anchor-Holds :
      (m : Manager T B P) (first second : SuperBlockLink)
      → Succeeds T K
      → ErasedIsNoLink P
      → HasSectors P (T.geometry m.storage)
      → IsLink first
      → IsLink second
      → Holds (T.geometry m.storage) (K.view m.storage) 1 first
      → Holds (T.geometry m.storage) (K.view m.storage) 2 second
      → find_anchor T B P anchor_blocks m nothing_found ≡ some (true, chosen first second)
  unfolding find_anchor is_newer new_link new_head
  find_anchor-Holds m first second ok erased has first_link second_link first_holds second_holds =
      let one = find_link-Holds m 1 first nothing_found ok erased has first_link first_holds in
      let two =
        find_link-Holds m 2 second (at_start_of first 1) ok erased has second_link second_holds in
      rw (one, two) refl

  chosen_valid :
      (first second : SuperBlockLink) → sector_address_valid (chosen first second).where_at ≡ true
  unfolding sector_address_valid
  chosen_valid first second = elim (Bool-cases (is_newer T B P second first)) [
    | inl newer_is ↦ rw newer_is refl
    | inr older_is ↦ rw older_is refl
  ]

  abbrev pub chain_blocks : {g : Geometry} {bytes : ℕ → ℕ → ℕ} → Chain g bytes → List ℕ
  chain_blocks c =
      (chosen c.first c.second).link.chained_block
      ∷ c.upper.chained_block
      ∷ c.middle.chained_block
      ∷ []

  pub walk_chain-Chain :
      (m : Manager T B P)
      → Succeeds T K
      → ErasedIsNoLink P
      → HasSectors P (T.geometry m.storage)
      → (c : Chain (T.geometry m.storage) (K.view m.storage))
      → walk_chain T B P m block_index_invalid
        ≡ some (record {
          ok = true;
          found = at_start_of c.last c.middle.chained_block;
          visited = chain_blocks c;
        })
  unfolding walk_chain
  walk_chain-Chain m ok erased has c =
      let start =
        find_anchor-Holds m c.first c.second ok erased has c.first_link c.second_link c.first_holds
          c.second_holds in
      let found = chosen c.first c.second in
      let upper_at = found.link.chained_block in
      let one =
        follow_chain-Holds 2 block_index_invalid m c.upper found [] ok erased has c.upper_link
          c.upper_holds c.upper_newer c.start_valid in
      let two =
        follow_chain-Holds 1 block_index_invalid m c.middle (at_start_of c.upper upper_at)
          (upper_at ∷ []) ok erased has c.middle_link c.middle_holds c.middle_newer c.upper_valid in
      let three =
        follow_chain-Holds 0 block_index_invalid m c.last
          (at_start_of c.middle c.upper.chained_block) (upper_at ∷ c.upper.chained_block ∷ []) ok
          erased has c.last_link c.last_holds c.last_newer c.middle_valid in
      let upper_on = ==_ne c.upper.chained_block block_index_invalid c.upper_valid in
      let middle_on = ==_ne c.middle.chained_block block_index_invalid c.middle_valid in
      let ends = ap (λ (b : ℕ). b == block_index_invalid) c.ends in
      rw (start, chosen_valid c.first c.second, one, upper_on, two, middle_on, three, ends) refl

  -- The super block itself, behind whose link the rest of it lies.
  pub locate-Chain :
      (m : Manager T B P) (s : P.Super)
      → Succeeds T K
      → ErasedIsNoLink P
      → HasSectors P (T.geometry m.storage)
      → (c : Chain (T.geometry m.storage) (K.view m.storage)) → P.super_codec.Fits s
      → ((i : ℕ)
          → i < P.super_codec.size
          → K.view m.storage c.middle.chained_block i ≡ P.super_codec.encode s i)
      → locate T B P m
        ≡ some
            (some s, record m { location = record { block = c.middle.chained_block; sector = 0 } })
  unfolding locate
  locate-Chain m s ok erased has c fits held =
      let walked = walk_chain-Chain m ok erased has c in
      let block = c.middle.chained_block in
      let read =
        load-at P.super_codec m.storage (record { block = block; position = 0 }) s ok fits
          (λ i small. ap (K.view m.storage block) (zero_add i) ∙ held i small) in
      rw (walked, address-start m block, read) refl
    where
      zero_add : (i : ℕ) → 0 + i ≡ i
      zero_add i = omega arith
