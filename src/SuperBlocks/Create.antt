-- ===== src/SuperBlocks/Create.antt =====
-- What `create` of src/super_block_manager.cpp leaves in storage, and that `locate` finds it.
use consfs.Common.{
  ℕ, ◌<◌, ◌≡◌, ◌≢◌, Option, Bool, true, some, ◌>>=◌, refl, arith, sym, ap, ◌∙◌, lt→ltb, subst,
}
use consfs.Addressing.{SectorAddress, Geometry, block_index_invalid}
use consfs.Alloc.{AllocatedBlock, BlockType}
use consfs.Backend.{Storage, Answers}
use consfs.SuperBlocks.{
  SuperBlockLink, SuperBlock, Reuses, anchor_blocks, chain_length, set_type, Manager, locate,
}
use consfs.SuperBlocks.Changes.{
  start_of, Creating, ◌>>&&◌, create_super, create_chain, create_anchors, first_link, write_super,
  create,
}
use consfs.SuperBlocks.Chain.{Succeeds, ErasedIsNoLink, HasSectors, locate-Chain}
use consfs.SuperBlocks.Links.{third_link, IsWords, middle_link, upper_link, next_link}
use consfs.SuperBlocks.Steps.{
  create_super-Erases, create_chained-Puts, create_anchors-Puts, write_super-Stored,
}
use consfs.SuperBlocks.Laid.{Laid, Apart, super_bytes, Laid-Chain}

module _ (T : Storage) (K : Answers T) (B : Reuses) (P : SuperBlock) where
  -- The three blocks that an allocator gives from a state on, and its state then. They are distinct
  -- blocks behind the anchors.
  pub record Supplies (start : B.State) : Type 0 where
    pub super_at : AllocatedBlock
    pub middle_at : AllocatedBlock
    pub upper_at : AllocatedBlock
    pub one : B.State
    pub two : B.State
    pub end : B.State
    pub gives_super : B.allocate start BlockType.super_block ≡ some (super_at, one)
    pub gives_middle : B.allocate one BlockType.super_block_link ≡ some (middle_at, two)
    pub gives_upper : B.allocate two BlockType.super_block_link ≡ some (upper_at, end)
    pub super_behind : 2 < super_at.block
    pub middle_behind : 2 < middle_at.block
    pub upper_behind : 2 < upper_at.block
    pub super_real : super_at.block < block_index_invalid
    pub middle_real : middle_at.block < block_index_invalid
    pub upper_real : upper_at.block < block_index_invalid
    pub super_middle : super_at.block ≢ middle_at.block
    pub super_upper : super_at.block ≢ upper_at.block
    pub middle_upper : middle_at.block ≢ upper_at.block

  -- The super block as `create` sets its link.
  abbrev pub created : P.Super → P.Super
  created s = P.with_link s (set_type first_link BlockType.super_block)

  abbrev first_state : Manager T B P → P.Super → Creating T B P
  first_state m s = record {
    manager = m;
    link = first_link;
    super = s;
    super_block_block = block_index_invalid;
  }

  abbrev last_write : (P.Super → P.Super) → Creating T B P → Option (Bool × Creating T B P)
  last_write change d =
      write_super T B P d.manager (start_of d.super_block_block) (change d.super) >>= λ r.
      some (r.0, record d { manager = r.1; super = change d.super })

  -- The steps of `create` before `locate`, on storage that does not fail.
  create-Lays :
      (change : P.Super → P.Super) (m : Manager T B P) (s : P.Super)
      → Succeeds T K
      → (A : Supplies m.blocks)
      → (s1 s2 s3 s4 s5 s6 : T.State) × ((create_super T B P (first_state m s)
            >>&& (λ d. create_chain T B P chain_length d)
            >>&& (λ d. create_anchors T B P anchor_blocks d)
            >>&& last_write change)
          ≡ some (
            true,
            record {
              manager = record m { storage = s6; blocks = A.end };
              link = third_link (next_link A.super_at.block A.middle_at.block A.upper_at.block);
              super = change (created s);
              super_block_block = A.super_at.block;
            },
          ))
        × Laid T K B P A.super_at.block A.middle_at.block A.upper_at.block
            (change (created s))
            s1
            s2
            s3
            s4
            s5
            s6
        × (T.geometry s6 ≡ T.geometry m.storage)
  unfolding create_chain
  create-Lays change m s ok A =
      let b0 = A.super_at.block in
      let b1 = A.middle_at.block in
      let b2 = A.upper_at.block in
      let (s1, made0, same0, empty) =
        create_super-Erases T K B P (first_state m s) A.super_at A.one ok A.gives_super
          (λ e. omega arith) in
      let at = λ (t : T.State) (blocks : B.State) (l : SuperBlockLink). record (first_state m s) {
        manager = record m { storage = t; blocks = blocks };
        super = created s;
        super_block_block = b0;
        link = l;
      } in
      let (s2, made1, put1) =
        create_chained-Puts T K B P (at s1 A.one (middle_link b0)) A.middle_at A.two ok
          A.gives_middle (λ e. omega arith) in
      let (s3, made2, put2) =
        create_chained-Puts T K B P (at s2 A.two (upper_link b0 b1)) A.upper_at A.end ok
          A.gives_upper (λ e. omega arith) in
      let (s4, s5, made3, put3, put4) =
        create_anchors-Puts T K B P (at s3 A.end (next_link b0 b1 b2)) ok in
      let (s6, made4, same, bytes) =
        write_super-Stored T K B P (record m { storage = s5; blocks = A.end }) b0
          (change (created s)) ok in
      (
        s1,
        s2,
        s3,
        s4,
        s5,
        s6,
        rw (made0, made1, made2, made3, made4) refl,
        record {
          erased = empty;
          middle = put1;
          upper = put2;
          first = put3;
          second = put4;
          super = bytes;
        },
        same ∙ put4.geometry ∙ put3.geometry ∙ put2.geometry ∙ put1.geometry ∙ same0,
      )

  -- On storage that does not fail, where erased bytes are no link, a super block fits in a sector,
  -- a block has two sectors or more, the bytes of a link hold its words, and the allocator gives
  -- three distinct blocks behind the anchors, create does not stop and gives the super block with
  -- its link set and as the function that it calls has changed it, where that function keeps the
  -- link and the bytes hold the result; the location is then the first sector of the first block
  -- given, and locate on that storage, from whatever location and allocator, gives the same super
  -- block and location.
  pub create-Locates :
      (change : P.Super → P.Super) (erase_all : T.State → T.State) (m : Manager T B P) (s : P.Super)
      → Succeeds T K
      → ErasedIsNoLink P
      → HasSectors P (T.geometry m.storage)
      → ((l : SuperBlockLink) → IsWords l → P.link_codec.Fits l)
      → P.super_codec.Fits (change (created s))
      → P.link_of (change (created s)) ≡ P.link_of (created s)
      → (A : Supplies m.blocks)
      → (storage : T.State) × (create T B P (λ c. record c { super = change c.super }) erase_all m s
          ≡ some (
            some (change (created s)),
            record { location = start_of A.super_at.block; storage = storage; blocks = A.end },
          ))
        × ((where_at : SectorAddress) (blocks : B.State)
            → locate T B P (record { location = where_at; storage = storage; blocks = blocks })
              ≡ some (
                some (change (created s)),
                record { location = start_of A.super_at.block; storage = storage; blocks = blocks },
              ))
  unfolding create
  create-Locates change erase_all m s ok erased has fits super_fits keeps A =
      let b0 = A.super_at.block in
      let b1 = A.middle_at.block in
      let b2 = A.upper_at.block in
      let x = change (created s) in
      let (s1, s2, s3, s4, s5, s6, made, laid, same) = create-Lays change m s ok A in
      let now = subst (λ (g : Geometry). HasSectors P g) (sym same) has in
      let apart : Apart T K B P b0 b1 b2 = record {
        behind0 = A.super_behind;
        behind1 = A.middle_behind;
        behind2 = A.upper_behind;
        first_two = A.super_middle;
        ends = A.super_upper;
        last_two = A.middle_upper;
      } in
      let link = keeps ∙ P.link_of-with_link s (set_type first_link BlockType.super_block) in
      let (c, ends_at) =
        Laid-Chain T K B P b0 b1 b2 x s1 s2 s3 s4 s5 s6 (T.geometry s6) now fits laid apart
          A.super_real A.middle_real A.upper_real link in
      let held = λ (i : ℕ) (small : i < P.super_codec.size).
        ap (λ (k : ℕ). K.view s6 k i) ends_at
        ∙ super_bytes T K B P b0 b1 b2 x s1 s2 s3 s4 s5 s6 laid apart i
        ∙ rw (lt→ltb i P.super_codec.size small) refl in
      let at = λ (where_at : SectorAddress) (blocks : B.State).
        locate-Chain T K B P (record { location = where_at; storage = s6; blocks = blocks }) x ok
          erased now c super_fits held
        ∙ ap
            (λ (k : ℕ).
              some (some x, record { location = start_of k; storage = s6; blocks = blocks }))
            ends_at in
      (s6, rw (made, at m.location A.end) refl, at)
