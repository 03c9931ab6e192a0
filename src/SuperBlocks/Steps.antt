-- ===== src/SuperBlocks/Steps.antt =====
-- The steps of `create` of src/super_block_manager.cpp on storage that does not fail.
use consfs.Common.{ℕ, ◌≡◌, ◌≢◌, true, ◌&&◌, some, ltb, ◌==◌, if◌then◌else◌, refl, ==_ne, ==_refl}
use consfs.Addressing.{block_index_invalid}
use consfs.Alloc.{AllocatedBlock, BlockType}
use consfs.Backend.{Storage, Answers}
use consfs.SuperBlocks.{SuperBlock, Reuses, anchor_blocks, set_type, Manager}
use consfs.SuperBlocks.Changes.{
  start_of, Creating, chain_to, create_super, create_chained, create_anchors, write_super,
}
use consfs.SuperBlocks.Chain.{Succeeds, address-start}
use consfs.SuperBlocks.Links.{anchor_link, second_link, third_link}
use consfs.SuperBlocks.Puts.{Put, erase_in-Erased, store-Stored, put_link}

module _ (T : Storage) (K : Answers T) (B : Reuses) (P : SuperBlock) where
  pub create_super-Erases :
      (c : Creating T B P) (a : AllocatedBlock) (blocks : B.State)
      → Succeeds T K
      → B.allocate c.manager.blocks BlockType.super_block ≡ some (a, blocks)
      → a.block ≢ block_index_invalid
      → (s : T.State) × (create_super T B P c
          ≡ some (
            true,
            record c {
              manager = record c.manager { storage = s; blocks = blocks };
              super = P.with_link c.super (set_type c.link BlockType.super_block);
              super_block_block = a.block;
              link = chain_to a.block c.link;
            },
          ))
        × (T.geometry s ≡ T.geometry c.manager.storage)
        × ((p : ℕ) → K.view s a.block p ≡ 0xff)
  unfolding create_super
  create_super-Erases c a blocks ok given real =
      let d = record c { manager = record c.manager { blocks = blocks } } in
      let (s, erased, same, bytes) = erase_in-Erased T K B P d a.block ok in
      (
        s,
        rw (given, ==_ne a.block block_index_invalid real, erased) refl,
        same,
        λ p. rw (bytes a.block p, ==_refl a.block) refl,
      )

  pub create_chained-Puts :
      (c : Creating T B P) (a : AllocatedBlock) (blocks : B.State)
      → Succeeds T K
      → B.allocate c.manager.blocks BlockType.super_block_link ≡ some (a, blocks)
      → a.block ≢ block_index_invalid
      → (s : T.State) × (create_chained T B P c
          ≡ some (
            true,
            record c {
              manager = record c.manager { storage = s; blocks = blocks };
              link = chain_to a.block c.link;
            },
          ))
        × Put T K B P c.manager.storage s a.block c.link
  unfolding create_chained
  create_chained-Puts c a blocks ok given real =
      let d = record c { manager = record c.manager { blocks = blocks } } in
      let (s, done, put) = put_link T K B P d a.block ok in
      (s, rw (given, ==_ne a.block block_index_invalid real, done) refl, put)

  pub create_anchors-Puts :
      (c : Creating T B P)
      → Succeeds T K
      → (s q : T.State) × (create_anchors T B P anchor_blocks c
          ≡ some (
            true,
            record c { manager = record c.manager { storage = q }; link = third_link c.link },
          ))
        × Put T K B P c.manager.storage s 1 (anchor_link c.link)
        × Put T K B P s q 2 (second_link c.link)
  unfolding create_anchors
  create_anchors-Puts c ok =
      let d = record c { link = anchor_link c.link } in
      let (s, done, put) = put_link T K B P d 1 ok in
      let e = record c { manager = record c.manager { storage = s }; link = second_link c.link } in
      let (q, also, then_put) = put_link T K B P e 2 ok in
      (s, q, rw (done, also) refl, put, then_put)

  pub write_super-Stored :
      (m : Manager T B P) (block : ℕ) (x : P.Super)
      → Succeeds T K
      → (s : T.State) × (write_super T B P m (start_of block) x
          ≡ some (true, record m { storage = s }))
        × (T.geometry s ≡ T.geometry m.storage)
        × ((k p : ℕ)
            → K.view s k p ≡ (
                if k == block && ltb p P.super_codec.size
                then P.super_codec.encode x p
                else K.view m.storage k p))
  unfolding write_super
  write_super-Stored m block x ok =
      let (s, stored, same, bytes) = store-Stored T K B P P.super_codec m.storage block x ok in
      (s, rw (address-start T K B P m block, stored) refl, same, bytes)
