-- ===== src/SuperBlocks/Puts.antt =====
-- Erasing a block and writing to its start, as `create` of src/super_block_manager.cpp does.
use consfs.Common.{
  ℕ, ◌+◌, ◌-◌, ◌≤◌, ◌<◌, ◌≡◌, ◌≢◌, true, ◌&&◌, some, ltb, leb, ◌==◌, if◌then◌else◌, refl, arith,
  ◌∙◌, lt→ltb, le→leb, le→ltb, ==_ne, ==_refl,
}
use consfs.Addressing.{BlockAddress, Geometry}
use consfs.Backend.{Storage, Codec, store, Answers}
use consfs.SuperBlocks.{SuperBlockLink, SuperBlock, Reuses, write_link, erase_at}
use consfs.SuperBlocks.Changes.{Creating, erase_in, write_in, ◌>>&&◌}
use consfs.SuperBlocks.Chain.{Succeeds, HasSectors, Holds, address-start}

module _ (T : Storage) (K : Answers T) (B : Reuses) (P : SuperBlock) where
  -- What an erased block that is written at its start holds.
  abbrev pub written : {X : Type 0} → Codec X → X → ℕ → ℕ
  written c x p = if ltb p c.size then c.encode x p else 0xff

  -- The storage after the block is erased and the link written to it.
  pub record Put (s after : T.State) (block : ℕ) (l : SuperBlockLink) : Type 0 where
    pub geometry : T.geometry after ≡ T.geometry s
    pub own : (p : ℕ) → K.view after block p ≡ written P.link_codec l p
    pub kept : (k p : ℕ) → k ≢ block → K.view after k p ≡ K.view s k p

  pub erase_in-Erased :
      (c : Creating T B P) (block : ℕ)
      → Succeeds T K
      → (s : T.State) × (erase_in T B P c block
          ≡ some (true, record c { manager = record c.manager { storage = s } }))
        × (T.geometry s ≡ T.geometry c.manager.storage)
        × ((k p : ℕ) → K.view s k p ≡ (if k == block then 0xff else K.view c.manager.storage k p))
  unfolding erase_at
  erase_in-Erased c block ok =
      let (r, r_is, same, bytes) = K.erases c.manager.storage block in
      let erased = ok.erases c.manager.storage block in
      (r.1, rw (r_is, erased) refl, same, bytes erased)

  pub store-Stored :
      {X : Type 0} (codec : Codec X) (s : T.State) (block : ℕ) (x : X)
      → Succeeds T K
      → (q : T.State) × (store T codec s (record { block = block; position = 0 }) x
          ≡ some (true, q))
        × (T.geometry q ≡ T.geometry s)
        × ((k p : ℕ)
            → K.view q k p
              ≡ (if k == block && ltb p codec.size then codec.encode x p else K.view s k p))
  unfolding store
  store-Stored codec s block x ok =
      let a : BlockAddress = record { block = block; position = 0 } in
      let (r, r_is, same, bytes) = K.writes s a (codec.encode x) codec.size in
      let wrote = ok.writes s a (codec.encode x) codec.size in
      (r.1, rw (r_is, wrote) refl, same, λ k p. bytes wrote k p ∙ at_zero k p)
    where
      at_zero :
          (k p : ℕ)
          → (if k == block && (leb 0 p && ltb p (0 + codec.size))
              then codec.encode x (p - 0)
              else K.view s k p)
            ≡ (if k == block && ltb p codec.size then codec.encode x p else K.view s k p)
      at_zero k p =
          let n_is : 0 + codec.size ≡ codec.size = omega arith in
          let p_is : p - 0 ≡ p = omega arith in rw (le→leb 0 p (omega arith), n_is, p_is) refl

  pub write_in-Stored :
      (c : Creating T B P) (block : ℕ)
      → Succeeds T K
      → (s : T.State) × (write_in T B P c block
          ≡ some (true, record c { manager = record c.manager { storage = s } }))
        × (T.geometry s ≡ T.geometry c.manager.storage)
        × ((k p : ℕ)
            → K.view s k p ≡ (
                if k == block && ltb p P.link_codec.size
                then P.link_codec.encode c.link p
                else K.view c.manager.storage k p))
  unfolding write_link
  write_in-Stored c block ok =
      let (s, stored, same, bytes) = store-Stored P.link_codec c.manager.storage block c.link ok in
      (s, rw (address-start T K B P c.manager block, stored) refl, same, bytes)

  pub put_link :
      (c : Creating T B P) (block : ℕ)
      → Succeeds T K
      → (s : T.State) × ((erase_in T B P c block >>&& λ d. write_in T B P d block)
          ≡ some (true, record c { manager = record c.manager { storage = s } }))
        × Put c.manager.storage s block c.link
  put_link c block ok =
      let (s, erased, same, bytes) = erase_in-Erased c block ok in
      let d = record c { manager = record c.manager { storage = s } } in
      let (q, stored, also, wrote) = write_in-Stored d block ok in
      (
        q,
        rw (erased, stored) refl,
        record {
          geometry = also ∙ same;
          own = λ p. wrote block p ∙ rw (bytes block p, ==_refl block) refl;
          kept = λ k p other. wrote k p ∙ rw (bytes k p, ==_ne k block other) refl;
        },
      )

  pub put-Holds :
      (g : Geometry) (s after : T.State) (block : ℕ) (l : SuperBlockLink)
      → HasSectors P g
      → Put s after block l
      → Holds T K B P g (K.view after) block l
  put-Holds g s after block l has put = record {
    at_start = λ i small. put.own i ∙ rw (lt→ltb i P.link_codec.size small) refl;
    behind = λ i far. put.own i ∙ rw (le→ltb i P.link_codec.size (beyond i far)) refl;
  }
    where
      beyond : (i : ℕ) → g.sector_size ≤ i → P.link_codec.size ≤ i
      beyond i far = omega (arith, P.link_inside, has.fits)

  pub super-Holds :
      (g : Geometry) (bytes : ℕ → ℕ → ℕ) (block : ℕ) (x : P.Super)
      → HasSectors P g
      → ((p : ℕ) → bytes block p ≡ written P.super_codec x p)
      → Holds T K B P g bytes block (P.link_of x)
  super-Holds g bytes block x has own = record {
    at_start = λ i small.
        own i ∙ rw (lt→ltb i P.super_codec.size (within i small)) (P.link_first x i small);
    behind = λ i far. own i ∙ rw (le→ltb i P.super_codec.size (beyond i far)) refl;
  }
    where
      within : (i : ℕ) → i < P.link_codec.size → i < P.super_codec.size
      within i small = omega (arith, P.link_inside)

      beyond : (i : ℕ) → g.sector_size ≤ i → P.super_codec.size ≤ i
      beyond i far = omega (arith, has.fits)

  pub kept-Holds :
      (g : Geometry) (before after : ℕ → ℕ → ℕ) (k : ℕ) (l : SuperBlockLink)
      → ((p : ℕ) → after k p ≡ before k p)
      → Holds T K B P g before k l
      → Holds T K B P g after k l
  kept-Holds g before after k l kept holds = record {
    at_start = λ i small. kept i ∙ holds.at_start i small;
    behind = λ i far. kept i ∙ holds.behind i far;
  }
