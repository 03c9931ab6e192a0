-- ===== src/Blocked/Flushing.antt =====
-- What `flush` of src/blocked_file.cpp leaves in storage.
use consfs.Common.{
  ℕ, suc, ◌+◌, ◌-◌, ◌^◌, ◌≤◌, ◌<◌, ◌≡◌, ◌≢◌, ◌⊎◌, true, false, ◌&&◌, some, List, ltb, leb, ◌==◌,
  if◌then◌else◌, u32, arith, refl, ◌∙◌, ==_ne, ==_refl, lt→ltb, le→ltb, le→leb,
}
use consfs.Addressing.{
  BlockAddress, Geometry, file_sector_size, block_index_invalid, is_valid_block,
}
use consfs.Addressing.Geom.{block_size}
use consfs.Addressing.Addr.{tail_sector}
use consfs.Alloc.{AllocatedBlock, allocated_valid}
use consfs.Backend.{Storage, Codec, store, Answers}
use consfs.SuperBlocks.Chain.{Succeeds}
use consfs.Blocked.{
  FileBlockTail, FileFormat, Supply, BlockedFile, is_read, is_multiple_writes, geometry, put_tail,
  no_block, initialize_block, block_head,
}
use consfs.Blocked.Chain.{FormatFits, Stored, total}

-- A supply that keeps track of the blocks that it has given, and can give a number of blocks that it has
-- not given yet, all to be erased.
pub record Gives {T : Storage} (S : Supply T) : Type 1 where
  pub Given : S.State → ℕ → Type 0
  pub Has : S.State → ℕ → Type 0
  pub fewer : (s : S.State) (n : ℕ) → Has s (suc n) → Has s n
  pub gives :
      (t : T.State) (s : S.State) (head : BlockAddress) (n : ℕ)
      → Has s (suc n)
      → (a : AllocatedBlock) × (after : S.State) × (S.allocate t s head ≡ some (a, after))
        × Has after n
        × ¬ Given s a.block
        × Given after a.block
        × ((k : ℕ) → Given s k → Given after k)
        × (0 < a.block)
        × (a.block < block_index_invalid)
        × (a.erased ≡ false)

-- The bytes of the structs hold what files write.
pub record FormatHolds (F : FileFormat) : Type 0 where
  pub small : FormatFits F
  pub sector : (n : ℕ) → n < 2 ^ 16 → F.sector_codec.Fits (record { bytes = n })
  pub block :
      (l : FileBlockTail)
      → l.sector.bytes < 2 ^ 16
      → l.bytes_in_block < 2 ^ 32
      → l.linked_block < 2 ^ 32
      → F.block_codec.Fits l
  pub head_small : F.head_codec.size ≤ file_sector_size

module _ (T : Storage) (K : Answers T) (S : Supply T) (F : FileFormat) where
  -- A block whose head is written, with nothing behind its first sector.
  pub initialize_block-Erases :
      (f : BlockedFile T S F) (a : AllocatedBlock) (previous : ℕ)
      → Succeeds T K
      → FormatHolds F
      → is_valid_block a.block ≡ true
      → a.erased ≡ false
      → (t : T.State) × (initialize_block T S F f a previous
          ≡ some
              (record { block = a.block; position = file_sector_size }, record f { storage = t }))
        × (T.geometry t ≡ T.geometry f.storage)
        × ((p : ℕ) → file_sector_size ≤ p → K.view t a.block p ≡ 0xff)
        × ((k p : ℕ) → k ≢ a.block → K.view t k p ≡ K.view f.storage k p)
  unfolding initialize_block store allocated_valid
  initialize_block-Erases f a previous ok holds real stale =
      let (e, e_is, e_same, e_bytes) = K.erases f.storage a.block in
      let erased = ok.erases f.storage a.block in
      let start : BlockAddress = record { block = a.block; position = 0 } in
      let head = F.head_codec.encode (block_head T S F f a previous) in
      let (w, w_is, w_same, w_bytes) = K.writes e.1 start head F.head_codec.size in
      let wrote = ok.writes e.1 start head F.head_codec.size in
      (
        w.1,
        rw (real, stale, e_is, erased, w_is, wrote) refl,
        w_same ∙ e_same,
        λ p far.
            w_bytes wrote a.block p
            ∙ (let out = le→ltb p (0 + F.head_codec.size) (omega (arith, far, holds.head_small)) in
                let low = le→leb 0 p (omega arith) in
                rw (==_refl a.block, low, out, e_bytes erased a.block p, ==_refl a.block) refl),
        λ k p other.
            w_bytes wrote k p
            ∙ rw (==_ne k a.block other, e_bytes erased k p, ==_ne k a.block other) refl,
      )

  -- A sector that is written.
  pub write-Sector :
      (s : T.State) (h : BlockAddress) (payload : ℕ → ℕ)
      → Succeeds T K
      → (t : T.State) × (T.write s h payload file_sector_size ≡ some (true, t))
        × (T.geometry t ≡ T.geometry s)
        × ((i : ℕ) → i < file_sector_size → K.view t h.block (h.position + i) ≡ payload i)
        × ((k p : ℕ)
            → (k ≢ h.block) ⊎ ((p < h.position) ⊎ (h.position + file_sector_size ≤ p))
            → K.view t k p ≡ K.view s k p)
  write-Sector s h payload ok =
      let (w, w_is, w_same, w_bytes) = K.writes s h payload file_sector_size in
      let wrote = ok.writes s h payload file_sector_size in
      (
        w.1,
        rw (w_is, wrote) refl,
        w_same,
        λ i small.
            w_bytes wrote h.block (h.position + i)
            ∙ (let low = le→leb h.position (h.position + i) (omega arith) in
                let high =
                  lt→ltb (h.position + i) (h.position + file_sector_size) (omega (arith, small)) in
                let back : h.position + i - h.position ≡ i = omega arith in
                rw (==_refl h.block, low, high, back) refl),
        λ k p out. w_bytes wrote k p ∙ outside s h payload k p out,
      )
    where
      outside :
          (s : T.State) (h : BlockAddress) (payload : ℕ → ℕ) (k p : ℕ)
          → (k ≢ h.block) ⊎ ((p < h.position) ⊎ (h.position + file_sector_size ≤ p))
          → (if k == h.block && (leb h.position p && ltb p (h.position + file_sector_size))
              then payload (p - h.position)
              else K.view s k p)
            ≡ K.view s k p
      outside s h payload k p out =
          let missed : (k == h.block && (leb h.position p && ltb p (h.position + file_sector_size)))
              ≡ false =
            ground (arith, out) in
          rw missed refl

  -- A buffer with its tail.
  pub put_tail-before :
      {A : Type 0} (c : Codec A) (x : A) (buffer : ℕ → ℕ) (i : ℕ)
      → i < file_sector_size - c.size
      → put_tail c x buffer i ≡ buffer i
  put_tail-before c x buffer i small = rw (lt→ltb i (file_sector_size - c.size) small) refl

  pub put_tail-tail :
      {A : Type 0} (c : Codec A) (x : A) (buffer : ℕ → ℕ) (i : ℕ)
      → put_tail c x buffer (file_sector_size - c.size + i) ≡ c.encode x i
  put_tail-tail c x buffer i =
      let high = le→ltb (file_sector_size - c.size + i) (file_sector_size - c.size) (omega arith) in
      let back : file_sector_size - c.size + i - (file_sector_size - c.size) ≡ i = omega arith in
      rw (high, back) refl

  module _ (G : Gives S) (content : ℕ → ℕ) (g : Geometry) (beg : BlockAddress) where
    -- A sector of a block that was given, before the head where it is in its block.
    pub record Behind (supply : S.State) (head a : BlockAddress) : Type 0 where
      pub given : G.Given supply a.block
      pub before : (a.block ≢ head.block) ⊎ (a.position + file_sector_size ≤ head.position)

    abbrev pub overhead : BlockAddress → ℕ
    overhead head = if tail_sector head g then F.block_codec.size else F.sector_codec.size

    -- A file that is written: the sectors in storage, and behind them the bytes in the buffer.
    pub record Writable (f : BlockedFile T S F) (ns : List ℕ) (n : ℕ) : Type 0 where
      pub writes : is_read f.mode ≡ false
      pub once : is_multiple_writes f.mode ≡ false
      pub no_ahead : f.buffavailable ≡ 0
      pub unsaved : f.unflushed ≡ f.buffpos
      pub none_pending : f.pending ≡ no_block
      pub same_geometry : geometry T S F f ≡ g
      pub begins : f.beg ≡ record { block = beg.block; position = 0 }
      pub room_left : f.buffpos ≤ file_sector_size - overhead f.head
      pub in_block : f.head.block ≢ block_index_invalid
      pub behind_head : file_sector_size ≤ f.head.position
      pub before_end : f.head.position < block_size g
      pub given : G.Given f.supply f.head.block
      pub chain : Stored F g content (K.view f.storage) (Behind f.supply f.head) 0 beg ns f.head
      pub ahead : (p : ℕ) → f.head.position ≤ p → K.view f.storage f.head.block p ≡ 0xff
      pub buffered : (i : ℕ) → i < f.buffpos → f.buffer i ≡ content (total ns + i)
      pub has : G.Has f.supply n
      pub block_bytes : f.bytes_in_block < 2 ^ 32
      pub length_is : f.length ≡ u32 (total ns + f.buffpos)
