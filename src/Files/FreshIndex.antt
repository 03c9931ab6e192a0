-- ===== src/Files/FreshIndex.antt =====
-- The index that `FileIndex::format` of src/file_index.cpp leaves: a search of it gives its first block.
use consfs.Common.{
  ℕ, zero, suc, ◌+◌, ◌/◌, ◌^◌, ◌≤◌, ◌<◌, ◌≡◌, ◌≢◌, inl, inr, true, false, some, arith, refl, ap,
  ◌∙◌, eq_or_ne, ==_iff, ==_ne, ==_refl, lt→ltb, le→ltb,
}
use consfs.Addressing.{block_index_invalid, file_sector_size}
use consfs.Backend.{Storage, Answers, store, magic_valid, fill_magic}
use consfs.SuperBlocks.Chain.{Succeeds}
use consfs.Cache.Through.{Plain, Blank, erase_through, write_through, load_through}
use consfs.Files.Extents.{Extent, IsProper, middle_block, first_half, second_half, extent_empty}
use consfs.Files.IndexSearch.{next_region}
use consfs.Files.Index.{
  IndexFormat, index_head, erase_middles, write_index_head, format_blocks, find_block,
  seek_index_block,
}

-- Erased bytes are no head of an index, and its bytes hold a new one.
pub record HeadHolds (X : IndexFormat) : Type 0 where
  pub small : X.head_codec.size ≤ file_sector_size
  pub fits : X.head_codec.Fits (index_head 0)
  pub erased :
      (bytes : ℕ → ℕ)
      → ((i : ℕ) → i < X.head_codec.size → bytes i ≡ 0xff)
      → magic_valid (X.head_codec.decode bytes).block ≡ false

module _ (T : Storage) (K : Answers T) (ok : Succeeds T K) (garbage : ℕ → ℕ) (X : IndexFormat) where
  -- The middle blocks of the halves of a region are erased.
  abbrev MiddlesBlank : ℕ → Extent → T.State → Type 0
  MiddlesBlank zero region s = Unit {0}
  MiddlesBlank (suc k) region s =
      (0 < region.nblocks
        → middle_block region ≢ region.start
        → Blank T K ok garbage s (middle_block region))
      × MiddlesBlank k (first_half region) s

  MiddlesBlank-map :
      (k : ℕ) (region : Extent) (s t : T.State)
      → ((b : ℕ) → b ≢ region.start → Blank T K ok garbage s b → Blank T K ok garbage t b)
      → MiddlesBlank k region s
      → MiddlesBlank k region t
  unfolding first_half
  MiddlesBlank-map zero region s t keeps blank = tt
  MiddlesBlank-map (suc k) region s t keeps blank = (
    λ some_block apart. keeps (middle_block region) apart (blank.0 some_block apart),
    MiddlesBlank-map k (first_half region) s t keeps blank.1,
  )

  empty-MiddlesBlank :
      (k : ℕ) (region : Extent) (s : T.State) → region.nblocks ≡ 0 → MiddlesBlank k region s
  unfolding first_half
  empty-MiddlesBlank zero region s none_left = tt
  empty-MiddlesBlank (suc k) region s none_left = (
    λ some_block. absurd (omega (arith, some_block, none_left)),
    empty-MiddlesBlank k (first_half region) s (omega (arith, none_left)),
  )

  erase_middles-Blank :
      (k : ℕ) (region : Extent) (s : T.State)
      → Plain T K ok garbage s
      → region.nblocks < 2 ^ k
      → (t : T.State) × (erase_middles T garbage X (suc k) region s ≡ some (true, t))
        × (T.geometry t ≡ T.geometry s)
        × ((b : ℕ) → Blank T K ok garbage s b → Blank T K ok garbage t b)
        × MiddlesBlank k region t
  unfolding erase_middles extent_empty first_half
  erase_middles-Blank zero region s plain few =
      let none_left : region.nblocks ≡ 0 = omega (arith, few) in
      (s, rw ((==_iff region.nblocks 0).1 none_left) refl, refl, λ b blank. blank, tt)
  erase_middles-Blank (suc k) region s plain few = elim (eq_or_ne region.nblocks 0) [
    | inl none_left ↦ (
      s,
      rw ((==_iff region.nblocks 0).1 none_left) refl,
      refl,
      λ b blank. blank,
      empty-MiddlesBlank (suc k) region s none_left,
    )
    | inr some_left ↦
        let m = middle_block region in
        let (u, erased, same, bytes) = erase_through T K ok garbage s m plain in
        let now : Blank T K ok garbage u m = λ p. bytes m p ∙ rw (==_refl m) refl in
        let keeps : (b : ℕ) → Blank T K ok garbage s b → Blank T K ok garbage u b =
          λ b blank p. ground (arith, bytes b p, blank p) in
        let (t, rest, geometry, kept, blanks) =
          erase_middles-Blank k (first_half region) u (ap (λ g. g.sector_size) same ∙ plain)
            (omega (arith, few)) in
        (
          t,
          rw (==_ne region.nblocks 0 some_left, erased) rest,
          geometry ∙ same,
          λ b blank. kept b (keeps b blank),
          (λ some_block apart. kept m now, blanks),
        )
  ]

  write_index_head-Head :
      (s : T.State) (b : ℕ)
      → HeadHolds X
      → Plain T K ok garbage s
      → b ≢ block_index_invalid
      → (t : T.State) × (write_index_head T garbage X s b ≡ some (true, t))
        × (T.geometry t ≡ T.geometry s)
        × ((c : ℕ) → c ≢ b → Blank T K ok garbage s c → Blank T K ok garbage t c)
        × ((i : ℕ) → i < X.head_codec.size → K.view t b i ≡ X.head_codec.encode (index_head 0) i)
  unfolding write_index_head store
  write_index_head-Head s b holds plain real =
      let (u, erased, same, bytes) = erase_through T K ok garbage s b plain in
      let (t, wrote, geometry, now) =
        write_through T K ok garbage u b (X.head_codec.encode (index_head 0)) X.head_codec.size
          (ap (λ g. g.sector_size) same ∙ plain) real in
      (
        t,
        rw (erased, wrote) refl,
        geometry ∙ same,
        λ c apart blank p. ground (arith, now c p, bytes c p, blank p, apart),
        λ i small. now b i ∙ rw (==_refl b, lt→ltb i X.head_codec.size small) refl,
      )

  middle_block-eq :
      (region : Extent)
      → region.start + region.nblocks < 2 ^ 32
      → middle_block region ≡ region.start + region.nblocks / 2
  unfolding middle_block
  middle_block-eq region fits = omega (arith, fits)

  -- The first block of a region of one.
  find_block-last :
      (k : ℕ) (region : Extent) (t : T.State) (position valid_block : ℕ)
      → HeadHolds X
      → Plain T K ok garbage t
      → region.nblocks ≡ 1
      → region.start + 1 < 2 ^ 32
      → ((i : ℕ)
          → i < X.head_codec.size
          → K.view t region.start i ≡ X.head_codec.encode (index_head 0) i)
      → find_block T garbage X (suc (suc k)) t position region valid_block
        ≡ some (some region.start)
  unfolding find_block extent_empty next_region second_half magic_valid fill_magic
  find_block-last k region t position valid_block holds plain one fits head =
      let m = middle_block region in
      let first : m ≡ region.start =
        middle_block-eq region (omega (arith, one, fits)) ∙ omega (arith, one) in
      let (d, loaded, bytes) =
        load_through T K ok garbage X.head_codec t m plain
          (λ e. absurd (omega (arith, e, first, fits))) holds.small in
      let is_head : X.head_codec.decode d ≡ index_head 0 =
        X.head_codec.decode-encode (index_head 0) d holds.fits
          (λ i small. bytes i small ∙ ap (λ b. K.view t b i) first ∙ head i small) in
      let half : region.nblocks / 2 ≡ 0 = omega (arith, one) in
      elim (eq_or_ne 0 position) [
        | inl here ↦
            rw
              (
                ==_ne region.nblocks 0 (λ e. absurd (omega (arith, e, one))),
                loaded,
                is_head,
                (==_iff 0 position).1 here,
              )
              (ap (λ b. some (some b)) first)
        | inr later ↦
            rw
              (
                ==_ne region.nblocks 0 (λ e. absurd (omega (arith, e, one))),
                loaded,
                is_head,
                ==_ne 0 position later,
                le→ltb position 0 (omega arith),
                half,
              )
              (ap (λ b. some (some b)) first)
      ]

  -- A search of a region, the first block of which has a head at the beginning of the file, and which has
  -- no other head at a middle.
  find_block-first :
      (k : ℕ) (region : Extent) (t : T.State) (position valid_block : ℕ)
      → HeadHolds X
      → Plain T K ok garbage t
      → region.nblocks < 2 ^ k
      → region.start + region.nblocks < 2 ^ 32
      → (region.nblocks ≡ 0 → valid_block ≡ region.start)
      → ((i : ℕ)
          → i < X.head_codec.size
          → K.view t region.start i ≡ X.head_codec.encode (index_head 0) i)
      → MiddlesBlank k region t
      → find_block T garbage X (suc k) t position region valid_block ≡ some (some region.start)
  unfolding find_block extent_empty first_half next_region
  find_block-first zero region t position valid_block holds plain few fits empty head blanks =
      let none_left : region.nblocks ≡ 0 = omega (arith, few) in
      rw ((==_iff region.nblocks 0).1 none_left) (ap (λ b. some (some b)) (empty none_left))
  find_block-first (suc k) region t position valid_block holds plain few fits empty head blanks =
      elim (eq_or_ne region.nblocks 0) [
        | inl none_left ↦
            rw ((==_iff region.nblocks 0).1 none_left) (ap (λ b. some (some b)) (empty none_left))
        | inr some_left ↦
            let m = middle_block region in
            let middle = middle_block-eq region fits in
            elim (eq_or_ne (region.nblocks / 2) 0) [
              | inl one ↦
                  find_block-last k region t position valid_block holds plain
                    (omega (arith, one, some_left)) (omega (arith, fits, some_left)) head
              | inr more ↦
                  let apart : m ≢ region.start = λ e. absurd (omega (arith, e, middle, more)) in
                  let (d, loaded, bytes) =
                    load_through T K ok garbage X.head_codec t m plain
                      (λ e. absurd (omega (arith, e, middle, fits, more))) holds.small in
                  let bad =
                    holds.erased d
                      (λ i small. bytes i small ∙ blanks.0 (omega (arith, some_left)) apart i) in
                  rw (==_ne region.nblocks 0 some_left, loaded, bad)
                    (find_block-first k (first_half region) t position valid_block holds plain
                      (omega (arith, few)) (omega (arith, fits))
                      (λ none_left. absurd (more none_left)) head blanks.1)
            ]
      ]

  -- Where no operation of the storage fails, its sectors have 512 bytes, and a head of the index fits in one, has
  -- bytes that hold it, and is not what erased bytes are read as: formatting the blocks of an index in an extent
  -- that is not empty and ends before the last 32-bit number returns true, with no stop, and a search for
  -- any position in the storage that it leaves then gives the first block of the extent.
  pub seek_index_block-format_blocks :
      (extent : Extent) (s : T.State)
      → HeadHolds X
      → Plain T K ok garbage s
      → IsProper extent
      → (t : T.State) × (format_blocks T garbage X extent s ≡ some (true, t))
        × ((position : ℕ)
            → seek_index_block T garbage X t position extent ≡ some (some extent.start))
  unfolding format_blocks seek_index_block
  seek_index_block-format_blocks extent s holds plain proper =
      let few : extent.nblocks < 2 ^ 32 = omega (arith, proper.fits) in
      let (u, erased, same, kept, blanks) = erase_middles-Blank 32 extent s plain few in
      let plain_u = ap (λ g. g.sector_size) same ∙ plain in
      let (t, wrote, geometry, apart, head) =
        write_index_head-Head u extent.start holds plain_u
          (λ e. absurd (omega (arith, e, proper.fits, proper.some_block))) in
      (
        t,
        rw (erased, wrote) refl,
        λ position.
            find_block-first 32 extent t position block_index_invalid holds
              (ap (λ g. g.sector_size) geometry ∙ plain_u) few proper.fits
              (λ e. absurd (omega (arith, e, proper.some_block))) head
              (MiddlesBlank-map 32 extent u t apart blanks),
      )
