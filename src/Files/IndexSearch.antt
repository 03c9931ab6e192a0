-- ===== src/Files/IndexSearch.antt =====
-- `IndexBlockLayout::seek` of src/file_index.cpp: the search of an index by halves. Storage is a
-- parameter, what a read of a block's head gives (`none` for a read that fails). Fuel bounds the rounds,
-- and `none` is fuel that runs out; `some none` is a search that returns false.
use consfs.Common.{
  ℕ, zero, suc, ◌+◌, ◌*◌, ◌/◌, ◌^◌, ◌≤◌, ◌<◌, ◌≡◌, ◌≢◌, Bool, true, false, ◌&&◌, Option, none, some,
  refl, arith, ltb, ◌==◌, if◌then◌else◌, inl, inr, ◌⊎◌, Bool-cases, Option-cases, sym, ◌∙◌, lt→ltb,
  le→ltb, lt_or_le, ==_iff, eq_or_ne, ==_ne, ap, subst,
}
use mathlib.Core.Option.{some-injective}
use consfs.Addressing.{block_index_invalid}
use consfs.Files.Extents.{Extent, middle_block, first_half, second_half, extent_empty, IsProper}

-- Of an `IndexBlockHead`, whether its magic is valid and the file's position at the block.
pub record IndexHead : Type 0 where
  pub valid : Bool
  pub position : ℕ

middle_block-eq :
    (region : Extent)
    → region.start + region.nblocks < 2 ^ 32
    → middle_block region ≡ region.start + region.nblocks / 2
unfolding middle_block
middle_block-eq region fits = omega (arith, fits)

module _ (read_head : ℕ → Option IndexHead) (position : ℕ) where
  unfoldable pub next_region : Extent → IndexHead → Extent
  next_region region head =
      if head.valid
      then (if ltb position head.position then first_half region else second_half region)
      else first_half region

  -- The loop, with `region` and `valid_block`.
  unfoldable pub search : ℕ → Extent → ℕ → Option (Option ℕ)
  search zero region valid_block = none
  search (suc fuel) region valid_block =
      if extent_empty region
      then some (some valid_block)
      else elim (read_head (middle_block region)) [
        | none ↦ some none
        | some head ↦
            if head.valid && head.position == position
            then some (some (middle_block region))
            else search fuel (next_region region head)
                (if head.valid then middle_block region else valid_block)
      ]

  unfoldable pub seek_block : Extent → Option (Option ℕ)
  seek_block extent = search 33 extent block_index_invalid

  -- The head of the block is valid and not behind the position, and the block is not the invalid index.
  pub record IsBefore (b : ℕ) : Type 0 where
    pub head : IndexHead
    pub read : read_head b ≡ some head
    pub good : head.valid ≡ true
    pub before : head.position ≤ position
    pub real : b ≢ block_index_invalid

  -- The next region is half as long, and it starts where the region does or, behind a head that is
  -- valid and not behind the position, at the block of that head.
  next_region-halves :
      (region : Extent) (head : IndexHead)
      → region.start + region.nblocks < 2 ^ 32
      → ((next_region region head).nblocks ≡ region.nblocks / 2)
        × (((next_region region head).start ≡ region.start)
            ⊎ ((next_region region head).start ≡ region.start + region.nblocks / 2)
              × (head.valid ≡ true)
              × (head.position ≤ position))
  unfolding next_region first_half second_half
  next_region-halves region head fits = elim (Bool-cases head.valid) [
    | inr bad ↦ rw bad (refl, inl refl)
    | inl good ↦ elim (lt_or_le position head.position) [
      | inl behind ↦ rw (good, lt→ltb position head.position behind) (refl, inl refl)
      | inr before ↦
          rw (good, le→ltb position head.position before)
            (refl, inr (omega (arith, fits), refl, before))
    ]
  ]

  pow : (k : ℕ) → 2 ^ suc k ≡ 2 * 2 ^ k
  pow k = omega arith

  halves-small :
      (fuel : ℕ) (region : Extent) (head : IndexHead)
      → region.nblocks < 2 ^ suc fuel
      → region.start + region.nblocks < 2 ^ 32
      → ((next_region region head).nblocks < 2 ^ fuel)
        × ((next_region region head).start + (next_region region head).nblocks < 2 ^ 32)
  halves-small fuel region head few fits =
      let (half, start) = next_region-halves region head fits in
      (omega (arith, half, pow fuel), omega (arith, half, start))

  -- The rounds are enough: one for each halving and one more.
  pub search-total :
      (fuel : ℕ) (region : Extent) (valid_block : ℕ)
      → region.nblocks < 2 ^ fuel
      → region.start + region.nblocks < 2 ^ 32
      → (r : Option ℕ) × (search (suc fuel) region valid_block ≡ some r)
  unfolding search extent_empty
  search-total zero region valid_block few fits =
      let nothing : region.nblocks ≡ 0 = omega (arith, few) in
      (some valid_block, rw ((==_iff region.nblocks 0).1 nothing) refl)
  search-total (suc fuel) region valid_block few fits = elim (Bool-cases (extent_empty region)) [
    | inl nothing ↦ (some valid_block, rw nothing refl)
    | inr blocks ↦ elim (Option-cases (read_head (middle_block region))) [
      | inl fails ↦ (none, rw (blocks, fails) refl)
      | inr (head, e) ↦ elim (Bool-cases (head.valid && head.position == position)) [
        | inl found ↦ (some (middle_block region), rw (blocks, e, found) refl)
        | inr unlike ↦
            let small = halves-small fuel region head few fits in
            let (r, f) =
              search-total fuel (next_region region head)
                (if head.valid then middle_block region else valid_block) small.0 small.1 in
            (r, rw (blocks, e, unlike) f)
      ]
    ]
  ]

  -- What the search knows before a round: the region starts at a block that is not behind the position,
  -- all its blocks can be read, and if it is empty then the block found so far is such a block.
  record Knows (region : Extent) (valid_block : ℕ) : Type 0 where
    start_before : IsBefore region.start
    readable :
        (b : ℕ)
        → region.start ≤ b
        → b < region.start + region.nblocks
        → (head : IndexHead) × (read_head b ≡ some head)
    found : region.nblocks ≡ 0 → IsBefore valid_block

  next-Knows :
      (region : Extent) (valid_block : ℕ) (head : IndexHead)
      → region.start + region.nblocks < 2 ^ 32
      → region.nblocks ≢ 0
      → Knows region valid_block
      → read_head (region.start + region.nblocks / 2) ≡ some head
      → (head.valid && head.position == position) ≡ false
      → Knows
          (next_region region head)
          (if head.valid then region.start + region.nblocks / 2 else valid_block)
  next-Knows region valid_block head fits some_block knows e unlike =
      let (half, start) = next_region-halves region head fits in
      record {
        start_before = elim start [
          | inl same ↦ subst IsBefore (sym same) knows.start_before
          | inr (middle, good, before) ↦ subst IsBefore (sym middle) (record {
            head = head;
            read = e;
            good = good;
            before = before;
            real = λ same. absurd (omega arith);
          })
        ];
        readable =
            λ b low high. knows.readable b (omega (arith, start)) (omega (arith, half, start));
        found = λ nothing.
            let at_start : region.start + region.nblocks / 2 ≡ region.start = omega (arith, half) in
            let same : head ≡ knows.start_before.head =
              some-injective _ _ (sym e ∙ (ap read_head at_start ∙ knows.start_before.read)) in
            let good : head.valid ≡ true = ap IndexHead.valid same ∙ knows.start_before.good in
            rw good (subst IsBefore (sym at_start) knows.start_before);
      }

  found-IsBefore :
      (b : ℕ) (head : IndexHead)
      → read_head b ≡ some head
      → (head.valid && head.position == position) ≡ true
      → b ≢ block_index_invalid
      → IsBefore b
  found-IsBefore b head e found real = elim (Bool-cases head.valid) [
    | inl good ↦ record {
      head = head;
      read = e;
      good = good;
      before = at_position good;
      real = real;
    }
    | inr bad ↦ absurd (cc (rw bad at found))
  ]
    where
      at_position : head.valid ≡ true → head.position ≤ position
      at_position good =
          let same = rw good at found in omega (arith, (==_iff head.position position).0 same)

  search-IsBefore :
      (fuel : ℕ) (region : Extent) (valid_block : ℕ)
      → region.nblocks < 2 ^ fuel
      → region.start + region.nblocks < 2 ^ 32
      → Knows region valid_block
      → (b : ℕ) × (search (suc fuel) region valid_block ≡ some (some b)) × IsBefore b
  unfolding search extent_empty
  search-IsBefore zero region valid_block few fits knows =
      let nothing : region.nblocks ≡ 0 = omega (arith, few) in
      (valid_block, rw ((==_iff region.nblocks 0).1 nothing) refl, knows.found nothing)
  search-IsBefore (suc fuel) region valid_block few fits knows = elim (eq_or_ne region.nblocks 0) [
    | inl nothing ↦
        (valid_block, rw ((==_iff region.nblocks 0).1 nothing) refl, knows.found nothing)
    | inr some_block ↦
        let middle = region.start + region.nblocks / 2 in
        let at_middle : middle_block region ≡ middle = middle_block-eq region fits in
        let (head, e) = knows.readable middle (omega arith) (omega arith) in
        let at_block = ap read_head at_middle ∙ e in
        elim (Bool-cases (head.valid && head.position == position)) [
          | inl found ↦ (
            middle_block region,
            rw (==_ne region.nblocks 0 some_block, at_block, found) refl,
            subst IsBefore (sym at_middle)
                (found-IsBefore middle head e found (λ at_end. absurd (omega arith))),
          )
          | inr unlike ↦
              let small = halves-small fuel region head few fits in
              let knows_next = next-Knows region valid_block head fits some_block knows e unlike in
              let (b, f, before) =
                search-IsBefore fuel (next_region region head)
                  (if head.valid then middle_block region else valid_block) small.0 small.1
                  (subst
                    (λ m. Knows (next_region region head) (if head.valid then m else valid_block))
                    (sym at_middle) knows_next) in
              (b, rw (==_ne region.nblocks 0 some_block, at_block, unlike) f, before)
        ]
  ]

  -- What the search gives is the block found so far or a block of the region, but not the last one of an
  -- odd number above 1.
  search-range :
      (fuel : ℕ) (region : Extent) (valid_block b : ℕ)
      → region.start + region.nblocks < 2 ^ 32
      → search fuel region valid_block ≡ some (some b)
      → (b ≡ valid_block)
        ⊎ ((region.start ≤ b)
            × (b < region.start + region.nblocks)
            × (1 < region.nblocks → b < region.start + 2 * (region.nblocks / 2)))
  unfolding search extent_empty
  search-range zero region valid_block b fits e = absurd (cc)
  search-range (suc fuel) region valid_block b fits e = elim (eq_or_ne region.nblocks 0) [
    | inl nothing ↦ inl (
        sym
          (some-injective _ _ (some-injective _ _ (rw ((==_iff region.nblocks 0).1 nothing) at e))))
    | inr some_block ↦
        let same = middle_block-eq region fits in
        elim (Option-cases (read_head (middle_block region))) [
          | inl fails ↦ absurd (cc (rw (==_ne region.nblocks 0 some_block, fails) at e))
          | inr (head, got) ↦ elim (Bool-cases (head.valid && head.position == position)) [
            | inl found ↦
                let here =
                  some-injective _ _ (
                    some-injective _ _ (rw (==_ne region.nblocks 0 some_block, got, found) at e)) in
                inr (
                  omega (arith, here, same),
                  omega (arith, here, same),
                  λ more. omega (arith, here, same),
                )
            | inr unlike ↦
                let (half, start) = next_region-halves region head fits in
                let rest = rw (==_ne region.nblocks 0 some_block, got, unlike) at e in
                elim (search-range fuel (next_region region head)
                  (if head.valid then middle_block region else valid_block) b
                  (omega (arith, half, start)) rest) [
                    | inl before ↦ elim (Bool-cases head.valid) [
                      | inl good ↦
                          let here = rw good at before in
                          inr (
                            omega (arith, here, same),
                            omega (arith, here, same),
                            λ more. omega (arith, here, same),
                          )
                      | inr bad ↦ inl (rw bad at before)
                    ]
                    | inr (low, high, _) ↦ inr (
                      omega (arith, start),
                      omega (arith, half, start),
                      λ more. omega (arith, half, start),
                    )
                  ]
          ]
        ]
  ]

  -- Over a proper extent whose blocks can all be read and whose first block has a valid head that is not
  -- behind the position, the search ends within its 33 rounds and returns true, with a block of the
  -- extent that has a valid head and is not behind the position either.
  pub seek_block-IsBefore :
      (extent : Extent)
      → IsProper extent
      → ((b : ℕ)
          → extent.start ≤ b
          → b < extent.start + extent.nblocks
          → (head : IndexHead) × (read_head b ≡ some head))
      → IsBefore extent.start
      → (b : ℕ) × (seek_block extent ≡ some (some b))
        × (extent.start ≤ b)
        × (b < extent.start + extent.nblocks)
        × IsBefore b
  unfolding seek_block
  seek_block-IsBefore extent proper readable first =
      let (b, e, before) =
        search-IsBefore 32 extent block_index_invalid (omega (arith, proper.fits)) proper.fits
          (record {
            start_before = first;
            readable = readable;
            found = λ nothing. absurd (omega (arith, proper.some_block));
          }) in
      elim (search-range 33 extent block_index_invalid b proper.fits e) [
        | inl invalid ↦ absurd (before.real invalid)
        | inr (low, high, _) ↦ (b, e, low, high, before)
      ]

  -- In a proper extent of an odd number of blocks, 3 or more, the last block is never found: the second
  -- half leaves it out.
  pub seek_block-last :
      (extent : Extent) (m : ℕ)
      → extent.nblocks ≡ 2 * m + 1
      → 1 ≤ m
      → extent.start + extent.nblocks < 2 ^ 32
      → seek_block extent ≢ some (some (extent.start + 2 * m))
  unfolding seek_block
  seek_block-last extent m odd some_m fits e =
      elim (search-range 33 extent block_index_invalid (extent.start + 2 * m) fits e) [
        | inl invalid ↦ omega (arith, invalid)
        | inr (low, high, not_last) ↦ omega (arith, not_last (omega arith))
      ]
