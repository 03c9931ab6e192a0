-- ===== src/Blocked/Chain.antt =====
-- The sectors of a file in storage: the chain that src/blocked_file.cpp writes and reads.
use consfs.Common.{
  ℕ, ◌+◌, ◌-◌, ◌≤◌, ◌<◌, ◌≡◌, ◌≢◌, ◌⊎◌, inl, inr, true, false, List, [], ◌∷◌, ◌++◌, arith, refl,
  sym, subst, ◌∙◌,
}
use consfs.Addressing.{
  BlockAddress, Geometry, file_sector_size, block_index_invalid, position_index_invalid,
}
use consfs.Addressing.Addr.{add, tail_sector}
use consfs.Blocked.{FileBlockTail, FileFormat}

-- The structs fit in a sector with room for data.
pub record FormatFits (F : FileFormat) : Type 0 where
  pub sector_small : F.sector_codec.size < file_sector_size
  pub block_small : F.block_codec.size < file_sector_size

abbrev pub total : List ℕ → ℕ
total [] = 0
total (n ∷ ns) = n + total ns

pub total-append : (ns : List ℕ) (n : ℕ) → total (ns ++ (n ∷ [])) ≡ total ns + n
total-append [] n = omega arith
total-append (m ∷ ns) n = omega (arith, total-append ns n)

module _ (F : FileFormat) (g : Geometry) (content : ℕ → ℕ) where
  -- A sector at an address that has the bytes of the content from an offset on, and says how many and
  -- where the next one is.
  pub record Sector (bytes : ℕ → ℕ → ℕ) (within : BlockAddress → Type 0) (off : ℕ)
      (a : BlockAddress) (n : ℕ) (next : BlockAddress) : Type 0 where
    pub inside : within a
    pub in_block : a.block ≢ block_index_invalid
    pub positioned : a.position ≢ position_index_invalid
    pub behind_head : a.position ≢ 0
    pub some_bytes : 0 < n
    pub fits : n ≤ file_sector_size
    pub same : (i : ℕ) → i < n → bytes a.block (a.position + i) ≡ content (off + i)
    pub tail :
        ((tail_sector a g ≡ false)
          × F.sector_codec.Fits (record { bytes = n })
          × ((i : ℕ)
              → i < F.sector_codec.size
              → bytes a.block (a.position + (file_sector_size - F.sector_codec.size + i))
                ≡ F.sector_codec.encode (record { bytes = n }) i)
          × (next ≡ add a file_sector_size))
        ⊎ ((l : FileBlockTail) × (tail_sector a g ≡ true)
            × F.block_codec.Fits l
            × ((i : ℕ)
                → i < F.block_codec.size
                → bytes a.block (a.position + (file_sector_size - F.block_codec.size + i))
                  ≡ F.block_codec.encode l i)
            × (l.sector.bytes ≡ n)
            × (l.linked_block ≢ block_index_invalid)
            × (next ≡ record { block = l.linked_block; position = file_sector_size }))

  -- The sectors from an address to the end, with their numbers of bytes.
  abbrev pub Stored :
      (ℕ → ℕ → ℕ) → (BlockAddress → Type 0) → ℕ → BlockAddress → List ℕ → BlockAddress → Type 0
  Stored bytes within off a [] end = a ≡ end
  Stored bytes within off a (n ∷ ns) end =
      (next : BlockAddress) × Sector bytes within off a n next
      × Stored bytes within (off + n) next ns end

  -- Where the chain ends, storage is not written.
  pub record Unwritten (bytes : ℕ → ℕ → ℕ) (a : BlockAddress) : Type 0 where
    pub in_block : a.block ≢ block_index_invalid
    pub positioned : a.position ≢ position_index_invalid
    pub behind_head : a.position ≢ 0
    pub erased : (i : ℕ) → i < file_sector_size → bytes a.block (a.position + i) ≡ 0xff

  -- A sector whose bytes another storage has.
  abbrev pub Keeps :
      (ℕ → ℕ → ℕ) → (ℕ → ℕ → ℕ) → (BlockAddress → Type 0) → (BlockAddress → Type 0) → Type 0
  Keeps bytes now within then_within =
      (a : BlockAddress)
      → within a
      → then_within a
        × ((i : ℕ)
            → i < file_sector_size
            → now a.block (a.position + i) ≡ bytes a.block (a.position + i))

  Sector-map :
      (bytes now : ℕ → ℕ → ℕ) (within then_within : BlockAddress → Type 0)
      → FormatFits F
      → Keeps bytes now within then_within
      → (off : ℕ) (a : BlockAddress) (n : ℕ) (next : BlockAddress)
      → Sector bytes within off a n next
      → Sector now then_within off a n next
  Sector-map bytes now within then_within small keeps off a n next s =
      let kept = (keeps a s.inside).1 in
      record {
        inside = (keeps a s.inside).0;
        in_block = s.in_block;
        positioned = s.positioned;
        behind_head = s.behind_head;
        some_bytes = s.some_bytes;
        fits = s.fits;
        same = λ i i_small. kept i (omega (arith, i_small, s.fits)) ∙ s.same i i_small;
        tail = elim (s.tail) [
          | inl (plain, good, encoded, on) ↦ inl (
            plain,
            good,
            λ i i_small.
                kept (file_sector_size - F.sector_codec.size + i)
                  (omega (arith, i_small, small.sector_small))
                ∙ encoded i i_small,
            on,
          )
          | inr (l, last, good, encoded, count, linked, on) ↦ inr (
            l,
            last,
            good,
            λ i i_small.
                kept (file_sector_size - F.block_codec.size + i)
                  (omega (arith, i_small, small.block_small))
                ∙ encoded i i_small,
            count,
            linked,
            on,
          )
        ];
      }

  pub Stored-map :
      (bytes now : ℕ → ℕ → ℕ) (within then_within : BlockAddress → Type 0)
      → FormatFits F
      → Keeps bytes now within then_within
      → (off : ℕ) (a : BlockAddress) (ns : List ℕ) (end : BlockAddress)
      → Stored bytes within off a ns end
      → Stored now then_within off a ns end
  Stored-map bytes now within then_within small keeps off a [] end stored = stored
  Stored-map bytes now within then_within small keeps off a (n ∷ ns) end (next, s, rest) = (
    next,
    Sector-map bytes now within then_within small keeps off a n next s,
    Stored-map bytes now within then_within small keeps (off + n) next ns end rest,
  )

  -- One more sector at the end.
  pub Stored-append :
      (bytes : ℕ → ℕ → ℕ) (within : BlockAddress → Type 0) (off : ℕ) (a : BlockAddress)
      (ns : List ℕ) (end : BlockAddress) (n : ℕ) (next : BlockAddress)
      → Stored bytes within off a ns end
      → Sector bytes within (off + total ns) end n next
      → Stored bytes within off a (ns ++ (n ∷ [])) next
  Stored-append bytes within off a [] end n next stored s =
      let at_off : off + 0 ≡ off = omega arith in
      (
        next,
        subst (λ (b : BlockAddress). Sector bytes within off b n next) (sym stored)
            (subst (λ (o : ℕ). Sector bytes within o end n next) at_off s),
        refl,
      )
  Stored-append bytes within off a (m ∷ ns) end n next (mid, first, rest) s =
      let at_off : off + (m + total ns) ≡ off + m + total ns = omega arith in
      (
        mid,
        first,
        Stored-append bytes within (off + m) mid ns end n next rest
            (subst (λ (o : ℕ). Sector bytes within o end n next) at_off s),
      )
