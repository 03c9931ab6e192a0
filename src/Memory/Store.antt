-- ===== src/Memory/Store.antt =====
-- What src/backends/linux_memory/linux_memory.cpp promises: what is written to an erased block is read
-- back, and the other bytes stay.
use native.Mathlib.Nat.{mul-le-mul_right}
use consfs.Common.{
  ℕ, zero, suc, ◌+◌, ◌-◌, ◌*◌, ◌^◌, ◌≤◌, ◌<◌, ◌≡◌, ◌⊎◌, inl, inr, Bool, true, false, Option, some,
  refl, arith, if◌then◌else◌, u64, ◌>>◌, check, sym, ap, Bool-cases, lt→ltb, le→leb, ◌∙◌, ==_iff,
}
use mathlib.Core.Option.{some-injective}
use consfs.Addressing.{BlockAddress, Geometry}
use consfs.Addressing.Geom.{block_size, contains}
use consfs.Addressing.Addr.{valid, sector_offset}
use consfs.Memory.{
  Memory, VerificationMode, erase_byte, offset_of, copy_to, erase_block, read_memory, verify_erased,
  verify, write_memory,
}

-- The bytes of the address are in one sector of a block of the geometry, and the memory has the size of
-- the geometry, a 64-bit number.
pub record IsInside (m : Memory) (a : BlockAddress) (n : ℕ) : Type 0 where
  pub real : valid a ≡ true
  pub some_bytes : 0 < block_size m.geometry
  pub block_in : a.block < m.geometry.number_of_blocks
  pub start_in : a.position < block_size m.geometry
  pub end_in : a.position + n ≤ block_size m.geometry
  pub sector_in : sector_offset a m.geometry + n ≤ m.geometry.sector_size
  pub whole : m.size ≡ m.geometry.number_of_blocks * block_size m.geometry
  pub words : m.size < 2 ^ 63
  pub sector_word : m.geometry.sector_size < 2 ^ 16

offset-bound :
    (m : Memory) (a : BlockAddress) (n : ℕ)
    → IsInside m a n
    → (offset_of m a ≡ a.block * block_size m.geometry + a.position)
      × (offset_of m a + n ≤ m.size)
      × (a.block * block_size m.geometry + block_size m.geometry ≤ m.size)
unfolding offset_of
offset-bound m a n ok =
    let big : suc a.block * block_size m.geometry
        ≤ m.geometry.number_of_blocks * block_size m.geometry =
      mul-le-mul_right (block_size m.geometry) ok.block_in in
    let next : suc a.block * block_size m.geometry
        ≡ a.block * block_size m.geometry + block_size m.geometry =
      omega arith in
    let block_end : a.block * block_size m.geometry + block_size m.geometry ≤ m.size =
      omega (arith, big, next, ok.whole) in
    let exact : u64 (a.block * block_size m.geometry + a.position)
        ≡ a.block * block_size m.geometry + a.position =
      omega (arith, block_end, ok.words, ok.start_in) in
    (exact, omega (arith, exact, block_end, ok.end_in), block_end)

-- The `n` bytes from the offset on are erased.
abbrev pub IsErased : (ℕ → ℕ) → ℕ → ℕ → Type 0
IsErased bytes p n = (j : ℕ) → p ≤ j → j < p + n → bytes j ≡ erase_byte

verify_erased-true : (bytes : ℕ → ℕ) (p n : ℕ) → IsErased bytes p n → verify_erased bytes p n ≡ true
unfolding verify_erased
verify_erased-true bytes p zero erased = refl
verify_erased-true bytes p (suc n) erased =
    let first = (==_iff (bytes p) erase_byte).1 (erased p (omega arith) (omega arith)) in
    let rest =
      verify_erased-true bytes (p + 1) n (λ j low high. erased j (omega arith) (omega arith)) in
    rw (first, rest) refl

verify-true : (m : Memory) (p n : ℕ) → IsErased m.bytes p n → verify m p n ≡ true
verify-true m p n erased = by_mode m.verification
  where
    by_mode :
        (mode : VerificationMode)
        → elim mode [
          | VerificationMode.erased_only ↦ verify_erased m.bytes p n
          | VerificationMode.appending ↦ true
        ]
          ≡ true
    by_mode VerificationMode.erased_only = verify_erased-true m.bytes p n erased
    by_mode VerificationMode.appending = refl

contains-true :
    (g : Geometry) (b p : ℕ)
    → b < g.number_of_blocks
    → p < block_size g
    → contains g (record { block = b; position = p }) ≡ true
unfolding contains
contains-true g b p low high =
    rw (lt→ltb b g.number_of_blocks low, lt→ltb p (block_size g) high) refl

-- A read inside a sector does not stop, and gives the bytes of the memory.
read_memory-lem :
    (m : Memory) (a : BlockAddress) (n : ℕ)
    → IsInside m a n
    → read_memory m a n ≡ some (true, λ i. m.bytes (offset_of m a + i))
unfolding read_memory
read_memory-lem m a n ok =
    let (exact, low, high) = offset-bound m a n ok in
    let no_wrap : u64 (offset_of m a + n) ≡ offset_of m a + n = omega (arith, low, ok.words) in
    let in_sector : u64 (sector_offset a m.geometry + n) ≡ sector_offset a m.geometry + n =
      omega (arith, ok.sector_in, ok.sector_word) in
    rw
      (
        ok.real,
        contains-true m.geometry a.block a.position ok.block_in ok.start_in,
        le→leb n m.geometry.sector_size (omega (arith, ok.sector_in)),
        in_sector,
        le→leb (sector_offset a m.geometry + n) m.geometry.sector_size ok.sector_in,
        no_wrap,
        le→leb (offset_of m a + n) m.size low,
      )
      (strict m.strict_sectors)
  where
    strict : {A : Type 0} {r : Option A} (b : Bool) → (check (if b then true else true) >> r) ≡ r
    strict true = refl
    strict false = refl

-- A write to erased bytes inside a sector does not stop, and copies them.
write_memory-lem :
    (m : Memory) (a : BlockAddress) (d : ℕ → ℕ) (n : ℕ)
    → IsInside m a n
    → IsErased m.bytes (offset_of m a) n
    → write_memory m a d n ≡ some (true, record m { bytes = copy_to m.bytes (offset_of m a) n d })
unfolding write_memory
write_memory-lem m a d n ok erased =
    let (exact, low, high) = offset-bound m a n ok in
    let no_wrap : u64 (offset_of m a + n) ≡ offset_of m a + n = omega (arith, low, ok.words) in
    rw
      (
        contains-true m.geometry a.block a.position ok.block_in ok.start_in,
        le→leb n m.geometry.sector_size (omega (arith, ok.sector_in)),
        no_wrap,
        le→leb (offset_of m a + n) m.size low,
        verify-true m (offset_of m a) n erased,
      )
      refl

copy_to-inside :
    (bytes : ℕ → ℕ) (o n : ℕ) (source : ℕ → ℕ) (i : ℕ)
    → i < n
    → copy_to bytes o n source (o + i) ≡ source i
copy_to-inside bytes o n source i h =
    let same : o + i - o ≡ i = omega arith in
    rw (le→leb o (o + i) (omega arith), lt→ltb (o + i) (o + n) (omega arith), same) refl

copy_to-constant :
    (bytes : ℕ → ℕ) (o n c j : ℕ) → o ≤ j → j < o + n → copy_to bytes o n (λ _. c) j ≡ c
copy_to-constant bytes o n c j low high = rw (le→leb o j low, lt→ltb j (o + n) high) refl

copy_to-outside :
    (bytes : ℕ → ℕ) (o n : ℕ) (source : ℕ → ℕ) (j : ℕ)
    → (j < o) ⊎ (o + n ≤ j)
    → copy_to bytes o n source j ≡ bytes j
copy_to-outside bytes o n source j out = ground (arith, out)

-- Where the bytes of an address lie in one sector, erasing its block, writing there and reading it
-- again does not stop; the read gives what was written, and no byte outside the block is changed.
pub write_memory-read :
    (m : Memory) (a : BlockAddress) (d : ℕ → ℕ) (n : ℕ)
    → IsInside m a n
    → (m1 : Memory) × (erase_block m a.block ≡ some (true, m1))
      × (m2 : Memory) × (write_memory m1 a d n ≡ some (true, m2))
      × (e : ℕ → ℕ) × (read_memory m2 a n ≡ some (true, e))
      × ((i : ℕ) → i < n → e i ≡ d i)
      × ((j : ℕ)
          → (j < a.block * block_size m.geometry)
            ⊎ (a.block * block_size m.geometry + block_size m.geometry ≤ j)
          → m2.bytes j ≡ m.bytes j)
unfolding erase_block offset_of
write_memory-read m a d n ok =
    let (exact, low, high) = offset-bound m a n ok in
    let first = a.block * block_size m.geometry in
    let erased_bytes = copy_to m.bytes first (block_size m.geometry) (λ _. erase_byte) in
    let m1 : Memory = record m { bytes = erased_bytes } in
    let m2 : Memory = record m { bytes = copy_to erased_bytes (offset_of m a) n d } in
    let ok1 : IsInside m1 a n = same_fields erased_bytes in
    let ok2 : IsInside m2 a n = same_fields (copy_to erased_bytes (offset_of m a) n d) in
    let word : u64 first ≡ first = omega (arith, high, ok.words) in
    (
      m1,
      rw (contains-true m.geometry a.block 0 ok.block_in ok.some_bytes, word) refl,
      m2,
      write_memory-lem m1 a d n ok1 (λ j from_j to_j.
          copy_to-constant m.bytes first (block_size m.geometry) erase_byte j
            (omega (arith, exact, from_j)) (omega (arith, exact, to_j, ok.end_in))),
      (λ i. m2.bytes (offset_of m2 a + i)),
      read_memory-lem m2 a n ok2,
      (λ i h. copy_to-inside erased_bytes (offset_of m a) n d i h),
      λ j out.
          copy_to-outside erased_bytes (offset_of m a) n d j (outside j out exact)
          ∙ copy_to-outside m.bytes first (block_size m.geometry) (λ _. erase_byte) j out,
    )
  where
    outside :
        (j : ℕ)
        → (j < a.block * block_size m.geometry)
          ⊎ (a.block * block_size m.geometry + block_size m.geometry ≤ j)
        → offset_of m a ≡ a.block * block_size m.geometry + a.position
        → (j < offset_of m a) ⊎ (offset_of m a + n ≤ j)
    outside j (inl before) exact = inl (omega (arith, exact))
    outside j (inr behind) exact = inr (omega (arith, exact, ok.end_in))

    same_fields : (bytes : ℕ → ℕ) → IsInside (record m { bytes = bytes }) a n
    same_fields bytes = record {
      real = ok.real;
      some_bytes = ok.some_bytes;
      block_in = ok.block_in;
      start_in = ok.start_in;
      end_in = ok.end_in;
      sector_in = ok.sector_in;
      whole = ok.whole;
      words = ok.words;
      sector_word = ok.sector_word;
    }

-- Erasing changes bytes alone.
pub erase_block-geometry :
    (m : Memory) (b : ℕ) (r : Bool × Memory) → erase_block m b ≡ some r → r.1.geometry ≡ m.geometry
unfolding erase_block
erase_block-geometry m b r e =
    elim (Bool-cases (contains m.geometry (record { block = b; position = 0 }))) [
      | inl inside ↦
          sym (ap (λ (q : Bool × Memory). q.1.geometry) (some-injective _ _ (rw inside at e)))
      | inr out ↦ absurd (cc (rw out at e))
    ]
