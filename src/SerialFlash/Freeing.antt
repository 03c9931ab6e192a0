-- ===== src/SerialFlash/Freeing.antt =====
-- What `free` of src/backends/arduino_serial_flash/serial_flash_allocator.cpp leaves, also where the
-- storage fails.
use consfs.Common.{
  ℕ, ◌+◌, ◌-◌, ◌^◌, ◌<◌, ◌≡◌, Bool, true, false, ◌&&◌, some, ltb, leb, ◌==◌, if◌then◌else◌, add32,
  refl, arith, lt→ltb, le→leb, ==_refl, Bool-cases, ◌⊎◌, inl, inr, ◌∙◌, ap,
}
use consfs.Addressing.{BlockAddress}
use consfs.Alloc.{BlockType}
use consfs.Backend.{
  Storage, Codec, load, store, Answers, BlockHead, fill_magic, magic_key, magic_valid,
}
use consfs.SerialFlash.{Flash, freed_head, free_flash}
use consfs.SerialFlash.Map.{free_in, IsBytes, set_block_free_lem}

module _ (T : Storage) (K : Answers T) (heads : Codec BlockHead) where
  abbrev start : ℕ → BlockAddress
  start block = record { block = block; position = 0 }

  -- The age that the head of a freed block gets.
  abbrev pub next_age : BlockHead → ℕ → ℕ
  next_age old age = if magic_valid old then add32 old.age 1 else age

  -- The bytes of heads hold what they can be read as, also as a freed head.
  pub record HeadsFit : Type 0 where
    pub decoded : (bytes : ℕ → ℕ) → heads.Fits (heads.decode bytes)
    pub freed :
        (h : BlockHead) (age : ℕ)
        → heads.Fits h
        → age < 2 ^ 32
        → heads.Fits (freed_head T heads h age)

  -- The block is free in the map, as the only change of it, and its head, where it can be read, says so.
  pub record Freed (f g : Flash T heads) (block age : ℕ) : Type 0 where
    pub bytes : IsBytes g.map
    pub bits : (k : ℕ) → free_in g.map k ≡ (if k == block then true else free_in f.map k)
    pub old : BlockHead
    pub was : load T heads f.storage (start block) ≡ some (true, old)
    pub readable : Bool
    pub now : BlockHead
    pub is_now : load T heads g.storage (start block) ≡ some (readable, now)
    pub head :
        readable ≡ true
        → now
          ≡ record old { magic = magic_key; age = next_age old age; type = BlockType.unallocated }

  next_age_small : (old : BlockHead) (age : ℕ) → age < 2 ^ 32 → next_age old age < 2 ^ 32
  next_age_small old age small = elim (Bool-cases (magic_valid old)) [
    | inl valid ↦ rw valid (omega arith)
    | inr bare ↦ rw bare small
  ]

  stored_head :
      (before after : T.State) (block : ℕ) (h : BlockHead)
      → heads.Fits h
      → ((b p : ℕ)
          → K.view after b p ≡ (
              if b == block && (leb 0 p && ltb p (0 + heads.size))
              then heads.encode h (p - 0)
              else K.view before b p))
      → (readable : Bool) × (now : BlockHead) × (load T heads after (start block)
          ≡ some (readable, now))
        × (readable ≡ true → now ≡ h)
  unfolding load
  stored_head before after block h fits wrote =
      let (r, r_is, bytes) = K.reads after (start block) heads.size in
      (
        r.0,
        heads.decode r.1,
        rw r_is refl,
        λ ok. heads.decode-encode h r.1 fits (λ i small. bytes ok i small ∙ here i small),
      )
    where
      here : (i : ℕ) → i < heads.size → K.view after block (0 + i) ≡ heads.encode h i
      here i small =
          let plus : 0 + i ≡ i = omega arith in
          let all : 0 + heads.size ≡ heads.size = omega arith in
          let less : i - 0 ≡ i = omega arith in
          ap (K.view after block) plus
          ∙ wrote block i
          ∙ rw (==_refl block, le→leb 0 i (omega arith), all, lt→ltb i heads.size small, less) refl

  -- On storage that always answers, though an operation may fail, for a block below 64, a 32-bit
  -- age, a map of bytes, and heads that their bytes can hold, free does not stop: where it returns
  -- true the block has become free in the map as the only change of it, and its head, if it can be
  -- read, is the old one as unallocated, with a magic and the age one up, or with the age given
  -- where it had no magic; where it returns false the map is as before.
  pub free_flash-Freed :
      (f : Flash T heads) (block age : ℕ)
      → HeadsFit
      → IsBytes f.map
      → block < 64
      → age < 2 ^ 32
      → (g : Flash T heads) × ((free_flash T heads f block age ≡ some (true, g))
            × Freed f g block age
          ⊎ (free_flash T heads f block age ≡ some (false, g)) × (g.map ≡ f.map))
  unfolding free_flash load store fill_magic
  free_flash-Freed f block age fit bytes small age_small =
      let (r, r_is, r_bytes) = K.reads f.storage (start block) heads.size in
      let old = heads.decode r.1 in
      let (e, e_is, e_same, e_bytes) = K.erases f.storage block in
      let h = freed_head T heads old (next_age old age) in
      let (w, w_is, w_same, w_bytes) = K.writes e.1 (start block) (heads.encode h) heads.size in
      let (m, m_is, m_bytes, m_bits) = set_block_free_lem f.map block bytes small in
      elim (Bool-cases (r.0)) [
        | inr unread ↦ (f, inr (rw (r_is, unread) refl, refl))
        | inl read ↦ elim (Bool-cases (e.0)) [
          | inr kept ↦ (record f { storage = e.1 }, inr (rw (r_is, read, e_is, kept) refl, refl))
          | inl erased ↦ elim (Bool-cases (w.0)) [
            | inr unwritten ↦ (
              record f { storage = w.1 },
              inr (rw (r_is, read, e_is, erased, w_is, unwritten) refl, refl),
            )
            | inl written ↦
                let fits =
                  fit.freed old (next_age old age) (fit.decoded r.1)
                    (next_age_small old age age_small) in
                let (readable, now, is_now, head) =
                  stored_head e.1 w.1 block h fits (w_bytes written) in
                (
                  record f { storage = w.1; map = m },
                  inl (
                    rw (r_is, read, e_is, erased, w_is, written, m_is) refl,
                    record {
                      bytes = m_bytes;
                      bits = m_bits;
                      old = old;
                      was = rw (r_is, read) refl;
                      readable = readable;
                      now = now;
                      is_now = is_now;
                      head = head;
                    },
                  ),
                )
          ]
        ]
      ]
