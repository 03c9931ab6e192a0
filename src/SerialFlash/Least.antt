-- ===== src/SerialFlash/Least.antt =====
-- What `allocate_internal` of src/backends/arduino_serial_flash/serial_flash_allocator.cpp gives.
use consfs.Common.{
  ℕ, zero, suc, ◌+◌, ◌-◌, ◌≤◌, ◌<◌, ◌≡◌, ◌≢◌, true, false, some, none, ltb, ◌==◌, if◌then◌else◌,
  refl, arith, le→ltb, ==_iff, ==_ne, ==_refl, Bool-cases, ◌⊎◌, inl, inr, ◌∙◌, sym, subst,
}
use consfs.Addressing.{block_index_invalid}
use consfs.Alloc.{AllocatedBlock, BlockType}
use consfs.Backend.{Storage, Codec, load, BlockHead}
use consfs.SerialFlash.{
  Map, ScanInfo, Scan, note_one, note_free, take_anchors, Flash, is_taken, scan_block, scan_from,
  scan_blocks, scan_one, allocate_internal,
}
use consfs.SerialFlash.Map.{
  free_in, IsBytes, is_block_free-free_in, set_block_taken_lem, set_block_free_lem,
}
use consfs.SerialFlash.Select.{
  Head, seems_taken, rank, IsOpen, Candidate, Best, Narrowed, further, clear-Narrowed, set-Narrowed,
  note_one-map, note_one-Best, skip-Best,
}

module _ (T : Storage) (heads : Codec BlockHead) (map0 : Map) (head_at : ℕ → Head) where
  -- The heads are what the storage reads.
  abbrev pub Reads : T.State → Type 0
  Reads storage =
      (b : ℕ) → load T heads storage (record { block = b; position = 0 }) ≡ some (head_at b)

  scan_block-Best :
      (storage : T.State) (b : ℕ) (s : Scan)
      → Reads storage
      → 3 ≤ b
      → b < 64
      → Narrowed map0 head_at b s.map
      → Best map0 head_at b (s.blocks 0)
      → (t : Scan) × (scan_block T heads storage true 1 b s ≡ some (t, false))
        × Narrowed map0 head_at (b + 1) t.map
        × Best map0 head_at (b + 1) (t.blocks 0)
  unfolding scan_block is_taken note_free
  scan_block-Best storage b s reads from_three small narrowed best =
      let looked = is_block_free-free_in s.map b small in
      elim (Bool-cases (free_in s.map b)) [
        | inr taken ↦
            let shut = λ (h : IsOpen map0 head_at b).
              absurd (cc (taken, narrowed.ahead b (omega arith), h.marked)) in
            (
              s,
              rw (looked, taken) refl,
              further map0 head_at b s.map narrowed,
              skip-Best map0 head_at b (s.blocks 0) shut best,
            )
        | inl free ↦ elim (Bool-cases (seems_taken (head_at b))) [
          | inl says ↦
              let shut = λ (h : IsOpen map0 head_at b). absurd (cc (says, h.untaken)) in
              let (m, m_is, bytes, bits) = set_block_taken_lem s.map b narrowed.bytes small in
              (
                record s { map = m },
                rw (looked, free, reads b, says, m_is) refl,
                set-Narrowed map0 head_at b s.map m narrowed shut bytes bits,
                skip-Best map0 head_at b (s.blocks 0) shut best,
              )
          | inr says ↦
              let here : IsOpen map0 head_at b = record {
                marked = sym (narrowed.ahead b (omega arith)) ∙ free;
                untaken = says;
              } in
              let candidate : Candidate map0 head_at (b + 1) b = record {
                from_three = from_three;
                below = omega arith;
                is_open = here;
              } in
              let (m, m_is, bytes, bits) = set_block_free_lem s.map b narrowed.bytes small in
              let t = record s { map = m } in
              let map_is = note_one-map map0 head_at b (head_at b).1 t in
              (
                note_one b (head_at b).1 t,
                rw (looked, free, reads b, says, m_is) refl,
                subst (λ (n : Map). Narrowed map0 head_at (b + 1) n) (sym map_is)
                    (clear-Narrowed map0 head_at b s.map m narrowed here bytes bits),
                note_one-Best map0 head_at b t candidate small best,
              )
        ]
      ]

  scan_from-Best :
      (left : ℕ) (storage : T.State) (b : ℕ) (s : Scan)
      → Reads storage
      → 3 ≤ b
      → b + left ≤ 64
      → Narrowed map0 head_at b s.map
      → Best map0 head_at b (s.blocks 0)
      → (t : Scan) × (scan_from T heads left storage true 1 b s ≡ some t)
        × Narrowed map0 head_at (b + left) t.map
        × Best map0 head_at (b + left) (t.blocks 0)
  unfolding scan_from
  scan_from-Best zero storage b s reads from_three small narrowed best =
      let same : b + zero ≡ b = omega arith in
      (
        s,
        refl,
        subst (λ (e : ℕ). Narrowed map0 head_at e s.map) (sym same) narrowed,
        subst (λ (e : ℕ). Best map0 head_at e (s.blocks 0)) (sym same) best,
      )
  scan_from-Best (suc left) storage b s reads from_three small narrowed best =
      let (t, t_is, narrowed_on, best_on) =
        scan_block-Best storage b s reads from_three (omega arith) narrowed best in
      let (u, u_is, narrowed_end, best_end) =
        scan_from-Best left storage (b + 1) t reads (omega arith) (omega arith) narrowed_on
          best_on in
      let same : b + 1 + left ≡ b + suc left = omega arith in
      (
        u,
        rw (t_is, u_is) refl,
        subst (λ (e : ℕ). Narrowed map0 head_at e u.map) same narrowed_end,
        subst (λ (e : ℕ). Best map0 head_at e (u.blocks 0)) same best_end,
      )

-- The anchors are taken, and no other block is changed.
pub take_anchors_lem :
    (map : Map)
    → IsBytes map
    → (after : Map) × (take_anchors map ≡ some after)
      × IsBytes after
      × ((k : ℕ) → free_in after k ≡ (if ltb k 3 then false else free_in map k))
unfolding take_anchors
take_anchors_lem map bytes =
    let (m, m_is, m_bytes, m_bits) = set_block_taken_lem map 0 bytes (omega arith) in
    let (n, n_is, n_bytes, n_bits) = set_block_taken_lem m 1 m_bytes (omega arith) in
    let (o, o_is, o_bytes, o_bits) = set_block_taken_lem n 2 n_bytes (omega arith) in
    (o, rw (m_is, n_is, o_is) refl, o_bytes, λ k. o_bits k ∙ rw (n_bits k, m_bits k) (ground arith))

module _ (T : Storage) (heads : Codec BlockHead) where
  -- A block that was open, with the least rank, which is now taken; no block became free, and the other
  -- open blocks behind the anchors are free still.
  pub record Least (map0 : Map) (head_at : ℕ → Head) (end : ℕ) (a : AllocatedBlock) (map : Map)
      : Type 0 where
    pub given : Candidate map0 head_at end a.block
    pub age_is : a.age ≡ rank (head_at a.block)
    pub least : (k : ℕ) → Candidate map0 head_at end k → a.age ≤ rank (head_at k)
    pub not_erased : a.erased ≡ false
    pub taken : free_in map a.block ≡ false
    pub no_more : (k : ℕ) → free_in map k ≡ true → free_in map0 k ≡ true
    pub others : (k : ℕ) → Candidate map0 head_at end k → k ≢ a.block → free_in map k ≡ true

  scan-Best :
      (f : Flash T heads) (head_at : ℕ → Head)
      → Reads T heads f.map head_at f.storage
      → IsBytes f.map
      → 3 ≤ (T.geometry f.storage).number_of_blocks
      → (T.geometry f.storage).number_of_blocks ≤ 64
      → (info : ScanInfo) × (map : Map) × (scan_one T heads f true
          ≡ some (true, (info, record f { map = map })))
        × IsBytes map
        × Best f.map head_at (T.geometry f.storage).number_of_blocks info
        × ((k : ℕ) → free_in map k ≡ true → free_in f.map k ≡ true)
        × ((k : ℕ) → 3 ≤ k → IsOpen f.map head_at k → free_in map k ≡ true)
  unfolding scan_one scan_blocks
  scan-Best f head_at reads bytes three most =
      let n = (T.geometry f.storage).number_of_blocks in
      let start : Scan = record {
        map = f.map;
        blocks = λ i. record { block = block_index_invalid; age = 0 };
        n = 0;
      } in
      let narrowed : Narrowed f.map head_at 3 f.map = record {
        bytes = bytes;
        no_more = λ k free. free;
        no_less = λ k is_open. is_open.marked;
        ahead = λ k far. refl;
      } in
      let (t, t_is, narrowed_end, best) =
        scan_from-Best T heads f.map head_at (n - 3) f.storage 3 start reads (omega arith)
          (omega arith) narrowed (inl (refl, λ k c. omega (arith, c.from_three, c.below))) in
      let all : 3 + (n - 3) ≡ n = omega arith in
      let (m, m_is, m_bytes, m_bits) = take_anchors_lem t.map narrowed_end.bytes in
      (
        t.blocks 0,
        m,
        rw (t_is, m_is) refl,
        m_bytes,
        subst (λ (e : ℕ). Best f.map head_at e (t.blocks 0)) all best,
        λ k free. narrowed_end.no_more k (was_free k t.map m (m_bits k) free),
        λ k from_three is_open.
            m_bits k ∙ rw (le→ltb k 3 from_three) (narrowed_end.no_less k is_open),
      )
    where
      was_free :
          (k : ℕ) (before now : Map)
          → free_in now k ≡ (if ltb k 3 then false else free_in before k)
          → free_in now k ≡ true
          → free_in before k ≡ true
      was_free k before now bits free = ground arith

  -- Where the storage answers every read of a head, the map holds bytes, and there are 3 to 64
  -- blocks, allocate_internal either gives a block behind the anchors that the map has as free and
  -- whose head, if it could be read, does not say otherwise, with the least age of these blocks, a
  -- block with no head counting as 0, marks it as taken, frees no block and leaves the other such
  -- blocks free; or it stops at the failed assertion, and there is no such block.
  pub allocate_internal-Least :
      (f : Flash T heads) (type : BlockType) (head_at : ℕ → Head)
      → Reads T heads f.map head_at f.storage
      → IsBytes f.map
      → 3 ≤ (T.geometry f.storage).number_of_blocks
      → (T.geometry f.storage).number_of_blocks ≤ 64
      → ((a : AllocatedBlock) × (map : Map) × (allocate_internal T heads f type
            ≡ some (a, record f { map = map }))
          × IsBytes map
          × Least f.map head_at (T.geometry f.storage).number_of_blocks a map)
        ⊎ ((allocate_internal T heads f type ≡ none)
            × ((k : ℕ) → ¬ Candidate f.map head_at (T.geometry f.storage).number_of_blocks k))
  unfolding allocate_internal
  allocate_internal-Least f type head_at reads bytes three most =
      let (info, map, scanned, map_bytes, best, no_more, no_less) =
        scan-Best f head_at reads bytes three most in
      elim best [
        | inl nothing ↦
            let invalid : (info.block == block_index_invalid) ≡ true =
              (==_iff info.block block_index_invalid).1 nothing.0 in
            inr (rw (scanned, invalid) refl, nothing.1)
        | inr found ↦
            let small : info.block < 64 = omega (arith, found.0.below, most) in
            let valid = ==_ne info.block block_index_invalid (λ e. omega (arith, small, e)) in
            let (m, m_is, m_bytes, m_bits) = set_block_taken_lem map info.block map_bytes small in
            let a : AllocatedBlock = record {
              block = info.block;
              age = info.age;
              erased = false;
            } in
            inl (
              a,
              m,
              rw (scanned, valid, m_is) refl,
              m_bytes,
              record {
                given = found.0;
                age_is = found.1;
                least = found.2;
                not_erased = refl;
                taken = m_bits info.block ∙ rw (==_refl info.block) refl;
                no_more = λ k free. no_more k (was_free k info.block map m (m_bits k) free);
                others = λ k c other.
                    m_bits k ∙ rw (==_ne k info.block other) (no_less k c.from_three c.is_open);
              },
            )
      ]
    where
      was_free :
          (k block : ℕ) (before now : Map)
          → free_in now k ≡ (if k == block then false else free_in before k)
          → free_in now k ≡ true
          → free_in before k ≡ true
      was_free k block before now bits free = ground arith
