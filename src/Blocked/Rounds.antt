-- ===== src/Blocked/Rounds.antt =====
-- What a flush and a round of `write` of src/blocked_file.cpp leave of a file that is written.
use consfs.Common.{
  ℕ, zero, suc, ◌+◌, ◌-◌, ◌*◌, ◌≤◌, ◌<◌, ◌≡◌, inl, inr, true, false, ◌&&◌, some, List, [], ◌∷◌,
  ◌++◌, ltb, leb, ◌==◌, if◌then◌else◌, add32, u16, u32, arith, refl, sym, ap, subst, ◌∙◌, ==_ne,
  ==_iff, lt→ltb, ltb→lt, ltb→le, le→leb, Bool-cases,
}
use consfs.Addressing.{
  BlockAddress, Geometry, file_sector_size, block_index_invalid, position_index_invalid,
}
use consfs.Addressing.Geom.{block_size}
use consfs.Addressing.Addr.{tail_sector, valid}
use consfs.Backend.{Storage, Answers}
use consfs.SuperBlocks.Chain.{Succeeds}
use consfs.Blocked.{FileFormat, Supply, BlockedFile}
use consfs.Files.Prealloc.{sub64}
use consfs.Blocked.Save.{flush, Writing, room, copied}
use consfs.Blocked.Chain.{total}
use consfs.Blocked.Flushing.{Gives, FormatHolds, overhead, Writable}
use consfs.Blocked.Advance.{
  block_size_small, overhead_small, flush_plain-Writable, flush_tail-Writable,
}

module _ (T : Storage) (K : Answers T) (S : Supply T) (F : FileFormat) (G : Gives S)
    (content : ℕ → ℕ) (g : Geometry) (beg : BlockAddress) where
  abbrev pub OpenFile : BlockedFile T S F → List ℕ → ℕ → Type 0
  OpenFile f ns n = Writable T K S F G content g beg f ns n

  abbrev pub space : BlockedFile T S F → ℕ
  space f = file_sector_size - overhead T K S F G content g beg f.head

  pub flush-Writable :
      (f : BlockedFile T S F) (ns : List ℕ) (n : ℕ)
      → Succeeds T K
      → FormatHolds F
      → 0 < f.buffpos
      → 2 * file_sector_size ≤ block_size g
      → OpenFile f ns (suc n)
      → (h : BlockedFile T S F) × (flush T S F f ≡ some (true, h))
        × OpenFile h (ns ++ (f.buffpos ∷ [])) n
        × (h.buffpos ≡ 0)
  flush-Writable f ns n ok holds some_bytes big w = elim (Bool-cases (tail_sector f.head g)) [
    | inl last ↦ flush_tail-Writable T K S F G content g beg f ns n ok holds last some_bytes big w
    | inr plain ↦
        flush_plain-Writable T K S F G content g beg f ns n ok holds plain some_bytes
          (omega (arith, big)) w
  ]

  pub head_valid :
      (f : BlockedFile T S F) (ns : List ℕ) (n : ℕ) → OpenFile f ns n → valid f.head ≡ true
  unfolding valid
  head_valid f ns n w =
      let small = block_size_small T K S F G content g beg in
      let block = ==_ne f.head.block block_index_invalid w.in_block in
      let position =
        ==_ne f.head.position position_index_invalid (λ e. omega (arith, e, w.before_end, small)) in
      rw (block, position) refl

  pub room-space :
      (f : BlockedFile T S F) (ns : List ℕ) (n : ℕ)
      → FormatHolds F
      → OpenFile f ns n
      → room T S F f ≡ space f - f.buffpos
  room-space f ns n holds w =
      let less = overhead_small T K S F G content g beg f.head holds in
      let here =
        ap
          (λ (q : Geometry).
            if tail_sector f.head q then F.block_codec.size else F.sector_codec.size)
          w.same_geometry in
      ap (λ (o : ℕ). sub64 (sub64 file_sector_size o) f.buffpos) here
      ∙ exact (overhead T K S F G content g beg f.head) f.buffpos less w.room_left
    where
      exact :
          (o b : ℕ)
          → o < file_sector_size
          → b ≤ file_sector_size - o
          → sub64 (sub64 file_sector_size o) b ≡ file_sector_size - o - b
      exact o b small fits = omega arith

  -- A round that copies.
  pub copied-Writable :
      (ptr : ℕ → ℕ) (k : ℕ) (w : Writing T S F) (ns : List ℕ) (n : ℕ)
      → k ≤ w.to_write
      → w.file.buffpos + k ≤ space w.file
      → ((i : ℕ) → i < w.to_write → ptr (w.wrote + i) ≡ content (total ns + w.file.buffpos + i))
      → OpenFile w.file ns n
      → OpenFile (copied T S F ptr k w).file ns n
  copied-Writable ptr k w ns n few fits same open_file = record {
    writes = open_file.writes;
    once = open_file.once;
    no_ahead = open_file.no_ahead;
    unsaved = ap (λ (u : ℕ). u16 (u + k)) open_file.unsaved;
    none_pending = open_file.none_pending;
    same_geometry = open_file.same_geometry;
    begins = open_file.begins;
    room_left = omega (arith, fits);
    in_block = open_file.in_block;
    behind_head = open_file.behind_head;
    before_end = open_file.before_end;
    given = open_file.given;
    chain = open_file.chain;
    ahead = open_file.ahead;
    buffered = λ i small. filled i (omega (arith, small, fits));
    has = open_file.has;
    block_bytes = omega arith;
    length_is =
        ap (λ (l : ℕ). add32 l k) open_file.length_is ∙ added (total ns) w.file.buffpos k fits;
  }
    where
      added : (t b k : ℕ) → b + k ≤ space w.file → add32 (u32 (t + b)) k ≡ u32 (t + u16 (b + k))
      added t b k fits = omega (arith, fits)

      filled :
          (i : ℕ)
          → i < w.file.buffpos + k
          → (if leb w.file.buffpos i && ltb i (w.file.buffpos + k)
              then ptr (w.wrote + (i - w.file.buffpos))
              else w.file.buffer i)
            ≡ content (total ns + i)
      filled i small = elim (Bool-cases (ltb i w.file.buffpos)) [
        | inl old ↦
            let before = ltb→lt i w.file.buffpos old in
            let missed : (leb w.file.buffpos i && ltb i (w.file.buffpos + k)) ≡ false =
              ground (arith, before) in
            rw missed (open_file.buffered i before)
        | inr new ↦
            let low = ltb→le i w.file.buffpos new in
            let at : total ns + w.file.buffpos + (i - w.file.buffpos) ≡ total ns + i =
              omega (arith, low) in
            rw (le→leb w.file.buffpos i low, lt→ltb i (w.file.buffpos + k) small)
              (same (i - w.file.buffpos) (omega (arith, low, small, few)) ∙ ap content at)
      ]

  pub Has-fewer : (s : S.State) (n m : ℕ) → n ≤ m → G.Has s m → G.Has s n
  Has-fewer s n zero few has = let same : zero ≡ n = omega (arith, few) in subst (G.Has s) same has
  Has-fewer s n (suc m) few has = elim (Bool-cases (n == suc m)) [
    | inl same ↦ subst (G.Has s) (sym ((==_iff n (suc m)).0 same)) has
    | inr less ↦ Has-fewer s n m (ground arith) (G.fewer s m has)
  ]

  pub fewer-Writable :
      (f : BlockedFile T S F) (ns : List ℕ) (n m : ℕ) → n ≤ m → OpenFile f ns m → OpenFile f ns n
  fewer-Writable f ns n m few w = record {
    writes = w.writes;
    once = w.once;
    no_ahead = w.no_ahead;
    unsaved = w.unsaved;
    none_pending = w.none_pending;
    same_geometry = w.same_geometry;
    begins = w.begins;
    room_left = w.room_left;
    in_block = w.in_block;
    behind_head = w.behind_head;
    before_end = w.before_end;
    given = w.given;
    chain = w.chain;
    ahead = w.ahead;
    buffered = w.buffered;
    has = Has-fewer f.supply n m few w.has;
    block_bytes = w.block_bytes;
    length_is = w.length_is;
  }
