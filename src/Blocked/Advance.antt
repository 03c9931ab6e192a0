-- ===== src/Blocked/Advance.antt =====
-- A file that `flush` of src/blocked_file.cpp takes on, to the next sector or the next block.
use consfs.Common.{
  ℕ, suc, ◌+◌, ◌-◌, ◌*◌, ◌^◌, ◌≤◌, ◌<◌, ◌≡◌, ◌≢◌, ◌⊎◌, inl, inr, true, false, ◌&&◌, ◌||◌, some,
  List, [], ◌∷◌, ◌++◌, ltb, leb, ◌==◌, add32, sub32, u32, arith, refl, sym, ap, subst, ◌∙◌, ==_ne,
  ==_refl, lt→ltb, Bool-cases,
}
use consfs.Addressing.{
  BlockAddress, Geometry, file_sector_size, block_index_invalid, is_valid_block,
}
use consfs.Addressing.Geom.{block_size, file_geometry}
use consfs.Addressing.Addr.{add, tail_sector, valid}
use consfs.Alloc.{AllocatedBlock, allocated_valid}
use consfs.Backend.{Storage, Codec, Answers}
use consfs.SuperBlocks.Chain.{Succeeds}
use consfs.Blocked.{
  FileSectorTail, FileFormat, Supply, BlockedFile, put_tail, no_block, initialize_block,
}
use consfs.Blocked.Save.{pend_block, block_tail, write_buffer, save_sector, move_on, flush}
use consfs.Blocked.Chain.{Sector, Stored-append, Stored-map, Keeps, total, total-append}
use consfs.Blocked.Flushing.{
  Gives, FormatHolds, initialize_block-Erases, write-Sector, put_tail-before, put_tail-tail, Behind,
  overhead, Writable,
}

zero_add : (x : ℕ) → 0 + x ≡ x
zero_add x = omega arith

same_total : (ns : List ℕ) (k : ℕ) → total ns + k ≡ total (ns ++ (k ∷ [])) + 0
same_total ns k = omega (arith, total-append ns k)

pub some_valid : (b : ℕ) → 0 < b → b < block_index_invalid → is_valid_block b ≡ true
unfolding is_valid_block
some_valid b some_there small =
    let not_invalid = ==_ne b block_index_invalid (λ e. omega (arith, e, small)) in
    let nonzero = ==_ne b 0 (λ e. omega (arith, e, some_there)) in rw (not_invalid, nonzero) refl

none_valid : (a : AllocatedBlock) → a ≡ no_block → is_valid_block a.block ≡ false
unfolding is_valid_block
none_valid a e = rw e refl

module _ (T : Storage) (K : Answers T) (S : Supply T) (F : FileFormat) (G : Gives S)
    (content : ℕ → ℕ) (g : Geometry) (beg : BlockAddress) where
  pub block_size_small : block_size g < 2 ^ 32
  unfolding block_size
  block_size_small = omega arith

  pub overhead_small :
      (h : BlockAddress) → FormatHolds F → overhead T K S F G content g beg h < file_sector_size
  overhead_small h holds = elim (Bool-cases (tail_sector h g)) [
    | inl last ↦ rw last (holds.small.block_small)
    | inr plain ↦ rw plain (holds.small.sector_small)
  ]

  -- The sector of the head, once its buffer is in storage.
  buffer_same :
      {A : Type 0} (c : Codec A) (x : A) (f : BlockedFile T S F) (ns : List ℕ) (n : ℕ)
      (bytes : ℕ → ℕ → ℕ)
      → Writable T K S F G content g beg f ns n
      → f.buffpos ≤ file_sector_size - c.size
      → ((i : ℕ)
          → i < file_sector_size
          → bytes f.head.block (f.head.position + i) ≡ put_tail c x f.buffer i)
      → (i : ℕ) → i < f.buffpos
      → bytes f.head.block (f.head.position + i) ≡ content (total ns + i)
  buffer_same c x f ns n bytes w room written i small =
      written i (omega (arith, small, room))
      ∙ put_tail-before T K S F c x f.buffer i (omega (arith, small, room))
      ∙ w.buffered i small

  sector_is :
      (f : BlockedFile T S F) (ns : List ℕ) (n : ℕ)
      → Writable T K S F G content g beg f ns n
      → g.sector_size ≡ file_sector_size
  unfolding file_geometry
  sector_is f ns n w = sym (ap (λ (q : Geometry). q.sector_size) w.same_geometry)

  plain_room :
      (h : BlockAddress)
      → g.sector_size ≡ file_sector_size
      → file_sector_size ≤ block_size g
      → tail_sector h g ≡ false
      → h.position + file_sector_size < block_size g
  unfolding tail_sector
  plain_room h size big plain =
      let small = block_size_small in
      let start : sub32 (block_size g) file_sector_size ≡ block_size g - file_sector_size =
        omega (arith, small, big) in
      let same = ap (λ (z : ℕ). leb (sub32 (block_size g) z) h.position) size in
      ground (arith, same, start, plain, big)

  -- The sectors behind a head are behind the next one in its block.
  step_Keeps :
      (s t : T.State) (supply : S.State) (h : BlockAddress) (d : ℕ)
      → ((k p : ℕ)
          → (k ≢ h.block) ⊎ ((p < h.position) ⊎ (h.position + file_sector_size ≤ p))
          → K.view t k p ≡ K.view s k p)
      → Keeps F g content
          (K.view s)
          (K.view t)
          (Behind T K S F G content g beg supply h)
          (Behind T K S F G content g beg supply (record h { position = h.position + d }))
  step_Keeps s t supply h d apart a b = (
    record {
      given = b.given;
      before = elim (b.before) [ inl other ↦ inl other | inr low ↦ inr (omega arith) ];
    },
    λ i small.
        apart a.block (a.position + i)
          (elim (b.before) [ inl other ↦ inl other | inr low ↦ inr (inl (omega (arith, small))) ]),
  )

  must_save :
      (f : BlockedFile T S F) (ns : List ℕ) (n : ℕ)
      → 0 < f.buffpos
      → Writable T K S F G content g beg f ns n
      → (((f.buffpos == 0 || ltb 0 f.buffavailable) || f.unflushed == 0) ≡ false)
        × ((ltb 0 f.buffpos && f.buffavailable == 0) ≡ true)
  must_save f ns n some_bytes w =
      let some_there = ==_ne f.buffpos 0 (λ e. omega (arith, some_bytes, e)) in
      (
        rw (w.no_ahead, w.unsaved, some_there) refl,
        rw (lt→ltb 0 f.buffpos some_bytes, w.no_ahead) refl,
      )

  -- A flush inside a block.
  pub flush_plain-Writable :
      (f : BlockedFile T S F) (ns : List ℕ) (n : ℕ)
      → Succeeds T K
      → FormatHolds F
      → tail_sector f.head g ≡ false
      → 0 < f.buffpos
      → file_sector_size ≤ block_size g
      → Writable T K S F G content g beg f ns (suc n)
      → (h : BlockedFile T S F) × (flush T S F f ≡ some (true, h))
        × Writable T K S F G content g beg h (ns ++ (f.buffpos ∷ [])) n
        × (h.buffpos ≡ 0)
  unfolding flush save_sector write_buffer move_on add
  flush_plain-Writable f ns n ok holds plain some_bytes big w =
      let small = block_size_small in
      let room = plain_room f.head (sector_is f ns (suc n) w) big plain in
      let over : overhead T K S F G content g beg f.head ≡ F.sector_codec.size = rw plain refl in
      let fits : f.buffpos ≤ file_sector_size - F.sector_codec.size =
        omega (arith, w.room_left, over) in
      let tail : FileSectorTail = record { bytes = f.buffpos } in
      let buffer = put_tail F.sector_codec tail f.buffer in
      let (t, t_is, t_same, at, apart) = write-Sector T K S F f.storage f.head buffer ok in
      let next : BlockAddress = record f.head { position = f.head.position + file_sector_size } in
      let next_is : add32 f.head.position file_sector_size ≡ f.head.position + file_sector_size =
        omega (arith, room, small) in
      let h = record f {
        storage = t;
        buffer = λ i. 0;
        pending = no_block;
        head = next;
        buffpos = 0;
        unflushed = 0;
      } in
      let here = ap (λ (q : Geometry). tail_sector f.head q) w.same_geometry ∙ plain in
      let some_there = ==_ne f.buffpos 0 (λ e. omega (arith, some_bytes, e)) in
      let (must, ready) = must_save f ns (suc n) some_bytes w in
      let sector : Sector F g content (K.view t) (Behind T K S F G content g beg f.supply next)
          (total ns) f.head f.buffpos next =
        record {
          inside = record { given = w.given; before = inr (omega arith) };
          in_block = w.in_block;
          positioned = λ e. omega (arith, e, room, small);
          behind_head = λ e. omega (arith, e, w.behind_head);
          some_bytes = some_bytes;
          fits = omega (arith, fits);
          same = buffer_same F.sector_codec tail f ns (suc n) (K.view t) w fits at;
          tail = inl (
            plain,
            holds.sector f.buffpos (omega (arith, fits)),
            λ i i_small.
                at (file_sector_size - F.sector_codec.size + i)
                  (omega (arith, i_small, holds.small.sector_small))
                ∙ put_tail-tail T K S F F.sector_codec tail f.buffer i,
            ap (λ (p : ℕ). record f.head { position = p }) (sym next_is),
          );
        } in
      (
        h,
        rw (w.writes, must, ready, here, t_is, some_there, ==_refl f.head.block, next_is) refl,
        record {
          writes = w.writes;
          once = w.once;
          no_ahead = w.no_ahead;
          unsaved = refl;
          none_pending = refl;
          same_geometry = ap file_geometry t_same ∙ w.same_geometry;
          begins = w.begins;
          room_left = omega arith;
          in_block = w.in_block;
          behind_head = omega (arith, w.behind_head);
          before_end = room;
          given = w.given;
          chain =
              Stored-append F g content (K.view t) (Behind T K S F G content g beg f.supply next) 0
                beg ns f.head f.buffpos next
                (Stored-map F g content (K.view f.storage) (K.view t)
                  (Behind T K S F G content g beg f.supply f.head)
                  (Behind T K S F G content g beg f.supply next) holds.small
                  (step_Keeps f.storage t f.supply f.head file_sector_size apart) 0 beg ns f.head
                  w.chain)
                (subst
                  (λ (o : ℕ).
                    Sector F g content (K.view t) (Behind T K S F G content g beg f.supply next) o
                      f.head f.buffpos next)
                  (sym (zero_add (total ns))) sector);
          ahead = λ p far. apart f.head.block p (inr (inr far)) ∙ w.ahead p (omega (arith, far));
          buffered = λ i i_small. absurd (omega (arith, i_small));
          has = G.fewer f.supply n w.has;
          block_bytes = w.block_bytes;
          length_is = w.length_is ∙ ap u32 (same_total ns f.buffpos);
        },
        refl,
      )

  -- The sectors behind a head are behind the start of a block that is new.
  leave_Keeps :
      (s t : T.State) (supply after : S.State) (h : BlockAddress) (block : ℕ)
      → ¬ G.Given supply block
      → ((k : ℕ) → G.Given supply k → G.Given after k)
      → ((k p : ℕ)
          → (k ≢ block)
          → (k ≢ h.block) ⊎ ((p < h.position) ⊎ (h.position + file_sector_size ≤ p))
          → K.view t k p ≡ K.view s k p)
      → Keeps F g content (K.view s) (K.view t) (Behind T K S F G content g beg supply h) (
          Behind T K S F G content g beg after
            (record { block = block; position = file_sector_size }))
  leave_Keeps s t supply after h block fresh more apart a b =
      let other = λ (e : a.block ≡ block). fresh (subst (G.Given supply) e b.given) in
      (
        record { given = more a.block b.given; before = inl other },
        λ i small.
            apart a.block (a.position + i) other (elim (b.before) [
              | inl away ↦ inl away
              | inr low ↦ inr (inl (omega (arith, small)))
            ]),
      )

  pend_block-is :
      (f : BlockedFile T S F) (a : AllocatedBlock) (after : S.State) (t : T.State)
      → f.pending ≡ no_block
      → S.allocate f.storage f.supply f.head ≡ some (a, after)
      → is_valid_block a.block ≡ true
      → a.block < block_index_invalid
      → initialize_block T S F (record f { supply = after; pending = a }) a f.head.block
        ≡ some (
          record { block = a.block; position = file_sector_size },
          record f { supply = after; pending = a; storage = t },
        )
      → pend_block T S F f ≡ some (record f { supply = after; pending = a; storage = t })
  unfolding pend_block allocated_valid valid
  pend_block-is f a after t none_pending a_is real small made =
      let none : is_valid_block f.pending.block ≡ false = none_valid f.pending none_pending in
      let not_invalid = ==_ne a.block block_index_invalid (λ e. omega (arith, e, small)) in
      rw (none, a_is, real, made, not_invalid) refl

  -- A flush of the last sector of a block.
  pub flush_tail-Writable :
      (f : BlockedFile T S F) (ns : List ℕ) (n : ℕ)
      → Succeeds T K
      → FormatHolds F
      → tail_sector f.head g ≡ true
      → 0 < f.buffpos
      → 2 * file_sector_size ≤ block_size g
      → Writable T K S F G content g beg f ns (suc n)
      → (h : BlockedFile T S F) × (flush T S F f ≡ some (true, h))
        × Writable T K S F G content g beg h (ns ++ (f.buffpos ∷ [])) n
        × (h.buffpos ≡ 0)
  unfolding flush save_sector write_buffer move_on allocated_valid valid
  flush_tail-Writable f ns n ok holds last some_bytes big w =
      let small = block_size_small in
      let over : overhead T K S F G content g beg f.head ≡ F.block_codec.size = rw last refl in
      let fits : f.buffpos ≤ file_sector_size - F.block_codec.size =
        omega (arith, w.room_left, over) in
      let (a, after, a_is, has, fresh, given, more, not_zero, valid_block, stale) =
        G.gives f.storage f.supply f.head n w.has in
      let not_invalid = ==_ne a.block block_index_invalid (λ e. omega (arith, e, valid_block)) in
      let real = some_valid a.block not_zero valid_block in
      let f0 = record f { supply = after; pending = a } in
      let (t1, t1_is, t1_same, t1_there, t1_apart) =
        initialize_block-Erases T K S F f0 a f.head.block ok holds real stale in
      let f1 = record f0 { storage = t1 } in
      let tail = block_tail T S F f1 in
      let buffer = put_tail F.block_codec tail f.buffer in
      let (t2, t2_is, t2_same, at, apart) = write-Sector T K S F t1 f.head buffer ok in
      let f2 = record f1 { storage = t2; buffer = λ i. 0; pending = no_block } in
      let (t3, t3_is, t3_same, t3_there, t3_apart) =
        initialize_block-Erases T K S F f2 a f.head.block ok holds real stale in
      let next : BlockAddress = record { block = a.block; position = file_sector_size } in
      let h = record f2 {
        storage = t3;
        head = next;
        blocks_in_file = add32 f.blocks_in_file 1;
        bytes_in_block = 0;
        buffpos = 0;
        unflushed = 0;
      } in
      let here = ap (λ (q : Geometry). tail_sector f.head q) w.same_geometry ∙ last in
      let some_there = ==_ne f.buffpos 0 (λ e. omega (arith, some_bytes, e)) in
      let (must, ready) = must_save f ns (suc n) some_bytes w in
      let pended = pend_block-is f a after t1 w.none_pending a_is real valid_block t1_is in
      let moved : f.head.block ≢ a.block = λ e. fresh (subst (G.Given f.supply) e w.given) in
      let move = ==_ne f.head.block a.block moved in
      let apart_all : (k p : ℕ)
          → (k ≢ a.block)
          → (k ≢ f.head.block) ⊎ ((p < f.head.position) ⊎ (f.head.position + file_sector_size ≤ p))
          → K.view t3 k p ≡ K.view f.storage k p =
        λ k p other out. t3_apart k p other ∙ apart k p out ∙ t1_apart k p other in
      let kept_at : (i : ℕ)
          → i < file_sector_size
          → K.view t3 f.head.block (f.head.position + i) ≡ buffer i =
        λ i i_small. t3_apart f.head.block (f.head.position + i) moved ∙ at i i_small in
      let sector : Sector F g content (K.view t3) (Behind T K S F G content g beg after next)
          (total ns) f.head f.buffpos next =
        record {
          inside = record { given = more f.head.block w.given; before = inl moved };
          in_block = w.in_block;
          positioned = λ e. omega (arith, e, w.before_end, small);
          behind_head = λ e. omega (arith, e, w.behind_head);
          some_bytes = some_bytes;
          fits = omega (arith, fits);
          same = buffer_same F.block_codec tail f ns (suc n) (K.view t3) w fits kept_at;
          tail = inr (
            tail,
            last,
            holds.block tail (omega (arith, fits)) w.block_bytes (omega (arith, valid_block)),
            λ i i_small.
                kept_at (file_sector_size - F.block_codec.size + i)
                  (omega (arith, i_small, holds.small.block_small))
                ∙ put_tail-tail T K S F F.block_codec tail f.buffer i,
            refl,
            λ e. omega (arith, e, valid_block),
            refl,
          );
        } in
      (
        h,
        rw (w.writes, must, ready, here, pended, t2_is, some_there, move, real, t3_is, not_invalid)
            refl,
        record {
          writes = w.writes;
          once = w.once;
          no_ahead = w.no_ahead;
          unsaved = refl;
          none_pending = refl;
          same_geometry = ap file_geometry (t3_same ∙ t2_same ∙ t1_same) ∙ w.same_geometry;
          begins = w.begins;
          room_left = omega arith;
          in_block = λ e. omega (arith, e, valid_block);
          behind_head = omega arith;
          before_end = omega (arith, big);
          given = given;
          chain =
              Stored-append F g content (K.view t3) (Behind T K S F G content g beg after next) 0
                beg ns f.head f.buffpos next
                (Stored-map F g content (K.view f.storage) (K.view t3)
                  (Behind T K S F G content g beg f.supply f.head)
                  (Behind T K S F G content g beg after next) holds.small
                  (leave_Keeps f.storage t3 f.supply after f.head a.block fresh more apart_all) 0
                  beg ns f.head w.chain)
                (subst
                  (λ (o : ℕ).
                    Sector F g content (K.view t3) (Behind T K S F G content g beg after next) o
                      f.head f.buffpos next)
                  (sym (zero_add (total ns))) sector);
          ahead = λ p far. t3_there p far;
          buffered = λ i i_small. absurd (omega (arith, i_small));
          has = has;
          block_bytes = omega arith;
          length_is = w.length_is ∙ ap u32 (same_total ns f.buffpos);
        },
        refl,
      )
