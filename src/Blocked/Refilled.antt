-- ===== src/Blocked/Refilled.antt =====
-- What a reader of src/blocked_file.cpp takes from storage when its buffer is used up.
use consfs.Common.{
  ℕ, ◌+◌, ◌-◌, ◌≤◌, ◌<◌, ◌≡◌, ◌≢◌, inl, inr, Bool, true, false, some, List, [], ◌∷◌, if◌then◌else◌,
  arith, refl, sym, ap, subst, ◌∙◌, ==_ne, Bool-cases,
}
use consfs.Addressing.{
  BlockAddress, Geometry, file_sector_size, block_index_invalid, position_index_invalid,
  sector_index_invalid,
}
use consfs.Addressing.Addr.{add, valid, eq, is_beginning_of_block}
use consfs.Backend.{Storage, Codec, Answers}
use consfs.SuperBlocks.Chain.{Succeeds}
use consfs.Blocked.{
  FileFormat, Supply, BlockedFile, is_read, geometry, tail_of_buffer, end_of_file, at_tail,
}
use consfs.Blocked.Reading.{take_tail, settle, read_sector, refill}
use consfs.Blocked.Chain.{FormatFits, Sector, Stored, Unwritten}

-- Erased bytes are tails of sectors that are not written.
pub record ErasedIsUnwritten (F : FileFormat) : Type 0 where
  pub sector :
      (bytes : ℕ → ℕ)
      → ((i : ℕ) → i < F.sector_codec.size → bytes i ≡ 0xff)
      → (F.sector_codec.decode bytes).bytes ≡ sector_index_invalid
  pub block :
      (bytes : ℕ → ℕ)
      → ((i : ℕ) → i < F.block_codec.size → bytes i ≡ 0xff)
      → (F.block_codec.decode bytes).sector.bytes ≡ sector_index_invalid

-- Where a read goes on: behind the head of a block.
abbrev pub skip : BlockAddress → BlockAddress
skip h = if is_beginning_of_block h then add h file_sector_size else h

skip-behind : (a : BlockAddress) → a.position ≢ 0 → skip a ≡ a
unfolding is_beginning_of_block
skip-behind a behind = rw (==_ne a.position 0 behind) refl

module _ (T : Storage) (K : Answers T) (S : Supply T) (F : FileFormat) (content : ℕ → ℕ) where
  -- A reader at an offset: what the buffer still has, and the chain behind it.
  pub record Reading (within : BlockAddress → Type 0) (f : BlockedFile T S F) (off : ℕ)
      (ns : List ℕ) (end : BlockAddress) : Type 0 where
    pub mode : is_read f.mode ≡ true
    pub no_seek : f.seek_offset ≡ 0
    pub low : f.buffpos ≤ f.buffavailable
    pub high : f.buffavailable ≤ file_sector_size
    pub ahead :
        (j : ℕ) → f.buffpos + j < f.buffavailable → f.buffer (f.buffpos + j) ≡ content (off + j)
    pub rest :
        Stored F
          (geometry T S F f)
          content
          (K.view f.storage)
          within
          (off + (f.buffavailable - f.buffpos))
          (skip f.head)
          ns
          end
    pub in_block : f.head.block ≢ block_index_invalid
    pub positioned : f.head.position ≢ position_index_invalid

  -- The address of a chain is one that a read takes.
  pub first_address :
      (g : Geometry) (bytes : ℕ → ℕ → ℕ) (within : BlockAddress → Type 0) (off : ℕ)
      (a : BlockAddress) (ns : List ℕ) (end : BlockAddress)
      → Stored F g content bytes within off a ns end
      → Unwritten F g content bytes end
      → (a.block ≢ block_index_invalid) × (a.position ≢ position_index_invalid) × (a.position ≢ 0)
  first_address g bytes within off a [] end stored un =
      subst
        (λ (b : BlockAddress).
          (b.block ≢ block_index_invalid)
          × (b.position ≢ position_index_invalid)
          × (b.position ≢ 0))
        (sym stored) (un.in_block, un.positioned, un.behind_head)
  first_address g bytes within off a (n ∷ ns) end (next, s, rest) un =
      (s.in_block, s.positioned, s.behind_head)

  -- The tail in the buffer is the one that was encoded.
  tail-read :
      {A : Type 0} (c : Codec A) (x : A) (buffer : ℕ → ℕ) (bytes : ℕ → ℕ)
      → c.size < file_sector_size
      → c.Fits x
      → ((i : ℕ) → i < file_sector_size → buffer i ≡ bytes i)
      → ((i : ℕ) → i < c.size → bytes (file_sector_size - c.size + i) ≡ c.encode x i)
      → tail_of_buffer c buffer ≡ x
  tail-read c x buffer bytes small good same encoded =
      c.decode-encode x (λ i. buffer (file_sector_size - c.size + i)) good
        (λ i i_small.
          same (file_sector_size - c.size + i) (omega (arith, i_small, small)) ∙ encoded i i_small)

  -- A sector with its tail in the buffer.
  take_tail-Sector :
      (within : BlockAddress → Type 0) (f : BlockedFile T S F) (off n : ℕ) (next : BlockAddress)
      → FormatFits F
      → f.seek_offset ≡ 0
      → Sector F (geometry T S F f) content (K.view f.storage) within off f.head n next
      → ((i : ℕ)
          → i < file_sector_size
          → f.buffer i ≡ K.view f.storage f.head.block (f.head.position + i))
      → settle T S F (take_tail T S F f) ≡ (true, record f { buffavailable = n; head = next })
  unfolding settle take_tail
  take_tail-Sector within f off n next small no_seek s same =
      let some_bytes = ==_ne n 0 (λ e. omega (arith, s.some_bytes, e)) in
      let few = ==_ne n sector_index_invalid (λ e. omega (arith, s.fits, e)) in
      elim (s.tail) [
        | inl (plain, good, encoded, on) ↦
            let tail =
              tail-read F.sector_codec (record { bytes = n }) f.buffer
                (λ i. K.view f.storage f.head.block (f.head.position + i)) small.sector_small good
                same encoded in
            rw (plain, tail, some_bytes, few, no_seek, on) refl
        | inr (l, last, good, encoded, count, linked, on) ↦
            let tail =
              tail-read F.block_codec l f.buffer
                (λ i. K.view f.storage f.head.block (f.head.position + i)) small.block_small good
                same encoded in
            let link = ==_ne l.linked_block block_index_invalid linked in
            rw (last, tail, count, link, some_bytes, few, no_seek, on) refl
      ]

  -- At the start of a sector of the chain.
  read_sector-Sector :
      (within : BlockAddress → Type 0) (f : BlockedFile T S F) (off n : ℕ) (next : BlockAddress)
      → Succeeds T K
      → FormatFits F
      → f.seek_offset ≡ 0
      → Sector F (geometry T S F f) content (K.view f.storage) within off (skip f.head) n next
      → (buffer : ℕ → ℕ) × (read_sector T S F f
          ≡ some (true, record f { buffer = buffer; buffavailable = n; head = next }))
        × ((i : ℕ) → i < n → buffer i ≡ content (off + i))
  unfolding read_sector
  read_sector-Sector within f off n next ok small no_seek s =
      let a = skip f.head in
      let (r, r_is, bytes) = K.reads f.storage a file_sector_size in
      let read_ok = ok.reads f.storage a file_sector_size in
      let g = record f { buffer = r.1; head = a } in
      let settled = take_tail-Sector within g off n next small no_seek s (bytes read_ok) in
      (
        r.1,
        rw (r_is, read_ok, settled) refl,
        λ i i_small. bytes read_ok i (omega (arith, i_small, s.fits)) ∙ s.same i i_small,
      )

  -- At the end of the chain.
  pub read_sector-Unwritten :
      (f : BlockedFile T S F)
      → Succeeds T K
      → FormatFits F
      → ErasedIsUnwritten F
      → Unwritten F (geometry T S F f) content (K.view f.storage) (skip f.head)
      → (g : BlockedFile T S F) × (read_sector T S F f ≡ some (false, g))
  unfolding read_sector settle take_tail
  read_sector-Unwritten f ok small blank un =
      let a = skip f.head in
      let (r, r_is, bytes) = K.reads f.storage a file_sector_size in
      let read_ok = ok.reads f.storage a file_sector_size in
      let g = record f { buffer = r.1; head = a } in
      let empty_of = λ (size : ℕ) (less : size < file_sector_size) (i : ℕ) (i_small : i < size).
        bytes read_ok (file_sector_size - size + i) (omega (arith, less, i_small))
        ∙ un.erased (file_sector_size - size + i) (omega (arith, less, i_small)) in
      let x = settle T S F (take_tail T S F g) in
      let stop : x.0 ≡ false = elim (Bool-cases (at_tail T S F g)) [
        | inl last ↦
            let none_there =
              blank.block (λ i. r.1 (file_sector_size - F.block_codec.size + i))
                (empty_of F.block_codec.size small.block_small) in
            rw (last, none_there) refl
        | inr plain ↦
            let none_there =
              blank.sector (λ i. r.1 (file_sector_size - F.sector_codec.size + i))
                (empty_of F.sector_codec.size small.sector_small) in
            rw (plain, none_there) refl
      ] in
      (x.1, rw (r_is, read_ok) (ap (λ (b : Bool). some (b, x.1)) stop))

  pub open_head :
      (f : BlockedFile T S F)
      → f.head.block ≢ block_index_invalid
      → f.head.position ≢ position_index_invalid
      → (eq f.head end_of_file ≡ false) × (valid f.head ≡ true)
  unfolding eq valid
  open_head f in_block positioned =
      let block = ==_ne f.head.block block_index_invalid in_block in
      let position = ==_ne f.head.position position_index_invalid positioned in
      (rw block refl, rw (block, position) refl)

  -- A buffer that is used up, refilled from the next sector.
  pub refill-Reading :
      (within : BlockAddress → Type 0) (fuel : ℕ) (f : BlockedFile T S F) (off n : ℕ) (ns : List ℕ)
      (end : BlockAddress)
      → Succeeds T K
      → FormatFits F
      → Unwritten F (geometry T S F f) content (K.view f.storage) end
      → f.buffavailable ≡ f.buffpos
      → Reading within f off (n ∷ ns) end
      → (g : BlockedFile T S F) × (refill T S F fuel f ≡ some (true, g))
        × Reading within g off ns end
        × (g.storage ≡ f.storage)
        × (g.position ≡ f.position)
        × (g.buffavailable ≡ g.buffpos + n)
        × (0 < n)
  unfolding refill
  refill-Reading within fuel f off n ns end ok small un used reading =
      let (not_end, is_valid) = open_head f reading.in_block reading.positioned in
      let (next, s, rest) = reading.rest in
      let at_off : off + (f.buffavailable - f.buffpos) ≡ off = omega (arith, used) in
      let g = record f { buffpos = 0; buffavailable = 0 } in
      let here =
        subst
          (λ (o : ℕ).
            Sector F (geometry T S F f) content (K.view f.storage) within o (skip f.head) n next)
          at_off s in
      let (buffer, got, same) =
        read_sector-Sector within g off n next ok small reading.no_seek here in
      let then_on =
        first_address (geometry T S F f) (K.view f.storage) within
          (off + (f.buffavailable - f.buffpos) + n) next ns end rest un in
      let next_off : off + (f.buffavailable - f.buffpos) + n ≡ off + (n - 0) =
        omega (arith, at_off) in
      (
        record g { buffer = buffer; buffavailable = n; head = next },
        rw (not_end, is_valid, got) refl,
        record {
          mode = reading.mode;
          no_seek = reading.no_seek;
          low = omega arith;
          high = s.fits;
          ahead = λ j j_small. ap buffer (zero_add j) ∙ same j (omega arith);
          rest =
              subst
                (λ (o : ℕ).
                  Stored F (geometry T S F f) content (K.view f.storage) within o (skip next) ns
                    end)
                next_off
                (subst
                  (λ (a : BlockAddress).
                    Stored F (geometry T S F f) content (K.view f.storage) within
                      (off + (f.buffavailable - f.buffpos) + n) a ns end)
                  (sym (skip-behind next then_on.2)) rest);
          in_block = then_on.0;
          positioned = then_on.1;
        },
        refl,
        refl,
        sym (zero_add n),
        s.some_bytes,
      )
    where
      zero_add : (j : ℕ) → 0 + j ≡ j
      zero_add j = omega arith
