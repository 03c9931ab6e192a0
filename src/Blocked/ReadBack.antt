-- ===== src/Blocked/ReadBack.antt =====
-- What `read` of src/blocked_file.cpp gives of a chain of sectors in storage.
use consfs.Common.{
  ℕ, zero, suc, ◌+◌, ◌-◌, ◌^◌, ◌≤◌, ◌<◌, ◌≡◌, ◌⊎◌, inl, inr, true, some, List, [], ◌∷◌, ltb, leb,
  ◌==◌, if◌then◌else◌, add32, u16, ◌%◌, arith, refl, sym, ap, subst, ◌∙◌, ==_ne, ==_iff, ltb→lt,
  ltb→le, le→leb, Bool-cases,
}
use consfs.Addressing.{BlockAddress, file_sector_size}
use consfs.Addressing.Geom.{file_geometry}
use consfs.Backend.{Storage, Answers}
use consfs.SuperBlocks.Chain.{Succeeds}
use consfs.Blocked.{FileFormat, Supply, BlockedFile, is_read, geometry}
use consfs.Blocked.Reading.{Got, refill, take_bytes, read}
use consfs.Blocked.Client.{empty_got, read_all}
use consfs.Blocked.Chain.{FormatFits, Stored, Unwritten, total}
use consfs.Blocked.Refilled.{
  ErasedIsUnwritten, Reading, skip, open_head, read_sector-Unwritten, refill-Reading,
}

module _ (T : Storage) (K : Answers T) (S : Supply T) (F : FileFormat) (content : ℕ → ℕ) where
  take_bytes-Reading :
      (within : BlockAddress → Type 0) (size : ℕ) (f : BlockedFile T S F) (off : ℕ) (ns : List ℕ)
      (end : BlockAddress)
      → Reading T K S F content within f off ns end
      → (got : Got) × (g : BlockedFile T S F) × (take_bytes T S F size f ≡ some (got, g))
        × Reading T K S F content within g (off + got.count) ns end
        × (g.storage ≡ f.storage)
        × (g.position ≡ add32 f.position got.count)
        × (got.count ≤ size)
        × ((i : ℕ) → i < got.count → got.byte i ≡ content (off + i))
        × (g.buffavailable - g.buffpos + got.count ≡ f.buffavailable - f.buffpos)
        × (0 < size → f.buffpos < f.buffavailable → 0 < got.count)
  unfolding take_bytes
  take_bytes-Reading within size f off ns end reading =
      let left = f.buffavailable - f.buffpos in
      let remaining : u16 (f.buffavailable + 2 ^ 16 - f.buffpos % 2 ^ 16) ≡ left =
        omega (arith, reading.low, reading.high) in
      let n = if ltb size left then size else left in
      let (few, least, some_left) = least_of size left in
      let inside : leb (f.buffpos + n) file_sector_size ≡ true =
        le→leb (f.buffpos + n) file_sector_size (omega (arith, few, reading.low, reading.high)) in
      let moved : u16 (f.buffpos + n) ≡ f.buffpos + n =
        omega (arith, few, reading.low, reading.high) in
      let on = λ (j : ℕ). sum_assoc f.buffpos n j in
      (
        record { count = n; byte = λ i. f.buffer (f.buffpos + i) },
        record f { buffpos = f.buffpos + n; position = add32 f.position n },
        rw (remaining, inside, moved) refl,
        record {
          mode = reading.mode;
          no_seek = reading.no_seek;
          low = omega (arith, few, reading.low);
          high = reading.high;
          ahead = λ j j_small.
              ap f.buffer (on j)
              ∙ reading.ahead (n + j) (omega (arith, j_small))
              ∙ ap content (sym (sum_assoc off n j));
          rest =
              subst
                (λ (o : ℕ).
                  Stored F (geometry T S F f) content (K.view f.storage) within o (skip f.head) ns
                    end)
                (omega (arith, few, reading.low)) reading.rest;
          in_block = reading.in_block;
          positioned = reading.positioned;
        },
        refl,
        refl,
        least,
        λ i small. reading.ahead i (omega (arith, small, few)),
        omega (arith, few),
        λ size_some unread. some_left size_some (omega arith),
      )
    where
      least_of :
          (size left : ℕ)
          → ((if ltb size left then size else left) ≤ left)
            × ((if ltb size left then size else left) ≤ size)
            × (0 < size → 0 < left → 0 < (if ltb size left then size else left))
      least_of size left = elim (Bool-cases (ltb size left)) [
        | inl less ↦
            let small = ltb→lt size left less in rw less (omega arith, omega arith, λ a b. a)
        | inr more ↦
            let large = ltb→le size left more in rw more (omega arith, omega arith, λ a b. b)
      ]

      sum_assoc : (a b c : ℕ) → a + b + c ≡ a + (b + c)
      sum_assoc a b c = omega arith

  -- What is left of the file from an offset on.
  abbrev left : BlockedFile T S F → List ℕ → ℕ
  left f ns = f.buffavailable - f.buffpos + total ns

  -- A read that takes the next bytes, or finds the file at its end.
  abbrev ReadOn :
      (BlockAddress → Type 0) → ℕ → ℕ → BlockedFile T S F → ℕ → List ℕ → BlockAddress → Type 0
  ReadOn within fuel size f off ns end =
      ((got : Got) × (g : BlockedFile T S F) × (ms : List ℕ) × (read T S F fuel f size
          ≡ some (got, g))
        × Reading T K S F content within g (off + got.count) ms end
        × (g.storage ≡ f.storage)
        × (left g ms + got.count ≡ left f ns)
        × (0 < got.count)
        × ((i : ℕ) → i < got.count → got.byte i ≡ content (off + i)))
      ⊎ ((g : BlockedFile T S F) × (read T S F fuel f size ≡ some (empty_got, g)) × (left f ns ≡ 0))

  read_used-ReadOn :
      (within : BlockAddress → Type 0) (fuel size : ℕ) (f : BlockedFile T S F) (off : ℕ)
      (ns : List ℕ) (end : BlockAddress)
      → Succeeds T K
      → FormatFits F
      → ErasedIsUnwritten F
      → Unwritten F (geometry T S F f) content (K.view f.storage) end
      → 0 < size
      → f.buffavailable ≡ f.buffpos
      → Reading T K S F content within f off ns end
      → ReadOn within fuel size f off ns end
  unfolding read refill
  read_used-ReadOn within fuel size f off [] end ok small blank un some_size used reading =
      let (not_end, is_valid) = open_head T K S F content f reading.in_block reading.positioned in
      let g = record f { buffpos = 0; buffavailable = 0 } in
      let at_end =
        subst (Unwritten F (geometry T S F f) content (K.view f.storage)) (sym reading.rest) un in
      let (h, stopped) = read_sector-Unwritten T K S F content g ok small blank at_end in
      let same : (f.buffavailable == f.buffpos) ≡ true =
        (==_iff f.buffavailable f.buffpos).1 used in
      inr (h, rw (reading.mode, same, not_end, is_valid, stopped) refl, omega (arith, used))
  read_used-ReadOn within fuel size f off (n ∷ ns) end ok small blank un some_size used reading =
      let (g, filled, fresh, same_storage, same_position, n_there, n_some) =
        refill-Reading T K S F content within fuel f off n ns end ok small un used reading in
      let same : (f.buffavailable == f.buffpos) ≡ true =
        (==_iff f.buffavailable f.buffpos).1 used in
      let (got, h, took, on, kept, at, least, bytes, count, some_got) =
        take_bytes-Reading within size g off ns end fresh in
      inl (
        got,
        h,
        ns,
        rw (reading.mode, same, filled, took) refl,
        on,
        kept ∙ same_storage,
        omega (arith, count, n_there, used),
        some_got some_size (omega (arith, n_there, n_some)),
        bytes,
      )

  read-ReadOn :
      (within : BlockAddress → Type 0) (fuel size : ℕ) (f : BlockedFile T S F) (off : ℕ)
      (ns : List ℕ) (end : BlockAddress)
      → Succeeds T K
      → FormatFits F
      → ErasedIsUnwritten F
      → Unwritten F (geometry T S F f) content (K.view f.storage) end
      → 0 < size
      → Reading T K S F content within f off ns end
      → ReadOn within fuel size f off ns end
  unfolding read
  read-ReadOn within fuel size f off ns end ok small blank un some_size reading =
      elim (Bool-cases (f.buffavailable == f.buffpos)) [
        | inr unread ↦
            let more : f.buffpos < f.buffavailable = ground (arith, reading.low) in
            let (got, g, took, on, same, at, least, bytes, count, some_got) =
              take_bytes-Reading within size f off ns end reading in
            inl (
              got,
              g,
              ns,
              rw (reading.mode, unread, took) refl,
              on,
              same,
              omega (arith, count),
              some_got some_size more,
              bytes,
            )
        | inl used ↦
            read_used-ReadOn within fuel size f off ns end ok small blank un some_size
              ((==_iff f.buffavailable f.buffpos).0 used) reading
      ]

  pub read_all-Reading :
      (within : BlockAddress → Type 0) (rounds fuel size : ℕ) (f : BlockedFile T S F) (off : ℕ)
      (ns : List ℕ) (end : BlockAddress)
      → Succeeds T K
      → FormatFits F
      → ErasedIsUnwritten F
      → Unwritten F (geometry T S F f) content (K.view f.storage) end
      → 0 < size
      → left f ns < rounds
      → Reading T K S F content within f off ns end
      → (got : Got) × (read_all T S F rounds fuel size f ≡ some got)
        × (got.count ≡ left f ns)
        × ((i : ℕ) → i < got.count → got.byte i ≡ content (off + i))
  unfolding read_all
  read_all-Reading within zero fuel size f off ns end ok small blank un some_size enough reading =
      absurd (omega (arith, enough))
  read_all-Reading within (suc rounds) fuel size f off ns end ok small blank un some_size enough
        reading =
      elim (read-ReadOn within fuel size f off ns end ok small blank un some_size reading) [
        | inr (g, at_end, none_left) ↦
            (empty_got, rw at_end refl, sym none_left, λ i i_small. absurd (omega (arith, i_small)))
        | inl (got, g, ms, is_read, on, same, count, some_got, bytes) ↦
            let still =
              subst
                (λ (s : T.State). Unwritten F (file_geometry (T.geometry s)) content (K.view s) end)
                (sym same) un in
            let (more, rest, more_count, more_bytes) =
              read_all-Reading within rounds fuel size g (off + got.count) ms end ok small blank
                still some_size (omega (arith, count, enough, some_got)) on in
            let some_there = ==_ne got.count 0 (λ e. omega (arith, some_got, e)) in
            (
              _,
              rw (is_read, some_there, rest) refl,
              omega (arith, more_count, count),
              λ i i_small. joined got more (off) i i_small bytes more_bytes,
            )
      ]
    where
      joined :
          (got more : Got) (off i : ℕ)
          → i < got.count + more.count
          → ((j : ℕ) → j < got.count → got.byte j ≡ content (off + j))
          → ((j : ℕ) → j < more.count → more.byte j ≡ content (off + got.count + j))
          → (if ltb i got.count then got.byte i else more.byte (i - got.count)) ≡ content (off + i)
      joined got more off i small bytes more_bytes = elim (Bool-cases (ltb i got.count)) [
        | inl here ↦ rw here (bytes i (ltb→lt i got.count here))
        | inr later ↦
            let far = ltb→le i got.count later in
            let at : off + got.count + (i - got.count) ≡ off + i = omega arith in
            rw later (more_bytes (i - got.count) (omega arith) ∙ ap content at)
      ]
