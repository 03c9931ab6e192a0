-- ===== src/Blocked/WriteOn.antt =====
-- What `write` and `close` of src/blocked_file.cpp leave in storage.
use consfs.Common.{
  ℕ, zero, suc, ◌+◌, ◌-◌, ◌*◌, ◌≤◌, ◌<◌, ◌≡◌, ◌≢◌, ◌⊎◌, inl, inr, true, false, ◌&&◌, some, List, [],
  ◌∷◌, ◌++◌, ltb, ◌==◌, if◌then◌else◌, u16, arith, refl, sym, ap, subst, ◌∙◌, ==_iff, ltb→lt,
  ltb→le, Bool-cases,
}
use consfs.Addressing.{BlockAddress, Geometry, file_sector_size}
use consfs.Addressing.Geom.{block_size}
use consfs.Backend.{Storage, Answers}
use consfs.SuperBlocks.Chain.{Succeeds}
use consfs.Blocked.{FileFormat, Supply, BlockedFile, OpenMode, is_multiple_writes}
use consfs.Blocked.Save.{
  flush, close_file, Writing, room, copied, flush_writing, write_round, write_from, leave_block,
  save_partial, write,
}
use consfs.Blocked.Chain.{total, total-append}
use consfs.Blocked.Flushing.{Gives, FormatHolds}
use consfs.Blocked.Advance.{overhead_small}
use consfs.Blocked.Rounds.{
  OpenFile, space, flush-Writable, head_valid, room-space, copied-Writable, fewer-Writable,
}

module _ (T : Storage) (K : Answers T) (S : Supply T) (F : FileFormat) (G : Gives S)
    (content : ℕ → ℕ) (g : Geometry) (beg : BlockAddress) where
  -- The fuel and the blocks that a loop needs: one round less, and one block less, behind a flush.
  abbrev Enough : ℕ → ℕ → ℕ → ℕ → BlockedFile T S F → Type 0
  Enough fuel m n left f =
      ((2 * left ≤ fuel) × (n + left ≤ m))
      ⊎ ((0 < left)
          × (2 * left ≤ suc fuel)
          × (n + left ≤ suc m)
          × (f.buffpos < space T K S F G content g beg f))

  -- What the loop of a write that may span sectors leaves.
  abbrev WrittenOut : ℕ → (ℕ → ℕ) → ℕ → Writing T S F → List ℕ → ℕ → Type 0
  WrittenOut fuel ptr size w ns n =
      (v : Writing T S F) × (ms : List ℕ) × (write_from T S F fuel ptr size true w ≡ some v)
      × (v.returned ≡ false)
      × (v.wrote ≡ w.wrote + w.to_write)
      × OpenFile T K S F G content g beg v.file ms n
      × (total ms + v.file.buffpos ≡ total ns + w.file.buffpos + w.to_write)

  write_from-WrittenOut :
      (fuel : ℕ) (ptr : ℕ → ℕ) (size : ℕ) (w : Writing T S F) (ns : List ℕ) (m n : ℕ)
      → Succeeds T K
      → FormatHolds F
      → 2 * file_sector_size ≤ block_size g
      → w.returned ≡ false
      → Enough fuel m n w.to_write w.file
      → ((i : ℕ) → i < w.to_write → ptr (w.wrote + i) ≡ content (total ns + w.file.buffpos + i))
      → OpenFile T K S F G content g beg w.file ns m
      → WrittenOut fuel ptr size w ns n
  unfolding write_from write_round flush_writing
  write_from-WrittenOut zero ptr size w ns m n ok holds big going enough same open_file =
      let none_left : w.to_write ≡ 0 = ground (arith, enough) in
      let few : n ≤ m = ground (arith, enough) in
      let stop : (w.to_write == 0) ≡ true = (==_iff w.to_write 0).1 none_left in
      (
        w,
        ns,
        rw stop refl,
        going,
        omega (arith, none_left),
        fewer-Writable T K S F G content g beg w.file ns n m few open_file,
        omega (arith, none_left),
      )
  write_from-WrittenOut (suc fuel) ptr size w ns m n ok holds big going enough same open_file =
      elim (Bool-cases (w.to_write == 0)) [
        | inl stop ↦
            let none_left = (==_iff w.to_write 0).0 stop in
            let few : n ≤ m = ground (arith, enough) in
            (
              w,
              ns,
              rw stop refl,
              going,
              omega (arith, none_left),
              fewer-Writable T K S F G content g beg w.file ns n m few open_file,
              omega (arith, none_left),
            )
        | inr more ↦ elim (Bool-cases (room T S F w.file == 0)) [
          | inl full ↦
              let none_there : space T K S F G content g beg w.file - w.file.buffpos ≡ 0 =
                sym (room-space T K S F G content g beg w.file ns m holds open_file)
                ∙ (==_iff (room T S F w.file) 0).0 full in
              let some_bytes : 0 < w.file.buffpos =
                omega
                  (arith, none_there, overhead_small T K S F G content g beg w.file.head holds) in
              let (all_fuel, all_blocks) = no_room fuel m n w.to_write w.file none_there enough in
              let some_left : w.to_write ≢ 0 = ground arith in
              let m_is : m ≡ suc (m - 1) = omega (arith, all_blocks, some_left) in
              let (f, flushed, on, empty) =
                flush-Writable T K S F G content g beg w.file ns (m - 1) ok holds some_bytes big
                  (subst (OpenFile T K S F G content g beg w.file ns) m_is open_file) in
              let is_valid =
                head_valid T K S F G content g beg f (ns ++ (w.file.buffpos ∷ [])) (m - 1) on in
              let next = record w { file = f; returned = false } in
              let (v, ms, rest, still, wrote, end_file, count) =
                write_from-WrittenOut fuel ptr size next (ns ++ (w.file.buffpos ∷ [])) (m - 1) n ok
                  holds big refl
                  (inr (
                    omega (arith, some_left),
                    omega (arith, all_fuel),
                    omega (arith, all_blocks, some_left),
                    omega (arith, empty, overhead_small T K S F G content g beg f.head holds),
                  ))
                  (λ i small.
                    same i small ∙ ap content (same_place ns w.file.buffpos f.buffpos i empty))
                  on in
              (
                v,
                ms,
                rw (more, full, flushed, is_valid, rest) refl,
                still,
                wrote,
                end_file,
                omega (arith, count, empty, total-append ns w.file.buffpos),
              )
          | inr roomy ↦
              let some_left : w.to_write ≢ 0 = ground arith in
              let room_is = room-space T K S F G content g beg w.file ns m holds open_file in
              let some_room : room T S F w.file ≢ 0 = ground arith in
              let k =
                if ltb (room T S F w.file) w.to_write then room T S F w.file else w.to_write in
              let (few, fits, some_copied) =
                least_of (room T S F w.file) w.to_write some_room some_left in
              let inside : w.file.buffpos + k ≤ space T K S F G content g beg w.file =
                omega (arith, fits, room_is, open_file.room_left) in
              let moved : u16 (w.file.buffpos + k) ≡ w.file.buffpos + k = omega (arith, inside) in
              let next = copied T S F ptr k w in
              let on =
                copied-Writable T K S F G content g beg ptr k w ns m few inside same open_file in
              let (v, ms, rest, still, wrote, end_file, count) =
                write_from-WrittenOut fuel ptr size next ns m n ok holds big going
                  (inl (less_left fuel m n w.to_write k w.file some_copied enough))
                  (λ i small.
                    ap ptr (assoc w.wrote k i)
                    ∙ same (k + i) (omega (arith, small))
                    ∙ ap content
                        (places (total ns) w.file.buffpos k i (u16 (w.file.buffpos + k)) moved))
                  on in
              (
                v,
                ms,
                rw (more, roomy, rest, going) refl,
                still,
                omega (arith, wrote, few),
                end_file,
                omega (arith, count, few, moved),
              )
        ]
      ]
    where
      no_room :
          (fuel m n left : ℕ) (f : BlockedFile T S F)
          → space T K S F G content g beg f - f.buffpos ≡ 0
          → Enough (suc fuel) m n left f
          → (2 * left ≤ suc fuel) × (n + left ≤ m)
      no_room fuel m n left f none_there enough = elim enough [
        | inl all ↦ all
        | inr part ↦ absurd (omega (arith, part.3, none_there))
      ]

      less_left :
          (fuel m n left k : ℕ) (f : BlockedFile T S F)
          → 0 < k
          → Enough (suc fuel) m n left f
          → (2 * (left - k) ≤ fuel) × (n + (left - k) ≤ m)
      less_left fuel m n left k f some_copied enough = elim enough [
        | inl all ↦ (omega (arith, all.0, some_copied), omega (arith, all.1))
        | inr part ↦
            (omega (arith, part.1, some_copied), omega (arith, part.2, part.0, some_copied))
      ]

      least_of :
          (some_space left : ℕ)
          → some_space ≢ 0
          → left ≢ 0
          → ((if ltb some_space left then some_space else left) ≤ left)
            × ((if ltb some_space left then some_space else left) ≤ some_space)
            × (0 < (if ltb some_space left then some_space else left))
      least_of some_space left some_room some_left = elim (Bool-cases (ltb some_space left)) [
        | inl less ↦
            let small = ltb→lt some_space left less in
            rw less (omega arith, omega arith, omega (arith, some_room))
        | inr more ↦
            let large = ltb→le some_space left more in
            rw more (omega arith, omega arith, omega (arith, some_left))
      ]

      same_place :
          (ns : List ℕ) (b c i : ℕ) → c ≡ 0 → total ns + b + i ≡ total (ns ++ (b ∷ [])) + c + i
      same_place ns b c i empty = omega (arith, empty, total-append ns b)

      assoc : (a b c : ℕ) → a + b + c ≡ a + (b + c)
      assoc a b c = omega arith

      places : (t b k i c : ℕ) → c ≡ b + k → t + b + (k + i) ≡ t + c + i
      places t b k i c moved = omega (arith, moved)

  pub write-Writable :
      (f : BlockedFile T S F) (ptr : ℕ → ℕ) (size : ℕ) (ns : List ℕ) (n : ℕ)
      → Succeeds T K
      → FormatHolds F
      → 2 * file_sector_size ≤ block_size g
      → ((i : ℕ) → i < size → ptr i ≡ content (total ns + f.buffpos + i))
      → OpenFile T K S F G content g beg f ns (n + size)
      → (h : BlockedFile T S F) × (ms : List ℕ) × (write T S F f ptr size true true
          ≡ some (size, h))
        × OpenFile T K S F G content g beg h ms n
        × (total ms + h.buffpos ≡ total ns + f.buffpos + size)
  unfolding write leave_block save_partial
  write-Writable f ptr size ns n ok holds big same open_file =
      let start : Writing T S F = record {
        file = f;
        to_write = size;
        wrote = 0;
        returned = false;
      } in
      let (v, ms, done, still, wrote, end_file, count) =
        write_from-WrittenOut (2 * size) ptr size start ns (n + size) n ok holds big refl
          (inl (omega arith, omega arith)) (λ i small. ap ptr (zero_add i) ∙ same i small)
          open_file in
      let all : v.wrote ≡ size = omega (arith, wrote) in
      let some_left = head_valid T K S F G content g beg f ns (n + size) open_file in
      let none_partial = partial (v.file.buffpos) (v.file.mode) end_file.once in
      (
        v.file,
        ms,
        rw (open_file.writes, some_left, done, still, none_partial, all) refl,
        end_file,
        count,
      )
    where
      zero_add : (i : ℕ) → 0 + i ≡ i
      zero_add i = omega arith

      partial :
          (b : ℕ) (m : OpenMode)
          → is_multiple_writes m ≡ false
          → (ltb 0 b && is_multiple_writes m) ≡ false
      partial b m once = elim (Bool-cases (ltb 0 b)) [
        | inl some_bytes ↦ rw (some_bytes, once) refl
        | inr none_there ↦ rw none_there refl
      ]

  -- Closing saves what is in the buffer.
  pub close_file-Writable :
      (f : BlockedFile T S F) (ns : List ℕ) (n : ℕ)
      → Succeeds T K
      → FormatHolds F
      → 2 * file_sector_size ≤ block_size g
      → OpenFile T K S F G content g beg f ns (suc n)
      → (h : BlockedFile T S F) × (ms : List ℕ) × (close_file T S F f ≡ some h)
        × OpenFile T K S F G content g beg h ms n
        × (h.buffpos ≡ 0)
        × (total ms ≡ total ns + f.buffpos)
  unfolding close_file flush
  close_file-Writable f ns n ok holds big open_file = elim (Bool-cases (f.buffpos == 0)) [
    | inl none_there ↦
        let empty = (==_iff f.buffpos 0).0 none_there in
        (
          f,
          ns,
          rw (open_file.writes, none_there) refl,
          fewer-Writable T K S F G content g beg f ns n (suc n) (omega arith) open_file,
          empty,
          omega (arith, empty),
        )
    | inr some_there ↦
        let some_bytes : 0 < f.buffpos = ground arith in
        let (h, flushed, on, empty) =
          flush-Writable T K S F G content g beg f ns n ok holds some_bytes big open_file in
        (h, ns ++ (f.buffpos ∷ []), rw flushed refl, on, empty, total-append ns f.buffpos)
  ]
