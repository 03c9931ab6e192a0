-- ===== src/Blocked/AfterSeek.antt =====
-- What `seek` of src/blocked_file.cpp leaves of the buffer of a reader.
use consfs.Common.{
  ℕ, zero, suc, ◌+◌, ◌-◌, ◌%◌, ◌^◌, ◌≤◌, ◌<◌, ◌≡◌, Bool, true, false, not, ◌&&◌, ◌||◌, some, leb,
  ltb, ◌==◌, if◌then◌else◌, arith, refl, sym, ap, subst, ◌∙◌, ==_ne, le→leb, Bool-cases,
  Option-cases, bind-some, inl, inr, u16, add32, ◌>>◌, check,
}
use mathlib.Core.Option.{some-injective}
use consfs.Addressing.{BlockAddress, file_sector_size, is_valid_block}
use consfs.Addressing.Addr.{valid, tail_sector}
use consfs.Backend.{Storage, magic_valid, load}
use consfs.Files.Prealloc.{sub64}
use consfs.Blocked.{
  FileFormat, FileBlockTail, Supply, BlockedFile, is_read, tail_of_buffer, geometry,
}
use consfs.Blocked.Seek.{
  SeekInfo, no_visitor, no_bound, Seeking, Visited, seek_tail, seek_round, seek_from, seek_info,
  seek_visiting, seek_to, sought,
}
use consfs.Blocked.Reading.{Got, read, take_bytes}

module _ (T : Storage) (S : Supply T) (F : FileFormat) where
  -- The place in the buffer, and the mode.
  record SamePlace (f h : BlockedFile T S F) : Type 0 where
    same_available : h.buffavailable ≡ f.buffavailable
    same_pos : h.buffpos ≡ f.buffpos
    same_mode : h.mode ≡ f.mode

  seek_tail-same :
      (tail : FileBlockTail) (k : Seeking T S F) (v : Visited T S F (Unit {0}))
      (r : Seeking T S F × Visited T S F (Unit {0}))
      → seek_tail T S F (no_visitor T S F) tail k v ≡ some r
      → r.1 ≡ v
  unfolding seek_tail
  seek_tail-same tail k v r e =
      elim (Bool-cases (is_valid_block tail.linked_block && leb tail.bytes_in_block k.desired)) [
        | inl over ↦ ap (λ q. q.1) (sym (some-injective _ _ (rw over at e)))
        | inr into ↦ elim (Bool-cases (k.scanned)) [
          | inr fresh ↦ ap (λ q. q.1) (sym (some-injective _ _ (rw (into, fresh) at e)))
          | inl scanned ↦ elim (Bool-cases (ltb k.desired tail.sector.bytes)) [
            | inl inside ↦
                ap (λ q. q.1) (sym (some-injective _ _ (rw (into, scanned, inside) at e)))
            | inr behind ↦
                ap (λ q. q.1) (sym (some-injective _ _ (rw (into, scanned, behind) at e)))
          ]
        ]
      ]

  seek_round-SamePlace :
      (k : Seeking T S F) (v : Visited T S F (Unit {0}))
      (r : Seeking T S F × Visited T S F (Unit {0}))
      → seek_round T S F (no_visitor T S F) k v ≡ some r
      → SamePlace v.0 r.1.0
  unfolding seek_round
  seek_round-SamePlace k v r e =
      elim (Option-cases (T.read v.0.storage k.info.address file_sector_size)) [
        | inl stops ↦ absurd (cc (rw stops at e))
        | inr (d, got) ↦
            let f = record v.0 { buffer = d.1 } in
            elim (Bool-cases d.0) [
              | inr fails ↦
                  let same = some-injective _ _ (rw (got, fails) at e) in
                  record {
                    same_available = ap (λ q. q.1.0.buffavailable) (sym same);
                    same_pos = ap (λ q. q.1.0.buffpos) (sym same);
                    same_mode = ap (λ q. q.1.0.mode) (sym same);
                  }
              | inl reads ↦ elim (Bool-cases (tail_sector k.info.address (geometry T S F f))) [
                | inl last ↦
                    let same =
                      seek_tail-same (tail_of_buffer F.block_codec d.1) k (f, v.1) r
                        (rw (got, reads, last) at e) in
                    record {
                      same_available = ap (λ q. q.0.buffavailable) same;
                      same_pos = ap (λ q. q.0.buffpos) same;
                      same_mode = ap (λ q. q.0.mode) same;
                    }
                | inr plain ↦
                    let same = some-injective _ _ (rw (got, reads, plain) at e) in
                    record {
                      same_available = ap (λ q. q.1.0.buffavailable) (sym same);
                      same_pos = ap (λ q. q.1.0.buffpos) (sym same);
                      same_mode = ap (λ q. q.1.0.mode) (sym same);
                    }
              ]
            ]
      ]

  seek_from-SamePlace :
      (fuel : ℕ) (k : Seeking T S F) (v : Visited T S F (Unit {0}))
      (r : Seeking T S F × Visited T S F (Unit {0}))
      → seek_from T S F fuel (no_visitor T S F) k v ≡ some r
      → SamePlace v.0 r.1.0
  unfolding seek_from
  seek_from-SamePlace zero k v r e = absurd (cc)
  seek_from-SamePlace (suc fuel) k v r e =
      let (q, round, rest) = bind-some (seek_round T S F (no_visitor T S F) k v) _ r e in
      let first = seek_round-SamePlace k v q round in
      elim (Bool-cases (q.0.broken)) [
        | inl ends ↦
            subst (λ (x : Seeking T S F × Visited T S F (Unit {0})). SamePlace v.0 x.1.0)
              (some-injective _ _ (rw ends at rest)) first
        | inr goes ↦
            let later = seek_from-SamePlace fuel q.0 q.1 r (rw goes at rest) in
            record {
              same_available = later.same_available ∙ first.same_available;
              same_pos = later.same_pos ∙ first.same_pos;
              same_mode = later.same_mode ∙ first.same_mode;
            }
      ]

  seek_info-SamePlace :
      (fuel : ℕ) (start : BlockAddress) (at_start desired : ℕ) (f : BlockedFile T S F)
      (r : SeekInfo × Visited T S F (Unit {0}))
      → seek_info T S F fuel (no_visitor T S F) start at_start desired (f, tt) ≡ some r
      → SamePlace f r.1.0
  unfolding seek_info
  seek_info-SamePlace fuel start at_start desired f r e =
      let (h, loaded, rest) =
        bind-some
          (check (valid start)
            >> load T F.head_codec f.storage (record { block = start.block; position = 0 }))
          _ r e in
      elim (Bool-cases (not h.0 || not (magic_valid h.1.block))) [
        | inl bad ↦
            let same = some-injective _ _ (rw bad at rest) in
            record {
              same_available = ap (λ q. q.1.0.buffavailable) (sym same);
              same_pos = ap (λ q. q.1.0.buffpos) (sym same);
              same_mode = ap (λ q. q.1.0.mode) (sym same);
            }
        | inr good ↦
            let (q, ran, last) =
              bind-some (seek_from T S F fuel (no_visitor T S F) _ _) _ r (rw good at rest) in
            let on = seek_from-SamePlace fuel _ _ q ran in
            let same = ap (λ x. x.1.0) (some-injective _ _ last) in
            record {
              same_available = ap (λ x. x.buffavailable) (sym same) ∙ on.same_available;
              same_pos = ap (λ x. x.buffpos) (sym same) ∙ on.same_pos;
              same_mode = ap (λ x. x.mode) (sym same) ∙ on.same_mode;
            }
      ]

  -- The part of `seek` behind the walk along the chain.
  found-SamePlace :
      (desired : ℕ) (f : BlockedFile T S F) (i : SeekInfo × Visited T S F (Unit {0}))
      (x : Bool × Visited T S F (Unit {0}))
      → SamePlace f i.1.0
      → (if not (valid i.0.address)
          then some (false, i.1)
          else if desired == no_bound
          then some (true, (record (sought T S F i.0 i.1.0) { length = add32 0 i.0.bytes }, i.1.1))
          else some ((sought T S F i.0 i.1.0).position == desired, (sought T S F i.0 i.1.0, i.1.1)))
        ≡ some x
      → SamePlace f x.1.0
  found-SamePlace desired f i x on rest =
      let kept : SamePlace f (sought T S F i.0 i.1.0) = record {
        same_available = on.same_available;
        same_pos = on.same_pos;
        same_mode = on.same_mode;
      } in
      elim (Bool-cases (not (valid i.0.address))) [
        | inl nowhere ↦
            subst (λ (q : Bool × Visited T S F (Unit {0})). SamePlace f q.1.0)
              (some-injective _ _ (rw nowhere at rest)) on
        | inr somewhere ↦ elim (Bool-cases (desired == no_bound)) [
          | inl all ↦
              subst (λ (q : Bool × Visited T S F (Unit {0})). SamePlace f q.1.0)
                (some-injective _ _ (rw (somewhere, all) at rest))
                (record {
                  same_available = kept.same_available;
                  same_pos = kept.same_pos;
                  same_mode = kept.same_mode;
                })
          | inr part ↦
              subst (λ (q : Bool × Visited T S F (Unit {0})). SamePlace f q.1.0)
                (some-injective _ _ (rw (somewhere, part) at rest)) kept
        ]
      ]

  seek_to-SamePlace :
      (fuel desired : ℕ) (f h : BlockedFile T S F) (ok : Bool)
      → seek_to T S F fuel desired f ≡ some (ok, h)
      → SamePlace f h
  unfolding seek_to seek_visiting
  seek_to-SamePlace fuel desired f h ok e =
      let start = if valid f.beg then f.beg else f.head in
      let (x, visited, out) =
        bind-some (seek_visiting T S F fuel (no_visitor T S F) start 0 desired (f, tt)) _ (ok, h)
          e in
      let is_h : x.1.0 ≡ h = ap (λ q. q.1) (some-injective _ _ out) in
      let (i, informed, rest) =
        bind-some (seek_info T S F fuel (no_visitor T S F) start 0 (sub64 desired 0) (f, tt)) _ x
          visited in
      subst (λ (q : BlockedFile T S F). SamePlace f q) is_h
        (found-SamePlace desired f i x
          (seek_info-SamePlace fuel start 0 (sub64 desired 0) f i informed) rest)

  -- Where a reader has not read all of the sector in its buffer, a seek, wherever it goes and whatever
  -- it returns, does not make the next read load a sector: that read takes as many bytes as were left,
  -- or fewer if it asks for fewer, from the old place of the buffer on, and leaves the head and the
  -- offset that the seek has set as they are.
  pub read-seek_to :
      (fuel more desired size : ℕ) (f h : BlockedFile T S F) (ok : Bool)
      → is_read f.mode ≡ true
      → f.buffpos < f.buffavailable
      → f.buffavailable ≤ file_sector_size
      → seek_to T S F fuel desired f ≡ some (ok, h)
      → (got : Got) × (g : BlockedFile T S F) × (read T S F more h size ≡ some (got, g))
        × (got.count ≡ (
            if ltb size (f.buffavailable - f.buffpos) then size else f.buffavailable - f.buffpos))
        × ((i : ℕ) → got.byte i ≡ h.buffer (f.buffpos + i))
        × (g.head ≡ h.head)
        × (g.seek_offset ≡ h.seek_offset)
  unfolding read take_bytes
  read-seek_to fuel more desired size f h ok reads left small found =
      let on = seek_to-SamePlace fuel desired f h ok found in
      let left_h : h.buffpos < h.buffavailable = omega (arith, on.same_pos, on.same_available) in
      let n =
        if ltb size (h.buffavailable - h.buffpos) then size else h.buffavailable - h.buffpos in
      let fewer : n ≤ h.buffavailable - h.buffpos = ground arith in
      let remaining : u16 (h.buffavailable + 2 ^ 16 - h.buffpos % 2 ^ 16)
          ≡ h.buffavailable - h.buffpos =
        omega (arith, on.same_available, small, left_h) in
      let fits : leb (h.buffpos + n) file_sector_size ≡ true =
        le→leb (h.buffpos + n) file_sector_size
          (omega (arith, fewer, on.same_available, small, left_h)) in
      (
        record { count = n; byte = λ i. h.buffer (h.buffpos + i) },
        record h { buffpos = u16 (h.buffpos + n); position = add32 h.position n },
        rw
            (
              ap is_read on.same_mode ∙ reads,
              ==_ne h.buffavailable h.buffpos (λ same. omega (arith, same, left_h)),
              remaining,
              fits,
            )
            refl,
        rw (on.same_available, on.same_pos) refl,
        λ i. ap (λ p. h.buffer (p + i)) on.same_pos,
        refl,
        refl,
      )
