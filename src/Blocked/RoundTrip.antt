-- ===== src/Blocked/RoundTrip.antt =====
-- A file that src/blocked_file.cpp writes reads back.
use consfs.Common.{
  ℕ, suc, ◌+◌, ◌*◌, ◌≤◌, ◌<◌, ◌≡◌, true, some, List, [], ◌∷◌, add32, u32, arith, refl, sym, ap,
  subst, ◌∙◌, ==_refl,
}
use consfs.Addressing.{BlockAddress, Geometry, file_sector_size, block_index_invalid}
use consfs.Addressing.Geom.{block_size, file_geometry}
use consfs.Addressing.Addr.{beginning_of_block, is_beginning_of_block, add}
use consfs.Backend.{Storage, Answers}
use consfs.SuperBlocks.Chain.{Succeeds}
use consfs.Blocked.{
  FileFormat, Supply, BlockedFile, OpenMode, is_read, is_multiple_writes, no_block, new_file,
  initialize_file, format_file, geometry,
}
use consfs.Blocked.Reading.{Got}
use consfs.Blocked.Chain.{Stored, Unwritten, total}
use consfs.Blocked.Refilled.{ErasedIsUnwritten, Reading, first_address}
use consfs.Blocked.ReadBack.{read_all-Reading}
use consfs.Blocked.Client.{read_all, write_all, store_content}
use consfs.Blocked.Flushing.{Gives, FormatHolds, initialize_block-Erases, Behind, Writable}
use consfs.Blocked.Advance.{some_valid, block_size_small}
use consfs.Blocked.WriteOn.{write-Writable, close_file-Writable}

module _ (T : Storage) (K : Answers T) (S : Supply T) (F : FileFormat) (G : Gives S)
    (content : ℕ → ℕ) where
  module _ (g : Geometry) where
    format_file-Writable :
        (f : BlockedFile T S F) (n : ℕ)
        → Succeeds T K
        → FormatHolds F
        → 2 * file_sector_size ≤ block_size g
        → geometry T S F f ≡ g
        → f.mode ≡ OpenMode.write
        → f.pending ≡ no_block
        → G.Has f.supply (suc n)
        → (block : ℕ) × (h : BlockedFile T S F) × (format_file T S F f ≡ some (true, h))
          × Writable T K S F G content g
              (record { block = block; position = file_sector_size })
              h
              []
              n
          × (h.buffpos ≡ 0)
    unfolding format_file initialize_file beginning_of_block
    format_file-Writable f n ok holds big same writes none_pending has =
        let clear = initialize_file T S F (record f { version = add32 f.version 1 }) in
        let (a, after, a_is, has_more, fresh, given, more, not_zero, small, stale) =
          G.gives f.storage f.supply f.head n has in
        let real = some_valid a.block not_zero small in
        let (t, t_is, t_same, t_there, t_apart) =
          initialize_block-Erases T K S F (record clear { supply = after }) a block_index_invalid ok
            holds real stale in
        let first : BlockAddress = record { block = a.block; position = file_sector_size } in
        let h = record clear {
          supply = after;
          storage = t;
          head = first;
          beg = record { block = a.block; position = 0 };
        } in
        (
          a.block,
          h,
          rw (a_is, t_is) refl,
          record {
            writes = ap is_read writes;
            once = ap is_multiple_writes writes;
            no_ahead = refl;
            unsaved = refl;
            none_pending = none_pending;
            same_geometry = ap file_geometry t_same ∙ same;
            begins = refl;
            room_left = omega arith;
            in_block = λ e. omega (arith, e, small);
            behind_head = omega arith;
            before_end = omega (arith, big);
            given = given;
            chain = refl;
            ahead = λ p far. t_there p far;
            buffered = λ i i_small. absurd (omega (arith, i_small));
            has = has_more;
            block_bytes = omega arith;
            length_is = refl;
          },
          refl,
        )

    write_all-Writable :
        (beg : BlockAddress) (sizes : List ℕ) (off : ℕ) (f : BlockedFile T S F) (ns : List ℕ)
        (n : ℕ)
        → Succeeds T K
        → FormatHolds F
        → 2 * file_sector_size ≤ block_size g
        → off ≡ total ns + f.buffpos
        → Writable T K S F G content g beg f ns (n + total sizes)
        → (h : BlockedFile T S F) × (ms : List ℕ) × (write_all T S F content sizes off f
            ≡ some (true, h))
          × Writable T K S F G content g beg h ms n
          × (total ms + h.buffpos ≡ off + total sizes)
    unfolding write_all
    write_all-Writable beg [] off f ns n ok holds big at open_file =
        let same : n + 0 ≡ n = omega arith in
        (
          f,
          ns,
          refl,
          subst (λ (k : ℕ). Writable T K S F G content g beg f ns k) same open_file,
          omega (arith, at),
        )
    write_all-Writable beg (size ∷ sizes) off f ns n ok holds big at open_file =
        let same : n + (size + total sizes) ≡ n + total sizes + size = omega arith in
        let (h, ms, written, on, count) =
          write-Writable T K S F G content g beg f (λ i. content (off + i)) size ns
            (n + total sizes) ok holds big (λ i small. ap (λ (o : ℕ). content (o + i)) at)
            (subst (λ (k : ℕ). Writable T K S F G content g beg f ns k) same open_file) in
        let (t, ks, rest, end_file, all) =
          write_all-Writable beg sizes (off + size) h ms n ok holds big (omega (arith, count, at))
            on in
        (t, ks, rw (written, ==_refl size, rest) refl, end_file, omega (arith, all))

    -- What a file that is closed holds, for a reader.
    closed-Unwritten :
        (beg : BlockAddress) (f : BlockedFile T S F) (ns : List ℕ) (n : ℕ)
        → Writable T K S F G content g beg f ns n
        → Unwritten F g content (K.view f.storage) f.head
    closed-Unwritten beg f ns n w =
        let small = block_size_small T K S F G content g beg in
        record {
          in_block = w.in_block;
          positioned = λ e. omega (arith, e, w.before_end, small);
          behind_head = λ e. omega (arith, e, w.behind_head);
          erased = λ i i_small. w.ahead (f.head.position + i) (omega arith);
        }

    -- A reader of a file that is closed, before its first read.
    reader-Reading :
        (block : ℕ) (h : BlockedFile T S F) (ns : List ℕ) (n : ℕ) (supply : S.State) (id : ℕ)
        (garbage : ℕ → ℕ)
        → Writable T K S F G content g
            (record { block = block; position = file_sector_size })
            h
            ns
            n
        → Unwritten F (file_geometry (T.geometry h.storage)) content (K.view h.storage) h.head
          × Reading T K S F content
              (Behind T K S F G content g
                (record { block = block; position = file_sector_size })
                h.supply
                h.head)
              (new_file T S F h.storage supply id OpenMode.read
                (record { block = block; position = 0 })
                garbage)
              0
              ns
              h.head
    unfolding new_file is_beginning_of_block add
    reader-Reading block h ns n supply id garbage w =
        let beg : BlockAddress = record { block = block; position = file_sector_size } in
        let within = Behind T K S F G content g beg h.supply h.head in
        let closed = closed-Unwritten beg h ns n w in
        let first =
          first_address T K S F content g (K.view h.storage) within 0 beg ns h.head w.chain
            closed in
        (
          subst (λ (q : Geometry). Unwritten F q content (K.view h.storage) h.head)
              (sym w.same_geometry) closed,
          record {
            mode = refl;
            no_seek = refl;
            low = omega arith;
            high = omega arith;
            ahead = λ j j_small. absurd (omega (arith, j_small));
            rest =
                subst
                  (λ (q : Geometry). Stored F q content (K.view h.storage) within 0 beg ns h.head)
                  (sym w.same_geometry) w.chain;
            in_block = first.0;
            positioned = λ e. omega (arith, e);
          },
        )

  -- On storage that does not fail, with blocks of two sectors or more, structs that fit in a sector
  -- and whose bytes hold their words, erased bytes that read as no sector, and an allocation that has
  -- more than one fresh block for each byte, a new file that is formatted, written in any number of
  -- writes of any sizes and closed takes all bytes, its length is their number modulo 2^32, and a new
  -- file that opens its first block for reading and reads with buffers of any positive size gets these
  -- bytes and then none.
  pub read_all-store_content :
      (storage : T.State) (supply after : S.State) (id later_id fuel size : ℕ) (head : BlockAddress)
      (garbage later_garbage : ℕ → ℕ) (sizes : List ℕ)
      → Succeeds T K
      → FormatHolds F
      → ErasedIsUnwritten F
      → 2 * file_sector_size ≤ block_size (file_geometry (T.geometry storage))
      → G.Has supply (total sizes + 2)
      → 0 < size
      → (h : BlockedFile T S F) × (store_content T S F content sizes
            (new_file T S F storage supply id OpenMode.write head garbage)
          ≡ some (true, h))
        × (h.length ≡ u32 (total sizes))
        × (got : Got) × (read_all T S F
              (suc (total sizes))
              fuel
              size
              (new_file T S F h.storage after later_id OpenMode.read h.beg later_garbage)
            ≡ some got)
        × (got.count ≡ total sizes)
        × ((i : ℕ) → i < total sizes → got.byte i ≡ content i)
  unfolding store_content new_file
  read_all-store_content storage supply after id later_id fuel size head garbage later_garbage sizes
        ok holds blank big has some_size =
      let g = file_geometry (T.geometry storage) in
      let f = new_file T S F storage supply id OpenMode.write head garbage in
      let enough : total sizes + 2 ≡ suc (1 + total sizes) = omega arith in
      let (block, f1, formatted, open_file, empty) =
        format_file-Writable g f (1 + total sizes) ok holds big refl refl refl
          (subst (G.Has supply) enough has) in
      let beg : BlockAddress = record { block = block; position = file_sector_size } in
      let (f2, ms, written, on, count) =
        write_all-Writable g beg sizes 0 f1 [] 1 ok holds big (sym (none_yet f1.buffpos empty))
          open_file in
      let (h, ks, closed, done, flushed, all) =
        close_file-Writable T K S F G content g beg f2 ms 0 ok holds big on in
      let start : BlockAddress = record { block = block; position = 0 } in
      let reader = new_file T S F h.storage after later_id OpenMode.read start later_garbage in
      let (un, reading) = reader-Reading g block h ks 0 after later_id later_garbage done in
      let within = Behind T K S F G content g beg h.supply h.head in
      let all_bytes : total ks ≡ total sizes = omega (arith, all, count) in
      let (got, read, number, bytes) =
        read_all-Reading T K S F content within (suc (total sizes)) fuel size reader 0 ks h.head ok
          holds.small blank un some_size (omega (arith, all_bytes)) reading in
      let same_count : got.count ≡ total sizes = omega (arith, number, all_bytes) in
      (
        h,
        rw (formatted, written, closed) refl,
        done.length_is ∙ ap u32 (omega (arith, all_bytes, flushed)),
        got,
        rw (done.begins) read,
        same_count,
        λ i small. bytes i (omega (arith, same_count, small)) ∙ ap content (zero_add i),
      )
    where
      zero_add : (i : ℕ) → 0 + i ≡ i
      zero_add i = omega arith

      none_yet : (b : ℕ) → b ≡ 0 → 0 + b ≡ 0
      none_yet b e = omega (arith, e)
