-- ===== src/Layout/Reserve.antt =====
-- `find_available` of src/phylum/layout.h: the room that it reserves.
use consfs.Common.{
  ℕ, ◌+◌, ◌%◌, ◌≤◌, ◌≡◌, ◌⊎◌, Bool, true, false, some, if◌then◌else◌, refl, arith, ◌>>=◌,
  Bool-cases, inl, inr, sym, ◌∙◌, ap, subst, u64, add32, ==_iff, ==_ne,
}
use mathlib.Core.Option.{some-injective}
use consfs.Addressing.{
  BlockAddress, Geometry, block_index_invalid, invalid_block_address, file_sector_size,
}
use consfs.Addressing.Geom.{block_size}
use consfs.Addressing.Addr.{valid, add, is_beginning_of_block}
use consfs.Addressing.Room.{IsSound, remaining_in_block-eq}
use consfs.Addressing.TailRoom.{find_room-FitsBefore, block_size-word}
use consfs.Alloc.{AllocatedBlock}
use consfs.Backend.{Storage, Allocates, Answers}
use consfs.Layout.{
  Format, Layout, is_error, geometry, needs_block, should_move_to_following_block,
  move_to_new_block, move_behind_head, take_room, find_available,
}
use consfs.Layout.Writes.{write_head-HasHead, write_tail-HasTail, write_new_head-HasHead}

-- An entry of `n` bytes and a tail of `t` fit in a sector, and in a block behind its head.
pub record HasSpace (g : Geometry) (n t : ℕ) : Type 0 where
  pub sound : IsSound g
  pub in_sector : n + t ≤ g.sector_size
  pub in_block : file_sector_size + n + t ≤ block_size g

-- The `n` bytes at the address are behind the head, before the tail, and in one sector.
pub record IsReserved (g : Geometry) (n t : ℕ) (a : BlockAddress) : Type 0 where
  pub behind_head : file_sector_size ≤ a.position
  pub before_tail : a.position + n + t ≤ block_size g
  pub in_sector : a.position % g.sector_size + n ≤ g.sector_size

module _ (T : Storage) (K : Answers T) (A : Allocates) (F : Format) where
  take_room-IsReserved :
      (l : Layout T A F) (n : ℕ)
      → HasSpace (geometry T A F l) n F.tail_codec.size
      → l.address.position + n + F.tail_codec.size ≤ block_size (geometry T A F l)
      → file_sector_size ≤ l.address.position
      → (b : BlockAddress) × (take_room T A F l n ≡ some (b, record l { address = add b n }))
        × IsReserved (geometry T A F l) n F.tail_codec.size b
        × (b.block ≡ l.address.block)
        × (l.address.position ≤ b.position)
  unfolding take_room
  take_room-IsReserved l n space room behind =
      let (b, fits) =
        find_room-FitsBefore l.address (geometry T A F l) n F.tail_codec.size space.sound
          space.in_sector room in
      (
        b,
        rw fits.found refl,
        record {
          behind_head = omega (arith, fits.forward);
          before_tail = fits.before_tail;
          in_sector = fits.in_sector;
        },
        fits.same_block,
        fits.forward,
      )

  -- Enough of the block is left where no new one is needed.
  stays-room :
      (l : Layout T A F) (n : ℕ)
      → HasSpace (geometry T A F l) n F.tail_codec.size
      → l.address.position ≤ block_size (geometry T A F l)
      → needs_block T A F l n ≡ false
      → (valid l.address ≡ true)
        × (l.address.position + n + F.tail_codec.size ≤ block_size (geometry T A F l))
  unfolding should_move_to_following_block
  stays-room l n space inside stays =
      let exact = remaining_in_block-eq l.address (geometry T A F l) inside in
      let word = block_size-word (geometry T A F l) in
      let same : u64 (n + F.tail_codec.size) ≡ n + F.tail_codec.size =
        omega (arith, space.in_block, word) in
      (ground (arith, stays), ground (arith, rw (exact, same) at stays))

  move_behind_head-Stays :
      (l : Layout T A F) (n : ℕ)
      → HasSpace (geometry T A F l) n F.tail_codec.size
      → l.address.position + n + F.tail_codec.size ≤ block_size (geometry T A F l)
      → (l.address.position ≡ 0) ⊎ (file_sector_size ≤ l.address.position)
      → is_error l.type ≡ false
      → (r : Bool × Layout T A F) × (move_behind_head T A F l ≡ some r)
        × (geometry T A F r.1 ≡ geometry T A F l)
        × (r.1.type ≡ l.type)
        × (r.0 ≡ true
            → (r.1.address.block ≡ l.address.block)
              × (file_sector_size ≤ r.1.address.position)
              × (l.address.position ≤ r.1.address.position)
              × (r.1.address.position + n + F.tail_codec.size ≤ block_size (geometry T A F l)))
  unfolding move_behind_head is_beginning_of_block add
  move_behind_head-Stays l n space room (inr behind) typed = (
    (true, l),
    rw (==_ne l.address.position 0 (λ e. absurd (omega arith))) refl,
    refl,
    refl,
    λ h. (refl, behind, omega arith, room),
  )
  move_behind_head-Stays l n space room (inl start) typed =
      let (w, e, stores, head) =
        write_new_head-HasHead T K A F l l.address.block block_index_invalid typed in
      let size = block_size-word (geometry T A F l) in
      elim (Bool-cases w.0) [
        | inr fails ↦ (
          (false, w.1),
          rw ((==_iff l.address.position 0).1 start, e, fails) refl,
          stores.same_geometry,
          stores.same_type,
          λ h. absurd (cc),
        )
        | inl wrote ↦
            let at_start : w.1.address.position ≡ 0 =
              ap (λ (a : BlockAddress). a.position) stores.same_address ∙ start in
            let behind : add32 w.1.address.position file_sector_size ≡ file_sector_size =
              omega (arith, at_start) in
            (
              (true, record w.1 { address = add w.1.address file_sector_size }),
              rw ((==_iff l.address.position 0).1 start, e, wrote) refl,
              stores.same_geometry,
              stores.same_type,
              λ h. (
                ap (λ (a : BlockAddress). a.block) stores.same_address,
                omega (arith, behind),
                omega (arith, start),
                omega (arith, behind, space.in_block),
              ),
            )
      ]

  move_to_new_block-Moves :
      (l : Layout T A F) (head : F.Head) (r : AllocatedBlock × A.State)
      → is_error l.type ≡ false
      → A.allocate l.allocator l.type ≡ some r
      → (w : Bool × Layout T A F) × (move_to_new_block T A F l head ≡ some w)
        × (geometry T A F w.1 ≡ geometry T A F l)
        × (w.1.type ≡ l.type)
        × (w.0 ≡ true → (w.1.address.block ≡ r.0.block) × (w.1.address.position ≡ file_sector_size))
  unfolding move_to_new_block
  move_to_new_block-Moves l head r typed allocated =
      let (h, h_is, h_stores, has_head) =
        write_head-HasHead T K A F (record l { allocator = r.1 }) r.0.block
          (F.link head l.address.block) in
      let (t, t_is, t_stores, has_tail) =
        write_tail-HasTail T K A F h.1 l.address.block r.0.block in
      elim (Bool-cases h.0) [
        | inr fails ↦ (
          (false, h.1),
          rw (typed, allocated, h_is, fails) refl,
          h_stores.same_geometry,
          h_stores.same_type,
          λ w. absurd (cc),
        )
        | inl good ↦ elim (Bool-cases (valid l.address)) [
          | inr first ↦ (
            (
              true,
              record h.1 { address = record { block = r.0.block; position = file_sector_size } },
            ),
            rw (typed, allocated, h_is, good, first) refl,
            h_stores.same_geometry,
            h_stores.same_type,
            λ w. (refl, refl),
          )
          | inl real ↦ elim (Bool-cases t.0) [
            | inr fails ↦ (
              (false, t.1),
              rw (typed, allocated, h_is, good, real, t_is, fails) refl,
              t_stores.same_geometry ∙ h_stores.same_geometry,
              t_stores.same_type ∙ h_stores.same_type,
              λ w. absurd (cc),
            )
            | inl linked ↦ (
              (
                true,
                record t.1 { address = record { block = r.0.block; position = file_sector_size } },
              ),
              rw (typed, allocated, h_is, good, real, t_is, linked) refl,
              t_stores.same_geometry ∙ h_stores.same_geometry,
              t_stores.same_type ∙ h_stores.same_type,
              λ w. (refl, refl),
            )
          ]
        ]
      ]

  -- What the call with this result found: room for the entry, with the layout's address behind it.
  record Reserves (g : Geometry) (n : ℕ) (r : BlockAddress × Layout T A F) : Type 0 where
    same_geometry : geometry T A F r.1 ≡ g
    reserved : valid r.0 ≡ true → IsReserved g n F.tail_codec.size r.0 × (r.1.address ≡ add r.0 n)

  -- The part of the method behind the choice of the block.
  settle :
      (l : Layout T A F) (n : ℕ)
      → HasSpace (geometry T A F l) n F.tail_codec.size
      → is_error l.type ≡ false
      → l.address.position + n + F.tail_codec.size ≤ block_size (geometry T A F l)
      → (l.address.position ≡ 0) ⊎ (file_sector_size ≤ l.address.position)
      → (r : BlockAddress × Layout T A F) × ((move_behind_head T A F l >>= λ w.
            if w.0 then take_room T A F w.1 n else some (invalid_block_address, w.1))
          ≡ some r)
        × Reserves (geometry T A F l) n r
        × (valid r.0 ≡ true → (r.0.block ≡ l.address.block) × (l.address.position ≤ r.0.position))
  unfolding valid
  settle l n space typed room at_edge =
      let (w, w_is, same, w_type, moved) = move_behind_head-Stays l n space room at_edge typed in
      elim (Bool-cases w.0) [
        | inr fails ↦ (
          (invalid_block_address, w.1),
          rw (w_is, fails) refl,
          record { same_geometry = same; reserved = λ h. absurd (cc) },
          λ h. absurd (cc),
        )
        | inl done ↦
            let (block, behind, forward, left) = moved done in
            let space_w =
              subst (λ (g : Geometry). HasSpace g n F.tail_codec.size) (sym same) space in
            let left_w =
              subst (λ (g : Geometry). w.1.address.position + n + F.tail_codec.size ≤ block_size g)
                (sym same) left in
            let (b, b_is, reserved, same_block, on) =
              take_room-IsReserved w.1 n space_w left_w behind in
            (
              (b, record w.1 { address = add b n }),
              rw (w_is, done) b_is,
              record {
                same_geometry = same;
                reserved = λ h. (
                  subst (λ (g : Geometry). IsReserved g n F.tail_codec.size b) same reserved,
                  refl,
                );
              },
              λ h. (same_block ∙ block, omega (arith, on, forward)),
            )
      ]

  -- Where the entry and the tail fit in a sector and in a block behind its head, the address is invalid
  -- or in a block at its beginning or behind its head, the type of the layout is not Error, and the
  -- allocator gives a block if one is needed, `find_available` does not stop, whatever the storage
  -- answers. If the address that it gives is valid then the entry's bytes there are in one sector, behind
  -- the head of the block and before its tail, and the layout's address is behind them; and they are in
  -- the block of the old address, not before it, if no new block is needed, and in the allocated block
  -- otherwise.
  pub find_available-Reserves :
      (l : Layout T A F) (n : ℕ) (head : F.Head)
      → HasSpace (geometry T A F l) n F.tail_codec.size
      → is_error l.type ≡ false
      → (valid l.address ≡ true
          → (l.address.position ≤ block_size (geometry T A F l))
            × ((l.address.position ≡ 0) ⊎ (file_sector_size ≤ l.address.position)))
      → (needs_block T A F l n ≡ true
          → (r : AllocatedBlock × A.State) × (A.allocate l.allocator l.type ≡ some r))
      → (r : BlockAddress × Layout T A F) × (find_available T A F l n head ≡ some r)
        × (valid r.0 ≡ true
            → IsReserved (geometry T A F l) n F.tail_codec.size r.0
              × (r.1.address ≡ add r.0 n)
              × (needs_block T A F l n ≡ false
                  → (r.0.block ≡ l.address.block) × (l.address.position ≤ r.0.position))
              × (needs_block T A F l n ≡ true
                  → (k : AllocatedBlock × A.State) → A.allocate l.allocator l.type ≡ some k
                  → r.0.block ≡ k.0.block))
  unfolding find_available valid
  find_available-Reserves l n head space typed placed allocated =
      elim (Bool-cases (needs_block T A F l n)) [
        | inr stays ↦
            let real : valid l.address ≡ true = ground (arith, stays) in
            let (inside, at_edge) = placed real in
            let room = (stays-room l n space inside stays).1 in
            let (r, r_is, reserves, in_block) = settle l n space typed room at_edge in
            (
              r,
              rw stays r_is,
              λ h. (
                (reserves.reserved h).0,
                (reserves.reserved h).1,
                (λ _. in_block h),
                λ needs. absurd (cc),
              ),
            )
        | inl needs ↦
            let (block, block_is) = allocated needs in
            let (w, w_is, same, w_type, moved) =
              move_to_new_block-Moves l head block typed block_is in
            elim (Bool-cases w.0) [
              | inr fails ↦
                  ((invalid_block_address, w.1), rw (needs, w_is, fails) refl, λ h. absurd (cc))
              | inl done ↦
                  let (new_block, new_position) = moved done in
                  let space_w =
                    subst (λ (g : Geometry). HasSpace g n F.tail_codec.size) (sym same) space in
                  let (r, r_is, reserves, in_block) =
                    settle w.1 n space_w (ap is_error w_type ∙ typed)
                      (omega (arith, new_position, space_w.in_block))
                      (inr (omega (arith, new_position))) in
                  (
                    r,
                    rw (needs, w_is, done) r_is,
                    λ h. (
                      subst (λ (g : Geometry). IsReserved g n F.tail_codec.size r.0) same
                          (reserves.reserved h).0,
                      (reserves.reserved h).1,
                      (λ stays. absurd (cc)),
                      λ _ k k_is.
                          let same_block =
                            ap (λ (q : AllocatedBlock × A.State). q.0.block)
                              (some-injective _ _ (sym block_is ∙ k_is)) in
                          (in_block h).0 ∙ (new_block ∙ same_block),
                    ),
                  )
            ]
      ]
