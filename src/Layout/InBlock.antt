-- ===== src/Layout/InBlock.antt =====
-- Appending to and walking over one block of a layout (src/phylum/layout.h).
use consfs.Common.{
  ℕ, ◌+◌, ◌-◌, ◌≤◌, ◌<◌, ◌≡◌, ◌≢◌, ◌^◌, Bool, true, false, some, refl, arith, sym, ◌∙◌, le→leb, u64,
  ==_ne, ==_refl, lt→ltb,
}
use consfs.Addressing.{BlockAddress, Geometry, block_index_invalid, file_sector_size}
use consfs.Addressing.Geom.{block_size}
use consfs.Addressing.Addr.{valid, add, is_beginning_of_block}
use consfs.Addressing.Room.{remaining_in_block-eq}
use consfs.Addressing.TailRoom.{FitsBefore, find_room-FitsBefore, block_size-word}
use consfs.Backend.{Storage, Allocates, Answers, store}
use consfs.Layout.{
  Format, Entry, Layout, geometry, should_move_to_following_block, move_behind_head, take_room,
  find_available, append, append_entry,
}
use consfs.Layout.Reserve.{HasSpace}

module _ (T : Storage) (K : Answers T) (A : Allocates) (F : Format) {E : Type 0}
    (entries : Entry E) where
  abbrev n : ℕ
  n = entries.codec.size

  abbrev t : ℕ
  t = F.tail_codec.size

  -- Two entries and the tail fit in a sector, and in a block behind its head.
  pub record HasRoomForTwo (g : Geometry) : Type 0 where
    pub space : HasSpace g entries.codec.size (entries.codec.size + F.tail_codec.size)
    pub some_byte : 0 < entries.codec.size

  -- The address is behind the head of a block, and two more entries fit there before the tail.
  pub record IsOpen (g : Geometry) (a : BlockAddress) : Type 0 where
    pub real : a.block ≢ block_index_invalid
    pub behind_head : file_sector_size ≤ a.position
    pub before_tail :
        a.position + entries.codec.size + (entries.codec.size + F.tail_codec.size) ≤ block_size g

  pub IsOpen-valid : (g : Geometry) (a : BlockAddress) → 0 < n → IsOpen g a → valid a ≡ true
  unfolding valid
  IsOpen-valid g a some_byte free =
      let word = block_size-word g in
      let left = free.before_tail in
      rw
        (
          ==_ne a.block block_index_invalid free.real,
          ==_ne a.position (2 ^ 32 - 1) (λ e. absurd (omega arith)),
        )
        refl

  pub IsOpen-stays :
      (l : Layout T A F)
      → HasRoomForTwo (geometry T A F l)
      → IsOpen (geometry T A F l) l.address
      → (k : ℕ) → k ≤ n + n
      → should_move_to_following_block T A F l k ≡ false
  unfolding should_move_to_following_block
  IsOpen-stays l two free k small =
      let g = geometry T A F l in
      let word = block_size-word g in
      let left = free.before_tail in
      let exact = remaining_in_block-eq l.address g (omega arith) in
      let same : u64 (k + t) ≡ k + t = omega (arith, two.space.in_block) in
      rw (exact, same, le→leb (k + t) (block_size g - l.address.position) (omega arith)) refl

  -- The bytes of the entry are at the address.
  abbrev pub IsAt : (ℕ → ℕ → ℕ) → BlockAddress → E → Type 0
  IsAt bytes b e =
      (i : ℕ) → i < entries.codec.size → bytes b.block (b.position + i) ≡ entries.codec.encode e i

  -- What an append at an open address does: it writes at the next room, if the storage does.
  pub record Appends (l : Layout T A F) (e : E) (b : BlockAddress) (r : Bool × Layout T A F)
      : Type 0 where
    pub called : append_entry T A F entries l e ≡ some r
    pub room : FitsBefore l.address (geometry T A F l) n (n + t) b
    pub behind : r.1.address ≡ add b n
    pub same_geometry : geometry T A F r.1 ≡ geometry T A F l
    pub written : r.0 ≡ true → IsAt (K.view r.1.storage) b e
    pub kept :
        r.0 ≡ true
        → (block p : ℕ) → p < b.position
        → K.view r.1.storage block p ≡ K.view l.storage block p

  pub append_entry-Appends :
      (l : Layout T A F) (e : E)
      → HasRoomForTwo (geometry T A F l)
      → IsOpen (geometry T A F l) l.address
      → (b : BlockAddress) × (r : Bool × Layout T A F) × Appends l e b r
  unfolding append_entry append find_available move_behind_head take_room is_beginning_of_block
      store
  append_entry-Appends l e two free =
      let g = geometry T A F l in
      let (b, fits) =
        find_room-FitsBefore l.address g n (n + t) two.space.sound two.space.in_sector
          free.before_tail in
      let open_b : IsOpen g b = record {
        real = λ same. free.real (sym fits.same_block ∙ same);
        behind_head = omega (arith, fits.forward, free.behind_head);
        before_tail = fits.before_tail;
      } in
      let real_l = IsOpen-valid g l.address two.some_byte free in
      let real_b = IsOpen-valid g b two.some_byte open_b in
      let stays = IsOpen-stays l two free n (omega arith) in
      let inside = ==_ne l.address.position 0 (λ z. absurd (omega (arith, free.behind_head))) in
      let (w, w_is, w_geometry, wrote) = K.writes l.storage b (entries.codec.encode e) n in
      (
        b,
        (w.0, record l { storage = w.1; address = add b n }),
        record {
          called = rw (real_l, stays, inside, fits.found, real_b, w_is) refl;
          room = fits;
          behind = refl;
          same_geometry = w_geometry;
          written = λ good i small.
              let offset : b.position + i - b.position ≡ i = omega arith in
              wrote good b.block (b.position + i)
              ∙ rw
                  (
                    ==_refl b.block,
                    le→leb b.position (b.position + i) (omega arith),
                    lt→ltb (b.position + i) (b.position + n) (omega arith),
                    offset,
                  )
                  refl;
          kept = λ good block p low. ground (arith, wrote good block p);
        },
      )
