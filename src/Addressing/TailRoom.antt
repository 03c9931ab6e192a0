-- ===== src/Addressing/TailRoom.antt =====
-- `find_room` where a tail of the block has to stay free: a block ends with a whole sector, so an entry
-- that is moved to the next sector still ends before the tail.
use native.Mathlib.Nat.{div-add-mod, mod-lt, mul-mod_right}
use consfs.Common.{
  ℕ, ◌+◌, ◌-◌, ◌*◌, ◌/◌, ◌%◌, ◌≤◌, ◌<◌, ◌^◌, ◌≡◌, sym, ap, Bool, true, Option, none, some, arith,
  add32, lt_or_le, le→ltb, le→leb, le→leb_false, refl, inl, inr,
}
use consfs.Addressing.Types.{BlockAddress, Geometry}
use consfs.Addressing.Geom.{block_size}
use consfs.Addressing.Addr.{add, follow, find_room, add_or_move_to_following_sector}
use consfs.Addressing.Room.{
  IsSound, sectors, block_size-eq, next_sector_fits, remaining_in_sector-eq, remaining_in_block-eq,
}

-- The bytes of a block are fewer than 2 ^ 32.
pub block_size-word : (g : Geometry) → block_size g < 2 ^ 32
unfolding block_size
block_size-word g = omega arith

-- What `find_room` gives for `n` bytes from `a`, with `t` bytes at the end of the block kept free.
pub record FitsBefore (a : BlockAddress) (g : Geometry) (n t : ℕ) (b : BlockAddress) : Type 0 where
  pub found : find_room a g n ≡ some (true, b)
  pub in_sector : b.position % g.sector_size + n ≤ g.sector_size
  pub before_tail : b.position + n + t ≤ block_size g
  pub same_block : b.block ≡ a.block
  pub forward : a.position ≤ b.position
  pub stays : a.position % g.sector_size + n ≤ g.sector_size → b.position ≡ a.position

pub find_room-FitsBefore :
    (a : BlockAddress) (g : Geometry) (n t : ℕ)
    → IsSound g
    → n + t ≤ g.sector_size
    → a.position + n + t ≤ block_size g
    → (b : BlockAddress) × FitsBefore a g n t b
unfolding find_room follow
find_room-FitsBefore a g n t s h room =
    let ss = g.sector_size in
    let q = a.position / ss in
    let r = a.position % ss in
    let size = block_size-eq g s in
    let decomposed = div-add-mod a.position ss in
    let below = mod-lt a.position s.some_sector in
    let bound = s.block_word in
    let enough = le→ltb (block_size g - a.position) n (omega arith) in
    elim (lt_or_le ss (r + n)) [
      | inl full ↦
          let next = next_sector_fits (sectors g) ss q r (n + t) h (omega arith) (omega arith) in
          let skip : add32 a.position (ss - r) ≡ ss * (q + 1) = omega arith in
          (
            record a { position = ss * (q + 1) },
            record {
              found =
                  rw
                    (
                      le→leb n ss (omega arith),
                      remaining_in_block-eq a g (omega arith),
                      enough,
                      remaining_in_sector-eq a g s,
                      le→leb_false n (ss - r) (omega arith),
                      skip,
                    )
                    refl;
              in_sector = rw (mul-mod_right ss (q + 1)) (omega arith);
              before_tail = omega arith;
              same_block = refl;
              forward = omega arith;
              stays = λ fits. absurd (omega arith);
            },
          )
      | inr fits ↦ (
        a,
        record {
          found =
              rw
                (
                  le→leb n ss (omega arith),
                  remaining_in_block-eq a g (omega arith),
                  enough,
                  remaining_in_sector-eq a g s,
                  le→leb n (ss - r) (omega arith),
                )
                refl;
          in_sector = fits;
          before_tail = room;
          same_block = refl;
          forward = omega arith;
          stays = λ _. refl;
        },
      )
    ]

-- Where `find_room` leaves an address, or the address itself where it fails.
abbrev pub landing : BlockAddress → Option (Bool × BlockAddress) → BlockAddress
landing a none = a
landing a (some r) = r.1

unfoldable pub room_at : Geometry → ℕ → BlockAddress → BlockAddress
room_at g n a = landing a (find_room a g n)

pub FitsBefore-room_at :
    (a : BlockAddress) (g : Geometry) (n t : ℕ) (b : BlockAddress)
    → FitsBefore a g n t b
    → room_at g n a ≡ b
unfolding room_at
FitsBefore-room_at a g n t b fits = ap (landing a) fits.found

find_room-follow :
    (a : BlockAddress) (g : Geometry) (n : ℕ)
    → n ≤ g.sector_size
    → a.position + n ≤ block_size g
    → find_room a g n ≡ some (true, follow a g n)
unfolding find_room
find_room-follow a g n small room =
    rw
      (
        le→leb n g.sector_size small,
        remaining_in_block-eq a g (omega (arith, room)),
        le→ltb (block_size g - a.position) n (omega (arith, room)),
      )
      refl

-- The next address of a reader is where a writer finds the room for the next entry.
pub add_or_move-room_at :
    (b : BlockAddress) (g : Geometry) (n : ℕ)
    → IsSound g
    → n ≤ g.sector_size
    → b.position % g.sector_size + n ≤ g.sector_size
    → b.position + n + n ≤ block_size g
    → add_or_move_to_following_sector b g n ≡ some (true, room_at g n (add b n))
unfolding room_at add_or_move_to_following_sector add
add_or_move-room_at b g n s small in_sector room =
    let word = block_size-word g in
    let next : add32 b.position n ≡ b.position + n = omega (arith, word, room) in
    let behind : BlockAddress = record b { position = add32 b.position n } in
    let found = find_room-follow behind g n small (omega (arith, next, room)) in
    rw
      (
        le→leb n g.sector_size small,
        remaining_in_block-eq b g (omega (arith, room)),
        remaining_in_sector-eq b g s,
        le→leb n (g.sector_size - b.position % g.sector_size) (omega (arith, in_sector)),
        le→ltb (block_size g - b.position) n (omega (arith, room)),
      )
      (ap (λ (c : BlockAddress). some (true, c)) (sym (ap (landing behind) found)))
