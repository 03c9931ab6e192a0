-- ===== src/Addressing/Room.antt =====
-- What `find_room` and `add_or_move_to_following_sector` leave: space that crosses no sector boundary
-- and stays inside the block.
use native.Mathlib.Nat.{div-add-mod, mod-lt, mul-le-mul_right, mul-mod_right}
use consfs.Common.{
  ℕ, ◌+◌, ◌-◌, ◌*◌, ◌/◌, ◌%◌, ◌^◌, ◌≤◌, ◌<◌, ◌≡◌, Bool, true, false, Option, none, some, arith,
  add32, lt_or_le, lt→ltb, le→ltb, le→leb, le→leb_false, refl, inl, inr,
}
use consfs.Addressing.Types.{BlockAddress, Geometry}
use consfs.Addressing.Geom.{block_size}
use consfs.Addressing.Addr.{
  remaining_in_block, remaining_in_sector, follow, find_room, add_or_move_to_following_sector,
}

-- A geometry whose sizes fit their machine words and divide a block into whole sectors.
pub record IsSound (g : Geometry) : Type 0 where
  pub some_sector : 0 < g.sector_size
  pub sector_word : g.sector_size < 2 ^ 16
  pub block_word : g.pages_per_block * g.sectors_per_page * g.sector_size < 2 ^ 32

abbrev pub sectors : Geometry → ℕ
sectors g = g.pages_per_block * g.sectors_per_page

pub block_size-eq : (g : Geometry) → IsSound g → block_size g ≡ sectors g * g.sector_size
unfolding block_size
block_size-eq g s = omega arith

-- The `n` bytes at the address lie in one sector and in the block.
pub record HasRoom (a : BlockAddress) (g : Geometry) (n : ℕ) : Type 0 where
  pub in_sector : a.position % g.sector_size + n ≤ g.sector_size
  pub in_block : a.position + n ≤ block_size g

-- Behind a sector that is too full there is a whole sector, if the block has room for the bytes.
pub next_sector_fits :
    (k ss q r n : ℕ) → n ≤ ss → ss * q + r + n ≤ k * ss → ss < r + n → ss * (q + 1) + ss ≤ k * ss
next_sector_fits k ss q r n h room full = elim (lt_or_le (q + 1) k) [
  | inl more ↦ omega (arith, mul-le-mul_right ss more)
  | inr last ↦ omega (arith, mul-le-mul_right ss last)
]

-- Where `follow` goes.
record Follows (a : BlockAddress) (g : Geometry) (n : ℕ) (b : BlockAddress) : Type 0 where
  pub room : HasRoom b g n
  pub same_block : b.block ≡ a.block
  pub forward : a.position ≤ b.position
  pub near : b.position < a.position + g.sector_size

pub remaining_in_sector-eq :
    (a : BlockAddress) (g : Geometry)
    → IsSound g
    → remaining_in_sector a g ≡ g.sector_size - a.position % g.sector_size
unfolding remaining_in_sector
remaining_in_sector-eq a g s = omega (arith, mod-lt a.position s.some_sector, s.sector_word)

pub remaining_in_block-eq :
    (a : BlockAddress) (g : Geometry)
    → a.position ≤ block_size g
    → remaining_in_block a g ≡ block_size g - a.position
unfolding remaining_in_block block_size
remaining_in_block-eq a g h = omega arith

follow-Follows :
    (a : BlockAddress) (g : Geometry) (n : ℕ)
    → IsSound g
    → n ≤ g.sector_size
    → a.position + n ≤ block_size g
    → Follows a g n (follow a g n)
unfolding follow
follow-Follows a g n s h room =
    let ss = g.sector_size in
    let q = a.position / ss in
    let r = a.position % ss in
    let size = block_size-eq g s in
    let decomposed = div-add-mod a.position ss in
    let below = mod-lt a.position s.some_sector in
    let bound = s.block_word in
    elim (lt_or_le ss (r + n)) [
      | inl full ↦
          let next = next_sector_fits (sectors g) ss q r n h (omega arith) full in
          let skip : add32 a.position (ss - r) ≡ ss * (q + 1) = omega arith in
          rw (remaining_in_sector-eq a g s, le→leb_false n (ss - r) (omega arith), skip)
            (record {
              room = record {
                in_sector = rw (mul-mod_right ss (q + 1)) (omega arith);
                in_block = omega arith;
              };
              same_block = refl;
              forward = omega arith;
              near = omega arith;
            })
      | inr fits ↦ rw (remaining_in_sector-eq a g s, le→leb n (ss - r) (omega arith)) (omega arith)
    ]

-- What a call of `find_room` from `a` may return.
abbrev pub FindsRoom : BlockAddress → Geometry → ℕ → Option (Bool × BlockAddress) → Type 0
FindsRoom a g n none = ⊥
FindsRoom a g n (some (false, b)) = (b ≡ a) × (block_size g < a.position + n)
FindsRoom a g n (some (true, b)) =
    HasRoom b g n
    × (b.block ≡ a.block)
    × (a.position ≤ b.position)
    × (b.position < a.position + g.sector_size)

-- In a sound geometry, from a position of the block and for at most a sector of bytes, `find_room`
-- does not stop. It fails, with the address unchanged, only where the rest of the block is too
-- short; otherwise the new address is in the same block, less than a sector further on, and its
-- `n` bytes cross no sector boundary and do not leave the block.
pub find_room-FindsRoom :
    (a : BlockAddress) (g : Geometry) (n : ℕ)
    → IsSound g
    → a.position ≤ block_size g
    → n ≤ g.sector_size
    → FindsRoom a g n (find_room a g n)
unfolding find_room
find_room-FindsRoom a g n s p h = elim (lt_or_le (block_size g - a.position) n) [
  | inl short ↦
      rw (le→leb n g.sector_size h, remaining_in_block-eq a g p, lt→ltb _ n short)
        (refl, omega arith)
  | inr enough ↦
      let f = follow-Follows a g n s h (omega arith) in
      rw (le→leb n g.sector_size h, remaining_in_block-eq a g p, le→ltb _ n enough)
        (f.room, f.same_block, f.forward, f.near)
]

-- `follow` from a position that may leave fewer than `n` bytes in the block.
record FollowsInSector (a : BlockAddress) (g : Geometry) (n : ℕ) (b : BlockAddress) : Type 0 where
  pub in_sector : b.position % g.sector_size + n ≤ g.sector_size
  pub same_block : b.block ≡ a.block
  pub forward : a.position ≤ b.position
  pub in_block : b.position ≤ block_size g

follow-FollowsInSector :
    (a : BlockAddress) (g : Geometry) (n : ℕ)
    → IsSound g
    → n ≤ g.sector_size
    → a.position ≤ block_size g
    → FollowsInSector a g n (follow a g n)
unfolding follow
follow-FollowsInSector a g n s h room =
    let ss = g.sector_size in
    let q = a.position / ss in
    let r = a.position % ss in
    let size = block_size-eq g s in
    let decomposed = div-add-mod a.position ss in
    let below = mod-lt a.position s.some_sector in
    let bound = s.block_word in
    elim (lt_or_le ss (r + n)) [
      | inl full ↦
          let next = next_boundary (sectors g) ss q r (omega arith) (omega arith) in
          let skip : add32 a.position (ss - r) ≡ ss * (q + 1) = omega arith in
          rw (remaining_in_sector-eq a g s, le→leb_false n (ss - r) (omega arith), skip)
            (record {
              in_sector = rw (mul-mod_right ss (q + 1)) (omega arith);
              same_block = refl;
              forward = omega arith;
              in_block = omega arith;
            })
      | inr fits ↦ rw (remaining_in_sector-eq a g s, le→leb n (ss - r) (omega arith)) (omega arith)
    ]
  where
    next_boundary : (k ss q r : ℕ) → 0 < r → ss * q + r ≤ k * ss → ss * (q + 1) ≤ k * ss
    next_boundary k ss q r h room = elim (lt_or_le q k) [
      | inl more ↦ omega (arith, mul-le-mul_right ss more)
      | inr last ↦ omega (arith, mul-le-mul_right ss last)
    ]

-- What a call of `add_or_move_to_following_sector` from `a` may return.
abbrev pub AddsOrMoves : BlockAddress → Geometry → ℕ → Option (Bool × BlockAddress) → Type 0
AddsOrMoves a g n none = ⊥
AddsOrMoves a g n (some (false, b)) = (b ≡ a) × (block_size g < a.position + n)
AddsOrMoves a g n (some (true, b)) =
    (b.position % g.sector_size + n ≤ g.sector_size)
    × (b.block ≡ a.block)
    × (a.position ≤ b.position)
    × (b.position ≤ block_size g)
    × (a.position % g.sector_size + n ≤ g.sector_size → a.position + n ≤ b.position)

-- In a sound geometry, from a position of the block and for at most a sector of bytes,
-- `add_or_move_to_following_sector` does not stop. It fails, with the address unchanged, only where
-- the rest of the block is too short; otherwise the new address is in the same block, not beyond its
-- end, behind the `n` bytes at the old one if those fit in their sector, and `n` more bytes from it
-- cross no sector boundary.
pub add_or_move-AddsOrMoves :
    (a : BlockAddress) (g : Geometry) (n : ℕ)
    → IsSound g
    → a.position ≤ block_size g
    → n ≤ g.sector_size
    → AddsOrMoves a g n (add_or_move_to_following_sector a g n)
unfolding add_or_move_to_following_sector
add_or_move-AddsOrMoves a g n s p h = elim (lt_or_le (block_size g - a.position) n) [
  | inl short ↦
      rw (le→leb n g.sector_size h, remaining_in_block-eq a g p, lt→ltb _ n short)
        (refl, omega arith)
  | inr enough ↦
      let size = block_size-eq g s in
      let bound = s.block_word in
      let below = mod-lt a.position s.some_sector in
      let sum : add32 a.position n ≡ a.position + n = omega arith in
      let added : BlockAddress = record { block = a.block; position = a.position + n } in
      let room = g.sector_size - a.position % g.sector_size in
      elim (lt_or_le room n) [
        | inl full ↦
            let f = follow-FollowsInSector a g n s h p in
            rw
              (
                le→leb n g.sector_size h,
                remaining_in_block-eq a g p,
                le→ltb _ n enough,
                remaining_in_sector-eq a g s,
                le→leb_false n room full,
              )
              (f.in_sector, f.same_block, f.forward, f.in_block, λ fits. absurd (omega arith))
        | inr fits ↦
            let f = follow-FollowsInSector added g n s h (omega arith) in
            rw
              (
                le→leb n g.sector_size h,
                remaining_in_block-eq a g p,
                le→ltb _ n enough,
                remaining_in_sector-eq a g s,
                le→leb n room fits,
                sum,
              )
              (f.in_sector, f.same_block, omega (arith, f.forward), f.in_block, λ _. f.forward)
      ]
]
