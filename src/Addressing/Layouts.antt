-- ===== src/Addressing/Layouts.antt =====
-- The numbers that addresses are packed into, sectors and offsets, and the geometry of files.
use native.Mathlib.Nat.{div-add-mod, mod-lt, mul-le-mul_right, div-lt_iff_lt-mul, mul-div_right}
use consfs.Common.{
  ℕ, ◌+◌, ◌-◌, ◌*◌, ◌/◌, ◌%◌, ◌^◌, ◌≤◌, ◌<◌, ◌≡◌, ◌↔◌, true, refl, ap, arith, u16, u32, sub32,
  leb→le, le→leb, lt_or_le, inl, inr,
}
use consfs.Addressing.Types.{BlockAddress, Geometry}
use consfs.Addressing.Geom.{block_size, file_geometry}
use consfs.Addressing.Addr.{from, value, sector, sector_offset, of_sector, tail_sector}
use consfs.Addressing.Room.{IsSound, sectors, block_size-eq}

-- Both parts of the address are 32-bit words.
pub record IsWord (a : BlockAddress) : Type 0 where
  pub block_word : a.block < 2 ^ 32
  pub position_word : a.position < 2 ^ 32

-- An address of two 32-bit words is read back from the 64-bit number that `value` packs it into.
pub from-value : (a : BlockAddress) → IsWord a → from (value a) ≡ a
unfolding from value
from-value a w = ground arith

-- A 64-bit number is the value of the address that `from` reads from it.
pub value-from : (v : ℕ) → v < 2 ^ 64 → value (from v) ≡ v
unfolding from value
value-from v h = omega arith

-- In a sound geometry with at most 65536 sectors to a block, the sector of an address inside a block,
-- taken with the offset in it, is that address again.
pub of_sector-sector :
    (a : BlockAddress) (g : Geometry)
    → IsSound g
    → sectors g ≤ 2 ^ 16
    → a.position < block_size g
    → of_sector g (sector a g) (sector_offset a g) ≡ a
unfolding of_sector sector sector_offset
of_sector-sector a g s few h =
    let size = block_size-eq g s in
    let below = mod-lt a.position s.some_sector in
    let split = div-add-mod a.position g.sector_size in
    let q = a.position / g.sector_size in
    let within : q < sectors g = (div-lt_iff_lt-mul s.some_sector).1 (omega arith) in
    let number : u16 q ≡ q = omega arith in
    let offset : u16 (a.position % g.sector_size) ≡ a.position % g.sector_size =
      omega (arith, s.sector_word) in
    let whole : u32 (q * g.sector_size + a.position % g.sector_size) ≡ a.position =
      omega (arith, s.block_word) in
    rw (number, offset, whole) refl

-- The sector that `tail_sector_of` names is the last one of the block, and `tail_sector` recognises
-- it: a position inside the block is in the tail sector exactly when its sector is that one.
pub tail_sector_iff :
    (a : BlockAddress) (g : Geometry)
    → IsSound g
    → 0 < sectors g
    → a.position < block_size g
    → (tail_sector a g ≡ true) ↔ (a.position / g.sector_size + 1 ≡ sectors g)
unfolding tail_sector
tail_sector_iff a g s some h =
    let size = block_size-eq g s in
    let ss = g.sector_size in
    let below = mod-lt a.position s.some_sector in
    let split = div-add-mod a.position ss in
    let q = a.position / ss in
    let within : q < sectors g = (div-lt_iff_lt-mul s.some_sector).1 (omega arith) in
    let one = mul-le-mul_right ss some in
    let start : sub32 (block_size g) ss ≡ block_size g - ss = omega (arith, s.block_word) in
    rw start (
      λ t.
          last (sectors g) ss q (a.position % ss) s.some_sector below within
            (omega (arith, leb→le _ _ t)),
      λ e. le→leb _ _ (omega (arith, ap (λ (k : ℕ). k * ss) e)),
    )
  where
    last : (k ss q r : ℕ) → 0 < ss → r < ss → q < k → k * ss ≤ ss * q + r + ss → q + 1 ≡ k
    last k ss q r pos below within h = elim (lt_or_le (q + 1) k) [
      | inl more ↦ absurd (omega (arith, mul-le-mul_right ss more))
      | inr no_more ↦ omega arith
    ]

file_blocks-eq :
    (g : Geometry) (pages : ℕ)
    → pages < 2 ^ 16
    → block_size g ≡ pages * g.sectors_per_page * 512
    → block_size (record g { first = 0; pages_per_block = u16 pages; sector_size = 512 })
      ≡ block_size g
unfolding block_size
file_blocks-eq g pages few e = let small : u16 pages ≡ pages = omega arith in rw small (omega arith)

-- Where the blocks of a sound geometry are cut exactly into pages of `sectors_per_page` sectors of 512
-- bytes, fewer than 65536 to a block, files see blocks of the same size.
pub block_size-file_geometry :
    (g : Geometry) (pages : ℕ)
    → 0 < g.sectors_per_page
    → pages < 2 ^ 16
    → block_size g ≡ pages * g.sectors_per_page * 512
    → block_size (file_geometry g) ≡ block_size g
unfolding file_geometry
block_size-file_geometry g pages some few e =
    let per : block_size g / 512 ≡ g.sectors_per_page * pages = omega arith in
    rw (per, mul-div_right pages some) (file_blocks-eq g pages few e)
