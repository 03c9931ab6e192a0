-- ===== src/Alloc/Sequence.antt =====
-- Runs of allocations from the sequential and the debugging allocator of src/block_alloc.cpp.
use consfs.Common.{
  ℕ, suc, ◌+◌, ◌^◌, ◌≤◌, ◌<◌, ◌≡◌, false, Option, none, some, List, [], ◌∷◌, refl, arith, lt→ltb,
  le→ltb, add32, ◌>>=◌, update, ==_ne, ==_refl,
}
use consfs.Addressing.{Geometry}
use consfs.Alloc.{
  AllocatedBlock, BlockType, Sequential, allocate_sequential, Debugging, allocate_debugging,
}

-- One allocation for each type, in order.
unfoldable pub allocate_all : List BlockType → Sequential → Option (List ℕ × Sequential)
allocate_all [] a = some ([], a)
allocate_all (type ∷ types) a =
    allocate_sequential a type >>= λ r. allocate_all types r.1 >>= λ s. some (r.0.block ∷ s.0, s.1)

abbrev pub upto : ℕ → List BlockType → List ℕ
upto first [] = []
upto first (type ∷ types) = first ∷ upto (first + 1) types

abbrev pub count : List BlockType → ℕ
count [] = 0
count (type ∷ types) = suc (count types)

-- While the blocks last, the allocations of a run do not stop and give consecutive blocks, from the
-- allocator's next block on, so none twice; the allocator's next block is then the one behind them.
pub allocate_all-upto :
    (types : List BlockType) (a : Sequential) (g : Geometry)
    → a.geometry ≡ some g
    → g.number_of_blocks < 2 ^ 32
    → a.block + count types ≤ g.number_of_blocks
    → allocate_all types a ≡ some (upto a.block types, record a { block = a.block + count types })
unfolding allocate_all allocate_sequential
allocate_all-upto [] a g e small room =
    let stay : a.block + 0 ≡ a.block = omega arith in rw stay refl
allocate_all-upto (type ∷ types) a g e small room =
    let next : add32 a.block 1 ≡ a.block + 1 = omega arith in
    let total : a.block + 1 + count types ≡ a.block + suc (count types) = omega arith in
    rw
      (
        e,
        lt→ltb a.block g.number_of_blocks (omega arith),
        next,
        allocate_all-upto types (record { geometry = some g; block = a.block + 1 }) g refl small
            (omega arith),
        total,
      )
      refl

-- With no block left an allocation stops.
pub allocate_sequential-exhausted :
    (a : Sequential) (g : Geometry) (type : BlockType)
    → a.geometry ≡ some g
    → g.number_of_blocks ≤ a.block
    → allocate_sequential a type ≡ none
unfolding allocate_sequential
allocate_sequential-exhausted a g type e h = rw (e, le→ltb a.block g.number_of_blocks h) refl

-- The blocks that the map of the debugging allocator holds lie before the next one.
abbrev pub IsTracked : Debugging → Type 0
IsTracked a = (b : ℕ) → a.base.block ≤ b → a.allocations b ≡ none

-- Where the next block lies in a geometry of 32-bit size, the assertion of the debugging allocator does
-- not fail: it gives the block that the sequential one gives, records the type of that block alone, and
-- its map stays behind the next block.
pub allocate_debugging-IsTracked :
    (a : Debugging) (g : Geometry) (type : BlockType)
    → a.base.geometry ≡ some g
    → g.number_of_blocks < 2 ^ 32
    → a.base.block < g.number_of_blocks
    → IsTracked a
    → (r : AllocatedBlock × Debugging) × (allocate_debugging a type ≡ some r)
      × (allocate_sequential a.base type ≡ some (r.0, r.1.base))
      × (r.1.allocations r.0.block ≡ some type)
      × ((b : ℕ) → (b ≡ r.0.block → ⊥) → r.1.allocations b ≡ a.allocations b)
      × IsTracked r.1
unfolding allocate_debugging allocate_sequential
allocate_debugging-IsTracked a g type e small room tracked =
    let next : add32 a.base.block 1 ≡ a.base.block + 1 = omega arith in
    (
      (
        record { block = a.base.block; age = 0; erased = false },
        record {
          base = record { geometry = a.base.geometry; block = add32 a.base.block 1 };
          allocations = update a.allocations a.base.block (some type);
        },
      ),
      rw (e, lt→ltb a.base.block g.number_of_blocks room, tracked a.base.block (omega arith)) refl,
      rw (e, lt→ltb a.base.block g.number_of_blocks room) refl,
      rw (==_refl a.base.block) refl,
      λ b ne. rw (==_ne b a.base.block ne) refl,
      λ b h. rw (==_ne b a.base.block (λ f. absurd (omega arith))) (tracked b (omega arith)),
    )
