-- ===== src/Tests/Allocators.antt =====
-- Allocations in geometries of 8 and of 4 blocks.
use consfs.Common.{ℕ, ◌≤◌, ◌≡◌, true, false, none, some, [], ◌∷◌, refl, arith}
use consfs.Addressing.{Geometry}
use consfs.Alloc.{
  AllocatedBlock, BlockType, Sequential, allocate_sequential, Debugging, allocate_debugging, Queued,
  initialize_queued, fill, prepare, pop_front, allocate_queued,
}
use consfs.Alloc.Sequence.{allocate_all, allocate_all-upto, IsTracked, allocate_debugging-IsTracked}
use consfs.Alloc.Pool.{Reach, Step, count, managed, Reach-count, allocate_queued-none}

abbrev blocks : ℕ → Geometry
blocks n = record {
  first = 0;
  number_of_blocks = n;
  pages_per_block = 4;
  sectors_per_page = 4;
  sector_size = 512;
}

abbrev sequential : Sequential
sequential = record { geometry = some (blocks 8); block = 3 }

allocate_all-upto_example :
    allocate_all (BlockType.leaf_block ∷ BlockType.file ∷ []) sequential
    ≡ some (3 ∷ 4 ∷ [], record { geometry = some (blocks 8); block = 5 })
allocate_all-upto_example =
    allocate_all-upto (BlockType.leaf_block ∷ BlockType.file ∷ []) sequential (blocks 8) refl
      (omega arith) (omega arith)

abbrev debugging : Debugging
debugging = record { base = sequential; allocations = λ b. none }

allocate_debugging-IsTracked_example :
    (r : AllocatedBlock × Debugging) × (allocate_debugging debugging BlockType.index ≡ some r)
    × (allocate_sequential sequential BlockType.index ≡ some (r.0, r.1.base))
    × (r.1.allocations r.0.block ≡ some BlockType.index)
    × ((b : ℕ) → (b ≡ r.0.block → ⊥) → r.1.allocations b ≡ none)
    × IsTracked r.1
allocate_debugging-IsTracked_example =
    allocate_debugging-IsTracked debugging (blocks 8) BlockType.index refl (omega arith)
      (omega arith) (λ b h. refl)

abbrev queue : ℕ → Queued
queue n = record { geometry = some (blocks n); initialized = false; free = [] }

-- The blocks 3 to 7 are filled in; the first is taken.
taken :
    allocate_queued (queue 8) BlockType.file
    ≡ some (
      record { block = 3; age = 0; erased = false },
      record { geometry = some (blocks 8); initialized = true; free = 4 ∷ 5 ∷ 6 ∷ 7 ∷ [] },
    )
unfolding allocate_queued prepare pop_front fill
taken = refl

one_held :
    Reach
      (blocks 8)
      (record { geometry = some (blocks 8); initialized = true; free = 4 ∷ 5 ∷ 6 ∷ 7 ∷ [] })
      (3 ∷ [])
unfolding initialize_queued
one_held = Reach.next Reach.start (Step.take BlockType.file _ taken)

Reach-count_example :
    (count 3 (3 ∷ []) ≤ 1)
    × (1 ≤ count 3 (3 ∷ [])
        → (managed (blocks 8) 3 ≡ 1)
          × (count 3 (
                prepare
                  (record {
                    geometry = some (blocks 8);
                    initialized = true;
                    free = 4 ∷ 5 ∷ 6 ∷ 7 ∷ [];
                  })
                  (blocks 8))
              ≡ 0))
    × (managed (blocks 8) 3 ≡ 1
        → count 3 (3 ∷ []) ≡ 0
        → count 3 (
            prepare
              (record { geometry = some (blocks 8); initialized = true; free = 4 ∷ 5 ∷ 6 ∷ 7 ∷ [] })
              (blocks 8))
          ≡ 1)
Reach-count_example = Reach-count 3 one_held

-- Of 4 blocks one is managed; it is taken.
abbrev emptied : Queued
emptied = record { geometry = some (blocks 4); initialized = true; free = [] }

last_taken :
    allocate_queued (queue 4) BlockType.file
    ≡ some (record { block = 3; age = 0; erased = false }, emptied)
unfolding allocate_queued prepare pop_front fill
last_taken = refl

all_held : Reach (blocks 4) emptied (3 ∷ [])
unfolding initialize_queued
all_held = Reach.next Reach.start (Step.take BlockType.file _ last_taken)

nothing_left : allocate_queued emptied BlockType.file ≡ none
unfolding allocate_queued prepare pop_front
nothing_left = refl

allocate_queued-none_example : count 3 (3 ∷ []) ≡ managed (blocks 4) 3
allocate_queued-none_example = allocate_queued-none BlockType.file 3 all_held nothing_left
