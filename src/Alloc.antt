-- ===== src/Alloc.antt =====
-- src/phylum/block_alloc.h and src/block_alloc.cpp: the allocators that need no storage. `none` is a
-- failed assertion. The geometry is a reference that `initialize` sets.
pub mod Sequence
pub mod Pool
use consfs.Common.{
  ℕ, zero, suc, ◌+◌, ◌-◌, ◌^◌, Bool, true, false, not, Option, none, some, List, [], ◌∷◌, ◌++◌, ltb,
  ◌==◌, if◌then◌else◌, add32, ◌>>=◌, ◌>>◌, check, update,
}
use consfs.Addressing.{Geometry, block_index_invalid, is_valid_block}

-- `enum class BlockType` of src/phylum/private.h.
pub data BlockType : Type 0 where
  zero_block anchor super_block_link super_block journal : BlockType
  file leaf_block index free_block error unallocated : BlockType

pub record AllocatedBlock : Type 0 where
  pub block : ℕ
  pub age : ℕ
  pub erased : Bool

unfoldable pub allocated_valid : AllocatedBlock → Bool
unfolding is_valid_block
allocated_valid a = is_valid_block a.block

-- `EmptyAllocator::allocate`
unfoldable pub allocate_nothing : BlockType → AllocatedBlock
allocate_nothing type = record { block = block_index_invalid; age = 0; erased = false }

-- `SequentialBlockAllocator`; `block` is a uint32_t.
pub record Sequential : Type 0 where
  pub geometry : Option Geometry
  pub block : ℕ

abbrev pub new_sequential : Sequential
new_sequential = record { geometry = none; block = 3 }

unfoldable pub initialize_sequential : Sequential → Geometry → Sequential × Bool
initialize_sequential a g = (record a { geometry = some g }, true)

-- The argument and result of `state` are the `head` of an `AllocatorState`.
unfoldable pub save_state : Sequential → ℕ
save_state a = a.block

unfoldable pub restore_state : Sequential → ℕ → Sequential
restore_state a head = record a { block = head }

unfoldable pub allocate_sequential : Sequential → BlockType → Option (AllocatedBlock × Sequential)
allocate_sequential a type = do
  g ← a.geometry
  check (ltb a.block g.number_of_blocks)
  some (record { block = a.block; age = 0; erased = false }, record a { block = add32 a.block 1 })

unfoldable pub free_sequential : Sequential → ℕ → ℕ → Sequential × Bool
free_sequential a block age = (a, true)

-- `DebuggingBlockAllocator`, with its map from blocks to types.
pub record Debugging : Type 0 where
  pub base : Sequential
  pub allocations : ℕ → Option BlockType

abbrev pub is_absent : Option BlockType → Bool
is_absent none = true
is_absent (some type) = false

unfoldable pub allocate_debugging : Debugging → BlockType → Option (AllocatedBlock × Debugging)
allocate_debugging a type = do
  r ← allocate_sequential a.base type
  check (is_absent (a.allocations r.0.block))
  some (r.0, record { base = r.1; allocations = update a.allocations r.0.block (some type) })

-- `QueueBlockAllocator`; the head of the list is the front of the queue.
pub record Queued : Type 0 where
  pub geometry : Option Geometry
  pub initialized : Bool
  pub free : List ℕ

abbrev pub new_queued : Queued
new_queued = record { geometry = none; initialized = false; free = [] }

unfoldable pub initialize_queued : Queued → Geometry → Queued × Bool
initialize_queued a g = (record a { geometry = some g }, true)

unfoldable pub free_queued : Queued → ℕ → ℕ → Queued × Bool
free_queued a block age = (record a { free = a.free ++ (block ∷ []) }, true)

-- `for (auto i = first; ...; ++i) free(i, 0);`, `count` times.
unfoldable pub fill : ℕ → ℕ → List ℕ → List ℕ
fill zero first free = free
fill (suc count) first free = fill count (first + 1) (free ++ (first ∷ []))

-- `(int32_t)number_of_blocks` is negative from 2 ^ 31 on, and the loop is not entered.
abbrev pub blocks_to_fill : Geometry → ℕ
blocks_to_fill g = if ltb g.number_of_blocks (2 ^ 31) then g.number_of_blocks - 3 else 0

unfoldable pub prepare : Queued → Geometry → List ℕ
prepare a g = if a.initialized then a.free else fill (blocks_to_fill g) 3 a.free

unfoldable pub pop_front : Queued → List ℕ → Option (AllocatedBlock × Queued)
pop_front a [] = none
pop_front a (block ∷ rest) = some (
  record { block = block; age = 0; erased = false },
  record a { initialized = true; free = rest },
)

unfoldable pub allocate_queued : Queued → BlockType → Option (AllocatedBlock × Queued)
allocate_queued a type = a.geometry >>= λ g. pop_front a (prepare a g)
