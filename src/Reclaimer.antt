-- ===== src/Reclaimer.antt =====
-- src/unused_block_reclaimer.cpp: erasing blocks that no file and no super block holds. The files' storage
-- is that of the allocator and of the super blocks.
pub mod Keeps
use consfs.Common.{
  ℕ, zero, suc, ◌+◌, Bool, true, false, not, Option, some, List, [], ◌∷◌, if◌then◌else◌, ◌>>=◌,
  ◌>>◌,
}
use consfs.Addressing.{BlockAddress}
use consfs.Backend.{Storage, Codec, BlockHead}
use consfs.Blocked.{FileFormat, Supply, OpenMode, new_file}
use consfs.Blocked.Seek.{Visitor, walk_file}
use consfs.SuperBlocks.{SuperBlock, Reuses, Manager, walk_visited}
use consfs.SerialFlash.{Map, Flash, is_taken, visit_block, is_free, initialize_flash}

unfoldable pub visit_all : List ℕ → Map → Option Map
visit_all [] map = some map
visit_all (block ∷ rest) map = visit_block map block >>= λ m. visit_all rest m

module _ (T : Storage) (heads : Codec BlockHead) where
  pub record Reclaimer : Type 0 where
    pub flash : Flash T heads
    pub tracker : Map

  -- One round of the loop of `reclaim`; false where an erase fails.
  unfoldable pub reclaim_block : Reclaimer → ℕ → Option (Bool × Reclaimer)
  reclaim_block r block = is_free r.tracker block >>= λ free.
      if not free
      then some (true, r)
      else is_taken T heads r.flash.storage block >>= λ head.
          if not head.0
          then some (true, r)
          else T.erase r.flash.storage block >>= λ e.
              some (e.0, record r { flash = record r.flash { storage = e.1 } })

  unfoldable pub reclaim_from : ℕ → ℕ → Reclaimer → Option (Bool × Reclaimer)
  reclaim_from zero block r = some (true, r)
  reclaim_from (suc left) block r = reclaim_block r block >>= λ q.
      let rest = reclaim_from left (block + 1) q.1 in if q.0 then rest else some (false, q.1)

  -- What the walk along the super blocks returns is not looked at.
  unfoldable pub reclaim :
      (B : Reuses) (P : SuperBlock) → Manager T B P → Reclaimer → Option (Bool × Reclaimer)
  reclaim B P m r = walk_visited T B P (record m { storage = r.flash.storage }) >>= λ w.
      visit_all w.1 r.tracker >>= λ tracker.
      reclaim_from (T.geometry r.flash.storage).number_of_blocks 0 (record r { tracker = tracker })
      >>= λ q.
          if not q.0
          then some (false, q.1)
          else initialize_flash T heads q.1.flash >>= λ f. some (f.0, record q.1 { flash = f.1 })

  -- `walk`, with `Files::open` and the blocks of the file told to the tracker. The allocation of the file is
  -- not used; what the walk along the file returns is not looked at.
  module _ (S : Supply T) (F : FileFormat) where
    unfoldable pub track_block : Visitor T S F Map
    track_block block position v = visit_block v.1 block >>= λ m. some (v.0, m)

    unfoldable pub track_file :
        ℕ → S.State → BlockAddress → (ℕ → ℕ) → Reclaimer → Option (Bool × Reclaimer)
    track_file fuel supply address garbage r =
        walk_file T S F fuel track_block
          (new_file T S F r.flash.storage supply 0 OpenMode.read address garbage, r.tracker)
        >>= λ w. some (true, record r { tracker = w.1.1 })
