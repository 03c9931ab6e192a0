-- ===== src/Tests/Reclaiming.antt =====
-- Blocks that are reclaimed, on storage that never fails.
use consfs.Common.{
  ℕ, ◌≡◌, Bool, true, false, not, ◌||◌, some, [], ◌∷◌, ◌==◌, if◌then◌else◌, refl, arith, Bool-cases,
  inl, inr,
}
use consfs.Addressing.{sector_address_valid}
use consfs.Addressing.Addr.{of_sector}
use consfs.Addressing.Geom.{sectors_per_block}
use consfs.Backend.{load, magic_valid, new_head}
use consfs.SerialFlash.{Map}
use consfs.SerialFlash.Map.{IsBytes}
use consfs.SuperBlocks.{
  read_link, is_newer, find_link_from, find_link, find_anchor, follow_chain, walk_chain,
  walk_visited, new_link,
}
use consfs.Reclaimer.{Reclaimer, reclaim}
use consfs.Reclaimer.Keeps.{among, untracked, reclaim-Keeps}
use consfs.Tests.Flat.{flat, flat_answers}
use consfs.Tests.SuperBlocks.{reusing, numbered, manager}
use consfs.Tests.Flash.{head_codec, flash, clear-IsBytes, used}

-- The anchors and the block 3 are tracked.
abbrev tracked : Map
tracked i = if i == 0 then 15 else 0

tracked-IsBytes : IsBytes tracked
tracked-IsBytes i = elim (Bool-cases (i == 0)) [
  | inl first ↦ rw first (omega arith)
  | inr later ↦ rw later (omega arith)
]

abbrev reclaimer : Reclaimer flat head_codec
reclaimer = record { flash = flash; tracker = tracked }

walked :
    walk_visited flat reusing numbered (record manager { storage = used })
    ≡ some (false, 0 ∷ 0 ∷ 0 ∷ [])
unfolding walk_visited walk_chain find_anchor follow_chain find_link find_link_from read_link
    is_newer load magic_valid new_head new_link of_sector sectors_per_block sector_address_valid
walked = refl

reclaim-Keeps_example :
    (ok : Bool) × (q : Reclaimer flat head_codec) × (reclaim flat head_codec reusing numbered
        manager reclaimer
      ≡ some (ok, q))
    × (ok ≡ true
        → (k p : ℕ) → (among k (0 ∷ 0 ∷ 0 ∷ []) || not (untracked tracked k)) ≡ true
        → q.flash.storage k p ≡ used k p)
reclaim-Keeps_example =
    reclaim-Keeps flat flat_answers head_codec reusing numbered manager reclaimer false
      (0 ∷ 0 ∷ 0 ∷ []) walked (omega arith) clear-IsBytes tracked-IsBytes
