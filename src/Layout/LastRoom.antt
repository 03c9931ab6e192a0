-- ===== src/Layout/LastRoom.antt =====
-- Where `append` and `walk` of src/phylum/layout.h disagree: the last room of a block.
use consfs.Common.{
  ℕ, ◌+◌, ◌-◌, ◌*◌, ◌≤◌, ◌<◌, ◌≡◌, ◌^◌, Bool, true, false, not, ◌&&◌, none, some, leb, refl, arith,
  le→leb, le→leb_false, u64,
}
use consfs.Addressing.{is_valid_block}
use consfs.Addressing.Geom.{block_size}
use consfs.Addressing.Addr.{valid, tail_data_of}
use consfs.Addressing.Room.{remaining_in_block-eq}
use consfs.Addressing.TailRoom.{block_size-word}
use consfs.Backend.{Storage, Allocates, load}
use consfs.Layout.{
  Format, Entry, Layout, geometry, needs_block, should_move_to_following_block, walk, start_walk,
  follow_tail,
}

module _ (T : Storage) (A : Allocates) (F : Format) {E : Type 0} (entries : Entry E) where
  moves_iff :
      (l : Layout T A F) (k : ℕ)
      → l.address.position ≤ block_size (geometry T A F l)
      → k + F.tail_codec.size < 2 ^ 64
      → should_move_to_following_block T A F l k
        ≡ not (leb (k + F.tail_codec.size) (block_size (geometry T A F l) - l.address.position))
  unfolding should_move_to_following_block
  moves_iff l k inside word =
      let same : u64 (k + F.tail_codec.size) ≡ k + F.tail_codec.size = omega arith in
      rw (same, remaining_in_block-eq l.address (geometry T A F l) inside) refl

  -- At an address from which one more entry and the tail fit in the block, but not two, an append needs
  -- no new block, while a walk that is to read there an entry next does not read it: it follows the
  -- tail, and returns false if the tail links to no block.
  pub walk-last_room :
      (l : Layout T A F) (r : Bool × F.Tail)
      → valid l.iterator ≡ true
      → l.iterator.position + entries.codec.size + F.tail_codec.size ≤ block_size (geometry T A F l)
      → block_size (geometry T A F l)
        < l.iterator.position + entries.codec.size * 2 + F.tail_codec.size
      → load T F.tail_codec l.storage
          (tail_data_of l.iterator.block (geometry T A F l) F.tail_codec.size)
        ≡ some r
      → (r.0 && is_valid_block (F.linked r.1)) ≡ false
      → (needs_block T A F (record l { address = l.iterator }) entries.codec.size ≡ false)
        × (walk T A F entries l ≡ some (none, record l { address = l.iterator }))
  unfolding walk start_walk follow_tail
  walk-last_room l r real one two tail unlinked =
      let g = geometry T A F l in
      let n = entries.codec.size in
      let t = F.tail_codec.size in
      let word = block_size-word g in
      let at_it : Layout T A F = record l { address = l.iterator } in
      let stays = moves_iff at_it n (omega (arith, one)) (omega (arith, one, word)) in
      let moves = moves_iff at_it (n * 2) (omega (arith, one)) (omega (arith, one, word)) in
      (
        rw (real, stays, le→leb (n + t) (block_size g - l.iterator.position) (omega (arith, one)))
            refl,
        rw
            (
              real,
              moves,
              le→leb_false (n * 2 + t) (block_size g - l.iterator.position)
                  (omega (arith, two, one)),
              tail,
              unlinked,
            )
            refl,
      )
