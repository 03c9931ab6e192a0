-- ===== src/Tree/Remove.antt =====
-- `remove` of src/phylum/tree.h: the value of the key becomes 0, which `find` reports as absent.
use consfs.Common.{
  ℕ, zero, suc, ◌≤◌, ◌<◌, ◌≡◌, Bool, true, some, refl, sym, arith, lt_or_le, inl, inr, update, ◌∙◌,
  lt→ltb, ==_iff, eq_or_ne,
}
use consfs.Keys.{before, before_or_at}
use consfs.Keys.Position.{IsPos, position, leaf_position_for-eq, inner_position_for-eq}
use consfs.Tree.{LeafNode, Node, null, leaf, inner, Tree}
use consfs.Tree.Find.{find_at, find, leaf_find, leaf_remove, remove_at, remove}
use consfs.Tree.Invariant.{IsNode, IsTree, lower, upper}
use consfs.Tree.InnerFind.{find_at-inner, lower-le, lt-upper}
use consfs.Tree.InnerLink.{replaced}
use consfs.Tree.LeafFind.{leaf_find-miss}
use consfs.Tree.LeafOverwrite.{after, overwritten, overwritten-Put}
use consfs.Tree.Add.{IsWide}
use consfs.Tree.Grown.{Kept}

module _ (inner_width leaf_width : ℕ) (wide : IsWide inner_width leaf_width) where
  -- A key whose slot is read is in the leaf.
  found_at :
      (key : ℕ) (l : LeafNode) {p v : ℕ} {b : Bool}
      → l.num_keys < 256
      → IsPos (before key) l.keys l.num_keys p
      → leaf_find key l ≡ some (b, some v)
      → (p < l.num_keys) × (l.keys p ≡ key)
  found_at key l {p} small at found = elim (lt_or_le p l.num_keys) [
    | inl less ↦ elim (eq_or_ne (l.keys p) key) [
      | inl e ↦ (less, e)
      | inr ne ↦ absurd (cc (leaf_find-miss key l small at (λ _. ne)))
    ]
    | inr more ↦ absurd (cc (leaf_find-miss key l small at (λ less. absurd (omega arith))))
  ]

  remove_at-Kept :
      (d lo hi key : ℕ) (node : Node) {v : ℕ} {b : Bool}
      → IsNode inner_width leaf_width d lo hi node
      → lo ≤ key
      → key < hi
      → find_at d node key ≡ some (b, some v)
      → (node' : Node) × (remove_at leaf_width d node key ≡ some (true, node'))
        × Kept inner_width leaf_width d lo hi key 0 node node'
  unfolding remove_at find_at leaf_remove
  remove_at-Kept zero lo hi key null ok above below found = elim ok [ ]
  remove_at-Kept zero lo hi key (leaf l) ok above below found =
      let count : l.num_keys < 256 = omega (arith, wide.leaf_small, ok.width) in
      let (p, at) = position (before key) l.keys l.num_keys in
      let (less, e) = found_at key l count at found in
      let put = overwritten-Put key 0 l wide.leaf_small ok at less e in
      (
        leaf (overwritten l p 0),
        rw
            (
              leaf_position_for-eq key l.keys count at,
              lt→ltb p leaf_width (omega (arith, ok.width)),
              (==_iff (l.keys p) key).1 e,
            )
            refl,
        record { ok = put.ok; reads = λ q _ _. put.reads q },
      )
  remove_at-Kept zero lo hi key (inner n keys children) ok above below found = elim ok [ ]
  remove_at-Kept (suc d) lo hi key null ok above below found = elim ok [ ]
  remove_at-Kept (suc d) lo hi key (leaf l) ok above below found = elim ok [ ]
  remove_at-Kept (suc d) lo hi key (inner n keys children) ok above below found =
      let small : n < 256 = omega (arith, wide.inner_small, ok.0.width) in
      let (p, at) = position (before_or_at key) keys n in
      let (node, e, kept) =
        remove_at-Kept d (lower lo keys p) (upper hi n keys p) key (children p) (ok.1 p at.within)
          (lower-le lo keys n key p above at) (lt-upper hi keys n key p below at)
          (sym (find_at-inner d n keys children key small at) ∙ found) in
      (
        inner n keys (update children p node),
        rw (inner_position_for-eq key keys small at, e) refl,
        replaced inner_width leaf_width d lo hi key 0 n keys children wide.inner_small ok.0 ok.1 at
            node kept,
      )

  -- In a search tree `remove` of a key that has a slot returns true without a stop or a read out of range.
  -- The tree is again a search tree; the key reads as removed, and every other key as before.
  pub remove_lem :
      (top key : ℕ) (t : Tree) {v : ℕ} {b : Bool}
      → IsTree inner_width leaf_width top t
      → key < top
      → find t key ≡ some (b, some v)
      → (t' : Tree) × (remove leaf_width t key ≡ some (true, t'))
        × IsTree inner_width leaf_width top t'
        × ((q : ℕ) → q < top → find t' q ≡ after key 0 q (find t q))
  unfolding remove find
  remove_lem top key t ok below found =
      let (node, e, kept) = remove_at-Kept t.depth 0 top key t.root ok (omega arith) below found in
      (record t { root = node }, rw e refl, kept.ok, λ q h. kept.reads q (omega arith) h)
