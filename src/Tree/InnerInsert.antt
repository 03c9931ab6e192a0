-- ===== src/Tree/InnerInsert.antt =====
-- `inner_insert_nonfull` and `inner_insert` of src/phylum/tree.h, for any way to insert into a child.
use consfs.Common.{
  ℕ, suc, ◌+◌, ◌-◌, ◌≤◌, ◌<◌, ◌≡◌, Bool, true, Option, none, some, refl, arith, lt→ltb, lt_or_le,
  inl, inr, eq_or_ne, update, ==_ne, ==_iff,
}
use consfs.Keys.{before_or_at}
use consfs.Keys.Position.{IsPos, position, inner_position_for-eq}
use consfs.Keys.Moves.{InsertedAt}
use consfs.Tree.{Node, inner}
use consfs.Tree.Arrays.{shift_up, shift_up-InsertedAt, update_at}
use consfs.Tree.Insert.{Inserted, link_child, all_children, inner_insert_nonfull}
use consfs.Tree.Invariant.{IsKeys, IsNode, lower, upper}
use consfs.Tree.InnerFind.{lower-le, lt-upper}
use consfs.Tree.InnerLink.{ChildrenAt, replaced, linked}
use consfs.Tree.Grown.{Grown, Kept}

-- What `link_child` writes to the children, at the end and before it.
rightmost-ChildrenAt :
    (n : ℕ) (left right : Node) (children : ℕ → Node)
    → ChildrenAt n n left right children (update (update children n left) (n + 1) right)
rightmost-ChildrenAt n left right children = record {
  below = λ i h. ground arith;
  at_left = ground arith;
  at_right = ground arith;
  above = λ i h k. absurd (omega arith);
}

moved-ChildrenAt :
    (n index : ℕ) (left right : Node) (children : ℕ → Node)
    → index < n
    → ChildrenAt n index left right children (
        update
          (update (shift_up (n - index) index (update children (n + 1) (children n))) index left)
          (index + 1)
          right)
moved-ChildrenAt n index left right children h = record {
  below = λ i k. ground (arith, ins.below i k);
  at_left = ground (arith, ins.at);
  at_right = ground arith;
  above = λ i k m. elim (lt_or_le i n) [
    | inl less ↦ ground (arith, ins.above i (omega arith) less)
    | inr last ↦
        let e : i ≡ n = omega arith in rw e (ground (arith, ins.beyond (suc n) (omega arith)))
  ];
}
  where
    ins :
        InsertedAt n index left
          (update children (n + 1) (children n))
          (update (shift_up (n - index) index (update children (n + 1) (children n))) index left)
    ins = shift_up-InsertedAt n index left (update children (n + 1) (children n)) (omega arith)

rightmost-InsertedAt : (n mid : ℕ) (keys : ℕ → ℕ) → InsertedAt n n mid keys (update keys n mid)
rightmost-InsertedAt n mid keys = record {
  below = λ j h. ground arith;
  at = update_at keys n mid;
  above = λ j h k. absurd (omega arith);
  beyond = λ j h. ground arith;
}

module _ (inner_width leaf_width : ℕ) (garbage : ℕ → ℕ) (d lo hi key value n : ℕ) (keys : ℕ → ℕ)
    (children : ℕ → Node) (small : inner_width < 256) (room : n < inner_width)
    (ok : IsKeys inner_width lo hi n keys)
    (nodes : (i : ℕ)
      → i ≤ n
      → IsNode inner_width leaf_width d (lower lo keys i) (upper hi n keys i) (children i)) where
  link_child-Kept :
      {index : ℕ}
      → IsPos (before_or_at key) keys n index
      → (node : Node) (split : Option (ℕ × Node))
      → Grown inner_width leaf_width d
          (lower lo keys index)
          (upper hi n keys index)
          key
          value
          (children index)
          node
          split
      → Kept inner_width leaf_width (suc d) lo hi key value (inner n keys children) (
          link_child inner_width leaf_width garbage n keys children index
            (record { node = node; split = split }))
  unfolding link_child
  link_child-Kept at node none kept =
      replaced inner_width leaf_width d lo hi key value n keys children small ok nodes at node kept
  link_child-Kept {index} at node (some (mid, right)) halved = elim (eq_or_ne index n) [
    | inl e ↦ rw ((==_iff index n).1 e) (
        linked inner_width leaf_width d lo hi key value n keys children small ok nodes at mid node
          right room halved (rw (← e) (rightmost-InsertedAt index mid keys))
          (rw (← e) (rightmost-ChildrenAt index node right children)))
    | inr ne ↦ rw (==_ne index n ne) (
        linked inner_width leaf_width d lo hi key value n keys children small ok nodes at mid node
          right room halved (shift_up-InsertedAt n index mid keys at.within)
          (moved-ChildrenAt n index node right children (omega (arith, at.within))))
  ]

  -- An inner node with a free slot, whose children all pass the check of their kind, takes what its child
  -- takes.
  pub inner_insert_nonfull-Kept :
      (is_child : Node → Bool) (insert : Node → Option Inserted)
      → all_children (n + 1) is_child children ≡ true
      → lo ≤ key
      → key < hi
      → ((i : ℕ)
          → i ≤ n
          → lower lo keys i ≤ key
          → key < upper hi n keys i
          → (r : Inserted) × (insert (children i) ≡ some r)
            × Grown inner_width leaf_width d
                (lower lo keys i)
                (upper hi n keys i)
                key
                value
                (children i)
                r.node
                r.split)
      → (node : Node) × (inner_insert_nonfull inner_width leaf_width garbage is_child insert n keys
            children key
          ≡ some node)
        × Kept inner_width leaf_width (suc d) lo hi key value (inner n keys children) node
  unfolding inner_insert_nonfull
  inner_insert_nonfull-Kept is_child insert kinds above below step =
      let (index, at) = position (before_or_at key) keys n in
      let (r, e, grown) =
        step index at.within (lower-le lo keys n key index above at)
          (lt-upper hi keys n key index below at) in
      (
        link_child inner_width leaf_width garbage n keys children index r,
        rw (lt→ltb n inner_width room, inner_position_for-eq key keys (omega arith) at, kinds, e)
            refl,
        link_child-Kept at r.node r.split grown,
      )
