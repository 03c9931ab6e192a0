-- ===== src/Tree/Add.antt =====
-- `add` of src/phylum/tree.h: it keeps the invariant, and afterwards the key reads as the value and every
-- other key as before.
use consfs.Common.{
  ℕ, zero, suc, ◌≤◌, ◌<◌, ◌≡◌, true, false, Option, none, some, refl, arith, lt_or_le, inl, inr,
  update, ◌∙◌, ==_ne, lt→ltb,
}
use consfs.Keys.{before_or_at}
use consfs.Keys.Position.{IsPos}
use consfs.Tree.{LeafNode, Node, null, leaf, inner, Tree}
use consfs.Tree.Find.{find_at, find}
use consfs.Tree.Insert.{Inserted, is_leaf, is_inner, child_kind, insert_at, grow, add, new}
use consfs.Tree.Invariant.{IsKeys, IsNode, IsTree, lower, upper}
use consfs.Tree.InnerFind.{find_at-inner, before_of_le, before_of_lt}
use consfs.Tree.InnerSplit.{inner_insert-Grown}
use consfs.Tree.LeafFind.{leaf_find-miss}
use consfs.Tree.LeafSplit.{leaf_insert-Grown}
use consfs.Tree.LeafOverwrite.{after}
use consfs.Tree.Grown.{Grown, Halved}

-- The widths that the splits need and that the 8-bit counter of the searches can count.
pub record IsWide (inner_width leaf_width : ℕ) : Type 0 where
  pub inner_wide : 2 < inner_width
  pub inner_small : inner_width < 256
  pub leaf_wide : 2 ≤ leaf_width
  pub leaf_small : leaf_width < 256

module _ (inner_width leaf_width : ℕ) (garbage : ℕ → ℕ) (wide : IsWide inner_width leaf_width) where
  kind_of :
      (d lo hi : ℕ) (node : Node)
      → IsNode inner_width leaf_width d lo hi node
      → child_kind inner_width leaf_width garbage d node ≡ true
  unfolding is_leaf is_inner
  kind_of zero lo hi null ok = elim ok [ ]
  kind_of zero lo hi (leaf l) ok = refl
  kind_of zero lo hi (inner n keys children) ok = elim ok [ ]
  kind_of (suc d) lo hi null ok = elim ok [ ]
  kind_of (suc d) lo hi (leaf l) ok = elim ok [ ]
  kind_of (suc d) lo hi (inner n keys children) ok = rw (==_ne (suc d) 0 (omega arith)) refl

  insert_at-Grown :
      (d lo hi key value : ℕ) (node : Node)
      → IsNode inner_width leaf_width d lo hi node
      → lo ≤ key
      → key < hi
      → 0 < key
      → (r : Inserted) × (insert_at inner_width leaf_width garbage d node key value ≡ some r)
        × Grown inner_width leaf_width d lo hi key value node r.node r.split
  unfolding insert_at
  insert_at-Grown zero lo hi key value null ok above below positive = elim ok [ ]
  insert_at-Grown zero lo hi key value (leaf l) ok above below positive =
      leaf_insert-Grown inner_width leaf_width garbage lo hi key value l wide.leaf_small
        wide.leaf_wide ok above below positive
  insert_at-Grown zero lo hi key value (inner n keys children) ok above below positive = elim ok [ ]
  insert_at-Grown (suc d) lo hi key value null ok above below positive = elim ok [ ]
  insert_at-Grown (suc d) lo hi key value (leaf l) ok above below positive = elim ok [ ]
  insert_at-Grown (suc d) lo hi key value (inner n keys children) ok above below positive =
      inner_insert-Grown inner_width leaf_width garbage d lo hi key value n keys children
        (child_kind inner_width leaf_width garbage d)
        (λ child. insert_at inner_width leaf_width garbage d child key value) wide.inner_small
        wide.inner_wide ok.0 ok.1
        (λ i h. kind_of d (lower lo keys i) (upper hi n keys i) (children i) (ok.1 i h)) above below
        (λ i h j k.
          insert_at-Grown d (lower lo keys i) (upper hi n keys i) key value (children i) (ok.1 i h)
            j k positive)

  -- The new root over two halves.
  module _ (d top key value mid : ℕ) (old left right : Node)
      (halved : Halved inner_width leaf_width d 0 top key value old left mid right) where
    abbrev root_keys : ℕ → ℕ
    root_keys = update garbage 0 mid

    abbrev root_children : ℕ → Node
    root_children = update (update (λ _. null) 0 left) 1 right

    root-IsNode : IsNode inner_width leaf_width (suc d) 0 top (inner 1 root_keys root_children)
    root-IsNode = (keys_ok, nodes_ok)
      where
        keys_ok : IsKeys inner_width 0 top 1 root_keys
        keys_ok = record {
          width = omega (arith, wide.inner_wide);
          ordered = omega arith;
          sorted = λ i j h k. absurd (omega arith);
          low = λ i h. omega arith;
          high = high;
        }
          where
            high : (i : ℕ) → i < 1 → root_keys i ≤ top
            high zero h = halved.high
            high (suc i) h = absurd (omega arith)

        nodes_ok :
            (i : ℕ)
            → i ≤ 1
            → IsNode inner_width leaf_width d
                (lower 0 root_keys i)
                (upper top 1 root_keys i)
                (root_children i)
        nodes_ok zero h = halved.left_ok
        nodes_ok (suc zero) h = halved.right_ok
        nodes_ok (suc (suc i)) h = absurd (omega arith)

    root-reads :
        (q : ℕ)
        → q < top
        → find_at (suc d) (inner 1 root_keys root_children) q ≡ after key value q (find_at d old q)
    root-reads q h = elim (lt_or_le q mid) [
      | inl less ↦
          find_at-inner d 1 root_keys root_children q (omega arith) (first less)
          ∙ halved.left_reads q (omega arith) less
      | inr more ↦
          find_at-inner d 1 root_keys root_children q (omega arith) (second more)
          ∙ halved.right_reads q more h
    ]
      where
        first : q < mid → IsPos (before_or_at q) root_keys 1 0
        first less = record {
          within = omega arith;
          passed = λ i k. absurd (omega arith);
          failed = λ _. before_of_lt q mid less;
        }

        second : mid ≤ q → IsPos (before_or_at q) root_keys 1 1
        second more = record {
          within = omega arith;
          passed = passed;
          failed = λ k. absurd (omega arith);
        }
          where
            passed : (i : ℕ) → i < 1 → before_or_at q (root_keys i) ≡ true
            passed zero k = before_of_le q mid more
            passed (suc i) k = absurd (omega arith)

  grow-IsTree :
      (top key value : ℕ) (t : Tree) (node : Node) (split : Option (ℕ × Node))
      → Grown inner_width leaf_width t.depth 0 top key value t.root node split
      → let t' = grow inner_width leaf_width garbage t (record { node = node; split = split }) in
        IsTree inner_width leaf_width top t'
        × ((q : ℕ) → q < top → find t' q ≡ after key value q (find t q))
  unfolding grow find
  grow-IsTree top key value t node none kept = (kept.ok, λ q h. kept.reads q (omega arith) h)
  grow-IsTree top key value t node (some (mid, right)) halved = (
    root-IsNode t.depth top key value mid t.root node right halved,
    root-reads t.depth top key value mid t.root node right halved,
  )

  -- In a tree of sound widths `add` of a key other than 0 does not stop. The tree that it returns is again
  -- a search tree, the key reads as the value in it, and every other key as before.
  pub add_lem :
      (top key value : ℕ) (t : Tree)
      → IsTree inner_width leaf_width top t
      → 0 < key
      → key < top
      → (t' : Tree) × (add inner_width leaf_width garbage t key value ≡ some t')
        × IsTree inner_width leaf_width top t'
        × ((q : ℕ) → q < top → find t' q ≡ after key value q (find t q))
  unfolding add
  add_lem top key value t ok positive below =
      let (r, e, grown) =
        insert_at-Grown t.depth 0 top key value t.root ok (omega arith) below positive in
      let (sound, reads) = grow-IsTree top key value t r.node r.split grown in
      (grow inner_width leaf_width garbage t r, rw e refl, sound, reads)

  -- The constructor makes a search tree in which no key is found.
  pub new_lem :
      (top : ℕ)
      → (t : Tree) × (new inner_width leaf_width garbage ≡ some t)
        × IsTree inner_width leaf_width top t
        × ((q : ℕ) → find t q ≡ some (false, none))
  unfolding new find find_at
  new_lem top = (
    record { depth = 0; root = leaf empty },
    rw (lt→ltb 2 inner_width wide.inner_wide, lt→ltb 0 leaf_width (omega (arith, wide.leaf_wide)))
        refl,
    record {
      width = omega arith;
      sorted = λ i j h k. absurd (omega arith);
      low = λ i h. absurd (omega arith);
      high = λ i h. absurd (omega arith);
      stale = λ j h k. inl refl;
    },
    λ q.
        leaf_find-miss q empty {p = 0} (omega arith)
          (record {
            within = omega arith;
            passed = λ i h. absurd (omega arith);
            failed = λ h. absurd (omega arith);
          })
          (λ h. absurd (omega arith)),
  )
    where
      empty : LeafNode
      empty = record { num_keys = 0; keys = λ _. 0; values = garbage }
