-- ===== src/Tree/Limits.antt =====
-- Where the tree of src/phylum/tree.h does not do what it promises: the key 0, leaves of width 1, and
-- `remove` in a full leaf.
use consfs.Common.{
  ℕ, ◌≤◌, ◌<◌, ◌≡◌, false, none, some, refl, arith, ◌>>=◌, lt→ltb, le→ltb, le→leb, ==_ne, ==_iff,
}
use consfs.Keys.{scan, leaf_position_for}
use consfs.Keys.Position.{leaf_position_for-eq}
use consfs.Tree.{LeafNode, leaf}
use consfs.Tree.Find.{find, find_at, leaf_find, remove, remove_at, leaf_remove}
use consfs.Tree.Insert.{new, add, insert_at, grow, leaf_insert, leaf_insert_nonfull, split_leaf}
use consfs.Tree.Add.{IsWide}

module _ (inner_width leaf_width : ℕ) (garbage : ℕ → ℕ) (wide : IsWide inner_width leaf_width) where
  -- The pair with key 0 that is added to a new tree is lost: a cleared slot beyond the keys in use is taken
  -- for a slot of the key 0, so the count of keys stays 0 and `find` does not see the pair.
  pub zero_key_lost :
      (value : ℕ)
      → (new inner_width leaf_width garbage >>= λ t.
          add inner_width leaf_width garbage t 0 value >>= λ t'. find t' 0)
        ≡ some (false, none)
  unfolding new add insert_at grow leaf_insert leaf_insert_nonfull leaf_position_for scan find
      find_at leaf_find
  zero_key_lost value =
      rw
        (
          lt→ltb 2 inner_width wide.inner_wide,
          lt→ltb 0 leaf_width (omega (arith, wide.leaf_wide)),
          add,
          le→leb 0 leaf_width (omega arith),
          ==_ne 0 leaf_width (omega (arith, wide.leaf_wide)),
          lt→ltb 0 leaf_width (omega (arith, wide.leaf_wide)),
          find,
        )
        refl

-- The assertions of the constructor admit leaves of width 1. Where such a leaf, the root of a tree, holds
-- a key, `add` of that key or of a lower one stops at a failed assertion: the split leaves it full.
pub width_one_stops :
    (inner_width : ℕ) (garbage : ℕ → ℕ) (l : LeafNode) (key value : ℕ)
    → l.num_keys ≡ 1
    → key ≤ l.keys 0
    → add inner_width 1 garbage (record { depth = 0; root = leaf l }) key value ≡ none
unfolding add insert_at leaf_insert leaf_insert_nonfull split_leaf
width_one_stops inner_width garbage l key value one below =
    rw
      (
        le→leb l.num_keys 1 (omega arith),
        leaf_position_for-eq key {n = l.num_keys} {p = 0} l.keys (omega arith) (record {
          within = omega arith;
          passed = λ i h. absurd (omega arith);
          failed = λ h. le→ltb (l.keys 0) key below;
        }),
        (==_iff l.num_keys 1).1 one,
      )
      refl

-- `remove` of a key above all keys of a full leaf reads the slot behind the last one.
pub full_leaf_overread :
    (leaf_width key : ℕ) (l : LeafNode)
    → leaf_width < 256
    → l.num_keys ≡ leaf_width
    → ((i : ℕ) → i < leaf_width → l.keys i < key)
    → remove leaf_width (record { depth = 0; root = leaf l }) key ≡ none
unfolding remove remove_at leaf_remove
full_leaf_overread leaf_width key l small full below =
    rw
      (
        leaf_position_for-eq key {n = l.num_keys} {p = leaf_width} l.keys (omega arith) (record {
          within = omega arith;
          passed = λ i h. lt→ltb (l.keys i) key (below i h);
          failed = λ h. absurd (omega arith);
        }),
        le→ltb leaf_width leaf_width (omega arith),
      )
      refl
