-- ===== src/Tree/Invariant.antt =====
-- The search-tree invariant of src/phylum/tree.h, with what the slots beyond a leaf's keys may hold.
use consfs.Common.{ℕ, zero, suc, ◌≤◌, ◌<◌, ◌≡◌, ◌⊎◌, ltb, if◌then◌else◌}
use consfs.Tree.{LeafNode, Node, leaf, inner, Tree}

-- The keys of a leaf rise strictly and lie in [lo, hi). An unused slot is cleared, or holds a key that
-- belongs further to the right.
pub record IsLeaf (leaf_width lo hi : ℕ) (l : LeafNode) : Type 0 where
  pub width : l.num_keys ≤ leaf_width
  pub sorted : (i j : ℕ) → i < j → j < l.num_keys → l.keys i < l.keys j
  pub low : (i : ℕ) → i < l.num_keys → lo ≤ l.keys i
  pub high : (i : ℕ) → i < l.num_keys → l.keys i < hi
  pub stale : (j : ℕ) → l.num_keys ≤ j → j < leaf_width → (l.keys j ≡ 0) ⊎ (hi ≤ l.keys j)

pub record IsKeys (inner_width lo hi num_keys : ℕ) (keys : ℕ → ℕ) : Type 0 where
  pub width : num_keys ≤ inner_width
  pub ordered : lo ≤ hi
  pub sorted : (i j : ℕ) → i < j → j < num_keys → keys i ≤ keys j
  pub low : (i : ℕ) → i < num_keys → lo ≤ keys i
  pub high : (i : ℕ) → i < num_keys → keys i ≤ hi

-- The bounds of the child at an index.
abbrev pub lower : ℕ → (ℕ → ℕ) → ℕ → ℕ
lower lo keys zero = lo
lower lo keys (suc i) = keys i

abbrev pub upper : ℕ → ℕ → (ℕ → ℕ) → ℕ → ℕ
upper hi num_keys keys i = if ltb i num_keys then keys i else hi

module _ (inner_width leaf_width : ℕ) where
  abbrev pub IsNode : ℕ → ℕ → ℕ → Node → Type 0
  IsNode zero lo hi (leaf l) = IsLeaf leaf_width lo hi l
  IsNode zero lo hi _ = ⊥
  IsNode (suc d) lo hi (inner num_keys keys children) =
      IsKeys inner_width lo hi num_keys keys
      × ((i : ℕ)
          → i ≤ num_keys
          → IsNode d (lower lo keys i) (upper hi num_keys keys i) (children i))
  IsNode (suc d) lo hi _ = ⊥

  -- A tree whose keys are below `top`.
  abbrev pub IsTree : ℕ → Tree → Type 0
  IsTree top t = IsNode t.depth 0 top t.root
