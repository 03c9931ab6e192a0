-- ===== src/Tree.antt =====
-- src/phylum/tree.h: the in-memory B+ tree. A pointer to a node is the node itself, since each node has
-- one parent; `none` is a failed assertion, a null pointer or a read out of range. The list of leaves
-- (`nl`), which only `find_all` reads, and the change tracker are left out.
pub mod Arrays
pub mod Find
pub mod Insert
pub mod Invariant
pub mod LeafFind
pub mod LeafOverwrite
pub mod LeafInsert
pub mod Grown
pub mod LeafSplit
pub mod InnerFind
pub mod InnerLink
pub mod InnerInsert
pub mod InnerSplit
pub mod Add
pub mod Remove
pub mod History
pub mod Limits
pub mod Before
pub mod Down
pub mod Greatest
use consfs.Common.{ℕ, ◌≡◌, Bool, true, false, Option}

-- `keys` and `values` have `M` slots, of which the first `num_keys` are in use.
pub record LeafNode : Type 0 where
  pub num_keys : ℕ
  pub keys : ℕ → ℕ
  pub values : ℕ → ℕ

-- `Node *`: a null pointer, a leaf, or an inner node with its `num_keys`, `keys` and `children`.
pub data Node : Type 0 where
  null : Node
  leaf : LeafNode → Node
  inner : ℕ → (ℕ → ℕ) → (ℕ → Node) → Node

pub record Tree : Type 0 where
  pub depth : ℕ
  pub root : Node
