-- ===== src/Tree/Insert.antt =====
-- `add` of `BPlusTree` in src/phylum/tree.h, with the splits of full nodes.
use consfs.Common.{
  ℕ, zero, suc, ◌+◌, ◌-◌, ◌/◌, Bool, true, false, ◌&&◌, Option, none, some, ltb, leb, ◌==◌,
  if◌then◌else◌, update, ◌>>=◌, ◌>>◌, check,
}
use consfs.Keys.{leaf_position_for, inner_position_for}
use consfs.Tree.{LeafNode, Node, null, leaf, inner, Tree}
use consfs.Tree.Arrays.{shift_up, copy}

-- `InsertionResult`: `result.left` is the node itself, as it is after the insertion. If it was split,
-- `result.key` and `result.right` come with it.
pub record Inserted : Type 0 where
  pub node : Node
  pub split : Option (ℕ × Node)

unfoldable pub is_leaf : Node → Bool
is_leaf (leaf l) = true
is_leaf _ = false

unfoldable pub is_inner : Node → Bool
is_inner (inner num_keys keys children) = true
is_inner _ = false

-- `for (kk = 0; kk < count; ++kk) assert(children[kk]->type == ...);`
unfoldable pub all_children : ℕ → (Node → Bool) → (ℕ → Node) → Bool
all_children zero test children = true
all_children (suc count) test children = all_children count test children && test (children count)

-- The widths `N` and `M`, and what memory holds that no constructor clears.
module _ (inner_width leaf_width : ℕ) (garbage : ℕ → ℕ) where
  unfoldable pub leaf_insert_nonfull : LeafNode → ℕ → ℕ → ℕ → Option LeafNode
  leaf_insert_nonfull l key value index = do
    check (ltb l.num_keys leaf_width)
    check (ltb index leaf_width)
    check (leb index l.num_keys)
    some (
        if l.keys index == key then record l { values = update l.values index value } else record {
          num_keys = l.num_keys + 1;
          keys = update (shift_up (l.num_keys - index) index l.keys) index key;
          values = update (shift_up (l.num_keys - index) index l.values) index value;
        })

  abbrev pub leaf_threshold : ℕ
  leaf_threshold = (leaf_width + 1) / 2

  -- The new sibling of a full leaf. A new leaf's keys are cleared, its values are not.
  unfoldable pub leaf_sibling : LeafNode → LeafNode
  leaf_sibling l = record {
    num_keys = l.num_keys - leaf_threshold;
    keys = copy (l.num_keys - leaf_threshold) l.keys leaf_threshold (λ _. 0);
    values = copy (l.num_keys - leaf_threshold) l.values leaf_threshold garbage;
  }

  unfoldable pub split_leaf : LeafNode → ℕ → ℕ → ℕ → Option Inserted
  split_leaf l key value i =
      let sibling = leaf_sibling l in
      let left : LeafNode = record l { num_keys = leaf_threshold } in
      if ltb i leaf_threshold
      then (leaf_insert_nonfull left key value i >>= λ left'.
          some (record { node = leaf left'; split = some (sibling.keys 0, leaf sibling) }))
      else leaf_insert_nonfull sibling key value (i - leaf_threshold) >>= λ right.
          some (record { node = leaf left; split = some (right.keys 0, leaf right) })

  unfoldable pub leaf_insert : LeafNode → ℕ → ℕ → Option Inserted
  leaf_insert l key value = do
    check (leb l.num_keys leaf_width)
    i ← leaf_position_for key l.keys l.num_keys
    if l.num_keys == leaf_width
        then split_leaf l key value i
        else leaf_insert_nonfull l key value i >>= λ l'.
            some (record { node = leaf l'; split = none })

  -- What `inner_insert_nonfull` writes after the child at `index` took the pair.
  unfoldable pub link_child : ℕ → (ℕ → ℕ) → (ℕ → Node) → ℕ → Inserted → Node
  link_child num_keys keys children index result = elim result.split [
    | none ↦ inner num_keys keys (update children index result.node)
    | some (key, right) ↦
        if index == num_keys
        then inner (num_keys + 1) (update keys index key)
            (update (update children index result.node) (index + 1) right)
        else let moved =
            shift_up (num_keys - index) index
              (update children (num_keys + 1) (children num_keys)) in
          inner (num_keys + 1) (update (shift_up (num_keys - index) index keys) index key)
            (update (update moved index result.node) (index + 1) right)
  ]

  -- `insert` is the call for the child, and `is_child` tells the kind of node that it must be.
  unfoldable pub inner_insert_nonfull :
      (Node → Bool) → (Node → Option Inserted) → ℕ → (ℕ → ℕ) → (ℕ → Node) → ℕ → Option Node
  inner_insert_nonfull is_child insert num_keys keys children key = do
    check (ltb num_keys inner_width)
    index ← inner_position_for key keys num_keys
    check (all_children (num_keys + 1) is_child children)
    result ← insert (children index)
    some (link_child num_keys keys children index result)

  abbrev pub inner_threshold : ℕ
  inner_threshold = (inner_width + 1) / 2

  unfoldable pub split_inner :
      (Node → Bool) → (Node → Option Inserted) → ℕ → (ℕ → ℕ) → (ℕ → Node) → ℕ → Option Inserted
  split_inner is_child insert num_keys keys children key =
      let t = inner_threshold in
      let m = num_keys - t in
      let right_keys = copy m keys t garbage in
      let right_children = update (copy m children t (λ _. null)) m (children num_keys) in
      let middle = keys (t - 1) in
      if ltb key middle
      then (inner_insert_nonfull is_child insert (t - 1) keys children key >>= λ left.
          some (record { node = left; split = some (middle, inner m right_keys right_children) }))
      else inner_insert_nonfull is_child insert m right_keys right_children key >>= λ right.
          some (record { node = inner (t - 1) keys children; split = some (middle, right) })

  unfoldable pub inner_insert :
      (Node → Bool) → (Node → Option Inserted) → ℕ → (ℕ → ℕ) → (ℕ → Node) → ℕ → Option Inserted
  inner_insert is_child insert num_keys keys children key =
      if num_keys == inner_width
      then split_inner is_child insert num_keys keys children key
      else inner_insert_nonfull is_child insert num_keys keys children key >>= λ node.
          some (record { node = node; split = none })

  abbrev pub child_kind : ℕ → Node → Bool
  child_kind d = if d == 0 then is_leaf else is_inner

  -- `leaf_insert` at depth 0 and `inner_insert` above it.
  unfoldable pub insert_at : ℕ → Node → ℕ → ℕ → Option Inserted
  insert_at zero (leaf l) key value = leaf_insert l key value
  insert_at zero _ key value = none
  insert_at (suc d) (inner num_keys keys children) key value =
      inner_insert (child_kind d) (λ child. insert_at d child key value) num_keys keys children key
  insert_at (suc d) _ key value = none

  -- A root that was split gets a new root above it.
  unfoldable pub grow : Tree → Inserted → Tree
  grow t result = elim result.split [
    | none ↦ record t { root = result.node }
    | some (key, right) ↦ record {
      depth = suc t.depth;
      root = inner 1 (update garbage 0 key) (update (update (λ _. null) 0 result.node) 1 right);
    }
  ]

  unfoldable pub add : Tree → ℕ → ℕ → Option Tree
  add t key value = insert_at t.depth t.root key value >>= λ result. some (grow t result)

  -- The constructor.
  unfoldable pub new : Option Tree
  new = do
    check (ltb 2 inner_width)
    check (ltb 0 leaf_width)
    some (record {
      depth = 0;
      root = leaf (record { num_keys = 0; keys = λ _. 0; values = garbage });
    })
