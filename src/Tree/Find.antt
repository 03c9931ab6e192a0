-- ===== src/Tree/Find.antt =====
-- The reading operations of `BPlusTree` in src/phylum/tree.h, and `remove`.
use consfs.Common.{
  ℕ, zero, suc, ◌+◌, Bool, true, false, not, ◌&&◌, Option, none, some, ltb, leb, ◌==◌,
  if◌then◌else◌, update, ◌>>=◌, ◌>>◌, check,
}
use consfs.Keys.{leaf_position_for, inner_position_for}
use consfs.Tree.{LeafNode, Node, null, leaf, inner, Tree}

-- `while (d-- != 0)`: the leaf in which a key belongs.
unfoldable pub descend : ℕ → Node → ℕ → Option LeafNode
descend zero (leaf l) key = some l
descend zero _ key = none
descend (suc d) (inner num_keys keys children) key = do
  index ← inner_position_for key keys num_keys
  check (ltb index (num_keys + 1))
  descend d (children index) key
descend (suc d) _ key = none

-- A value that is found is written out, and is reported only if it is not 0, which marks a removed key.
abbrev pub report : ℕ → Bool × Option ℕ
report value = (not (value == 0), some value)

unfoldable pub leaf_find : ℕ → LeafNode → Option (Bool × Option ℕ)
leaf_find key l = do
  index ← leaf_position_for key l.keys l.num_keys
  check (leb index l.num_keys)
  some (
      if ltb index l.num_keys && l.keys index == key
      then report (l.values index)
      else (false, none))

unfoldable pub find_at : ℕ → Node → ℕ → Option (Bool × Option ℕ)
unfolding descend
find_at depth node key = descend depth node key >>= leaf_find key

-- The result of `find`, and what it writes to `*value`.
unfoldable pub find : Tree → ℕ → Option (Bool × Option ℕ)
find t key = find_at t.depth t.root key

unfoldable pub value_or_zero : Bool × Option ℕ → ℕ
value_or_zero (true, some value) = value
value_or_zero _ = 0

unfoldable pub lookup : Tree → ℕ → Option ℕ
unfolding value_or_zero
lookup t key = find t key >>= λ r. some (value_or_zero r)

unfoldable pub is_empty : Tree → Option Bool
is_empty t = elim t.root [
  | null ↦ none
  | leaf l ↦ if t.depth == 0 then some (l.num_keys == 0) else none
  | inner num_keys keys children ↦ if t.depth == 0 then none else some (num_keys == 0)
]

module _ (leaf_width : ℕ) where
  -- `leaf->keys[index]` is read also at an `index` of `num_keys`: out of range in a full leaf.
  unfoldable pub leaf_remove : ℕ → LeafNode → Option (Bool × LeafNode)
  leaf_remove key l = do
    index ← leaf_position_for key l.keys l.num_keys
    check (ltb index leaf_width)
    some (
        if l.keys index == key
        then (true, record l { values = update l.values index 0 })
        else (false, l))

  unfoldable pub remove_at : ℕ → Node → ℕ → Option (Bool × Node)
  remove_at zero (leaf l) key = leaf_remove key l >>= λ r. some (r.0, leaf r.1)
  remove_at zero _ key = none
  remove_at (suc d) (inner num_keys keys children) key = do
    index ← inner_position_for key keys num_keys
    r ← remove_at d (children index) key
    some (r.0, inner num_keys keys (update children index r.1))
  remove_at (suc d) _ key = none

  unfoldable pub remove : Tree → ℕ → Option (Bool × Tree)
  remove t key = remove_at t.depth t.root key >>= λ r. some (r.0, record t { root = r.1 })
