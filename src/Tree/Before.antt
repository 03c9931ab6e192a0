-- ===== src/Tree/Before.antt =====
-- `find_last_less_then` of src/phylum/tree.h.
use consfs.Common.{
  ℕ, zero, suc, ◌-◌, not, ◌&&◌, ◌||◌, Option, none, some, ltb, leb, ◌==◌, if◌then◌else◌, sub32,
  ◌>>=◌, ◌>>◌, check,
}
use consfs.Keys.{leaf_position_for, inner_position_for}
use consfs.Tree.{LeafNode, Node, leaf, inner, Tree}

-- The way down goes left of a key of an inner node that is the one sought.
unfoldable pub descend_before : ℕ → Node → ℕ → Option LeafNode
descend_before zero (leaf l) key = some l
descend_before zero _ key = none
descend_before (suc d) (inner num_keys keys children) key = do
  pos ← inner_position_for key keys num_keys
  let at = if ltb 0 pos && key == keys (pos - 1) then pos - 1 else pos
  check (at == 0 || ltb (keys (at - 1)) key)
  descend_before d (children at) key
descend_before (suc d) _ key = none

-- The place before one in a leaf; a place below 0 is the last 32-bit number.
unfoldable pub place_before : LeafNode → ℕ → ℕ → ℕ
place_before l key pos =
    let before = sub32 pos 1 in
    if ltb before l.num_keys && key == l.keys before then sub32 before 1 else before

-- In a leaf: a value and its key, or a removed key, below which the search is made again.
unfoldable pub pick_before : (ℕ → Option (Option (ℕ × ℕ))) → ℕ → LeafNode → Option (Option (ℕ × ℕ))
pick_before again key l = leaf_position_for key l.keys l.num_keys >>= λ pos.
    let at = place_before l key pos in
    if not (leb pos l.num_keys && ltb at l.num_keys)
    then some none
    else check (ltb (l.keys at) key)
      >> (if not (l.values at == 0)
          then some (some (l.values at, l.keys at))
          else again (l.keys at))

-- The value and the key that are found. The recursion is on fuel.
unfoldable pub find_last_less_then : ℕ → Tree → ℕ → Option (Option (ℕ × ℕ))
find_last_less_then zero t key = none
find_last_less_then (suc fuel) t key =
    descend_before t.depth t.root key >>= pick_before (find_last_less_then fuel t) key
