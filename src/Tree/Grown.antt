-- ===== src/Tree/Grown.antt =====
-- What an insertion into a node of src/phylum/tree.h leaves: the node alone, or its two halves.
use consfs.Common.{ℕ, ◌≤◌, ◌<◌, ◌≡◌, Option, none, some}
use consfs.Tree.{Node}
use consfs.Tree.Find.{find_at}
use consfs.Tree.Invariant.{IsNode}
use consfs.Tree.LeafOverwrite.{after}

module _ (inner_width leaf_width d lo hi key value : ℕ) (old : Node) where
  pub record Kept (new : Node) : Type 0 where
    pub ok : IsNode inner_width leaf_width d lo hi new
    pub reads : (q : ℕ) → lo ≤ q → q < hi → find_at d new q ≡ after key value q (find_at d old q)

  -- The keys below `middle` are on the left, the others on the right.
  pub record Halved (left : Node) (middle : ℕ) (right : Node) : Type 0 where
    pub low : lo ≤ middle
    pub high : middle ≤ hi
    pub left_ok : IsNode inner_width leaf_width d lo middle left
    pub right_ok : IsNode inner_width leaf_width d middle hi right
    pub left_reads :
        (q : ℕ) → lo ≤ q → q < middle → find_at d left q ≡ after key value q (find_at d old q)
    pub right_reads :
        (q : ℕ) → middle ≤ q → q < hi → find_at d right q ≡ after key value q (find_at d old q)

  abbrev pub Grown : Node → Option (ℕ × Node) → Type 0
  Grown node none = Kept node
  Grown node (some (middle, right)) = Halved node middle right
