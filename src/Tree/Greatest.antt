-- ===== src/Tree/Greatest.antt =====
-- Which key `find_last_less_then` of src/phylum/tree.h finds.
use consfs.Common.{ℕ, ◌<◌, ◌≡◌, true, false, Option, none, some}
use consfs.Tree.{Tree}
use consfs.Tree.Find.{find}
use consfs.Tree.Down.{Down}

-- The key does not read as one of the tree.
abbrev pub Absent : Tree → ℕ → Type 0
Absent t q = (o : Option ℕ) × (find t q ≡ some (false, o))

-- The value and the greatest key below, or that there is none.
abbrev pub IsGreatest : Tree → ℕ → Option (ℕ × ℕ) → Type 0
IsGreatest t key none = (q : ℕ) → q < key → Absent t q
IsGreatest t key (some (value, found)) =
    (found < key)
    × (find t found ≡ some (true, some value))
    × ((q : ℕ) → found < q → q < key → Absent t q)
