-- ===== src/Tree/InnerFind.antt =====
-- Reading a key in an inner node of src/phylum/tree.h: one step down, to a child within whose bounds the
-- key is.
use consfs.Common.{
  ℕ, zero, suc, ◌+◌, ◌≤◌, ◌<◌, ◌≡◌, true, false, refl, arith, lt→ltb, le→ltb, lt_or_le, inl, inr,
}
use consfs.Keys.{before_or_at}
use consfs.Keys.Position.{IsPos, inner_position_for-eq}
use consfs.Tree.{Node, inner}
use consfs.Tree.Find.{find_at}
use consfs.Tree.Invariant.{lower, upper}

pub le_of_before : (q x : ℕ) → before_or_at q x ≡ true → x ≤ q
le_of_before q x h = ground arith

pub lt_of_before : (q x : ℕ) → before_or_at q x ≡ false → q < x
lt_of_before q x h = ground arith

pub before_of_le : (q x : ℕ) → x ≤ q → before_or_at q x ≡ true
before_of_le q x h = ground arith

pub before_of_lt : (q x : ℕ) → q < x → before_or_at q x ≡ false
before_of_lt q x h = ground arith

pub find_at-inner :
    (d n : ℕ) (keys : ℕ → ℕ) (children : ℕ → Node) (q : ℕ) {p : ℕ}
    → n < 256
    → IsPos (before_or_at q) keys n p
    → find_at (suc d) (inner n keys children) q ≡ find_at d (children p) q
unfolding find_at
find_at-inner d n keys children q {p} small at =
    rw (inner_position_for-eq q keys small at, lt→ltb p (n + 1) (omega (arith, at.within))) refl

pub lower-le :
    (lo : ℕ) (keys : ℕ → ℕ) (n q p : ℕ)
    → lo ≤ q
    → IsPos (before_or_at q) keys n p
    → lower lo keys p ≤ q
lower-le lo keys n q zero h at = h
lower-le lo keys n q (suc p) h at = le_of_before q (keys p) (at.passed p (omega arith))

pub lt-upper :
    (hi : ℕ) (keys : ℕ → ℕ) (n q p : ℕ)
    → q < hi
    → IsPos (before_or_at q) keys n p
    → q < upper hi n keys p
lt-upper hi keys n q p h at = elim (lt_or_le p n) [
  | inl less ↦ rw (lt→ltb p n less) (lt_of_before q (keys p) (at.failed less))
  | inr more ↦ rw (le→ltb p n more) h
]

pub upper-inside : (hi n : ℕ) (keys : ℕ → ℕ) (p : ℕ) → p < n → upper hi n keys p ≡ keys p
upper-inside hi n keys p h = rw (lt→ltb p n h) refl

pub upper-last : (hi n : ℕ) (keys : ℕ → ℕ) (p : ℕ) → n ≤ p → upper hi n keys p ≡ hi
upper-last hi n keys p h = rw (le→ltb p n h) refl
