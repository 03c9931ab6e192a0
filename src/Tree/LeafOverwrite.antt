-- ===== src/Tree/LeafOverwrite.antt =====
-- Writing a value in the slot of a key that a leaf of src/phylum/tree.h holds.
use consfs.Common.{
  ℕ, ◌<◌, ◌≡◌, ◌≢◌, Bool, Option, some, refl, sym, arith, ◌==◌, ==_refl, ==_ne, lt_or_le, inl, inr,
  if◌then◌else◌, eq_or_ne, update, ◌∙◌, ap,
}
use consfs.Keys.{before}
use consfs.Keys.Position.{IsPos, position}
use consfs.Tree.{LeafNode}
use consfs.Tree.Arrays.{update_at, update_other}
use consfs.Tree.Find.{leaf_find, report}
use consfs.Tree.Invariant.{IsLeaf}
use consfs.Tree.LeafFind.{leaf_find-hit, leaf_find-same, leaf_find-absent}

-- What reading `q` gives after the pair was put in.
abbrev pub after : ℕ → ℕ → ℕ → Option (Bool × Option ℕ) → Option (Bool × Option ℕ)
after key value q old = if q == key then some (report value) else old

abbrev pub overwritten : LeafNode → ℕ → ℕ → LeafNode
overwritten l index value = record l { values = update l.values index value }

-- What the leaf is after the insertion.
pub record Put (leaf_width lo hi key value index : ℕ) (l m : LeafNode) : Type 0 where
  pub ok : IsLeaf leaf_width lo hi m
  pub reads : (q : ℕ) → leaf_find q m ≡ after key value q (leaf_find q l)
  pub first : m.keys 0 ≡ (if index == 0 then key else l.keys 0)

module _ {leaf_width lo hi : ℕ} (key value : ℕ) (l : LeafNode) {index : ℕ}
    (small : leaf_width < 256) (ok : IsLeaf leaf_width lo hi l)
    (at : IsPos (before key) l.keys l.num_keys index) where
  pub overwritten-Put :
      index < l.num_keys
      → l.keys index ≡ key
      → Put leaf_width lo hi key value index l (overwritten l index value)
  overwritten-Put less e = record {
    ok = record {
      width = ok.width;
      sorted = ok.sorted;
      low = ok.low;
      high = ok.high;
      stale = ok.stale;
    };
    reads = reads;
    first = first index e;
  }
    where
      count : l.num_keys < 256
      count = omega (arith, ok.width)

      elsewhere :
          (q p : ℕ)
          → IsPos (before q) l.keys l.num_keys p
          → q ≢ key
          → leaf_find q (overwritten l index value) ≡ leaf_find q l
      elsewhere q p here other = elim (lt_or_le p l.num_keys) [
        | inl inside ↦ elim (eq_or_ne (l.keys p) q) [
          | inl hit ↦
              leaf_find-same q (overwritten l index value) l count count here here inside inside
                refl (update_other l.values value (λ i. other (sym hit ∙ ap l.keys (sym i) ∙ e)))
          | inr miss ↦
              leaf_find-absent q (overwritten l index value) l count count here here (λ _. miss)
                (λ _. miss)
        ]
        | inr outside ↦
            leaf_find-absent q (overwritten l index value) l count count here here
              (λ inside. absurd (omega arith)) (λ inside. absurd (omega arith))
      ]

      reads : (q : ℕ) → leaf_find q (overwritten l index value) ≡ after key value q (leaf_find q l)
      reads q =
          let (p, here) = position (before q) l.keys l.num_keys in
          elim (eq_or_ne q key) [
            | inl same ↦
                rw (same, ==_refl key)
                  (leaf_find-hit key (overwritten l index value) count at less e
                    ∙ ap (λ (v : ℕ). some (report v)) (update_at l.values index value))
            | inr other ↦ rw (==_ne q key other) (elsewhere q p here other)
          ]

      first : (i : ℕ) → l.keys i ≡ key → l.keys 0 ≡ (if i == 0 then key else l.keys 0)
      first i h = elim (eq_or_ne i 0) [ inl z ↦ rw z (rw z at h) | inr nz ↦ rw (==_ne i 0 nz) refl ]
