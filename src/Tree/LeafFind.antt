-- ===== src/Tree/LeafFind.antt =====
-- Reading a key in a leaf of src/phylum/tree.h.
use consfs.Common.{
  ℕ, ◌<◌, ◌≡◌, ◌≢◌, false, none, some, refl, lt→ltb, le→ltb, le→leb, ==_refl, ==_ne, lt_or_le, inl,
  inr, eq_or_ne,
}
use consfs.Keys.{before}
use consfs.Keys.Position.{IsPos, leaf_position_for-eq}
use consfs.Tree.{LeafNode}
use consfs.Tree.Find.{leaf_find, report}

module _ (key : ℕ) (l : LeafNode) {p : ℕ} (small : l.num_keys < 256)
    (at : IsPos (before key) l.keys l.num_keys p) where
  pub leaf_find-hit : p < l.num_keys → l.keys p ≡ key → leaf_find key l ≡ some (report (l.values p))
  unfolding leaf_find
  leaf_find-hit less e =
      rw
        (
          leaf_position_for-eq key l.keys small at,
          le→leb p l.num_keys at.within,
          lt→ltb p l.num_keys less,
          e,
          ==_refl key,
        )
        refl

  pub leaf_find-miss : (p < l.num_keys → l.keys p ≢ key) → leaf_find key l ≡ some (false, none)
  unfolding leaf_find
  leaf_find-miss absent = elim (lt_or_le p l.num_keys) [
    | inl less ↦
        rw
          (
            leaf_position_for-eq key l.keys small at,
            le→leb p l.num_keys at.within,
            lt→ltb p l.num_keys less,
            ==_ne (l.keys p) key (absent less),
          )
          refl
    | inr more ↦
        rw
          (
            leaf_position_for-eq key l.keys small at,
            le→leb p l.num_keys at.within,
            le→ltb p l.num_keys more,
          )
          refl
  ]

-- Two leaves read alike at a key if its places hold the same key and value, or miss it both.
pub leaf_find-same :
    (key : ℕ) (l m : LeafNode) {p r : ℕ}
    → l.num_keys < 256
    → m.num_keys < 256
    → IsPos (before key) l.keys l.num_keys p
    → IsPos (before key) m.keys m.num_keys r
    → (p < l.num_keys)
    → (r < m.num_keys)
    → l.keys p ≡ m.keys r
    → l.values p ≡ m.values r
    → leaf_find key l ≡ leaf_find key m
leaf_find-same key l m {p} {r} sl sm al am pl pm e v = elim (eq_or_ne (l.keys p) key) [
  | inl hit ↦
      rw (leaf_find-hit key l sl al pl hit, leaf_find-hit key m sm am pm (rw (← e) hit), v) refl
  | inr miss ↦
      rw (leaf_find-miss key l sl al (λ _. miss), leaf_find-miss key m sm am (λ _. rw (← e) miss))
        refl
]

pub leaf_find-absent :
    (key : ℕ) (l m : LeafNode) {p r : ℕ}
    → l.num_keys < 256
    → m.num_keys < 256
    → IsPos (before key) l.keys l.num_keys p
    → IsPos (before key) m.keys m.num_keys r
    → (p < l.num_keys → l.keys p ≢ key)
    → (r < m.num_keys → m.keys r ≢ key)
    → leaf_find key l ≡ leaf_find key m
leaf_find-absent key l m sl sm al am a b =
    rw (leaf_find-miss key l sl al a, leaf_find-miss key m sm am b) refl
