-- ===== src/Tree/LeafSplit.antt =====
-- Putting a pair into any leaf of src/phylum/tree.h: a full one is split first.
use consfs.Common.{
  ℕ, ◌+◌, ◌-◌, ◌≤◌, ◌<◌, ◌≡◌, none, some, refl, sym, arith, ◌==◌, lt→ltb, le→ltb, ltb→lt, ltb→le,
  le→leb, ==_iff, ==_ne, lt_or_le, inl, inr, if◌then◌else◌, eq_or_ne, ◌∙◌, ap,
}
use consfs.Keys.{before}
use consfs.Keys.Position.{IsPos, position, leaf_position_for-eq}
use consfs.Keys.Moves.{IsPos-front, IsPos-back}
use consfs.Tree.{LeafNode, leaf}
use consfs.Tree.Arrays.{copy-below, copy-above}
use consfs.Tree.Find.{find_at, leaf_find}
use consfs.Tree.Insert.{Inserted, leaf_insert, split_leaf, leaf_sibling, leaf_threshold}
use consfs.Tree.Invariant.{IsLeaf}
use consfs.Tree.LeafFind.{leaf_find-same, leaf_find-absent}
use consfs.Tree.LeafInsert.{leaf_insert_nonfull-Put}
use consfs.Tree.LeafOverwrite.{after}
use consfs.Tree.Grown.{Grown}

module _ (inner_width leaf_width : ℕ) (garbage : ℕ → ℕ) {lo hi : ℕ} (l : LeafNode)
    (small : leaf_width < 256) (wide : 2 ≤ leaf_width) (full : l.num_keys ≡ leaf_width)
    (ok : IsLeaf leaf_width lo hi l) where
  abbrev t : ℕ
  t = leaf_threshold inner_width leaf_width garbage

  abbrev left : LeafNode
  left = record l { num_keys = t }

  abbrev sibling : LeafNode
  sibling = leaf_sibling inner_width leaf_width garbage l

  threshold_bounds : (0 < t) × (t < leaf_width)
  threshold_bounds = omega arith

  sibling-count : sibling.num_keys ≡ leaf_width - t
  unfolding leaf_sibling
  sibling-count = omega arith

  sibling-keys : (j : ℕ) → j < leaf_width - t → sibling.keys j ≡ l.keys (t + j)
  unfolding leaf_sibling
  sibling-keys j h = copy-below (l.num_keys - t) l.keys t (λ _. 0) j (omega arith)

  sibling-values : (j : ℕ) → j < leaf_width - t → sibling.values j ≡ l.values (t + j)
  unfolding leaf_sibling
  sibling-values j h = copy-below (l.num_keys - t) l.values t garbage j (omega arith)

  sibling-cleared : (j : ℕ) → leaf_width - t ≤ j → sibling.keys j ≡ 0
  unfolding leaf_sibling
  sibling-cleared j h = copy-above (l.num_keys - t) l.keys t (λ _. 0) j (omega arith)

  sibling-first : (j : ℕ) → j ≡ 0 → sibling.keys j ≡ l.keys t
  sibling-first j z =
      sibling-keys j (omega (arith, threshold_bounds)) ∙ ap l.keys {x = t + j} {y = t} (omega arith)

  -- A key between the two halves.
  module _ (middle : ℕ) (over : (j : ℕ) → j < t → l.keys j < middle)
      (under : middle ≤ l.keys t) where
    key_under : (j : ℕ) → t ≤ j → j < leaf_width → middle ≤ l.keys j
    key_under j h k = elim (lt_or_le t j) [
      | inl more ↦ omega (arith, ok.sorted t j more (omega arith))
      | inr last ↦ let e : j ≡ t = omega arith in rw e under
    ]

    left-IsLeaf : IsLeaf leaf_width lo middle left
    left-IsLeaf = record {
      width = omega arith;
      sorted = λ i j h k. ok.sorted i j h (omega arith);
      low = λ i h. ok.low i (omega arith);
      high = over;
      stale = λ j h k. inr (key_under j h k);
    }

    sibling-IsLeaf : IsLeaf leaf_width middle hi sibling
    sibling-IsLeaf = record {
      width = omega (arith, sibling-count);
      sorted = λ i j h k.
          rw
            (
              sibling-keys i (omega (arith, sibling-count)),
              sibling-keys j (omega (arith, sibling-count)),
            )
            (ok.sorted (t + i) (t + j) (omega arith) (omega (arith, sibling-count)));
      low = λ i h.
          rw (sibling-keys i (omega (arith, sibling-count)))
            (key_under (t + i) (omega arith) (omega (arith, sibling-count)));
      high = λ i h.
          rw (sibling-keys i (omega (arith, sibling-count)))
            (ok.high (t + i) (omega (arith, sibling-count)));
      stale = λ j h k. inl (sibling-cleared j (omega (arith, sibling-count)));
    }

    left-reads : (q : ℕ) → q < middle → leaf_find q left ≡ leaf_find q l
    left-reads q h =
        let (p, here) = position (before q) l.keys l.num_keys in
        elim (lt_or_le t p) [
          | inl beyond ↦ absurd (omega (arith, ltb→lt (l.keys t) q (here.passed t beyond)))
          | inr within ↦
              let front = IsPos-front (before q) here t l.keys (λ _ _. refl) within (omega arith) in
              elim (lt_or_le p t) [
                | inl inside ↦
                    leaf_find-same q left l (omega arith) (omega arith) front here inside
                      (omega arith) refl refl
                | inr edge ↦
                    leaf_find-absent q left l (omega arith) (omega arith) front here
                      (λ inside. absurd (omega arith))
                      (λ inside e. absurd (omega (arith, e, key_under p edge (omega arith))))
              ]
        ]

    sibling-reads : (q : ℕ) → middle ≤ q → leaf_find q sibling ≡ leaf_find q l
    sibling-reads q h =
        let (p, here) = position (before q) l.keys l.num_keys in
        elim (lt_or_le p t) [
          | inl low ↦ absurd (
              omega (
                arith,
                over p low,
                ltb→le (l.keys p) q (here.failed (omega (arith, threshold_bounds))),
              ))
          | inr high ↦ reads q p here high
        ]
      where
        reads :
            (q p : ℕ)
            → IsPos (before q) l.keys l.num_keys p
            → t ≤ p
            → leaf_find q sibling ≡ leaf_find q l
        reads q p here high =
            let back =
              IsPos-back (before q) here t sibling.num_keys sibling.keys
                (omega (arith, sibling-count, threshold_bounds))
                (λ j less. sibling-keys j (omega (arith, sibling-count))) high in
            let e : t + (p - t) ≡ p = omega arith in
            elim (lt_or_le p leaf_width) [
              | inl inside ↦
                  leaf_find-same q sibling l (omega (arith, sibling-count)) (omega arith) back here
                    (omega (arith, sibling-count)) (omega arith)
                    (sibling-keys (p - t) (omega arith) ∙ ap l.keys e)
                    (sibling-values (p - t) (omega arith) ∙ ap l.values e)
              | inr outside ↦
                  leaf_find-absent q sibling l (omega (arith, sibling-count)) (omega arith) back
                    here (λ inside. absurd (omega (arith, sibling-count)))
                    (λ inside. absurd (omega arith))
            ]

  -- The pair goes to the left half.
  left_half :
      (key value i : ℕ)
      → IsPos (before key) l.keys l.num_keys i
      → lo ≤ key
      → key < hi
      → 0 < key
      → i < t
      → (r : Inserted) × (split_leaf inner_width leaf_width garbage l key value i ≡ some r)
        × Grown inner_width leaf_width 0 lo hi key value (leaf l) r.node r.split
  unfolding split_leaf find_at
  left_half key value i at above below positive h =
      let middle = l.keys t in
      let over = λ (j : ℕ) (k : j < t). ok.sorted j t k (omega (arith, threshold_bounds)) in
      let front = IsPos-front (before key) at t l.keys (λ _ _. refl) (omega arith) (omega arith) in
      let key_low : key < middle =
        omega
          (arith, ltb→le (l.keys i) key (at.failed (omega arith)), ok.sorted i t h (omega arith)) in
      let (m, e, put) =
        leaf_insert_nonfull-Put key value left small (omega (arith, threshold_bounds))
          (left-IsLeaf middle over (omega arith)) front above key_low positive inner_width
          garbage in
      (
        record { node = leaf m; split = some (sibling.keys 0, leaf sibling) },
        rw (lt→ltb i t h, e) refl,
        rw (sibling-first 0 refl) (record {
          low = omega arith;
          high = omega (arith, ok.high t (omega (arith, threshold_bounds)));
          left_ok = put.ok;
          right_ok = sibling-IsLeaf middle over (omega arith);
          left_reads = λ q _ k.
              put.reads q ∙ ap (after key value q) (left-reads middle over (omega arith) q k);
          right_reads =
              λ q k _. rw (==_ne q key (omega arith)) (sibling-reads middle over (omega arith) q k);
        }),
      )

  -- The pair goes to the right half, whose first key is then the middle.
  right_half :
      (key value i middle : ℕ)
      → IsPos (before key) l.keys l.num_keys i
      → lo ≤ key
      → key < hi
      → 0 < key
      → t ≤ i
      → middle ≡ (if i - t == 0 then key else l.keys t)
      → ((j : ℕ) → j < t → l.keys j < middle)
      → (middle ≤ l.keys t) × (middle ≤ key) × (lo ≤ middle)
      → (r : Inserted) × (split_leaf inner_width leaf_width garbage l key value i ≡ some r)
        × Grown inner_width leaf_width 0 lo hi key value (leaf l) r.node r.split
  unfolding split_leaf find_at
  right_half key value i middle at above below positive h e over bounds =
      let back =
        IsPos-back (before key) at t sibling.num_keys sibling.keys
          (omega (arith, sibling-count, threshold_bounds))
          (λ j less. sibling-keys j (omega (arith, sibling-count))) h in
      let (m, inserted, put) =
        leaf_insert_nonfull-Put key value sibling small
          (omega (arith, sibling-count, threshold_bounds)) (sibling-IsLeaf middle over bounds.0)
          back bounds.1 below positive inner_width garbage in
      let first : m.keys 0 ≡ middle =
        put.first ∙ ap (λ (k : ℕ). if i - t == 0 then key else k) (sibling-first 0 refl) ∙ sym e in
      (
        record { node = leaf left; split = some (m.keys 0, leaf m) },
        rw (le→ltb i t h, inserted) refl,
        rw first (record {
          low = bounds.2;
          high = omega arith;
          left_ok = left-IsLeaf middle over bounds.0;
          right_ok = put.ok;
          left_reads =
              λ q _ k. rw (==_ne q key (omega arith)) (left-reads middle over bounds.0 q k);
          right_reads = λ q k _.
              put.reads q ∙ ap (after key value q) (sibling-reads middle over bounds.0 q k);
        }),
      )

  full_leaf :
      (key value i : ℕ)
      → IsPos (before key) l.keys l.num_keys i
      → lo ≤ key
      → key < hi
      → 0 < key
      → (r : Inserted) × (split_leaf inner_width leaf_width garbage l key value i ≡ some r)
        × Grown inner_width leaf_width 0 lo hi key value (leaf l) r.node r.split
  full_leaf key value i at above below positive = elim (lt_or_le i t) [
    | inl low ↦ left_half key value i at above below positive low
    | inr high ↦ elim (eq_or_ne (i - t) 0) [
      | inl z ↦
          let e : i ≡ t = omega arith in
          let under : key ≤ l.keys t =
            rw e at (ltb→le (l.keys i) key (at.failed (omega (arith, threshold_bounds)))) in
          right_half key value i key at above below positive high (rw z refl)
            (λ j h. ltb→lt (l.keys j) key (at.passed j (omega arith))) (omega arith)
      | inr nz ↦
          right_half key value i (l.keys t) at above below positive high
            (rw (==_ne (i - t) 0 nz) refl)
            (λ j h. ok.sorted j t h (omega (arith, threshold_bounds)))
            (omega (
              arith,
              ltb→lt (l.keys t) key (at.passed t (omega arith)),
              ok.low t (omega (arith, threshold_bounds)),
            ))
    ]
  ]

-- Any leaf takes a pair whose key is within its bounds.
pub leaf_insert-Grown :
    (inner_width leaf_width : ℕ) (garbage : ℕ → ℕ) (lo hi key value : ℕ) (l : LeafNode)
    → leaf_width < 256
    → 2 ≤ leaf_width
    → IsLeaf leaf_width lo hi l
    → lo ≤ key
    → key < hi
    → 0 < key
    → (r : Inserted) × (leaf_insert inner_width leaf_width garbage l key value ≡ some r)
      × Grown inner_width leaf_width 0 lo hi key value (leaf l) r.node r.split
unfolding leaf_insert find_at
leaf_insert-Grown inner_width leaf_width garbage lo hi key value l small wide ok above below
      positive =
    let (i, at) = position (before key) l.keys l.num_keys in
    let found = leaf_position_for-eq key l.keys (omega (arith, ok.width)) at in
    elim (eq_or_ne l.num_keys leaf_width) [
      | inl full ↦
          let (r, e, grown) =
            full_leaf inner_width leaf_width garbage l small wide full ok key value i at above below
              positive in
          (
            r,
            rw
                (
                  le→leb l.num_keys leaf_width ok.width,
                  found,
                  (==_iff l.num_keys leaf_width).1 full,
                  e,
                )
                refl,
            grown,
          )
      | inr free ↦
          let (m, e, put) =
            leaf_insert_nonfull-Put key value l small (omega (arith, ok.width)) ok at above below
              positive inner_width garbage in
          (
            record { node = leaf m; split = none },
            rw (le→leb l.num_keys leaf_width ok.width, found, ==_ne l.num_keys leaf_width free, e)
                refl,
            record { ok = put.ok; reads = λ q _ _. put.reads q },
          )
    ]
