-- ===== src/Tree/LeafInsert.antt =====
-- Putting a pair into a leaf of src/phylum/tree.h that has a free slot.
use consfs.Common.{
  ℕ, suc, ◌+◌, ◌-◌, ◌≤◌, ◌<◌, ◌≡◌, ◌≢◌, some, refl, sym, arith, ◌==◌, lt→ltb, le→ltb, ltb→lt,
  ltb→le, le→leb, ==_refl, ==_ne, lt_or_le, inl, inr, if◌then◌else◌, eq_or_ne, update, ◌∙◌, ap,
}
use consfs.Keys.{before}
use consfs.Keys.Position.{IsPos, position}
use consfs.Keys.Moves.{InsertedAt, IsPos-insert_behind, IsPos-insert_passed, IsPos-insert_failed}
use consfs.Tree.{LeafNode}
use consfs.Tree.Arrays.{shift_up, shift_up-InsertedAt}
use consfs.Tree.Find.{leaf_find, report}
use consfs.Tree.Insert.{leaf_insert_nonfull}
use consfs.Tree.Invariant.{IsLeaf}
use consfs.Tree.LeafOverwrite.{after, Put, overwritten, overwritten-Put}
use consfs.Tree.LeafFind.{leaf_find-hit, leaf_find-same, leaf_find-absent}

abbrev widened : LeafNode → ℕ → ℕ → ℕ → LeafNode
widened l index key value = record {
  num_keys = l.num_keys + 1;
  keys = update (shift_up (l.num_keys - index) index l.keys) index key;
  values = update (shift_up (l.num_keys - index) index l.values) index value;
}

module _ {leaf_width lo hi : ℕ} (key value : ℕ) (l : LeafNode) {index : ℕ}
    (small : leaf_width < 256) (room : l.num_keys < leaf_width) (ok : IsLeaf leaf_width lo hi l)
    (at : IsPos (before key) l.keys l.num_keys index) (above : lo ≤ key) (below : key < hi) where
  -- The key goes in before those above it.
  key_above : (i : ℕ) → i < index → l.keys i < key
  key_above i h = ltb→lt (l.keys i) key (at.passed i h)

  key_below : l.keys index ≢ key → (i : ℕ) → index ≤ i → i < l.num_keys → key < l.keys i
  key_below new i h less = elim (lt_or_le index i) [
    | inl more ↦ omega (arith, ltb→le _ _ (at.failed (omega arith)), ok.sorted index i more less)
    | inr last ↦
        let e : i ≡ index = omega arith in
        rw e (omega (arith, ltb→le (l.keys index) key (at.failed (omega arith))))
  ]

  keys_in : InsertedAt l.num_keys index key l.keys (widened l index key value).keys
  keys_in = shift_up-InsertedAt l.num_keys index key l.keys at.within

  values_in : InsertedAt l.num_keys index value l.values (widened l index key value).values
  values_in = shift_up-InsertedAt l.num_keys index value l.values at.within

  -- Each slot in use after the insertion holds the new key or an old one.
  each_key :
      (P : ℕ → Type 0)
      → P key
      → ((i : ℕ) → i < l.num_keys → P (l.keys i))
      → (i : ℕ) → i < l.num_keys + 1
      → P ((widened l index key value).keys i)
  each_key P new old i h = elim (lt_or_le i index) [
    | inl low ↦ rw (keys_in.below i low) (old i (omega (arith, at.within)))
    | inr high ↦ elim (lt_or_le index i) [
      | inl more ↦
          let e : i ≡ suc (i - 1) = omega arith in
          rw (e, keys_in.above (i - 1) (omega arith) (omega arith)) (old (i - 1) (omega arith))
      | inr last ↦ let e : i ≡ index = omega arith in rw (e, keys_in.at) new
    ]
  ]

  module _ (new : l.keys index ≢ key) where
    widened-sorted :
        (i j : ℕ)
        → i < j
        → j < l.num_keys + 1
        → (widened l index key value).keys i < (widened l index key value).keys j
    widened-sorted i j h k = elim (lt_or_le j index) [
      | inl low ↦
          rw (keys_in.below i (omega arith), keys_in.below j low)
            (ok.sorted i j h (omega (arith, at.within)))
      | inr high ↦ elim (lt_or_le index j) [
        | inr last ↦
            let e : j ≡ index = omega arith in
            rw (e, keys_in.at, keys_in.below i (omega arith)) (key_above i (omega arith))
        | inl more ↦
            let e : j ≡ suc (j - 1) = omega arith in
            rw (e, keys_in.above (j - 1) (omega arith) (omega arith)) (before_it i j h k more)
      ]
    ]
      where
        before_it :
            (i j : ℕ)
            → i < j
            → j < l.num_keys + 1
            → index < j
            → (widened l index key value).keys i < l.keys (j - 1)
        before_it i j h k more = elim (lt_or_le i index) [
          | inl low ↦ rw (keys_in.below i low) (ok.sorted i (j - 1) (omega arith) (omega arith))
          | inr high ↦ elim (lt_or_le index i) [
            | inr last ↦
                let e : i ≡ index = omega arith in
                rw (e, keys_in.at) (key_below new (j - 1) (omega arith) (omega arith))
            | inl beyond ↦
                let e : i ≡ suc (i - 1) = omega arith in
                rw (e, keys_in.above (i - 1) (omega arith) (omega arith))
                  (ok.sorted (i - 1) (j - 1) (omega arith) (omega arith))
          ]
        ]

    widened-IsLeaf : IsLeaf leaf_width lo hi (widened l index key value)
    widened-IsLeaf = record {
      width = omega arith;
      sorted = widened-sorted;
      low = each_key (λ x. lo ≤ x) above ok.low;
      high = each_key (λ x. x < hi) below ok.high;
      stale = λ j h k. rw (keys_in.beyond j (omega arith)) (ok.stale j (omega arith) k);
    }

    reads_key : leaf_find key (widened l index key value) ≡ some (report value)
    reads_key =
        leaf_find-hit key (widened l index key value) (omega arith)
          (IsPos-insert_failed (before key) at keys_in (omega arith) (le→ltb key key (omega arith)))
          (omega (arith, at.within)) keys_in.at
        ∙ ap (λ (v : ℕ). some (report v)) values_in.at

    reads_low :
        (q p : ℕ)
        → IsPos (before q) l.keys l.num_keys p
        → q < key
        → leaf_find q (widened l index key value) ≡ leaf_find q l
    reads_low q p here h = elim (lt_or_le p index) [
      | inl less ↦
          leaf_find-same q (widened l index key value) l (omega arith) (omega arith)
            (IsPos-insert_behind (before q) here keys_in less at.within) here
            (omega (arith, at.within)) (omega (arith, at.within)) (keys_in.below p less)
            (values_in.below p less)
      | inr more ↦
          leaf_find-absent q (widened l index key value) l (omega arith) (omega arith)
            (IsPos-insert_failed (before q) here keys_in more (le→ltb key q (omega arith))) here
            (λ _ e. absurd (omega (arith, sym keys_in.at ∙ e)))
            (λ inside e. absurd (omega (arith, e, key_below new p more inside)))
    ]

    reads_high :
        (q p : ℕ)
        → IsPos (before q) l.keys l.num_keys p
        → key < q
        → leaf_find q (widened l index key value) ≡ leaf_find q l
    reads_high q p here h = elim (lt_or_le p index) [
      | inl less ↦ absurd (
          omega
            (arith, key_above p less, ltb→le (l.keys p) q (here.failed (omega (arith, at.within)))))
      | inr more ↦
          let moved = IsPos-insert_passed (before q) here keys_in more (lt→ltb key q h) in
          elim (lt_or_le p l.num_keys) [
            | inl inside ↦
                leaf_find-same q (widened l index key value) l (omega arith) (omega arith) moved
                  here (omega arith) inside (keys_in.above p more inside)
                  (values_in.above p more inside)
            | inr outside ↦
                leaf_find-absent q (widened l index key value) l (omega arith) (omega arith) moved
                  here (λ inside. absurd (omega arith)) (λ inside. absurd (omega arith))
          ]
    ]

    widened-reads :
        (q : ℕ) → leaf_find q (widened l index key value) ≡ after key value q (leaf_find q l)
    widened-reads q =
        let (p, here) = position (before q) l.keys l.num_keys in
        elim (eq_or_ne q key) [
          | inl same ↦ rw (same, ==_refl key) reads_key
          | inr other ↦ rw (==_ne q key other) (elim (lt_or_le q key) [
            | inl low ↦ reads_low q p here low
            | inr high ↦ reads_high q p here (omega arith)
          ])
        ]

    widened-first : (widened l index key value).keys 0 ≡ (if index == 0 then key else l.keys 0)
    widened-first = elim (eq_or_ne index 0) [
      | inl z ↦ rw z (rw z at keys_in.at)
      | inr nz ↦ rw (==_ne index 0 nz) (keys_in.below 0 (omega arith))
    ]

  -- In a leaf with a free slot the insertion does not stop, and puts the pair in.
  pub leaf_insert_nonfull-Put :
      0 < key
      → (inner_width : ℕ) (garbage : ℕ → ℕ)
      → (m : LeafNode) × (leaf_insert_nonfull inner_width leaf_width garbage l key value index
          ≡ some m)
        × Put leaf_width lo hi key value index l m
  unfolding leaf_insert_nonfull
  leaf_insert_nonfull-Put positive inner_width garbage =
      let fits : index < leaf_width = omega (arith, at.within) in
      elim (eq_or_ne (l.keys index) key) [
        | inl e ↦ (
          overwritten l index value,
          rw
              (
                lt→ltb l.num_keys leaf_width room,
                lt→ltb index leaf_width fits,
                le→leb index l.num_keys at.within,
                e,
                ==_refl key,
              )
              refl,
          overwritten-Put key value l small ok at (in_use fits e) e,
        )
        | inr new ↦ (
          widened l index key value,
          rw
              (
                lt→ltb l.num_keys leaf_width room,
                lt→ltb index leaf_width fits,
                le→leb index l.num_keys at.within,
                ==_ne (l.keys index) key new,
              )
              refl,
          record { ok = widened-IsLeaf new; reads = widened-reads new; first = widened-first new },
        )
      ]
    where
      -- An unused slot does not hold the key.
      in_use : index < leaf_width → l.keys index ≡ key → index < l.num_keys
      in_use fits e = elim (lt_or_le index l.num_keys) [
        | inl less ↦ less
        | inr more ↦ elim (ok.stale index more fits) [
          | inl cleared ↦ absurd (omega arith)
          | inr right ↦ absurd (omega arith)
        ]
      ]
