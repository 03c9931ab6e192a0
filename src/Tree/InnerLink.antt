-- ===== src/Tree/InnerLink.antt =====
-- Linking the halves of a child into an inner node of src/phylum/tree.h that has a free slot.
use consfs.Common.{
  ℕ, zero, suc, ◌+◌, ◌-◌, ◌≤◌, ◌<◌, ◌≡◌, ◌≢◌, refl, sym, arith, lt_or_le, inl, inr, eq_or_ne,
  update, ◌∙◌, ==_ne,
}
use consfs.Keys.{before_or_at}
use consfs.Keys.Position.{IsPos, position, IsPos_unique}
use consfs.Keys.Moves.{InsertedAt, IsPos-insert_behind, IsPos-insert_passed, IsPos-insert_failed}
use consfs.Tree.{Node, inner}
use consfs.Tree.Arrays.{update_at, update_other}
use consfs.Tree.Find.{find_at}
use consfs.Tree.Invariant.{IsKeys, IsNode, lower, upper}
use consfs.Tree.InnerFind.{
  le_of_before, before_of_le, before_of_lt, find_at-inner, lower-le, lt-upper, upper-inside,
  upper-last,
}
use consfs.Tree.LeafOverwrite.{after}
use consfs.Tree.Grown.{Kept, Halved}

-- The children after the one at `index` was replaced by `left` and `right`.
pub record ChildrenAt (n index : ℕ) (left right : Node) (old new : ℕ → Node) : Type 0 where
  pub below : (i : ℕ) → i < index → new i ≡ old i
  pub at_left : new index ≡ left
  pub at_right : new (suc index) ≡ right
  pub above : (i : ℕ) → index < i → i ≤ n → new (suc i) ≡ old i

module _ (inner_width leaf_width d lo hi key value n : ℕ) (keys : ℕ → ℕ) (children : ℕ → Node)
    {index : ℕ} (small : inner_width < 256) (ok : IsKeys inner_width lo hi n keys)
    (nodes : (i : ℕ)
      → i ≤ n
      → IsNode inner_width leaf_width d (lower lo keys i) (upper hi n keys i) (children i))
    (at : IsPos (before_or_at key) keys n index) where
  abbrev pub Lo : ℕ
  Lo = lower lo keys index

  abbrev pub Hi : ℕ
  Hi = upper hi n keys index

  other_key : (q p : ℕ) → IsPos (before_or_at q) keys n p → p ≢ index → q ≢ key
  other_key q p here ne e = ne (IsPos_unique (before_or_at key) keys (rw e at here) at)

  -- The child was not split.
  pub replaced :
      (child : Node)
      → Kept inner_width leaf_width d Lo Hi key value (children index) child
      → Kept inner_width leaf_width
          (suc d)
          lo
          hi
          key
          value
          (inner n keys children)
          (inner n keys (update children index child))
  replaced child kept = record { ok = (ok, nodes'); reads = reads }
    where
      nodes' :
          (i : ℕ)
          → i ≤ n
          → IsNode inner_width leaf_width d
              (lower lo keys i)
              (upper hi n keys i)
              (update children index child i)
      nodes' i h = elim (eq_or_ne i index) [
        | inl e ↦ rw (e, update_at children index child) kept.ok
        | inr ne ↦ rw (update_other children child (λ e. ne (sym e))) (nodes i h)
      ]

      at_place :
          (q p : ℕ)
          → lo ≤ q
          → q < hi
          → IsPos (before_or_at q) keys n p
          → find_at d (update children index child p) q
            ≡ after key value q (find_at d (children p) q)
      at_place q p low high here = elim (eq_or_ne p index) [
        | inl e ↦
            let here' = rw e at here in
            rw (e, update_at children index child)
              (kept.reads q (lower-le lo keys n q index low here')
                (lt-upper hi keys n q index high here'))
        | inr ne ↦
            rw (update_other children child (λ e. ne (sym e)), ==_ne q key (other_key q p here ne))
              refl
      ]

      reads :
          (q : ℕ)
          → lo ≤ q
          → q < hi
          → find_at (suc d) (inner n keys (update children index child)) q
            ≡ after key value q (find_at (suc d) (inner n keys children) q)
      reads q low high =
          let (p, here) = position (before_or_at q) keys n in
          rw
            (
              find_at-inner d n keys (update children index child) q (omega (arith, ok.width)) here,
              find_at-inner d n keys children q (omega (arith, ok.width)) here,
            )
            (at_place q p low high here)

  -- The child was split, and its halves stand in `children'` with their middle in `keys'`.
  module _ (mid : ℕ) (left right : Node) (room : n < inner_width)
      (halved : Halved inner_width leaf_width d Lo Hi key value (children index) left mid right)
      {keys' : ℕ → ℕ} {children' : ℕ → Node} (keys_in : InsertedAt n index mid keys keys')
      (children_in : ChildrenAt n index left right children children') where
    mid_over : (i : ℕ) → i < index → keys i ≤ mid
    mid_over i h = let e : index ≡ suc (index - 1) = omega arith in go (index - 1) e
      where
        go : (j : ℕ) → index ≡ suc j → keys i ≤ mid
        go j e =
            let low : keys j ≤ mid = rw e at halved.low in
            elim (lt_or_le i j) [
              | inl less ↦ omega (arith, ok.sorted i j less (omega (arith, at.within)))
              | inr last ↦ let f : i ≡ j = omega arith in rw f low
            ]

    mid_under : (i : ℕ) → index ≤ i → i < n → mid ≤ keys i
    mid_under i h less =
        let high : mid ≤ keys index =
          rw (upper-inside hi n keys index (omega arith)) at halved.high in
        elim (lt_or_le index i) [
          | inl more ↦ omega (arith, ok.sorted index i more less)
          | inr last ↦ let f : i ≡ index = omega arith in rw f high
        ]

    mid_low : lo ≤ mid
    mid_low = go index refl
      where
        go : (i : ℕ) → index ≡ i → lo ≤ mid
        go zero e = rw e at halved.low
        go (suc i) e = omega (arith, mid_over i (omega arith), ok.low i (omega (arith, at.within)))

    mid_high : mid ≤ hi
    mid_high = elim (lt_or_le index n) [
      | inl less ↦ omega (arith, mid_under index (omega arith) less, ok.high index less)
      | inr last ↦ rw (upper-last hi n keys index last) at halved.high
    ]

    -- Each key after the insertion is the middle or an old one.
    each_key :
        (P : ℕ → Type 0)
        → P mid
        → ((i : ℕ) → i < n → P (keys i))
        → (i : ℕ) → i < n + 1
        → P (keys' i)
    each_key P new old i h = elim (lt_or_le i index) [
      | inl low ↦ rw (keys_in.below i low) (old i (omega (arith, at.within)))
      | inr high ↦ elim (lt_or_le index i) [
        | inl more ↦
            let e : i ≡ suc (i - 1) = omega arith in
            rw (e, keys_in.above (i - 1) (omega arith) (omega arith)) (old (i - 1) (omega arith))
        | inr last ↦ let e : i ≡ index = omega arith in rw (e, keys_in.at) new
      ]
    ]

    keys'-sorted : (i j : ℕ) → i < j → j < n + 1 → keys' i ≤ keys' j
    keys'-sorted i j h k = elim (lt_or_le j index) [
      | inl low ↦
          rw (keys_in.below i (omega arith), keys_in.below j low)
            (ok.sorted i j h (omega (arith, at.within)))
      | inr high ↦ elim (lt_or_le index j) [
        | inr last ↦
            let e : j ≡ index = omega arith in
            rw (e, keys_in.at, keys_in.below i (omega arith)) (mid_over i (omega arith))
        | inl more ↦
            let e : j ≡ suc (j - 1) = omega arith in
            rw (e, keys_in.above (j - 1) (omega arith) (omega arith)) (under i j h k more)
      ]
    ]
      where
        under : (i j : ℕ) → i < j → j < n + 1 → index < j → keys' i ≤ keys (j - 1)
        under i j h k more = elim (lt_or_le i index) [
          | inl low ↦ rw (keys_in.below i low) (ok.sorted i (j - 1) (omega arith) (omega arith))
          | inr high ↦ elim (lt_or_le index i) [
            | inr last ↦
                let e : i ≡ index = omega arith in
                rw (e, keys_in.at) (mid_under (j - 1) (omega arith) (omega arith))
            | inl beyond ↦
                let e : i ≡ suc (i - 1) = omega arith in
                rw (e, keys_in.above (i - 1) (omega arith) (omega arith))
                  (ok.sorted (i - 1) (j - 1) (omega arith) (omega arith))
          ]
        ]

    keys'-IsKeys : IsKeys inner_width lo hi (n + 1) keys'
    keys'-IsKeys = record {
      width = omega arith;
      ordered = ok.ordered;
      sorted = keys'-sorted;
      low = each_key (λ x. lo ≤ x) mid_low ok.low;
      high = each_key (λ x. x ≤ hi) mid_high ok.high;
    }

    -- The bounds of the children after the insertion.
    lower_below : (i : ℕ) → i ≤ index → lower lo keys' i ≡ lower lo keys i
    lower_below zero h = refl
    lower_below (suc i) h = keys_in.below i (omega arith)

    upper_below : (i : ℕ) → i < index → upper hi (n + 1) keys' i ≡ upper hi n keys i
    upper_below i h =
        upper-inside hi (n + 1) keys' i (omega (arith, at.within))
        ∙ keys_in.below i h
        ∙ sym (upper-inside hi n keys i (omega (arith, at.within)))

    lower_above : (i : ℕ) → index < i → i ≤ n → lower lo keys' (suc i) ≡ lower lo keys i
    lower_above zero h k = absurd (omega arith)
    lower_above (suc i) h k = keys_in.above i (omega arith) (omega arith)

    upper_above : (i : ℕ) → index ≤ i → i ≤ n → upper hi (n + 1) keys' (suc i) ≡ upper hi n keys i
    upper_above i h k = elim (lt_or_le i n) [
      | inl less ↦
          upper-inside hi (n + 1) keys' (suc i) (omega arith)
          ∙ keys_in.above i h less
          ∙ sym (upper-inside hi n keys i less)
      | inr last ↦
          upper-last hi (n + 1) keys' (suc i) (omega arith) ∙ sym (upper-last hi n keys i last)
    ]

    nodes' :
        (i : ℕ)
        → i ≤ n + 1
        → IsNode inner_width leaf_width d
            (lower lo keys' i)
            (upper hi (n + 1) keys' i)
            (children' i)
    nodes' i h = elim (lt_or_le i index) [
      | inl low ↦
          rw (children_in.below i low, lower_below i (omega arith), upper_below i low)
            (nodes i (omega (arith, at.within)))
      | inr high ↦ elim (lt_or_le index i) [
        | inr last ↦
            let e : i ≡ index = omega arith in
            rw
              (
                e,
                children_in.at_left,
                lower_below index (omega arith),
                upper-inside hi (n + 1) keys' index (omega (arith, at.within)),
                keys_in.at,
              )
              halved.left_ok
        | inl more ↦
            let e : i ≡ suc (i - 1) = omega arith in
            rw e (beyond (i - 1) (omega arith) (omega arith))
      ]
    ]
      where
        beyond :
            (j : ℕ)
            → index ≤ j
            → j ≤ n
            → IsNode inner_width leaf_width d
                (keys' j)
                (upper hi (n + 1) keys' (suc j))
                (children' (suc j))
        beyond j h k = elim (lt_or_le index j) [
          | inl more ↦
              rw (children_in.above j more k, upper_above j h k)
                (rw (← lower_above j more k) at (nodes j k))
          | inr last ↦
              let e : j ≡ index = omega arith in
              rw
                (e, children_in.at_right, keys_in.at, upper_above index (omega arith) (omega arith))
                halved.right_ok
        ]

    reads_at :
        (q p : ℕ)
        → lo ≤ q
        → q < hi
        → IsPos (before_or_at q) keys n p
        → find_at (suc d) (inner (n + 1) keys' children') q
          ≡ after key value q (find_at d (children p) q)
    reads_at q p low high here =
        let count : n + 1 < 256 = omega arith in
        elim (lt_or_le p index) [
          | inl less ↦
              find_at-inner d (n + 1) keys' children' q count
                (IsPos-insert_behind (before_or_at q) here keys_in less at.within)
              ∙ rw
                  (
                    children_in.below p less,
                    ==_ne q key (other_key q p here (λ e. absurd (omega (arith, e)))),
                  )
                  refl
          | inr high_p ↦ elim (lt_or_le index p) [
            | inl more ↦
                let passed = before_of_le q mid (
                  omega (
                    arith,
                    mid_under index (omega arith) (omega (arith, here.within)),
                    le_of_before q (keys index) (here.passed index more),
                  )) in
                find_at-inner d (n + 1) keys' children' q count
                  (IsPos-insert_passed (before_or_at q) here keys_in high_p passed)
                ∙ rw
                    (
                      children_in.above p more here.within,
                      ==_ne q key (other_key q p here (λ e. absurd (omega (arith, e)))),
                    )
                    refl
            | inr last ↦
                let e : p ≡ index = omega arith in rw e (at_index q low high (rw e at here))
          ]
        ]
      where
        at_index :
            (q : ℕ)
            → lo ≤ q
            → q < hi
            → IsPos (before_or_at q) keys n index
            → find_at (suc d) (inner (n + 1) keys' children') q
              ≡ after key value q (find_at d (children index) q)
        at_index q low high here = elim (lt_or_le q mid) [
          | inl less ↦
              find_at-inner d (n + 1) keys' children' q (omega arith) (
                IsPos-insert_failed (before_or_at q) here keys_in (omega arith)
                  (before_of_lt q mid less))
              ∙ rw children_in.at_left
                  (halved.left_reads q (lower-le lo keys n q index low here) less)
          | inr more ↦
              find_at-inner d (n + 1) keys' children' q (omega arith) (
                IsPos-insert_passed (before_or_at q) here keys_in (omega arith)
                  (before_of_le q mid more))
              ∙ rw children_in.at_right
                  (halved.right_reads q more (lt-upper hi keys n q index high here))
        ]

    pub linked :
        Kept inner_width leaf_width
          (suc d)
          lo
          hi
          key
          value
          (inner n keys children)
          (inner (n + 1) keys' children')
    linked = record {
      ok = (keys'-IsKeys, nodes');
      reads = λ q low high.
          let (p, here) = position (before_or_at q) keys n in
          rw (find_at-inner d n keys children q (omega (arith, ok.width)) here)
            (reads_at q p low high here);
    }
