-- ===== src/Tree/InnerSplit.antt =====
-- `inner_insert` of src/phylum/tree.h: a full inner node is split before the insertion goes on.
use consfs.Common.{
  ℕ, zero, suc, ◌+◌, ◌-◌, ◌≤◌, ◌<◌, ◌≡◌, Bool, true, Option, none, some, refl, sym, arith, lt→ltb,
  le→ltb, lt_or_le, inl, inr, eq_or_ne, update, ◌∙◌, ap, ==_ne, ==_iff,
}
use consfs.Keys.{before_or_at}
use consfs.Keys.Position.{IsPos, position}
use consfs.Keys.Moves.{IsPos-front, IsPos-back}
use consfs.Tree.{Node, null, inner}
use consfs.Tree.Arrays.{copy, copy-below, update_at, update_other}
use consfs.Tree.Find.{find_at}
use consfs.Tree.Insert.{Inserted, all_children, split_inner, inner_insert, inner_threshold}
use consfs.Tree.Invariant.{IsKeys, IsNode, lower, upper}
use consfs.Tree.InnerFind.{le_of_before, lt_of_before, find_at-inner, upper-inside, upper-last}
use consfs.Tree.InnerInsert.{inner_insert_nonfull-Kept}
use consfs.Tree.LeafOverwrite.{after}
use consfs.Tree.Grown.{Grown}

all_children-true :
    (count : ℕ) (test : Node → Bool) (children : ℕ → Node)
    → ((i : ℕ) → i < count → test (children i) ≡ true)
    → all_children count test children ≡ true
unfolding all_children
all_children-true zero test children h = refl
all_children-true (suc count) test children h =
    rw (all_children-true count test children (λ i k. h i (omega arith)), h count (omega arith))
      refl

module _ (inner_width leaf_width : ℕ) (garbage : ℕ → ℕ) (d lo hi key value n : ℕ) (keys : ℕ → ℕ)
    (children : ℕ → Node) (is_child : Node → Bool) (insert : Node → Option Inserted)
    (small : inner_width < 256) (wide : 2 < inner_width) (ok : IsKeys inner_width lo hi n keys)
    (nodes : (i : ℕ)
      → i ≤ n
      → IsNode inner_width leaf_width d (lower lo keys i) (upper hi n keys i) (children i))
    (kinds : (i : ℕ) → i ≤ n → is_child (children i) ≡ true) (above : lo ≤ key) (below : key < hi)
    (step : (i : ℕ)
      → i ≤ n
      → lower lo keys i ≤ key
      → key < upper hi n keys i
      → (r : Inserted) × (insert (children i) ≡ some r)
        × Grown inner_width leaf_width d
            (lower lo keys i)
            (upper hi n keys i)
            key
            value
            (children i)
            r.node
            r.split) where
  abbrev t : ℕ
  t = inner_threshold inner_width leaf_width garbage

  abbrev m : ℕ
  m = n - t

  abbrev middle : ℕ
  middle = keys (t - 1)

  abbrev right_keys : ℕ → ℕ
  right_keys = copy m keys t garbage

  abbrev right_children : ℕ → Node
  right_children = update (copy m children t (λ _. null)) m (children n)

  module _ (full : n ≡ inner_width) where
    right_keys-eq : (j : ℕ) → j < m → right_keys j ≡ keys (t + j)
    right_keys-eq j h = copy-below m keys t garbage j h

    right_children-eq : (i : ℕ) → i ≤ m → right_children i ≡ children (t + i)
    right_children-eq i h = elim (lt_or_le i m) [
      | inl less ↦
          update_other (copy m children t (λ _. null)) (children n) (λ e. absurd (omega (arith, e)))
          ∙ copy-below m children t (λ _. null) i less
      | inr last ↦
          let e : i ≡ m = omega arith in
          rw e (
            update_at (copy m children t (λ _. null)) m (children n)
            ∙ ap children {x = n} {y = t + m} (omega arith))
    ]

    left-IsKeys : IsKeys inner_width lo middle (t - 1) keys
    left-IsKeys = record {
      width = omega arith;
      ordered = ok.low (t - 1) (omega arith);
      sorted = λ i j h k. ok.sorted i j h (omega arith);
      low = λ i h. ok.low i (omega arith);
      high = λ i h. ok.sorted i (t - 1) h (omega arith);
    }

    right-IsKeys : IsKeys inner_width middle hi m right_keys
    right-IsKeys = record {
      width = omega arith;
      ordered = ok.high (t - 1) (omega arith);
      sorted = λ i j h k.
          rw (right_keys-eq i (omega arith), right_keys-eq j k)
            (ok.sorted (t + i) (t + j) (omega arith) (omega arith));
      low = λ i h. rw (right_keys-eq i h) (ok.sorted (t - 1) (t + i) (omega arith) (omega arith));
      high = λ i h. rw (right_keys-eq i h) (ok.high (t + i) (omega arith));
    }

    left_upper : (i : ℕ) → i ≤ t - 1 → upper middle (t - 1) keys i ≡ upper hi n keys i
    left_upper i h = elim (lt_or_le i (t - 1)) [
      | inl less ↦
          upper-inside middle (t - 1) keys i less ∙ sym (upper-inside hi n keys i (omega arith))
      | inr last ↦
          upper-last middle (t - 1) keys i last
          ∙ ap keys {x = t - 1} {y = i} (omega arith)
          ∙ sym (upper-inside hi n keys i (omega arith))
    ]

    right_lower : (i : ℕ) → i ≤ m → lower middle right_keys i ≡ lower lo keys (t + i)
    right_lower zero h = ap (lower lo keys) {x = suc (t - 1)} {y = t + 0} (omega arith)
    right_lower (suc i) h =
        right_keys-eq i (omega arith)
        ∙ ap (lower lo keys) {x = suc (t + i)} {y = t + suc i} (omega arith)

    right_upper : (i : ℕ) → i ≤ m → upper hi m right_keys i ≡ upper hi n keys (t + i)
    right_upper i h = elim (lt_or_le i m) [
      | inl less ↦
          upper-inside hi m right_keys i less
          ∙ right_keys-eq i less
          ∙ sym (upper-inside hi n keys (t + i) (omega arith))
      | inr last ↦
          upper-last hi m right_keys i last ∙ sym (upper-last hi n keys (t + i) (omega arith))
    ]

    left_nodes :
        (i : ℕ)
        → i ≤ t - 1
        → IsNode inner_width leaf_width d
            (lower lo keys i)
            (upper middle (t - 1) keys i)
            (children i)
    left_nodes i h = rw (left_upper i h) (nodes i (omega arith))

    right_nodes :
        (i : ℕ)
        → i ≤ m
        → IsNode inner_width leaf_width d
            (lower middle right_keys i)
            (upper hi m right_keys i)
            (right_children i)
    right_nodes i h =
        rw (right_lower i h, right_upper i h, right_children-eq i h) (nodes (t + i) (omega arith))

    left-find :
        (q : ℕ)
        → q < middle
        → find_at (suc d) (inner (t - 1) keys children) q
          ≡ find_at (suc d) (inner n keys children) q
    left-find q h =
        let (p, here) = position (before_or_at q) keys n in
        elim (lt_or_le (t - 1) p) [
          | inl beyond ↦
              absurd (omega (arith, le_of_before q (keys (t - 1)) (here.passed (t - 1) beyond)))
          | inr within ↦
              find_at-inner d (t - 1) keys children q (omega arith)
                (IsPos-front (before_or_at q) here (t - 1) keys (λ _ _. refl) within (omega arith))
              ∙ sym (find_at-inner d n keys children q (omega arith) here)
        ]

    right-find :
        (q : ℕ)
        → middle ≤ q
        → find_at (suc d) (inner m right_keys right_children) q
          ≡ find_at (suc d) (inner n keys children) q
    right-find q h =
        let (p, here) = position (before_or_at q) keys n in
        elim (lt_or_le p t) [
          | inl low ↦ absurd (omega (arith, too_low q p here low))
          | inr high ↦
              find_at-inner d m right_keys right_children q (omega arith)
                (IsPos-back (before_or_at q) here t m right_keys (omega arith) right_keys-eq high)
              ∙ ap (λ c. find_at d c q)
                  (right_children-eq (p - t) (omega (arith, here.within))
                    ∙ ap children {x = t + (p - t)} {y = p} (omega arith))
              ∙ sym (find_at-inner d n keys children q (omega arith) here)
        ]
      where
        too_low : (q p : ℕ) → IsPos (before_or_at q) keys n p → p < t → q < middle
        too_low q p here low = elim (lt_or_le p (t - 1)) [
          | inl less ↦ omega (
            arith,
            lt_of_before q (keys p) (here.failed (omega arith)),
            ok.sorted p (t - 1) less (omega arith),
          )
          | inr last ↦
              let e : p ≡ t - 1 = omega arith in
              rw e at (lt_of_before q (keys p) (here.failed (omega arith)))
        ]

    split_inner-Grown :
        (r : Inserted) × (split_inner inner_width leaf_width garbage is_child insert n keys children
            key
          ≡ some r)
        × Grown inner_width leaf_width
            (suc d)
            lo
            hi
            key
            value
            (inner n keys children)
            r.node
            r.split
    unfolding split_inner
    split_inner-Grown = elim (lt_or_le key middle) [
      | inl less ↦
          let (node, e, kept) =
            inner_insert_nonfull-Kept inner_width leaf_width garbage d lo middle key value (t - 1)
              keys children small (omega arith) left-IsKeys left_nodes is_child insert
              (all_children-true (t - 1 + 1) is_child children (λ i h. kinds i (omega arith))) above
              less
              (λ i h j k.
                rw (left_upper i h) (step i (omega arith) j (rw (left_upper i h) at k))) in
          (
            record { node = node; split = some (middle, inner m right_keys right_children) },
            rw (lt→ltb key middle less, e) refl,
            record {
              low = ok.low (t - 1) (omega arith);
              high = ok.high (t - 1) (omega arith);
              left_ok = kept.ok;
              right_ok = (right-IsKeys, right_nodes);
              left_reads = λ q j k. kept.reads q j k ∙ ap (after key value q) (left-find q k);
              right_reads = λ q j k. rw (==_ne q key (omega arith)) (right-find q j);
            },
          )
      | inr more ↦
          let (node, e, kept) =
            inner_insert_nonfull-Kept inner_width leaf_width garbage d middle hi key value m
              right_keys right_children small (omega arith) right-IsKeys right_nodes is_child insert
              (all_children-true (m + 1) is_child right_children
                (λ i h. rw (right_children-eq i (omega arith)) (kinds (t + i) (omega arith))))
              more below
              (λ i h j k.
                rw (right_lower i h, right_upper i h, right_children-eq i h)
                  (step (t + i) (omega arith) (rw (right_lower i h) at j)
                    (rw (right_upper i h) at k))) in
          (
            record { node = inner (t - 1) keys children; split = some (middle, node) },
            rw (le→ltb key middle more, e) refl,
            record {
              low = ok.low (t - 1) (omega arith);
              high = ok.high (t - 1) (omega arith);
              left_ok = (left-IsKeys, left_nodes);
              right_ok = kept.ok;
              left_reads = λ q j k. rw (==_ne q key (omega arith)) (left-find q k);
              right_reads = λ q j k. kept.reads q j k ∙ ap (after key value q) (right-find q j);
            },
          )
    ]

  -- An inner node takes the pair, full or not.
  pub inner_insert-Grown :
      (r : Inserted) × (inner_insert inner_width leaf_width garbage is_child insert n keys children
          key
        ≡ some r)
      × Grown inner_width leaf_width (suc d) lo hi key value (inner n keys children) r.node r.split
  unfolding inner_insert
  inner_insert-Grown = elim (eq_or_ne n inner_width) [
    | inl full ↦
        let (r, e, grown) = split_inner-Grown full in
        (r, rw ((==_iff n inner_width).1 full, e) refl, grown)
    | inr free ↦
        let (node, e, kept) =
          inner_insert_nonfull-Kept inner_width leaf_width garbage d lo hi key value n keys children
            small (omega (arith, ok.width)) ok nodes is_child insert
            (all_children-true (n + 1) is_child children (λ i h. kinds i (omega arith))) above below
            step in
        (record { node = node; split = none }, rw (==_ne n inner_width free, e) refl, kept)
  ]
