-- ===== src/Tree/Down.antt =====
-- The way down of `find_last_less_then` of src/phylum/tree.h, in a search tree whose inner keys have slots.
use consfs.Common.{
  ℕ, zero, suc, ◌-◌, ◌≤◌, ◌<◌, ◌≡◌, ◌⊎◌, Bool, true, ◌&&◌, ◌||◌, Option, some, ltb, ◌==◌,
  if◌then◌else◌, arith, refl, sym, ap, subst, ◌∙◌, inl, inr, lt→ltb, le→ltb, lt_or_le, eq_or_ne,
  ==_ne, ==_iff,
}
use consfs.Keys.{before, before_or_at}
use consfs.Keys.Position.{IsPos, position, inner_position_for-eq}
use consfs.Tree.{LeafNode, Node, null, leaf, inner}
use consfs.Tree.Find.{find_at, leaf_find}
use consfs.Tree.Before.{descend_before}
use consfs.Tree.Invariant.{IsLeaf, IsKeys, IsNode, lower, upper}
use consfs.Tree.InnerFind.{
  find_at-inner, le_of_before, lt_of_before, before_of_le, before_of_lt, upper-inside, upper-last,
}
use consfs.Tree.LeafFind.{leaf_find-miss}
use consfs.Tree.Add.{IsWide}

-- The key has a slot, which a removed key keeps.
abbrev pub Slot : Option (Bool × Option ℕ) → Type 0
Slot o = (b : Bool) × (v : ℕ) × (o ≡ some (b, some v))

-- Each key of an inner node has a slot in the child to its right.
abbrev pub HasSlots : ℕ → Node → Type 0
HasSlots zero node = Unit {0}
HasSlots (suc d) (inner n keys children) =
    ((i : ℕ) → i < n → Slot (find_at d (children (suc i)) (keys i)))
    × ((i : ℕ) → i ≤ n → HasSlots d (children i))
HasSlots (suc d) _ = ⊥

le-upper :
    (hi : ℕ) (keys : ℕ → ℕ) (n q p : ℕ)
    → q ≤ hi
    → IsPos (before_or_at q) keys n p
    → q ≤ upper hi n keys p
le-upper hi keys n q p h at = elim (lt_or_le p n) [
  | inl less ↦
      rw (lt→ltb p n less)
        (let below = lt_of_before q (keys p) (at.failed less) in omega (arith, below))
  | inr more ↦ rw (le→ltb p n more) h
]

-- The child within whose bounds a key is.
between-IsPos :
    (lo hi n : ℕ) (keys : ℕ → ℕ) (q c : ℕ)
    → ((i j : ℕ) → i < j → j < n → keys i ≤ keys j)
    → c ≤ n
    → lower lo keys c ≤ q
    → q < upper hi n keys c
    → IsPos (before_or_at q) keys n c
between-IsPos lo hi n keys q zero sorted within low high = record {
  within = within;
  passed = λ i h. absurd (omega (arith, h));
  failed = λ less.
      before_of_lt q (keys 0) (subst (λ (u : ℕ). q < u) (upper-inside hi n keys 0 less) high);
}
between-IsPos lo hi n keys q (suc c) sorted within low high = record {
  within = within;
  passed = λ i h. elim (eq_or_ne i c) [
    | inl last ↦ rw last (before_of_le q (keys c) low)
    | inr earlier ↦ before_of_le q (keys i) (
        let up = sorted i c (omega (arith, h, earlier)) (omega (arith, within)) in
        omega (arith, up, low))
  ];
  failed = λ less.
      before_of_lt q (keys (suc c))
        (subst (λ (u : ℕ). q < u) (upper-inside hi n keys (suc c) less) high);
}

module _ (inner_width leaf_width : ℕ) (wide : IsWide inner_width leaf_width) where
  -- A key that has a slot in a node is below the node's upper bound.
  Slot-below :
      (d lo hi q : ℕ) (node : Node)
      → IsNode inner_width leaf_width d lo hi node
      → Slot (find_at d node q)
      → q < hi
  unfolding find_at
  Slot-below zero lo hi q null ok slot = elim ok [ ]
  Slot-below zero lo hi q (inner n keys children) ok slot = elim ok [ ]
  Slot-below zero lo hi q (leaf l) ok (b, v, found) =
      let count : l.num_keys < 256 = omega (arith, wide.leaf_small, ok.width) in
      let (p, at) = position (before q) l.keys l.num_keys in
      elim (lt_or_le p l.num_keys) [
        | inl less ↦ elim (eq_or_ne (l.keys p) q) [
          | inl e ↦ let up = ok.high p less in omega (arith, up, e)
          | inr ne ↦ absurd (cc (leaf_find-miss q l count at (λ _. ne)))
        ]
        | inr more ↦
            absurd (cc (leaf_find-miss q l count at (λ less. absurd (omega (arith, less, more)))))
      ]
  Slot-below (suc d) lo hi q null ok slot = elim ok [ ]
  Slot-below (suc d) lo hi q (leaf l) ok slot = elim ok [ ]
  Slot-below (suc d) lo hi q (inner n keys children) ok (b, v, found) =
      let small : n < 256 = omega (arith, wide.inner_small, ok.0.width) in
      let (p, at) = position (before_or_at q) keys n in
      let below =
        Slot-below d (lower lo keys p) (upper hi n keys p) q (children p) (ok.1 p at.within)
          (b, v, sym (find_at-inner d n keys children q small at) ∙ found) in
      elim (lt_or_le p n) [
        | inl less ↦
            let up = ok.0.high p less in
            omega (arith, up, subst (λ (u : ℕ). q < u) (upper-inside hi n keys p less) below)
        | inr more ↦ subst (λ (u : ℕ). q < u) (upper-last hi n keys p more) below
      ]

  -- The leaf to which the search goes down: its bounds, within which the tree reads as the leaf does, have
  -- the key below or at the upper one, and the lower one is that of the tree, or is below the key and has
  -- a slot.
  pub record Down (d lo hi key : ℕ) (node : Node) (l : LeafNode) : Type 0 where
    pub low : ℕ
    pub high : ℕ
    pub ok : IsLeaf leaf_width low high l
    pub inside_low : lo ≤ low
    pub inside_high : high ≤ hi
    pub below : key ≤ high
    pub same : (q : ℕ) → low ≤ q → q < high → find_at d node q ≡ leaf_find q l
    pub first : (low ≡ lo) ⊎ ((low < key) × Slot (leaf_find low l))

  lower-above :
      (lo hi n : ℕ) (keys : ℕ → ℕ) (c : ℕ)
      → IsKeys inner_width lo hi n keys
      → c ≤ n
      → lo ≤ lower lo keys c
  lower-above lo hi n keys zero ok within = omega arith
  lower-above lo hi n keys (suc c) ok within = ok.low c (omega (arith, within))

  upper-within :
      (lo hi n : ℕ) (keys : ℕ → ℕ) (c : ℕ)
      → IsKeys inner_width lo hi n keys
      → upper hi n keys c ≤ hi
  upper-within lo hi n keys c ok = elim (lt_or_le c n) [
    | inl less ↦ rw (upper-inside hi n keys c less) (ok.high c less)
    | inr more ↦ rw (upper-last hi n keys c more) (omega arith)
  ]

  -- Keys of an inner node that follow each other differ.
  next_key :
      (d lo hi n : ℕ) (keys : ℕ → ℕ) (children : ℕ → Node)
      → IsNode inner_width leaf_width (suc d) lo hi (inner n keys children)
      → HasSlots (suc d) (inner n keys children)
      → (i : ℕ) → suc i < n
      → keys i < keys (suc i)
  next_key d lo hi n keys children ok slots i less =
      subst (λ (u : ℕ). keys i < u) (upper-inside hi n keys (suc i) less)
        (Slot-below d (keys i) (upper hi n keys (suc i)) (keys i) (children (suc i))
          (ok.1 (suc i) (omega (arith, less))) (slots.0 i (omega (arith, less))))

  -- One step down, to the child at an index.
  child-Down :
      (d lo hi key c : ℕ) (n : ℕ) (keys : ℕ → ℕ) (children : ℕ → Node) (l : LeafNode)
      → IsNode inner_width leaf_width (suc d) lo hi (inner n keys children)
      → HasSlots (suc d) (inner n keys children)
      → c ≤ n
      → ((b : ℕ) → c ≡ suc b → keys b < key)
      → Down d (lower lo keys c) (upper hi n keys c) key (children c) l
      → Down (suc d) lo hi key (inner n keys children) l
  child-Down d lo hi key c n keys children l ok slots within above down =
      let small : n < 256 = omega (arith, wide.inner_small, ok.0.width) in
      let inner_same : (q : ℕ)
          → down.low ≤ q
          → q < down.high
          → find_at (suc d) (inner n keys children) q ≡ leaf_find q l =
        λ q from to.
          let at =
            between-IsPos lo hi n keys q c ok.0.sorted within (omega (arith, from, down.inside_low))
              (omega (arith, to, down.inside_high)) in
          find_at-inner d n keys children q small at ∙ down.same q from to in
      record {
        low = down.low;
        high = down.high;
        ok = down.ok;
        inside_low = omega (arith, lower-above lo hi n keys c ok.0 within, down.inside_low);
        inside_high = omega (arith, upper-within lo hi n keys c ok.0, down.inside_high);
        below = down.below;
        same = inner_same;
        first = elim (down.first) [
          | inr has ↦ inr has
          | inl at_lower ↦ at-lower c within above down at_lower
        ];
      }
    where
      at-lower :
          (c : ℕ)
          → c ≤ n
          → ((b : ℕ) → c ≡ suc b → keys b < key)
          → (down : Down d (lower lo keys c) (upper hi n keys c) key (children c) l)
          → down.low ≡ lower lo keys c
          → (down.low ≡ lo) ⊎ ((down.low < key) × Slot (leaf_find down.low l))
      at-lower zero within above down at_lower = inl at_lower
      at-lower (suc c) within above down at_lower =
          let less = above c refl in
          let (b, v, slot) = slots.0 c (omega (arith, within)) in
          let here = down.same down.low (omega arith) (omega (arith, at_lower, less, down.below)) in
          inr (
            omega (arith, at_lower, less),
            (b, v, sym here ∙ ap (λ q. find_at d (children (suc c)) q) at_lower ∙ slot),
          )

  pub descend_before-Down :
      (d lo hi key : ℕ) (node : Node)
      → IsNode inner_width leaf_width d lo hi node
      → HasSlots d node
      → key ≤ hi
      → (l : LeafNode) × (descend_before d node key ≡ some l) × Down d lo hi key node l
  unfolding descend_before find_at
  descend_before-Down zero lo hi key null ok slots below = elim ok [ ]
  descend_before-Down zero lo hi key (inner n keys children) ok slots below = elim ok [ ]
  descend_before-Down zero lo hi key (leaf l) ok slots below = (
    l,
    refl,
    record {
      low = lo;
      high = hi;
      ok = ok;
      inside_low = omega arith;
      inside_high = omega arith;
      below = below;
      same = λ q from to. refl;
      first = inl refl;
    },
  )
  descend_before-Down (suc d) lo hi key null ok slots below = elim ok [ ]
  descend_before-Down (suc d) lo hi key (leaf l) ok slots below = elim ok [ ]
  descend_before-Down (suc d) lo hi key (inner n keys children) ok slots below =
      let small : n < 256 = omega (arith, wide.inner_small, ok.0.width) in
      let (p, at) = position (before_or_at key) keys n in
      let found = inner_position_for-eq key keys small at in
      let (c, within, above, under, chosen) = choose p at in
      let (l, rest, down) =
        descend_before-Down d (lower lo keys c) (upper hi n keys c) key (children c) (ok.1 c within)
          (slots.1 c within) under in
      (
        l,
        rw (found, chosen, checked c above) rest,
        child-Down d lo hi key c n keys children l ok slots within above down,
      )
    where
      checked :
          (c : ℕ) → ((b : ℕ) → c ≡ suc b → keys b < key) → (c == 0 || ltb (keys (c - 1)) key) ≡ true
      checked zero above = refl
      checked (suc c) above =
          let same : suc c - 1 ≡ c = omega arith in
          rw
            (
              ==_ne (suc c) 0 (λ e. absurd (omega (arith, e))),
              same,
              lt→ltb (keys c) key (above c refl),
            )
            refl

      choose :
          (p : ℕ)
          → IsPos (before_or_at key) keys n p
          → (c : ℕ) × (c ≤ n)
            × ((b : ℕ) → c ≡ suc b → keys b < key)
            × (key ≤ upper hi n keys c)
            × ((if ltb 0 p && key == keys (p - 1) then p - 1 else p) ≡ c)
      choose zero at =
          (0, at.within, λ b e. absurd (omega (arith, e)), le-upper hi keys n key 0 below at, refl)
      choose (suc p) at =
          let same : suc p - 1 ≡ p = omega arith in
          elim (eq_or_ne key (keys p)) [
            | inl here ↦ (
              p,
              omega (arith, at.within),
              λ b e.
                  let less =
                    next_key d lo hi n keys children ok slots b (omega (arith, e, at.within)) in
                  let same_key : keys p ≡ keys (suc b) = ap keys e in
                  omega (arith, less, same_key, here),
              rw (upper-inside hi n keys p (omega (arith, at.within))) (omega (arith, here)),
              rw (lt→ltb 0 (suc p) (omega arith), same, (==_iff key (keys p)).1 here) refl,
            )
            | inr apart ↦ (
              suc p,
              at.within,
              λ b e.
                  let passed = le_of_before key (keys p) (at.passed p (omega arith)) in
                  let same_key : keys b ≡ keys p = ap keys (omega (arith, e)) in
                  omega (arith, passed, same_key, apart),
              le-upper hi keys n key (suc p) below at,
              rw (lt→ltb 0 (suc p) (omega arith), same, ==_ne key (keys p) apart) refl,
            )
          ]
