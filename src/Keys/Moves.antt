-- ===== src/Keys/Moves.antt =====
-- How the place of a key moves when an array of keys is cut or takes a new key.
use consfs.Common.{ℕ, suc, ◌+◌, ◌-◌, ◌≤◌, ◌<◌, ◌≡◌, Bool, true, false, inl, inr, arith, lt_or_le}
use consfs.Keys.Position.{IsPos}

-- `new` is `old`, `n` keys long, with `x` put in at `index`.
pub record InsertedAt {ℓ} {A : Type ℓ} (n index : ℕ) (x : A) (old new : ℕ → A) : Type ℓ where
  pub below : (j : ℕ) → j < index → new j ≡ old j
  pub at : new index ≡ x
  pub above : (j : ℕ) → index ≤ j → j < n → new (suc j) ≡ old j
  pub beyond : (j : ℕ) → n < j → new j ≡ old j

module _ (test : ℕ → Bool) {keys : ℕ → ℕ} {n p : ℕ} (at : IsPos test keys n p) where
  -- The first `t` keys, if the place is not behind them.
  pub IsPos-front :
      (t : ℕ) (front : ℕ → ℕ)
      → ((j : ℕ) → j < t → front j ≡ keys j)
      → p ≤ t
      → t ≤ n
      → IsPos test front t p
  IsPos-front t front same h k = record {
    within = h;
    passed = λ i less. rw (same i (omega arith)) (at.passed i less);
    failed = λ less. rw (same p less) (at.failed (omega arith));
  }

  -- The keys from `t` on, if the place is among them or behind.
  pub IsPos-back :
      (t m : ℕ) (back : ℕ → ℕ)
      → t + m ≡ n
      → ((j : ℕ) → j < m → back j ≡ keys (t + j))
      → t ≤ p
      → IsPos test back m (p - t)
  IsPos-back t m back sum same h =
      let last = at.within in
      record {
        within = omega arith;
        passed = λ i less. rw (same i (omega arith)) (at.passed (t + i) (omega arith));
        failed = λ less.
            let e : t + (p - t) ≡ p = omega arith in
            rw (same (p - t) less, e) (at.failed (omega arith));
      }

  module _ {index x : ℕ} {new : ℕ → ℕ} (ins : InsertedAt n index x keys new) where
    -- A key put in behind the place leaves it.
    pub IsPos-insert_behind : p < index → index ≤ n → IsPos test new (n + 1) p
    IsPos-insert_behind less k = record {
      within = omega arith;
      passed = λ i h. rw (ins.below i (omega arith)) (at.passed i h);
      failed = λ h. rw (ins.below p less) (at.failed (omega arith));
    }

    -- A key put in at the place or before it, that passes the test, moves it on.
    pub IsPos-insert_passed : index ≤ p → test x ≡ true → IsPos test new (n + 1) (suc p)
    IsPos-insert_passed h t = record {
      within = omega (arith, at.within);
      passed = pass;
      failed = λ less. rw (ins.above p h (omega arith)) (at.failed (omega arith));
    }
      where
        pass : (i : ℕ) → i < suc p → test (new i) ≡ true
        pass i less = elim (lt_or_le i index) [
          | inl low ↦ rw (ins.below i low) (at.passed i (omega arith))
          | inr high ↦ elim (lt_or_le index i) [
            | inl more ↦
                let e : i ≡ suc (i - 1) = omega arith in
                rw (e, ins.above (i - 1) (omega arith) (omega (arith, at.within)))
                  (at.passed (i - 1) (omega arith))
            | inr last ↦ let e : i ≡ index = omega arith in rw (e, ins.at) t
          ]
        ]

    -- A key put in at the place or before it, that fails the test, is the place.
    pub IsPos-insert_failed : index ≤ p → test x ≡ false → IsPos test new (n + 1) index
    IsPos-insert_failed h f = record {
      within = omega (arith, at.within);
      passed = λ i less. rw (ins.below i less) (at.passed i (omega arith));
      failed = λ _. rw ins.at f;
    }
