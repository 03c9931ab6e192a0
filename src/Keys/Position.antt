-- ===== src/Keys/Position.antt =====
-- The place that the searches of src/phylum/keys.h find: that of the first key that fails the test.
use consfs.Common.{
  ℕ, zero, suc, ◌+◌, ◌≤◌, ◌<◌, ◌≡◌, Bool, true, false, inl, inr, some, refl, arith, lt→ltb, le→ltb,
  le→leb, lt_or_le, Bool-cases, u8,
}
use consfs.Keys.{scan, before, before_or_at, leaf_position_for, inner_position_for}

-- `p` is the place of the first of the `n` keys that fails `test`, and `n` if none does.
pub record IsPos (test : ℕ → Bool) (keys : ℕ → ℕ) (n p : ℕ) : Type 0 where
  pub within : p ≤ n
  pub passed : (i : ℕ) → i < p → test (keys i) ≡ true
  pub failed : p < n → test (keys p) ≡ false

module _ (test : ℕ → Bool) (keys : ℕ → ℕ) where
  pub position : (n : ℕ) → (p : ℕ) × IsPos test keys n p
  position zero = (
    0,
    record {
      within = omega arith;
      passed = λ i h. absurd (omega arith);
      failed = λ h. absurd (omega arith);
    },
  )
  position (suc n) =
      let (p, at) = position n in
      elim (lt_or_le p n) [
        | inl h ↦
            (p, record { within = omega arith; passed = at.passed; failed = λ _. at.failed h })
        | inr h ↦ extend p at h
      ]
    where
      upto : (p : ℕ) → IsPos test keys n p → n ≤ p → (i : ℕ) → i < n → test (keys i) ≡ true
      upto p at h i below = at.passed i (omega arith)

      extend : (p : ℕ) → IsPos test keys n p → n ≤ p → (r : ℕ) × IsPos test keys (suc n) r
      extend p at h = elim (Bool-cases (test (keys n))) [
        | inl t ↦ (
          suc n,
          record {
            within = omega arith;
            passed = λ i below. elim (lt_or_le i n) [
              | inl less ↦ upto p at h i less
              | inr last ↦ let e : i ≡ n = omega arith in rw e t
            ];
            failed = λ less. absurd (omega arith);
          },
        )
        | inr f ↦ (n, record { within = omega arith; passed = upto p at h; failed = λ _. f })
      ]

  -- The search that has come to `k` ends at the place, if the uint8_t counter can count the keys.
  scan-eq :
      (fuel n p k : ℕ)
      → IsPos test keys n p
      → n < 256
      → k ≤ p
      → p < k + fuel
      → scan fuel test keys n k ≡ some p
  unfolding scan
  scan-eq zero n p k at small low high = absurd (omega arith)
  scan-eq (suc fuel) n p k at small low high = elim (lt_or_le k p) [
    | inl more ↦
        let next : u8 (k + 1) ≡ k + 1 = omega (arith, at.within) in
        rw (lt→ltb k n (omega (arith, at.within)), at.passed k more, next, scan)
          (scan-eq fuel n p (k + 1) at small (omega arith) (omega arith))
    | inr done ↦
        let e : k ≡ p = omega arith in
        rw e (elim (lt_or_le p n) [
          | inl inside ↦ rw (lt→ltb p n inside, at.failed inside, scan) refl
          | inr outside ↦ rw (le→ltb p n outside, scan) refl
        ])
  ]

  pub IsPos_unique : {n p r : ℕ} → IsPos test keys n p → IsPos test keys n r → p ≡ r
  IsPos_unique {n} {p} {r} a b = elim (lt_or_le p r) [
    | inl less ↦ absurd (contradict (b.passed p less) (a.failed (omega (arith, b.within))))
    | inr h ↦ elim (lt_or_le r p) [
      | inl less ↦ absurd (contradict (a.passed r less) (b.failed (omega (arith, a.within))))
      | inr k ↦ omega arith
    ]
  ]
    where
      contradict : {b : Bool} → b ≡ true → b ≡ false → ⊥
      contradict t f = cc

-- With fewer than 256 keys the search of a leaf ends, within the fuel of one round for each key and one
-- more, and without a failed assertion, at the first key that is not below the one sought.
pub leaf_position_for-eq :
    (key : ℕ) {n p : ℕ} (keys : ℕ → ℕ)
    → n < 256
    → IsPos (before key) keys n p
    → leaf_position_for key keys n ≡ some p
unfolding leaf_position_for
leaf_position_for-eq key {n} {p} keys small at =
    rw
      (
        scan-eq (before key) keys (suc n) n p 0 at small (omega arith) (omega (arith, at.within)),
        le→leb p n at.within,
      )
      refl

-- With fewer than 256 keys the search of an inner node ends, within the same fuel, at the first key
-- above the one sought.
pub inner_position_for-eq :
    (key : ℕ) {n p : ℕ} (keys : ℕ → ℕ)
    → n < 256
    → IsPos (before_or_at key) keys n p
    → inner_position_for key keys n ≡ some p
unfolding inner_position_for
inner_position_for-eq key {n} {p} keys small at =
    scan-eq (before_or_at key) keys (suc n) n p 0 at small (omega arith) (omega (arith, at.within))
