-- ===== src/Tree/Arrays.antt =====
-- The two loops of src/phylum/tree.h over arrays, and what they leave in each slot.
use consfs.Common.{
  ℕ, zero, suc, ◌+◌, ◌-◌, ◌≤◌, ◌<◌, ◌≡◌, ◌≢◌, inl, inr, refl, arith, update, lt_or_le, ap, ==_refl,
}
use consfs.Keys.Moves.{InsertedAt}

module _ {ℓ} {A : Type ℓ} where
  -- `for (i = index + rounds; i > index; --i) a[i] = a[i - 1];`
  unfoldable pub shift_up : ℕ → ℕ → (ℕ → A) → ℕ → A
  shift_up zero index a = a
  shift_up (suc rounds) index a =
      shift_up rounds index (update a (index + suc rounds) (a (index + rounds)))

  -- `for (j = 0; j < count; ++j) to[j] = from[offset + j];`
  unfoldable pub copy : ℕ → (ℕ → A) → ℕ → (ℕ → A) → ℕ → A
  copy zero from offset to = to
  copy (suc count) from offset to = update (copy count from offset to) count (from (offset + count))

  pub update_at : (a : ℕ → A) (i : ℕ) (v : A) → update a i v i ≡ v
  update_at a i v = rw (==_refl i) refl

  pub update_ne : (a : ℕ → A) {i j : ℕ} (v : A) → i < j → update a i v j ≡ a j
  update_ne a {i} {j} v h = ground arith

  pub update_other : (a : ℕ → A) {i j : ℕ} (v : A) → i ≢ j → update a i v j ≡ a j
  update_other a {i} {j} v h = ground arith

  pub copy-below :
      (count : ℕ) (from : ℕ → A) (offset : ℕ) (to : ℕ → A) (j : ℕ)
      → j < count
      → copy count from offset to j ≡ from (offset + j)
  unfolding copy
  copy-below zero from offset to j h = absurd (omega arith)
  copy-below (suc count) from offset to j h = elim (lt_or_le j count) [
    | inl less ↦ ground (arith, copy-below count from offset to j less)
    | inr last ↦ let e : j ≡ count = omega arith in rw (e, ==_refl count) refl
  ]

  pub copy-above :
      (count : ℕ) (from : ℕ → A) (offset : ℕ) (to : ℕ → A) (j : ℕ)
      → count ≤ j
      → copy count from offset to j ≡ to j
  unfolding copy
  copy-above zero from offset to j h = refl
  copy-above (suc count) from offset to j h =
      ground (arith, copy-above count from offset to j (omega arith))

  shift_up-below : (r index : ℕ) (a : ℕ → A) (j : ℕ) → j ≤ index → shift_up r index a j ≡ a j
  unfolding shift_up
  shift_up-below zero index a j h = refl
  shift_up-below (suc r) index a j h =
      ground (arith, shift_up-below r index (update a (index + suc r) (a (index + r))) j h)

  shift_up-beyond : (r index : ℕ) (a : ℕ → A) (j : ℕ) → index + r < j → shift_up r index a j ≡ a j
  unfolding shift_up
  shift_up-beyond zero index a j h = refl
  shift_up-beyond (suc r) index a j h =
      ground
        (arith, shift_up-beyond r index (update a (index + suc r) (a (index + r))) j (omega arith))

  shift_up-above :
      (r index : ℕ) (a : ℕ → A) (j : ℕ)
      → index ≤ j
      → j < index + r
      → shift_up r index a (suc j) ≡ a j
  unfolding shift_up
  shift_up-above zero index a j h k = absurd (omega arith)
  shift_up-above (suc r) index a j h k = elim (lt_or_le j (index + r)) [
    | inl less ↦
        ground (arith, shift_up-above r index (update a (index + suc r) (a (index + r))) j h less)
    | inr last ↦
        let e : j ≡ index + r = omega arith in
        let top : suc j ≡ index + suc r = omega arith in
        ground (
          arith,
          shift_up-beyond r index (update a (index + suc r) (a (index + r))) (suc j) (omega arith),
          ap a e,
        )
  ]

  -- The insertion of the source: the slots from `index` on move up by one, and `x` is written there.
  pub shift_up-InsertedAt :
      (n index : ℕ) (x : A) (a : ℕ → A)
      → index ≤ n
      → InsertedAt n index x a (update (shift_up (n - index) index a) index x)
  shift_up-InsertedAt n index x a h = record {
    below = λ j k. ground (arith, shift_up-below (n - index) index a j (omega arith));
    at = update_at (shift_up (n - index) index a) index x;
    above = λ j k l. ground (arith, shift_up-above (n - index) index a j k (omega arith));
    beyond = λ j k. ground (arith, shift_up-beyond (n - index) index a j (omega arith));
  }
