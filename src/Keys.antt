-- ===== src/Keys.antt =====
-- src/phylum/keys.h: the linear searches for a key's place in a node. Keys are unsigned numbers, and
-- an array is a function from its index.
pub mod Position
pub mod Moves
use consfs.Common.{
  ℕ, zero, suc, ◌+◌, ◌%◌, ◌^◌, Bool, true, false, ◌&&◌, ◌||◌, Option, none, some, ltb, leb, ◌==◌,
  u8, ◌>>=◌, ◌>>◌, check,
}

-- `while ((k < number_keys) && test(keys[k])) ++k;` with a uint8_t `k`. Fuel bounds the rounds: `none`
-- is a loop that did not end within them.
unfoldable pub scan : ℕ → (ℕ → Bool) → (ℕ → ℕ) → ℕ → ℕ → Option ℕ
scan zero test keys number_keys k = none
scan (suc fuel) test keys number_keys k = elim (ltb k number_keys && test (keys k)) [
  | true ↦ scan fuel test keys number_keys (u8 (k + 1))
  | false ↦ some k
]

abbrev pub before : ℕ → ℕ → Bool
before key x = ltb x key

abbrev pub before_or_at : ℕ → ℕ → Bool
before_or_at key x = ltb x key || x == key

unfoldable pub leaf_position_for : ℕ → (ℕ → ℕ) → ℕ → Option ℕ
leaf_position_for key keys number_keys = do
  k ← scan (suc number_keys) (before key) keys number_keys 0
  check (leb k number_keys)
  some k

unfoldable pub inner_position_for : ℕ → (ℕ → ℕ) → ℕ → Option ℕ
inner_position_for key keys number_keys =
    scan (suc number_keys) (before_or_at key) keys number_keys 0
