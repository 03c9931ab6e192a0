-- ===== src/SerialFlash/Map.antt =====
-- The map of free blocks of src/backends/arduino_serial_flash/serial_flash_allocator.cpp as a set.
use Prim.Native.Nat.{◌/◌, ◌%◌}
use consfs.Common.{
  ℕ, zero, suc, ◌<◌, ◌≡◌, Bool, true, false, not, ◌&&◌, some, ltb, ◌==◌, if◌then◌else◌, update,
  refl, arith, lt→ltb, ltb→lt, ==_iff, Bool-cases, inl, inr, sym,
}
use consfs.SerialFlash.{
  Map, map_size, byte_free, byte_set, byte_clear, is_block_free, set_block_free, set_block_taken,
}

all_below : ℕ → (ℕ → Bool) → Bool
all_below zero p = true
all_below (suc n) p = p n && all_below n p

all_below-holds : (n : ℕ) (p : ℕ → Bool) (x : ℕ) → all_below n p ≡ true → x < n → p x ≡ true
unfolding all_below
all_below-holds zero p x h small = absurd (omega arith)
all_below-holds (suc n) p x h small = ground (arith, all_below-holds n p x)

abbrev same : Bool → Bool → Bool
same true b = b
same false b = not b

same-eq : (a b : Bool) → same a b ≡ true → a ≡ b
same-eq true b h = sym h
same-eq false true h = h
same-eq false false h = refl

-- The laws of one byte, by evaluation.
abbrev byte_laws : ℕ → ℕ → ℕ → Bool
byte_laws i j x =
    same (byte_free (byte_set x i) j) (if j == i then false else byte_free x j)
    && (same (byte_free (byte_clear x i) j) (if j == i then true else byte_free x j)
        && (ltb (byte_set x i) 256 && ltb (byte_clear x i) 256))

byte_table : all_below 8 (λ i. all_below 8 (λ j. all_below 256 (byte_laws i j))) ≡ true
unfolding all_below
byte_table = refl

byte_laws-hold : (i j x : ℕ) → i < 8 → j < 8 → x < 256 → byte_laws i j x ≡ true
byte_laws-hold i j x i_small j_small x_small =
    let rows =
      all_below-holds 8 (λ i. all_below 8 (λ j. all_below 256 (byte_laws i j))) i byte_table
        i_small in
    let row = all_below-holds 8 (λ j. all_below 256 (byte_laws i j)) j rows j_small in
    all_below-holds 256 (byte_laws i j) x row x_small

-- Whether the map has the block as free.
abbrev pub free_in : Map → ℕ → Bool
free_in map block = byte_free (map (block / 8)) (block % 8)

abbrev pub IsBytes : Map → Type 0
IsBytes map = (i : ℕ) → map i < 256

pub is_block_free-free_in :
    (map : Map) (block : ℕ) → block < 64 → is_block_free map block ≡ some (free_in map block)
unfolding is_block_free
is_block_free-free_in map block small = rw (lt→ltb (block / 8) map_size (omega arith)) refl

set_law :
    (i j x : ℕ)
    → i < 8
    → j < 8
    → x < 256
    → (byte_free (byte_set x i) j ≡ (if j == i then false else byte_free x j))
      × (byte_set x i < 256)
set_law i j x i_small j_small x_small =
    let laws = byte_laws-hold i j x i_small j_small x_small in
    let first =
      same-eq (byte_free (byte_set x i) j) (if j == i then false else byte_free x j)
        (ground arith) in
    (first, ltb→lt (byte_set x i) 256 (ground arith))

clear_law :
    (i j x : ℕ)
    → i < 8
    → j < 8
    → x < 256
    → (byte_free (byte_clear x i) j ≡ (if j == i then true else byte_free x j))
      × (byte_clear x i < 256)
clear_law i j x i_small j_small x_small =
    let laws = byte_laws-hold i j x i_small j_small x_small in
    let second =
      same-eq (byte_free (byte_clear x i) j) (if j == i then true else byte_free x j)
        (ground arith) in
    (second, ltb→lt (byte_clear x i) 256 (ground arith))

-- A byte of the map replaced by one that differs in the bit of a block.
update-free_in :
    (map : Map) (block byte : ℕ) (b : Bool)
    → ((j : ℕ)
        → j < 8
        → byte_free byte j ≡ (if j == block % 8 then b else byte_free (map (block / 8)) j))
    → (k : ℕ) → free_in (update map (block / 8) byte) k ≡ (if k == block then b else free_in map k)
update-free_in map block byte b law k = elim (Bool-cases (k / 8 == block / 8)) [
  | inl here ↦
      let at : k / 8 ≡ block / 8 = (==_iff (k / 8) (block / 8)).0 here in
      let bit : (k % 8 == block % 8) ≡ (k == block) = ground arith in
      rw (here, law (k % 8) (omega arith), bit, at) refl
  | inr other ↦ let apart : (k == block) ≡ false = ground arith in rw (other, apart) refl
]

update-IsBytes : (map : Map) (i byte : ℕ) → IsBytes map → byte < 256 → IsBytes (update map i byte)
update-IsBytes map i byte bytes small k = elim (Bool-cases (k == i)) [
  | inl here ↦ rw here small
  | inr other ↦ rw other (bytes k)
]

pub set_block_taken_lem :
    (map : Map) (block : ℕ)
    → IsBytes map
    → block < 64
    → (after : Map) × (set_block_taken map block ≡ some after)
      × IsBytes after
      × ((k : ℕ) → free_in after k ≡ (if k == block then false else free_in map k))
unfolding set_block_taken
set_block_taken_lem map block bytes small =
    let i_small : block % 8 < 8 = omega arith in
    let law = λ (j : ℕ) (j_small : j < 8).
      set_law (block % 8) j (map (block / 8)) i_small j_small (bytes (block / 8)) in
    let byte = byte_set (map (block / 8)) (block % 8) in
    (
      update map (block / 8) byte,
      rw (lt→ltb (block / 8) map_size (omega arith)) refl,
      update-IsBytes map (block / 8) byte bytes (law 0 (omega arith)).1,
      update-free_in map block byte false (λ j j_small. (law j j_small).0),
    )

pub set_block_free_lem :
    (map : Map) (block : ℕ)
    → IsBytes map
    → block < 64
    → (after : Map) × (set_block_free map block ≡ some after)
      × IsBytes after
      × ((k : ℕ) → free_in after k ≡ (if k == block then true else free_in map k))
unfolding set_block_free
set_block_free_lem map block bytes small =
    let i_small : block % 8 < 8 = omega arith in
    let law = λ (j : ℕ) (j_small : j < 8).
      clear_law (block % 8) j (map (block / 8)) i_small j_small (bytes (block / 8)) in
    let byte = byte_clear (map (block / 8)) (block % 8) in
    (
      update map (block / 8) byte,
      rw (lt→ltb (block / 8) map_size (omega arith)) refl,
      update-IsBytes map (block / 8) byte bytes (law 0 (omega arith)).1,
      update-free_in map block byte true (λ j j_small. (law j j_small).0),
    )
