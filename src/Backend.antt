-- ===== src/Backend.antt =====
-- src/phylum/backend.h, and reading and writing the structs of src/phylum/private.h through it.
use consfs.Common.{
  ℕ, ◌+◌, ◌-◌, ◌^◌, ◌<◌, ◌≡◌, Bool, true, ◌&&◌, Option, some, leb, ltb, ◌==◌, if◌then◌else◌, ◌>>=◌,
}
use consfs.Addressing.{BlockAddress, Geometry, block_index_invalid}
use consfs.Alloc.{AllocatedBlock, BlockType}

-- The operations of `StorageBackend` (src/phylum/backend.h) that files use. The second component of
-- what a read gives is what the buffer holds after it. Erasing does not change the geometry.
pub record Storage : Type 1 where
  pub State : Type 0
  pub geometry : State → Geometry
  pub read : State → BlockAddress → ℕ → Option (Bool × (ℕ → ℕ))
  pub write : State → BlockAddress → (ℕ → ℕ) → ℕ → Option (Bool × State)
  pub erase : State → ℕ → Option (Bool × State)
  pub erase-geometry :
      (s : State) (b : ℕ) (r : Bool × State) → erase s b ≡ some r → geometry r.1 ≡ geometry s

-- `BlockAllocator`: what the code needs of any of them.
pub record Allocates : Type 1 where
  pub State : Type 0
  pub allocate : State → BlockType → Option (AllocatedBlock × State)

-- How the compiler lays out a struct: its `sizeof`, its bytes, and the values that these can hold.
pub record Codec (A : Type 0) : Type 1 where
  pub size : ℕ
  pub encode : A → ℕ → ℕ
  pub decode : (ℕ → ℕ) → A
  pub Fits : A → Type 0
  pub decode-encode :
      (x : A) (bytes : ℕ → ℕ)
      → Fits x
      → ((i : ℕ) → i < size → bytes i ≡ encode x i)
      → decode bytes ≡ x

-- Whether the read succeeds, and the struct that it fills.
unfoldable pub load :
    (T : Storage) {A : Type 0} (c : Codec A) → T.State → BlockAddress → Option (Bool × A)
load T c s a = T.read s a c.size >>= λ r. some (r.0, c.decode r.1)

unfoldable pub store :
    (T : Storage) {A : Type 0} (c : Codec A) → T.State → BlockAddress → A → Option (Bool × T.State)
store T c s a x = T.write s a (c.encode x) c.size

-- Storage that always answers, though an operation may fail: `view` is its bytes, by block and position.
-- A write that succeeds changes the bytes that it is given, an erase that succeeds those of its block.
pub record Answers (T : Storage) : Type 0 where
  pub view : T.State → ℕ → ℕ → ℕ
  pub reads :
      (s : T.State) (a : BlockAddress) (n : ℕ)
      → (r : Bool × (ℕ → ℕ)) × (T.read s a n ≡ some r)
        × (r.0 ≡ true → (i : ℕ) → i < n → r.1 i ≡ view s a.block (a.position + i))
  pub writes :
      (s : T.State) (a : BlockAddress) (d : ℕ → ℕ) (n : ℕ)
      → (r : Bool × T.State) × (T.write s a d n ≡ some r)
        × (T.geometry r.1 ≡ T.geometry s)
        × (r.0 ≡ true
            → (b p : ℕ)
            → view r.1 b p ≡ (
                if b == a.block && (leb a.position p && ltb p (a.position + n))
                then d (p - a.position)
                else view s b p))
  pub erases :
      (s : T.State) (block : ℕ)
      → (r : Bool × T.State) × (T.erase s block ≡ some r)
        × (T.geometry r.1 ≡ T.geometry s)
        × (r.0 ≡ true → (b p : ℕ) → view r.1 b p ≡ (if b == block then 0xff else view s b p))

-- The key of a magic as one number, its 9 bytes from the lowest on: "phylum00" and a 0.
abbrev pub magic_key : ℕ
magic_key = 0x30306d756c796870

abbrev pub age_invalid : ℕ
age_invalid = 2 ^ 32 - 1

abbrev pub timestamp_invalid : ℕ
timestamp_invalid = 2 ^ 32 - 1

-- `magic` is the key; the last three are uint32_t.
pub record BlockHead : Type 0 where
  pub magic : ℕ
  pub type : BlockType
  pub age : ℕ
  pub timestamp : ℕ
  pub linked_block : ℕ

unfoldable pub new_head : BlockType → BlockHead
new_head t = record {
  magic = 0;
  type = t;
  age = age_invalid;
  timestamp = timestamp_invalid;
  linked_block = block_index_invalid;
}

unfoldable pub fill_magic : BlockHead → BlockHead
fill_magic h = record h { magic = magic_key }

unfoldable pub magic_valid : BlockHead → Bool
magic_valid h = h.magic == magic_key

-- `BlockTail` has this one field.
abbrev pub no_link : ℕ
no_link = block_index_invalid
