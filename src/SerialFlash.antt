-- ===== src/SerialFlash.antt =====
-- src/backends/arduino_serial_flash/serial_flash_allocator.h and serial_flash_allocator.cpp: an allocator
-- that keeps which blocks are free in a map of bits, and reads the heads of blocks for their ages. `none`
-- is a failed assertion, or an access outside the map.
pub mod Map
pub mod Select
pub mod Least
pub mod Freeing
use Prim.Native.Nat.{bit_and, bit_or, ◌/◌, ◌%◌}
use consfs.Common.{
  ℕ, zero, suc, ◌+◌, ◌-◌, ◌*◌, ◌^◌, Bool, true, false, not, ◌&&◌, ◌||◌, Option, none, some, List,
  [], ◌∷◌, ltb, ◌==◌, if◌then◌else◌, update, add32, ◌>>=◌, ◌>>◌, check,
}
use consfs.Addressing.{BlockAddress, Geometry, block_index_invalid, is_valid_block}
use consfs.Alloc.{AllocatedBlock, BlockType, allocate_nothing}
use consfs.Backend.{Storage, Codec, load, store, BlockHead, age_invalid, fill_magic, magic_valid}

-- `MaximumBlocks` and `MapSize`
abbrev pub maximum_blocks : ℕ
maximum_blocks = 64

abbrev pub map_size : ℕ
map_size = maximum_blocks / 8

-- The tests and changes of one byte of the map.
abbrev pub byte_free : ℕ → ℕ → Bool
byte_free byte i = bit_and byte (2 ^ i) == 0

abbrev pub byte_set : ℕ → ℕ → ℕ
byte_set byte i = bit_or byte (2 ^ i)

abbrev pub byte_clear : ℕ → ℕ → ℕ
byte_clear byte i = bit_and byte (255 - 2 ^ i)

abbrev pub Map : Type 0
Map = ℕ → ℕ

unfoldable pub is_block_free : Map → ℕ → Option Bool
is_block_free map block =
    check (ltb (block / 8) map_size) >> some (byte_free (map (block / 8)) (block % 8))

unfoldable pub set_block_free : Map → ℕ → Option Map
set_block_free map block =
    check (ltb (block / 8) map_size)
    >> some (update map (block / 8) (byte_clear (map (block / 8)) (block % 8)))

unfoldable pub set_block_taken : Map → ℕ → Option Map
set_block_taken map block =
    check (ltb (block / 8) map_size)
    >> some (update map (block / 8) (byte_set (map (block / 8)) (block % 8)))

-- `TakenBlockTracker`, whose map is for the blocks that a visitor is told.
unfoldable pub set_range_free : ℕ → ℕ → Map → Option Map
set_range_free zero block map = some map
set_range_free (suc left) block map =
    set_block_free map block >>= λ m. set_range_free left (block + 1) m

unfoldable pub take_anchors : Map → Option Map
take_anchors map =
    set_block_taken map 0 >>= (λ m. set_block_taken m 1) >>= (λ m. set_block_taken m 2)

unfoldable pub new_tracker : Option Map
new_tracker = set_range_free (map_size * 8) 0 (λ i. 0) >>= take_anchors

unfoldable pub visit_block : Map → ℕ → Option Map
visit_block map block = if ltb block (map_size * 8) then set_block_taken map block else some map

unfoldable pub is_free : Map → ℕ → Option Bool
is_free map block = if ltb block (map_size * 8) then is_block_free map block else some false

pub record ScanInfo : Type 0 where
  pub block : ℕ
  pub age : ℕ

-- The state of the loop of `scan`: `blocks` is the caller's array, and `n` how many of its slots are used.
pub record Scan : Type 0 where
  pub map : Map
  pub blocks : ℕ → ScanInfo
  pub n : ℕ

abbrev pub is_unallocated : BlockType → Bool
is_unallocated BlockType.unallocated = true
is_unallocated _ = false

-- A block that is free, for one slot: the least age wins, and a block with no head before all others.
unfoldable pub note_one : ℕ → BlockHead → Scan → Scan
note_one block head s =
    if magic_valid head
    then (if (s.blocks 0).block == block_index_invalid || ltb head.age (s.blocks 0).age
        then record s { blocks = update s.blocks 0 (record { block = block; age = head.age }) }
        else s)
    else record s { blocks = update s.blocks 0 (record { block = block; age = 0 }) }

-- ... and for more of them.
unfoldable pub note_next : ℕ → BlockHead → Scan → Scan
note_next block head s = record s {
  blocks =
      update s.blocks s.n
        (record { block = block; age = if magic_valid head then head.age else 0 });
  n = s.n + 1;
}

-- Whether the slots are used up is the second component.
unfoldable pub note_free : ℕ → ℕ → BlockHead → Scan → Scan × Bool
note_free size block head s =
    if size == 1 then (note_one block head s, false) else (note_next block head s, s.n + 1 == size)

module _ (T : Storage) (heads : Codec BlockHead) where
  pub record Flash : Type 0 where
    pub preallocated : ℕ → ℕ
    pub storage : T.State
    pub map : Map

  abbrev pub preallocation_size : ℕ
  preallocation_size = 8

  unfoldable pub new_flash : T.State → Flash
  new_flash storage = record {
    preallocated = λ i. block_index_invalid;
    storage = storage;
    map = λ i. 0;
  }

  -- A block whose head cannot be read is not taken.
  unfoldable pub is_taken : T.State → ℕ → Option (Bool × BlockHead)
  is_taken storage block = load T heads storage (record { block = block; position = 0 }) >>= λ r.
      some (r.0 && (magic_valid r.1 && not (is_unallocated r.1.type)), r.1)

  -- One round of the loop of `scan`.
  unfoldable pub scan_block : T.State → Bool → ℕ → ℕ → Scan → Option (Scan × Bool)
  scan_block storage free_only size block s =
      (if free_only then is_block_free s.map block else some true) >>= λ looked.
      if not looked
      then some (s, false)
      else is_taken storage block >>= λ candidate.
          if candidate.0
          then set_block_taken s.map block >>= (λ m. some (record s { map = m }, false))
          else set_block_free s.map block
            >>= (λ m. some (note_free size block candidate.1 (record s { map = m })))

  unfoldable pub scan_from : ℕ → T.State → Bool → ℕ → ℕ → Scan → Option Scan
  scan_from zero storage free_only size block s = some s
  scan_from (suc left) storage free_only size block s =
      scan_block storage free_only size block s >>= λ r.
      let rest = scan_from left storage free_only size (block + 1) r.0 in
      if r.1 then some r.0 else rest

  unfoldable pub scan_blocks : Flash → Bool → ℕ → Option (Bool × Scan)
  scan_blocks f free_only size =
      scan_from ((T.geometry f.storage).number_of_blocks - 3) f.storage free_only size 3 (record {
        map = f.map;
        blocks = λ i. record { block = block_index_invalid; age = 0 };
        n = 0;
      })
      >>= λ s. take_anchors s.map >>= λ m. some (true, record s { map = m })

  -- The overload of `scan` that gives one block.
  unfoldable pub scan_one : Flash → Bool → Option (Bool × (ScanInfo × Flash))
  scan_one f free_only =
      scan_blocks f free_only 1 >>= λ r. some (r.0, (r.1.blocks 0, record f { map = r.1.map }))

  unfoldable pub allocate_internal : Flash → BlockType → Option (AllocatedBlock × Flash)
  allocate_internal f type = scan_one f true >>= λ r.
      if not r.0
      then some (allocate_nothing type, r.1.1)
      else check (not (r.1.0.block == block_index_invalid))
        >> (set_block_taken r.1.1.map r.1.0.block >>= λ m. some (
          record { block = r.1.0.block; age = r.1.0.age; erased = false },
          record r.1.1 { map = m },
        ))

  -- The first valid slot of the blocks that are set aside.
  unfoldable pub first_preallocated : ℕ → ℕ → (ℕ → ℕ) → Option ℕ
  first_preallocated zero i slots = none
  first_preallocated (suc left) i slots =
      let rest = first_preallocated left (i + 1) slots in
      if is_valid_block (slots i) then some i else rest

  abbrev pub allocate_slot : Flash → BlockType → Option ℕ → Option (AllocatedBlock × Flash)
  allocate_slot f type none = allocate_internal f type
  allocate_slot f type (some i) = some (
    record { block = f.preallocated i; age = 0; erased = true },
    record f { preallocated = update f.preallocated i block_index_invalid },
  )

  unfoldable pub allocate_flash : Flash → BlockType → Option (AllocatedBlock × Flash)
  allocate_flash f type =
      allocate_slot f type (first_preallocated preallocation_size 0 f.preallocated)

  unfoldable pub initialize_flash : Flash → Option (Bool × Flash)
  initialize_flash f = scan_one f false >>= λ r. some (r.0, r.1.1)

  abbrev pub freed_head : BlockHead → ℕ → BlockHead
  freed_head h age = record (fill_magic h) { age = age; type = BlockType.unallocated }

  unfoldable pub free_flash : Flash → ℕ → ℕ → Option (Bool × Flash)
  free_flash f block age = load T heads f.storage (record { block = block; position = 0 }) >>= λ r.
      if not r.0
      then some (false, f)
      else T.erase f.storage block >>= λ e.
          if not e.0
          then some (false, record f { storage = e.1 })
          else store T heads e.1 (record { block = block; position = 0 })
              (freed_head r.1 (if magic_valid r.1 then add32 r.1.age 1 else age))
            >>= λ w.
                if not w.0
                then some (false, record f { storage = w.1 })
                else set_block_free f.map block
                  >>= (λ m. some (true, record f { storage = w.1; map = m }))

  -- What each call returns is not looked at.
  unfoldable pub free_from : ℕ → ℕ → Flash → Option Flash
  free_from zero block f = some f
  free_from (suc left) block f = free_flash f block 0 >>= λ r. free_from left (block + 1) r.1

  unfoldable pub free_all_blocks : Flash → Option (Bool × Flash)
  free_all_blocks f = free_from (T.geometry f.storage).number_of_blocks 0 f >>= λ g. some (true, g)

  unfoldable pub count_free : ℕ → ℕ → Map → ℕ → Option ℕ
  count_free zero block map c = some c
  count_free (suc left) block map c =
      is_block_free map block >>= λ b. count_free left (block + 1) map (if b then add32 c 1 else c)

  unfoldable pub number_of_free_blocks : Flash → Option ℕ
  number_of_free_blocks f = count_free (T.geometry f.storage).number_of_blocks 0 f.map 0

  -- Whether the slot `i` takes the place of the one selected.
  abbrev pub is_better : (ℕ → ScanInfo) → ℕ → Option ℕ → Bool
  is_better available i none = true
  is_better available i (some k) = ltb (available i).age (available k).age || (available i).age == 0

  unfoldable pub take_block : ℕ → ℕ → (ℕ → ScanInfo) → Option ℕ → Option ℕ
  take_block zero i available selected = selected
  take_block (suc left) i available selected = take_block left (i + 1) available (
      if not ((available i).block == block_index_invalid) && is_better available i selected
      then some i
      else selected)

  unfoldable pub preallocate_from : ℕ → ℕ → ℕ → (ℕ → ScanInfo) → Flash → Option (Bool × Flash)
  preallocate_from zero i nblocks available f = some (true, f)
  preallocate_from (suc left) i nblocks available f = do
    k ← take_block nblocks 0 available none
    m ← set_block_taken f.map (available k).block
    e ← T.erase f.storage (available k).block
    let rest =
        preallocate_from left (i + 1) nblocks
          (update available k (record { block = block_index_invalid; age = age_invalid }))
          (record f {
            preallocated = update f.preallocated i (available k).block;
            storage = e.1;
            map = m;
          })
    if not e.0 then some (false, record f { storage = e.1; map = m }) else rest

  unfoldable pub preallocate : Flash → Option (Bool × Flash)
  preallocate f = scan_blocks f true (T.geometry f.storage).number_of_blocks >>= λ r.
      if not r.0
      then some (false, record f { map = r.1.map })
      else preallocate_from preallocation_size 0 (T.geometry f.storage).number_of_blocks r.1.blocks
          (record f { map = r.1.map })
