-- ===== src/Layout.antt =====
-- src/phylum/layout.h: blocks of entries, chained by their heads and tails. The storage, the allocator and
-- the structs of a layout are parameters. `none` is a failed assertion.
pub mod Writes
pub mod Reserve
pub mod InBlock
pub mod RoundTrip
pub mod LastRoom
use consfs.Common.{
  ℕ, zero, suc, ◌+◌, ◌-◌, ◌*◌, ◌^◌, ◌≡◌, Bool, true, false, not, ◌&&◌, ◌||◌, Option, none, some,
  leb, ltb, ◌==◌, if◌then◌else◌, u64, ◌>>=◌, ◌>>◌, check,
}
use consfs.Addressing.{
  BlockAddress, Geometry, block_index_invalid, invalid_block_address, is_valid_block,
  file_sector_size,
}
use consfs.Addressing.Addr.{
  valid, add, is_beginning_of_block, remaining_in_block, find_room, add_or_move_to_following_sector,
  tail_data_of,
}
use consfs.Alloc.{AllocatedBlock, BlockType}
use consfs.Backend.{Storage, Allocates, Codec, load, store}

-- `THead` and `TTail`: their constructors and methods, and the link in the struct that each holds.
pub record Format : Type 1 where
  pub Head : Type 0
  pub Tail : Type 0
  pub head_codec : Codec Head
  pub tail_codec : Codec Tail
  pub new : BlockType → Head
  pub fill : Head → Head
  pub head_valid : Head → Bool
  pub link : Head → ℕ → Head
  pub tail_of : ℕ → Tail
  pub linked : Tail → ℕ
  pub linked-tail_of : (block : ℕ) → linked (tail_of block) ≡ block

-- `TEntry`
pub record Entry (E : Type 0) : Type 1 where
  pub codec : Codec E
  pub entry_valid : E → Bool

abbrev pub is_error : BlockType → Bool
is_error BlockType.error = true
is_error _ = false

-- The next step of a method, which returns false where this one does.
infixl 5 ◌>>&&◌
abbrev pub ◌>>&&◌ : {L : Type 0} → Option (Bool × L) → (L → Option (Bool × L)) → Option (Bool × L)
m >>&& k = m >>= λ r. if r.0 then k r.1 else some (false, r.1)

-- `EndOfChain`
pub record EndOfChain : Type 0 where
  pub available : BlockAddress
  pub entry : BlockAddress

abbrev pub no_end : EndOfChain
no_end = record { available = invalid_block_address; entry = invalid_block_address }

-- A round of the loop of `walk_to_end` returns, or goes on with `location` and `found`.
pub data Round : Type 0 where
  done : EndOfChain → Round
  go : BlockAddress → BlockAddress → Round

module _ (T : Storage) (A : Allocates) (F : Format) where
  pub record Layout : Type 0 where
    pub storage : T.State
    pub allocator : A.State
    pub address : BlockAddress
    pub iterator : BlockAddress
    pub type : BlockType

  abbrev pub new_layout : T.State → A.State → BlockAddress → BlockType → Layout
  new_layout s a address type = record {
    storage = s;
    allocator = a;
    address = address;
    iterator = invalid_block_address;
    type = type;
  }

  abbrev pub geometry : Layout → Geometry
  geometry l = T.geometry l.storage

  unfoldable pub should_move_to_following_block : Layout → ℕ → Bool
  should_move_to_following_block l required =
      not (leb (u64 (required + F.tail_codec.size)) (remaining_in_block l.address (geometry l)))

  abbrev pub needs_block : Layout → ℕ → Bool
  needs_block l required = not (valid l.address) || should_move_to_following_block l required

  unfoldable pub write_head : Layout → ℕ → F.Head → Option (Bool × Layout)
  write_head l block head =
      (T.erase l.storage block >>= λ r. some (r.0, record l { storage = r.1 })) >>&& λ l'.
      store T F.head_codec l'.storage (record { block = block; position = 0 }) head >>= λ w.
      some (w.0, record l' { storage = w.1 })

  -- The overload that makes the head.
  unfoldable pub write_new_head : Layout → ℕ → ℕ → Option (Bool × Layout)
  write_new_head l block linked = do
    check (not (is_error l.type))
    write_head l block (F.link (F.fill (F.new l.type)) linked)

  unfoldable pub write_tail : Layout → ℕ → ℕ → Option (Bool × Layout)
  write_tail l block linked =
      store T F.tail_codec l.storage (tail_data_of block (geometry l) F.tail_codec.size)
        (F.tail_of linked)
      >>= λ w. some (w.0, record l { storage = w.1 })

  -- The parts of `find_available`: a new block behind the one of the address, ...
  unfoldable pub move_to_new_block : Layout → F.Head → Option (Bool × Layout)
  move_to_new_block l head = do
    check (not (is_error l.type))
    r ← A.allocate l.allocator l.type
    (write_head (record l { allocator = r.1 }) r.0.block (F.link head l.address.block) >>&& λ l'.
          if valid l.address then write_tail l' l.address.block r.0.block else some (true, l'))
        >>&& λ l'. some (
          true,
          record l' { address = record { block = r.0.block; position = file_sector_size } },
        )

  -- ... a head for a block at whose beginning the address is, ...
  unfoldable pub move_behind_head : Layout → Option (Bool × Layout)
  move_behind_head l =
      if is_beginning_of_block l.address
      then (write_new_head l l.address.block block_index_invalid >>&& λ l'.
          some (true, record l' { address = add l'.address file_sector_size }))
      else some (true, l)

  -- ... and the room for the entry.
  unfoldable pub take_room : Layout → ℕ → Option (BlockAddress × Layout)
  take_room l required = do
    r ← find_room l.address (geometry l) required
    check r.0
    some (r.1, record l { address = add r.1 required })

  unfoldable pub find_available : Layout → ℕ → F.Head → Option (BlockAddress × Layout)
  find_available l required head =
      ((if needs_block l required then move_to_new_block l head else some (true, l))
        >>&& move_behind_head)
      >>= λ r. if r.0 then take_room r.1 required else some (invalid_block_address, r.1)

  unfoldable pub verify_head : Layout → BlockAddress → Option Bool
  verify_head l a = load T F.head_codec l.storage a >>= λ r. some (r.0 && F.head_valid r.1)

  unfoldable pub walk_single_block : Layout → ℕ → Option (Bool × Layout)
  walk_single_block l required =
      if needs_block l required
      then some (false, l)
      else find_room l.address (geometry l) required >>= λ r.
          check r.0 >> some (true, record l { address = r.1 })

  module _ {E : Type 0} (entries : Entry E) where
    abbrev size_of : ℕ
    size_of = entries.codec.size

    -- The overload that takes the head.
    unfoldable pub append : Layout → E → F.Head → Option (Bool × Layout)
    append l entry head = find_available l entries.codec.size head >>= λ r.
        if not (valid r.0)
        then some (false, r.1)
        else store T entries.codec r.1.storage r.0 entry >>= λ w.
            some (w.0, record r.1 { storage = w.1 })

    unfoldable pub append_entry : Layout → E → Option (Bool × Layout)
    append_entry l entry = append l entry (F.fill (F.new l.type))

    -- The parts of `walk`: where it starts, ...
    unfoldable pub start_walk : Layout → Option Layout
    start_walk l =
        if valid l.iterator
        then some (record l { address = l.iterator })
        else find_room l.address (geometry l) entries.codec.size >>= λ r.
            check r.0 >> some (record l { address = r.1 })

    -- ... the move to the block that the tail links to, ...
    unfoldable pub follow_tail : Layout → Option (Bool × Layout)
    follow_tail l =
        load T F.tail_codec l.storage (tail_data_of l.address.block (geometry l) F.tail_codec.size)
        >>= λ r.
            if r.0 && is_valid_block (F.linked r.1)
            then some (true, record l { address = record { block = F.linked r.1; position = 0 } })
            else some (false, l)

    -- ... the head of a block, ...
    unfoldable pub pass_head : Layout → Option (Bool × Layout)
    pass_head l =
        if is_beginning_of_block l.address
        then (verify_head l l.address >>= λ ok.
            if ok
            then some (true, record l { address = add l.address file_sector_size })
            else some (false, l))
        else some (true, l)

    -- ... and the entry, with the place of the next one.
    unfoldable pub read_entry : Layout → Option (Option E × Layout)
    read_entry l = load T entries.codec l.storage l.address >>= λ r.
        if r.0
        then (add_or_move_to_following_sector l.address (geometry l) entries.codec.size >>= λ n.
            check n.0
            >> some
                (if entries.entry_valid r.1 then some r.1 else none, record l { iterator = n.1 }))
        else some (none, l)

    -- `none` in the result is a call that returns false.
    unfoldable pub walk : Layout → Option (Option E × Layout)
    walk l = start_walk l >>= λ l'.
        ((if should_move_to_following_block l' (entries.codec.size * 2)
            then follow_tail l'
            else some (true, l'))
          >>&& pass_head)
        >>= λ r. if r.0 then read_entry r.1 else some (none, r.1)

  module _ (required : ℕ) (fn : T.State → BlockAddress → Option Bool) (l : Layout) where
    unfoldable pub walk_round : BlockAddress → BlockAddress → Option Round
    walk_round location found =
        if not (leb required (remaining_in_block location (geometry l)))
        then some (done no_end)
        else if is_beginning_of_block location
        then (verify_head l location >>= λ ok.
            if not ok
            then some (done no_end)
            else load T F.tail_codec l.storage
                (tail_data_of location.block (geometry l) F.tail_codec.size)
              >>= λ r.
                  if not r.0
                  then some (done no_end)
                  else if is_valid_block (F.linked r.1)
                  then some (go (record { block = F.linked r.1; position = 0 }) found)
                  else some (go (add location file_sector_size) found))
        else find_room location (geometry l) required >>= λ r.
            check r.0 >> fn l.storage r.1 >>= λ ok.
            if ok
            then some (go (add r.1 required) r.1)
            else some (done (record { available = r.1; entry = found }))

    -- Fuel bounds the rounds; `none` is also fuel that runs out, as on a chain that has a cycle.
    unfoldable pub walk_to_end : ℕ → BlockAddress → BlockAddress → Option EndOfChain
    walk_to_end zero location found = none
    walk_to_end (suc fuel) location found = walk_round location found >>= λ o. elim o [
      | done e ↦ some e
      | go location' found' ↦ walk_to_end fuel location' found'
    ]

    unfoldable pub find_tail_entry : ℕ → ℕ → Option (Bool × Layout)
    find_tail_entry fuel block =
        walk_to_end fuel (record { block = block; position = 0 }) invalid_block_address >>= λ e.
        if valid e.entry then some (true, record l { address = e.entry }) else some (false, l)

    unfoldable pub find_available_end : ℕ → ℕ → Option (Bool × Layout)
    find_available_end fuel block =
        walk_to_end fuel (record { block = block; position = 0 }) invalid_block_address >>= λ e.
        if valid e.available
        then some (true, record l { address = e.available })
        else some (false, l)

  module _ {E : Type 0} (entries : Entry E) where
    -- The function that both searches of the end are given.
    unfoldable pub reads_valid : T.State → BlockAddress → Option Bool
    reads_valid s a = load T entries.codec s a >>= λ r. some (r.0 && entries.entry_valid r.1)

    unfoldable pub find_append_location : ℕ → Layout → ℕ → Option (Bool × Layout)
    find_append_location fuel l block =
        find_available_end entries.codec.size reads_valid l fuel block

    unfoldable pub find_last_entry : ℕ → Layout → ℕ → Option (Bool × Layout)
    find_last_entry fuel l block = find_tail_entry entries.codec.size reads_valid l fuel block
