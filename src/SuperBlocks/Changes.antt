-- ===== src/SuperBlocks/Changes.antt =====
-- The methods of src/super_block_manager.cpp that change storage: `create`, `rollover` and `save`.
use consfs.Common.{
  ℕ, zero, suc, ◌+◌, Bool, true, false, not, Option, none, some, List, [], ◌∷◌, ltb, ◌==◌,
  if◌then◌else◌, u16, add32, sub32, ◌>>=◌, ◌>>◌, check,
}
use consfs.Addressing.{SectorAddress, block_index_invalid, sector_address_valid}
use consfs.Addressing.Geom.{sectors_per_block}
use consfs.Alloc.{AllocatedBlock, BlockType}
use consfs.Backend.{Storage, store, new_head, fill_magic}
use consfs.SuperBlocks.{
  SuperBlockLink, new_link, SuperBlock, Reuses, anchor_blocks, chain_length, start_sector,
  set_timestamp, set_type, Manager, address_of, write_link, erase_at, walk_chain, locate,
}

abbrev pub set_age : SuperBlockLink → ℕ → SuperBlockLink
set_age l age = record l { header = record l.header { age = age } }

abbrev pub start_of : ℕ → SectorAddress
start_of block = record { block = block; sector = start_sector }

-- A step that returns false ends the method; its state stays as it is then.
infixl 5 ◌>>&&◌
abbrev pub ◌>>&&◌ {ℓ} :
    {S : Type ℓ} → Option (Bool × S) → (S → Option (Bool × S)) → Option (Bool × S)
m >>&& k = m >>= λ r. if r.0 then k r.1 else some (false, r.1)

-- `link.chained_block = block; link.header.timestamp--;`
abbrev pub chain_to : ℕ → SuperBlockLink → SuperBlockLink
chain_to block l = set_timestamp (record l { chained_block = block }) (sub32 l.header.timestamp 1)

abbrev pub first_link : SuperBlockLink
first_link = record (new_link BlockType.super_block_link) {
  header = record (fill_magic (new_head BlockType.super_block_link)) {
    timestamp = chain_length + 2 + 1;
    age = 0;
  };
  chained_block = block_index_invalid;
}

module _ (T : Storage) (B : Reuses) (P : SuperBlock) where
  -- The state of the loops of `create`: the link, the super block and its block.
  pub record Creating : Type 0 where
    pub manager : Manager T B P
    pub link : SuperBlockLink
    pub super : P.Super
    pub super_block_block : ℕ

  abbrev pub erase_in : Creating → ℕ → Option (Bool × Creating)
  erase_in c block = erase_at T B P c.manager block >>= λ r. some (r.0, record c { manager = r.1 })

  abbrev pub write_in : Creating → ℕ → Option (Bool × Creating)
  write_in c block = write_link T B P c.manager (start_of block) c.link >>= λ r.
      some (r.0, record c { manager = r.1 })

  -- The first round of the loop, whose block is for the super block, ...
  unfoldable pub create_super : Creating → Option (Bool × Creating)
  create_super c = do
    a ← B.allocate c.manager.blocks BlockType.super_block
    check (not (a.0.block == block_index_invalid))
    erase_in (record c { manager = record c.manager { blocks = a.1 } }) a.0.block >>&& λ d. some (
      true,
      record d {
        super = P.with_link d.super (set_type d.link BlockType.super_block);
        super_block_block = a.0.block;
        link = chain_to a.0.block d.link;
      },
    )

  -- ... each other round, ...
  unfoldable pub create_chained : Creating → Option (Bool × Creating)
  create_chained c = do
    a ← B.allocate c.manager.blocks BlockType.super_block_link
    check (not (a.0.block == block_index_invalid))
    erase_in (record c { manager = record c.manager { blocks = a.1 } }) a.0.block
        >>&& (λ d. write_in d a.0.block)
        >>&& λ d. some (true, record d { link = chain_to a.0.block d.link })

  unfoldable pub create_chain : ℕ → Creating → Option (Bool × Creating)
  create_chain zero c = some (true, c)
  create_chain (suc rounds) c = create_chained c >>&& λ d. create_chain rounds d

  -- ... and the loop over the anchors.
  unfoldable pub create_anchors : List ℕ → Creating → Option (Bool × Creating)
  create_anchors [] c = some (true, c)
  create_anchors (anchor ∷ rest) c =
      erase_in (record c { link = set_type c.link BlockType.anchor }) anchor
      >>&& (λ d. write_in d anchor)
      >>&& λ d.
          create_anchors rest
            (record d { link = set_timestamp d.link (sub32 d.link.header.timestamp 1) })

  unfoldable pub write_super :
      Manager T B P → SectorAddress → P.Super → Option (Bool × Manager T B P)
  write_super m a s = store T P.super_codec m.storage (address_of T B P m a) s >>= λ r.
      some (r.0, record m { storage = r.1 })

  abbrev pub erase_unless : Option P.Super → (T.State → T.State) → Manager T B P → Manager T B P
  erase_unless (some s) erase_all m = m
  erase_unless none erase_all m = record m { storage = erase_all m.storage }

  -- `update` is the function that the caller passes, and `erase_all` the storage's `eraseAll`.
  unfoldable pub create :
      (Creating → Creating)
      → (T.State → T.State)
      → Manager T B P
      → P.Super
      → Option (Option P.Super × Manager T B P)
  create update erase_all m s =
      (create_super (record {
        manager = m;
        link = first_link;
        super = s;
        super_block_block = block_index_invalid;
      })
        >>&& (λ c. create_chain chain_length c)
        >>&& (λ c. create_anchors anchor_blocks c)
        >>&& (λ c.
            write_super (update c).manager (start_of (update c).super_block_block) (update c).super
            >>= λ r. some (r.0, record (update c) { manager = r.1 })))
      >>= λ r.
          if not r.0
          then some (none, r.1.manager)
          else locate T B P r.1.manager >>= λ l. some (l.0, erase_unless l.0 erase_all l.1)

  -- What a `PendingWrite` points to.
  pub data Pending : Type 0 where
    super : P.Super → Pending
    chain_link : SuperBlockLink → Pending

  abbrev pub type_of : Pending → BlockType
  type_of (super s) = BlockType.super_block
  type_of (chain_link l) = BlockType.super_block_link

  abbrev pub with_age : Pending → ℕ → Pending
  with_age (super s) age = super (P.with_link s (set_age (P.link_of s) age))
  with_age (chain_link l) age = chain_link (set_age l age)

  abbrev pub age_of : Pending → ℕ
  age_of (super s) = (P.link_of s).header.age
  age_of (chain_link l) = l.header.age

  abbrev pub super_of : P.Super → Pending → P.Super
  super_of old (super s) = s
  super_of old (chain_link l) = old

  abbrev pub write_pending : Manager T B P → SectorAddress → Pending → Option (Bool × Manager T B P)
  write_pending m a (super s) = write_super m a s
  write_pending m a (chain_link l) = write_link T B P m a l

  abbrev pub other_anchor : ℕ → Option ℕ
  other_anchor block = if block == 1 then some 2 else if block == 2 then some 1 else none

  -- The result of `rollover`: whether it succeeds, where it wrote, and what it pointed to.
  pub record Rolled : Type 0 where
    pub ok : Bool
    pub relocated : SectorAddress
    pub pending : Pending
    pub after : Manager T B P

  -- Where the write stays in its block or goes to the other anchor.
  unfoldable pub roll_anchor : Manager T B P → ℕ → Pending → Option Rolled
  roll_anchor m block p = erase_at T B P m block >>= λ e.
      if not e.0
      then some (record { ok = false; relocated = start_of block; pending = p; after = e.1 })
      else write_pending e.1 (start_of block) p >>= λ w.
          some (record { ok = w.0; relocated = start_of block; pending = p; after = w.1 })

  -- A new block for the write.
  unfoldable pub roll_block : Manager T B P → AllocatedBlock → Pending → Option Rolled
  roll_block m a p = (if a.erased then some (true, m) else erase_at T B P m a.block) >>= λ e.
      if not e.0
      then some (record { ok = false; relocated = start_of a.block; pending = p; after = e.1 })
      else write_pending e.1 (start_of a.block) (with_age p (add32 a.age 1)) >>= λ w. some (record {
        ok = w.0;
        relocated = start_of a.block;
        pending = with_age p (add32 a.age 1);
        after = w.1;
      })

  -- The link that replaces the one to the obsolete block.
  abbrev pub relink : SuperBlockLink → ℕ → SuperBlockLink
  relink l block = set_timestamp (record l { chained_block = block }) (add32 l.header.timestamp 1)

  -- Fuel bounds the depth: each call for a link is for the block before it in the chain.
  unfoldable pub rollover : ℕ → Manager T B P → SectorAddress → Pending → Option Rolled
  rollover zero m a p = none
  rollover (suc fuel) m a p =
      let next = record a { sector = u16 (a.sector + 1) } in
      elim (ltb next.sector (sectors_per_block (T.geometry m.storage))) [
        | true ↦ write_pending m next p >>= λ w.
            some (record { ok = w.0; relocated = next; pending = p; after = w.1 })
        | false ↦ elim (other_anchor a.block) [
          | some anchor ↦ roll_anchor m anchor p
          | none ↦ B.allocate m.blocks (type_of p) >>= λ b.
              roll_block (record m { blocks = b.1 }) b.0 p >>= λ r. elim (r.ok) [
                | false ↦ some r
                | true ↦ walk_chain T B P r.after a.block >>= λ w. elim (w.ok) [
                  | false ↦ some (record r { ok = false })
                  | true ↦
                      rollover fuel r.after w.found.where_at
                        (chain_link (relink w.found.link b.0.block))
                      >>= λ q. elim (q.ok) [
                        | false ↦ some (record r { ok = false; after = q.after })
                        | true ↦ B.free q.after.blocks a.block (age_of q.pending) >>= λ f.
                            some (record r { after = record q.after { blocks = f.1 } })
                      ]
                ]
              ]
        ]
      ]

  -- `save`, with the super block as it is after the call.
  unfoldable pub save : ℕ → Manager T B P → P.Super → Option (Bool × (P.Super × Manager T B P))
  save fuel m s = do
    let l = P.link_of s
    let stamped = P.with_link s (record l {
      header = record (fill_magic l.header) { timestamp = add32 l.header.timestamp 1 };
    })
    check (sector_address_valid m.location)
    r ← rollover fuel m m.location (super stamped)
    some (
      r.ok,
      (
        super_of stamped r.pending,
        if r.ok then record r.after { location = r.relocated } else r.after,
      ),
    )
