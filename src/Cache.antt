-- ===== src/Cache.antt =====
-- src/phylum/caching_storage.h and src/caching_storage.cpp: a cache of one sector over any storage,
-- itself a storage. `none` is a failed assertion.
pub mod Transparent
pub mod Calls
pub mod Through
use consfs.Common.{
  ℕ, zero, suc, ◌+◌, ◌-◌, ◌^◌, ◌<◌, ◌≡◌, Bool, true, false, not, Option, none, some, refl, arith,
  leb, ltb, ◌==◌, if◌then◌else◌, ◌>>=◌, ◌>>◌, check, Bool-cases, inl, inr, sym, ◌∙◌, ==_refl,
}
use consfs.Addressing.{
  BlockAddress, Geometry, SectorAddress, sector_address_eq, invalid_sector_address,
  file_sector_size,
}
use consfs.Backend.{Storage}
use consfs.Memory.{copy_to}
use consfs.Addressing.Addr.{of_sector, sector, sector_offset}

module _ (T : Storage) where
  -- `SectorCachingStorage`, with the state of its target.
  pub record Cache : Type 0 where
    pub target : T.State
    pub held : SectorAddress
    pub buffer : ℕ → ℕ

  -- `garbage` is what memory holds where the buffer is made.
  unfoldable pub new_cache : T.State → (ℕ → ℕ) → Option Cache
  new_cache s garbage = do
    check ((T.geometry s).sector_size == file_sector_size)
    some (record { target = s; held = invalid_sector_address; buffer = garbage })

  unfoldable pub copy_from : (ℕ → ℕ) → ℕ → ℕ → ℕ
  copy_from buffer offset i = buffer (offset + i)

  -- Both calls give whether they succeed, what is copied to `d`, whose places below `n` count, and the
  -- cache after the call. `serve` is the part behind the assertion.
  unfoldable pub serve : Cache → Geometry → SectorAddress → ℕ → Option (Bool × ((ℕ → ℕ) × Cache))
  serve c g wanted offset =
      if sector_address_eq c.held wanted
      then some (true, (copy_from c.buffer offset, c))
      else T.read c.target (of_sector g wanted 0) g.sector_size >>= λ r.
          if r.0
          then some (
            true,
            (copy_from r.1 offset, record { target = c.target; held = wanted; buffer = r.1 }),
          )
          else some (false, (λ _. 0, record c { buffer = r.1 }))

  unfoldable pub cached_read : Cache → BlockAddress → ℕ → Option (Bool × ((ℕ → ℕ) × Cache))
  cached_read c a n = do
    check ((T.geometry c.target).sector_size == file_sector_size)
    serve c (T.geometry c.target) (sector a (T.geometry c.target))
        (sector_offset a (T.geometry c.target))

  unfoldable pub cached_write : Cache → BlockAddress → (ℕ → ℕ) → ℕ → Option (Bool × Cache)
  cached_write c a d n = do
    let g = T.geometry c.target
    let wanted = sector a g
    let offset = sector_offset a g
    check (g.sector_size == file_sector_size)
    if not (sector_address_eq c.held wanted)
        then (T.write c.target a d n >>= λ r. some (r.0, record c { target = r.1 }))
        else (do
          let buffer = copy_to c.buffer offset n d
          r ← T.write c.target (of_sector g wanted 0) buffer file_sector_size
          some (r.0, record { target = r.1; held = c.held; buffer = buffer }))

  unfoldable pub cached_erase : Cache → ℕ → Option (Bool × Cache)
  cached_erase c block = T.erase c.target block >>= λ r. some (r.0, record c { target = r.1 })
