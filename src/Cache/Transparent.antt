-- ===== src/Cache/Transparent.antt =====
-- What the cache of src/caching_storage.cpp promises to readers, and where it does not.
use consfs.Common.{
  ℕ, ◌+◌, ◌<◌, ◌≡◌, ◌≢◌, Bool, true, Option, some, refl, arith, ◌>>◌, check, Bool-cases, inl, inr,
  sym, ◌∙◌, ==_iff, ap, subst,
}
use mathlib.Core.Option.{some-injective}
use consfs.Addressing.{
  BlockAddress, Geometry, SectorAddress, sector_address_eq, file_sector_size, block_index_invalid,
}
use consfs.Addressing.Addr.{of_sector, sector, sector_offset}
use consfs.Backend.{Storage}
use consfs.Cache.{Cache, copy_from, cached_read, serve, cached_erase}

eq-same : (a b : SectorAddress) → sector_address_eq a b ≡ true → a ≡ b
unfolding sector_address_eq
eq-same a b e =
    let block : a.block ≡ b.block = ground (arith, e) in
    let sector : a.sector ≡ b.sector = ground (arith, e) in
    λ i. record { block = block i; sector = sector i }

checked : {A : Type 0} {b : Bool} {r : Option A} → b ≡ true → (check b >> r) ≡ r
checked {A} {b} {r} e = ap (λ (x : Bool). check x >> r) e

module _ (T : Storage) where
  cached_read-serve :
      (c : Cache T) (a : BlockAddress) (n : ℕ)
      → (T.geometry c.target).sector_size ≡ file_sector_size
      → cached_read T c a n
        ≡ serve T c
            (T.geometry c.target)
            (sector a (T.geometry c.target))
            (sector_offset a (T.geometry c.target))
  unfolding cached_read
  cached_read-serve c a n same = checked ((==_iff _ _).1 same)

  -- If the cache holds a sector, not the invalid one, then the storage reads it as the buffer.
  pub record IsCached (c : Cache T) : Type 0 where
    pub sound :
        (a : SectorAddress)
        → a.block ≢ block_index_invalid
        → sector_address_eq c.held a ≡ true
        → (d : ℕ → ℕ) × (T.read c.target (of_sector (T.geometry c.target) a 0) file_sector_size
            ≡ some (true, d))
          × ((i : ℕ) → i < file_sector_size → d i ≡ c.buffer i)

  -- Where the storage can read a sector of a block, not the invalid one, a read through the cache of an address in that sector does not
  -- stop, gives the bytes from the address to the end of the sector as the storage would, leaves the
  -- storage as it is, and keeps the cache true to it.
  pub cached_read-IsCached :
      (c : Cache T) (a : BlockAddress) (n : ℕ) (d : ℕ → ℕ)
      → IsCached c
      → a.block ≢ block_index_invalid
      → (T.geometry c.target).sector_size ≡ file_sector_size
      → T.read c.target
          (of_sector (T.geometry c.target) (sector a (T.geometry c.target)) 0)
          file_sector_size
        ≡ some (true, d)
      → (r : (ℕ → ℕ) × Cache T) × (cached_read T c a n ≡ some (true, r))
        × ((i : ℕ)
            → sector_offset a (T.geometry c.target) + i < file_sector_size
            → r.0 i ≡ d (sector_offset a (T.geometry c.target) + i))
        × (r.1.target ≡ c.target)
        × IsCached r.1
  unfolding serve copy_from sector
  cached_read-IsCached c a n d ok real same reads =
      let g = T.geometry c.target in
      let wanted = sector a g in
      let offset = sector_offset a g in
      let whole_sector = ap (λ (k : ℕ). T.read c.target (of_sector g wanted 0) k) same ∙ reads in
      elim (Bool-cases (sector_address_eq c.held wanted)) [
        | inl hit ↦
            let (e, again, like) = ok.sound wanted real hit in
            let same_bytes : e ≡ d =
              ap (λ (p : Bool × (ℕ → ℕ)). p.1) (some-injective _ _ (sym again ∙ reads)) in
            (
              (copy_from T c.buffer offset, c),
              cached_read-serve c a n same ∙ rw hit refl,
              (λ i h. sym (like (offset + i) h) ∙ ap (λ (f : ℕ → ℕ). f (offset + i)) same_bytes),
              refl,
              ok,
            )
        | inr miss ↦ (
          (copy_from T d offset, record { target = c.target; held = wanted; buffer = d }),
          cached_read-serve c a n same ∙ rw (miss, whole_sector) refl,
          (λ i h. refl),
          refl,
          record {
            sound = λ b b_real is_held. (
              d,
              subst (λ w. T.read c.target (of_sector g w 0) file_sector_size ≡ some (true, d))
                  (eq-same wanted b is_held) reads,
              λ i h. refl,
            );
          },
        )
      ]

  -- Erasing goes past the cache: after it the sector that the cache holds still reads as before, also
  -- where its block is the one that is erased.
  pub cached_read-cached_erase :
      (c : Cache T) (a : BlockAddress) (n block : ℕ) (q : Bool × T.State)
      → (T.geometry c.target).sector_size ≡ file_sector_size
      → sector_address_eq c.held (sector a (T.geometry c.target)) ≡ true
      → T.erase c.target block ≡ some q
      → (after : Cache T) × (cached_erase T c block ≡ some (q.0, after))
        × (after.target ≡ q.1)
        × (cached_read T after a n
            ≡ some (true, (copy_from T c.buffer (sector_offset a (T.geometry c.target)), after)))
  unfolding serve cached_erase
  cached_read-cached_erase c a n block q same hit e =
      let after : Cache T = record c { target = q.1 } in
      let stays = T.erase-geometry c.target block q e in
      (
        after,
        rw e refl,
        refl,
        cached_read-serve after a n (ap (λ (g : Geometry). g.sector_size) stays ∙ same)
            ∙ subst
                (λ (g : Geometry).
                  serve T after g (sector a g) (sector_offset a g)
                  ≡ some
                      (true, (copy_from T c.buffer (sector_offset a (T.geometry c.target)), after)))
                (sym stays) (rw hit refl),
      )
