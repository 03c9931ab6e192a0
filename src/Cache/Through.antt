-- ===== src/Cache/Through.antt =====
-- Operations at the beginning of a block through a cache that lives for one call (src/caching_storage.cpp), over
-- storage that does not fail.
use consfs.Common.{
  ℕ, ◌+◌, ◌≤◌, ◌<◌, ◌≡◌, ◌≢◌, true, some, arith, refl, sym, ap, ◌∙◌, ◌==◌, ◌&&◌, ltb, if◌then◌else◌,
  ==_iff, ==_ne,
}
use consfs.Addressing.{block_index_invalid, file_sector_size, sector_address_eq}
use consfs.Addressing.Addr.{of_sector, sector, sector_offset}
use consfs.Backend.{Codec, Storage, Answers, load}
use consfs.SuperBlocks.Chain.{Succeeds}
use consfs.Cache.{new_cache, cached_read, cached_write, cached_erase, serve, copy_from}
use consfs.Cache.Calls.{caching, call_read, call_write, call_erase}

module _ (T : Storage) (K : Answers T) (ok : Succeeds T K) (garbage : ℕ → ℕ) where
  abbrev pub Plain : T.State → Type 0
  Plain s = (T.geometry s).sector_size ≡ file_sector_size

  abbrev pub Blank : T.State → ℕ → Type 0
  Blank s b = (p : ℕ) → K.view s b p ≡ 0xff

  pub erase_through :
      (s : T.State) (b : ℕ)
      → Plain s
      → (t : T.State) × (call_erase T garbage s b ≡ some (true, t))
        × (T.geometry t ≡ T.geometry s)
        × ((c p : ℕ) → K.view t c p ≡ (if c == b then 0xff else K.view s c p))
  unfolding call_erase new_cache cached_erase
  erase_through s b plain =
      let (e, e_is, same, erased) = K.erases s b in
      let good = ok.erases s b in (e.1, rw (plain, e_is, good) refl, same, erased good)

  pub write_through :
      (s : T.State) (b : ℕ) (d : ℕ → ℕ) (n : ℕ)
      → Plain s
      → b ≢ block_index_invalid
      → (t : T.State) × (call_write T garbage s (record { block = b; position = 0 }) d n
          ≡ some (true, t))
        × (T.geometry t ≡ T.geometry s)
        × ((c p : ℕ) → K.view t c p ≡ (if c == b && ltb p n then d p else K.view s c p))
  unfolding call_write new_cache cached_write sector sector_address_eq
  write_through s b d n plain real =
      let (w, w_is, same, wrote) = K.writes s (record { block = b; position = 0 }) d n in
      let good = ok.writes s (record { block = b; position = 0 }) d n in
      let checked = (==_iff (T.geometry s).sector_size file_sector_size).1 plain in
      (
        w.1,
        rw (checked, ==_ne block_index_invalid b (λ e. real (sym e)), w_is, good, checked) refl,
        same,
        λ c p. ground (arith, wrote good c p),
      )

  pub load_through :
      {A : Type 0} (c : Codec A) (s : T.State) (b : ℕ)
      → Plain s
      → b ≢ block_index_invalid
      → c.size ≤ file_sector_size
      → (d : ℕ → ℕ) × (load (caching T garbage) c s (record { block = b; position = 0 })
          ≡ some (true, c.decode d))
        × ((i : ℕ) → i < c.size → d i ≡ K.view s b i)
  unfolding load call_read new_cache cached_read sector sector_address_eq sector_offset serve
      copy_from of_sector
  load_through c s b plain real small =
      let checked = (==_iff (T.geometry s).sector_size file_sector_size).1 plain in
      let (r, r_is, bytes) = K.reads s (record { block = b; position = 0 }) file_sector_size in
      let good = ok.reads s (record { block = b; position = 0 }) file_sector_size in
      let at : (i : ℕ) → 0 + (0 + i) ≡ i = λ i. omega arith in
      (
        λ i. r.1 (0 + i),
        rw (checked, ==_ne block_index_invalid b (λ e. real (sym e)), plain, r_is, good) refl,
        λ i i_small. bytes good (0 + i) (omega (arith, i_small, small)) ∙ ap (K.view s b) (at i),
      )
