-- ===== src/Cache/Calls.antt =====
-- A cache of src/caching_storage.cpp that lives for one call of a client.
use consfs.Common.{ℕ, ◌≡◌, ◌==◌, check, Bool, Option, some, ◌>>=◌, ap, sym, ◌∙◌, bind-some}
use mathlib.Core.Option.{some-injective}
use consfs.Addressing.{BlockAddress, file_sector_size}
use consfs.Backend.{Storage}
use consfs.Cache.{new_cache, cached_read, cached_write, cached_erase}

module _ (T : Storage) (garbage : ℕ → ℕ) where
  unfoldable pub call_read : T.State → BlockAddress → ℕ → Option (Bool × (ℕ → ℕ))
  call_read s a n = new_cache T s garbage >>= λ c. cached_read T c a n >>= λ r. some (r.0, r.1.0)

  unfoldable pub call_write : T.State → BlockAddress → (ℕ → ℕ) → ℕ → Option (Bool × T.State)
  call_write s a d n =
      new_cache T s garbage >>= λ c. cached_write T c a d n >>= λ r. some (r.0, r.1.target)

  unfoldable pub call_erase : T.State → ℕ → Option (Bool × T.State)
  call_erase s block =
      new_cache T s garbage >>= λ c. cached_erase T c block >>= λ r. some (r.0, r.1.target)

  pub call_erase-geometry :
      (s : T.State) (b : ℕ) (r : Bool × T.State)
      → call_erase s b ≡ some r
      → T.geometry r.1 ≡ T.geometry s
  unfolding call_erase new_cache cached_erase
  call_erase-geometry s b r e =
      let (c, made, rest) = bind-some (new_cache T s garbage) _ r e in
      let (u, checked, held) =
        bind-some (check ((T.geometry s).sector_size == file_sector_size)) _ c made in
      let (q, erased, out) = bind-some (cached_erase T c b) _ r rest in
      let (x, by_target, after) = bind-some (T.erase c.target b) _ q erased in
      let target : c.target ≡ s = ap (λ k. k.target) (sym (some-injective _ _ held)) in
      let last : r.1 ≡ x.1 =
        ap (λ k. k.1) (sym (some-injective _ _ out))
        ∙ ap (λ k. k.1.target) (sym (some-injective _ _ after)) in
      ap T.geometry last ∙ T.erase-geometry c.target b x by_target ∙ ap T.geometry target

  -- A storage behind a new cache for each operation. Where a call of the client only reads, or only writes
  -- and erases, this is the storage behind one cache for the whole call: what the cache holds is then what
  -- a read of the storage gives, or nothing. `garbage` is what memory holds where the buffer is made.
  abbrev pub caching : Storage
  caching = record {
    State = T.State;
    geometry = T.geometry;
    read = call_read;
    write = call_write;
    erase = call_erase;
    erase-geometry = call_erase-geometry;
  }
