-- ===== src/Layout/Writes.antt =====
-- What the writes of a layout (src/phylum/layout.h) do over storage that always answers.
use consfs.Common.{
  ℕ, ◌+◌, ◌-◌, ◌≡◌, Bool, true, false, ◌&&◌, some, leb, ltb, ◌==◌, if◌then◌else◌, refl, arith,
  Bool-cases, inl, inr, ◌∙◌,
}
use consfs.Addressing.{BlockAddress}
use consfs.Addressing.Addr.{tail_data_of}
use consfs.Backend.{Storage, Allocates, store, Answers}
use consfs.Layout.{Format, Layout, is_error, geometry, write_head, write_new_head, write_tail}

module _ (T : Storage) (K : Answers T) (A : Allocates) (F : Format) where
  -- The layout differs at most in its storage, whose geometry is the same.
  pub record OnlyStores (l l' : Layout T A F) : Type 0 where
    pub same_geometry : geometry T A F l' ≡ geometry T A F l
    pub same_allocator : l'.allocator ≡ l.allocator
    pub same_address : l'.address ≡ l.address
    pub same_iterator : l'.iterator ≡ l.iterator
    pub same_type : l'.type ≡ l.type

  abbrev pub bytes_of : Layout T A F → ℕ → ℕ → ℕ
  bytes_of l = K.view l.storage

  -- The block is erased but for the head at its beginning; the other blocks are as before.
  abbrev pub HasHead : Layout T A F → ℕ → F.Head → Layout T A F → Type 0
  HasHead l block head l' =
      (b p : ℕ)
      → bytes_of l' b p ≡ (
          if b == block
          then (if ltb p F.head_codec.size then F.head_codec.encode head p else 0xff)
          else bytes_of l b p)

  pub write_head-HasHead :
      (l : Layout T A F) (block : ℕ) (head : F.Head)
      → (r : Bool × Layout T A F) × (write_head T A F l block head ≡ some r)
        × OnlyStores l r.1
        × (r.0 ≡ true → HasHead l block head r.1)
  unfolding write_head store
  write_head-HasHead l block head =
      let (e, e_is, e_geometry, erased) = K.erases l.storage block in
      let at_start : BlockAddress = record { block = block; position = 0 } in
      let (w, w_is, w_geometry, wrote) =
        K.writes e.1 at_start (F.head_codec.encode head) F.head_codec.size in
      elim (Bool-cases e.0) [
        | inr fails ↦ (
          (false, record l { storage = e.1 }),
          rw (e_is, fails) refl,
          record {
            same_geometry = e_geometry;
            same_allocator = refl;
            same_address = refl;
            same_iterator = refl;
            same_type = refl;
          },
          λ h. absurd (cc),
        )
        | inl erases ↦ (
          (w.0, record l { storage = w.1 }),
          rw (e_is, erases, w_is) refl,
          record {
            same_geometry = w_geometry ∙ e_geometry;
            same_allocator = refl;
            same_address = refl;
            same_iterator = refl;
            same_type = refl;
          },
          λ h b p. ground (arith, wrote h b p, erased erases b p),
        )
      ]

  -- The bytes of the tail at the end of the block are written, and no others.
  abbrev pub HasTail : Layout T A F → ℕ → ℕ → Layout T A F → Type 0
  HasTail l block linked l' =
      let at_tail = tail_data_of block (geometry T A F l) F.tail_codec.size in
      (b p : ℕ)
      → bytes_of l' b p ≡ (
          if b == at_tail.block
            && (leb at_tail.position p && ltb p (at_tail.position + F.tail_codec.size))
          then F.tail_codec.encode (F.tail_of linked) (p - at_tail.position)
          else bytes_of l b p)

  pub write_tail-HasTail :
      (l : Layout T A F) (block linked : ℕ)
      → (r : Bool × Layout T A F) × (write_tail T A F l block linked ≡ some r)
        × OnlyStores l r.1
        × (r.0 ≡ true → HasTail l block linked r.1)
  unfolding write_tail store
  write_tail-HasTail l block linked =
      let at_tail = tail_data_of block (geometry T A F l) F.tail_codec.size in
      let (w, w_is, w_geometry, wrote) =
        K.writes l.storage at_tail (F.tail_codec.encode (F.tail_of linked)) F.tail_codec.size in
      (
        (w.0, record l { storage = w.1 }),
        rw w_is refl,
        record {
          same_geometry = w_geometry;
          same_allocator = refl;
          same_address = refl;
          same_iterator = refl;
          same_type = refl;
        },
        wrote,
      )

  pub write_new_head-HasHead :
      (l : Layout T A F) (block linked : ℕ)
      → is_error l.type ≡ false
      → (r : Bool × Layout T A F) × (write_new_head T A F l block linked ≡ some r)
        × OnlyStores l r.1
        × (r.0 ≡ true → HasHead l block (F.link (F.fill (F.new l.type)) linked) r.1)
  unfolding write_new_head
  write_new_head-HasHead l block linked typed =
      let (r, e, stores, head) =
        write_head-HasHead l block (F.link (F.fill (F.new l.type)) linked) in
      (r, rw typed e, stores, head)
