-- ===== src/Layout/RoundTrip.antt =====
-- Entries that are appended to a block of a layout (src/phylum/layout.h) are walked over in order.
use consfs.Common.{
  ℕ, zero, suc, ◌+◌, ◌*◌, ◌%◌, ◌≤◌, ◌<◌, ◌≡◌, Bool, true, false, Option, none, some, refl, arith,
  ◌>>=◌, Bool-cases, inl, inr, sym, ◌∙◌, ap, subst, ==_ne, List, [], ◌∷◌, length,
}
use consfs.Addressing.{BlockAddress, Geometry}
use consfs.Addressing.Geom.{block_size}
use consfs.Addressing.Addr.{valid, add, is_beginning_of_block, add_or_move_to_following_sector}
use consfs.Addressing.TailRoom.{
  find_room-FitsBefore, room_at, FitsBefore-room_at, add_or_move-room_at, block_size-word,
}
use consfs.Backend.{Storage, Allocates, Answers, load}
use consfs.Layout.{
  Format, Entry, Layout, geometry, ◌>>&&◌, append_entry, walk, start_walk, pass_head, read_entry,
}
use consfs.Layout.InBlock.{
  HasRoomForTwo, IsOpen, IsOpen-valid, IsOpen-stays, IsAt, append_entry-Appends,
}

add-position :
    (g : Geometry) (b : BlockAddress) (k : ℕ)
    → b.position + k ≤ block_size g
    → (add b k).position ≡ b.position + k
unfolding add
add-position g b k inside = omega (arith, block_size-word g)

module _ (T : Storage) (K : Answers T) (A : Allocates) (F : Format) {E : Type 0}
    (entries : Entry E) where
  abbrev n : ℕ
  n = entries.codec.size

  abbrev t : ℕ
  t = F.tail_codec.size

  -- The entry is one that its bytes can hold, and valid.
  pub record IsGood (e : E) : Type 0 where
    pub fits : entries.codec.Fits e
    pub good : entries.entry_valid e ≡ true

  -- A read of the storage does not fail.
  abbrev pub Reads : Type 0
  Reads = (s : T.State) (a : BlockAddress) (k : ℕ) → (K.reads s a k).0.0 ≡ true

  start_walk-at :
      (l : Layout T A F) (b : BlockAddress)
      → valid b ≡ true
      → l.iterator ≡ b
      → start_walk T A F entries l ≡ some (record l { address = b })
  unfolding start_walk
  start_walk-at l b real at_b =
      rw (ap valid at_b ∙ real) (ap (λ (a : BlockAddress). some (record l { address = a })) at_b)

  -- Reading an entry at a place with room for the next one.
  read_entry-at :
      (l : Layout T A F) (e : E) (next : BlockAddress)
      → Reads
      → add_or_move_to_following_sector l.address (geometry T A F l) n ≡ some (true, next)
      → IsAt T K A F entries (K.view l.storage) l.address e
      → IsGood e
      → read_entry T A F entries l ≡ some (some e, record l { iterator = next })
  unfolding read_entry load
  read_entry-at l e next reading moves held good =
      let (r, r_is, bytes) = K.reads l.storage l.address n in
      let read = reading l.storage l.address n in
      let same : entries.codec.decode r.1 ≡ e =
        entries.codec.decode-encode e r.1 good.fits
          (λ i small. bytes read i small ∙ held i small) in
      rw (r_is, read, moves, same, good.good) refl

  walk_one :
      (l : Layout T A F) (b : BlockAddress) (e : E)
      → Reads
      → HasRoomForTwo T K A F entries (geometry T A F l)
      → IsOpen T K A F entries (geometry T A F l) b
      → b.position % (geometry T A F l).sector_size + n ≤ (geometry T A F l).sector_size
      → l.iterator ≡ b
      → IsAt T K A F entries (K.view l.storage) b e
      → IsGood e
      → walk T A F entries l
        ≡ some (some e, record l { address = b; iterator = room_at (geometry T A F l) n (add b n) })
  unfolding walk pass_head is_beginning_of_block
  walk_one l b e reading two free in_sector at_b held good =
      let g = geometry T A F l in
      let l_b : Layout T A F = record l { address = b } in
      let real = IsOpen-valid T K A F entries g b two.some_byte free in
      let stays = IsOpen-stays T K A F entries l_b two free (n * 2) (omega arith) in
      let inside = ==_ne b.position 0 (λ z. absurd (omega (arith, free.behind_head))) in
      let next =
        add_or_move-room_at b g n two.space.sound (omega (arith, two.space.in_sector)) in_sector
          (omega (arith, free.before_tail)) in
      rw (start_walk-at l b real at_b, stays, inside)
        (read_entry-at l_b e (room_at g n (add b n)) reading next held good)

  -- Appends in a row, and `while (walk(entry))` for a number of rounds at most.
  unfoldable pub append_all : List E → Layout T A F → Option (Bool × Layout T A F)
  append_all [] l = some (true, l)
  append_all (e ∷ es) l = append_entry T A F entries l e >>&& λ l'. append_all es l'

  abbrev pub and_walk :
      (Layout T A F → Option (List E × Layout T A F))
      → Option E × Layout T A F
      → Option (List E × Layout T A F)
  and_walk rest (none, l) = some ([], l)
  and_walk rest (some e, l) = rest l >>= λ q. some (e ∷ q.0, q.1)

  unfoldable pub walk_all : ℕ → Layout T A F → Option (List E × Layout T A F)
  walk_all zero l = some ([], l)
  walk_all (suc k) l = walk T A F entries l >>= and_walk (λ l'. walk_all k l')

  abbrev pub next_of : Geometry → BlockAddress → BlockAddress
  next_of g a = add (room_at g entries.codec.size a) entries.codec.size

  -- From the address on there is room for so many entries, and behind the last for one more.
  abbrev pub IsSpacious : Geometry → BlockAddress → ℕ → Type 0
  IsSpacious g a zero = Unit {0}
  IsSpacious g a (suc k) = IsOpen T K A F entries g a × IsSpacious g (next_of g a) k

  abbrev pub AllGood : List E → Type 0
  AllGood [] = Unit {0}
  AllGood (e ∷ es) = IsGood e × AllGood es

  abbrev Stored : (ℕ → ℕ → ℕ) → Geometry → BlockAddress → List E → Type 0
  Stored bytes g a [] = Unit {0}
  Stored bytes g a (e ∷ es) =
      IsAt T K A F entries bytes (room_at g entries.codec.size a) e
      × Stored bytes g (next_of g a) es

  append_all-Stored :
      (es : List E) (l : Layout T A F)
      → HasRoomForTwo T K A F entries (geometry T A F l)
      → IsSpacious (geometry T A F l) l.address (length es)
      → (r : Bool × Layout T A F) × (append_all es l ≡ some r)
        × (geometry T A F r.1 ≡ geometry T A F l)
        × (r.0 ≡ true
            → Stored (K.view r.1.storage) (geometry T A F l) l.address es
              × ((block p : ℕ)
                  → p < l.address.position
                  → K.view r.1.storage block p ≡ K.view l.storage block p))
  unfolding append_all
  append_all-Stored [] l two spacious = ((true, l), refl, refl, λ h. (tt, λ block p low. refl))
  append_all-Stored (e ∷ es) l two spacious =
      let g = geometry T A F l in
      let (b, q, done) = append_entry-Appends T K A F entries l e two spacious.0 in
      let at_b = FitsBefore-room_at l.address g n (n + t) b done.room in
      let past : q.1.address.position ≡ b.position + n =
        ap (λ (a : BlockAddress). a.position) done.behind
        ∙ add-position g b n (omega (arith, done.room.before_tail)) in
      let next : q.1.address ≡ next_of g l.address =
        done.behind ∙ ap (λ (a : BlockAddress). add a n) (sym at_b) in
      let (r, r_is, same, kept) =
        append_all-Stored es q.1
          (subst (λ (g' : Geometry). HasRoomForTwo T K A F entries g') (sym done.same_geometry) two)
          (subst (λ (g' : Geometry). IsSpacious g' q.1.address (length es)) (sym done.same_geometry)
            (subst (λ (a : BlockAddress). IsSpacious g a (length es)) (sym next) spacious.1)) in
      elim (Bool-cases q.0) [
        | inr fails ↦
            ((false, q.1), rw (done.called, fails) refl, done.same_geometry, λ h. absurd (cc))
        | inl wrote ↦ (
          r,
          rw (done.called, wrote) r_is,
          same ∙ done.same_geometry,
          λ h.
              let (stored, frame) = kept h in
              (
                (
                  subst (λ (a : BlockAddress). IsAt T K A F entries (K.view r.1.storage) a e)
                      (sym at_b)
                      (λ i small.
                        frame b.block (b.position + i) (omega (arith, past))
                        ∙ done.written wrote i small),
                  subst (λ (a : BlockAddress). Stored (K.view r.1.storage) g a es) next
                      (subst (λ (g' : Geometry). Stored (K.view r.1.storage) g' q.1.address es)
                        done.same_geometry stored),
                ),
                λ block p low.
                    frame block p (omega (arith, past, done.room.forward))
                    ∙ done.kept wrote block p (omega (arith, done.room.forward)),
              ),
        )
      ]

  walk_all-Stored :
      (es : List E) (l : Layout T A F) (a : BlockAddress)
      → Reads
      → HasRoomForTwo T K A F entries (geometry T A F l)
      → IsSpacious (geometry T A F l) a (length es)
      → l.iterator ≡ room_at (geometry T A F l) entries.codec.size a
      → Stored (K.view l.storage) (geometry T A F l) a es
      → AllGood es
      → (l' : Layout T A F) × (walk_all (length es) l ≡ some (es, l'))
  unfolding walk_all
  walk_all-Stored [] l a reading two spacious at_b stored good = (l, refl)
  walk_all-Stored (e ∷ es) l a reading two spacious at_b stored good =
      let g = geometry T A F l in
      let free = spacious.0 in
      let (b, fits) =
        find_room-FitsBefore a g n (n + t) two.space.sound two.space.in_sector free.before_tail in
      let found = FitsBefore-room_at a g n (n + t) b fits in
      let open_b : IsOpen T K A F entries g b = record {
        real = λ same. free.real (sym fits.same_block ∙ same);
        behind_head = omega (arith, fits.forward, free.behind_head);
        before_tail = fits.before_tail;
      } in
      let next : room_at g n (add b n) ≡ room_at g n (next_of g a) =
        ap (λ (c : BlockAddress). room_at g n (add c n)) (sym found) in
      let l1 : Layout T A F = record l { address = b; iterator = room_at g n (add b n) } in
      let walked =
        walk_one l b e reading two open_b fits.in_sector (at_b ∙ found)
          (subst (λ (c : BlockAddress). IsAt T K A F entries (K.view l.storage) c e) found stored.0)
          good.0 in
      let (l', rest) =
        walk_all-Stored es l1 (next_of g a) reading two spacious.1 next stored.1 good.1 in
      (l', rw (walked, rest) refl)

  -- In a geometry where two entries and the tail fit in a sector and in a block behind its head, from an
  -- address of a block where there is room for the entries and one more: appending the entries does not
  -- stop. If it returns true then, where reads do not fail and the entries are valid and such as their
  -- bytes can hold, a reader of the storage that starts at the first room walks over the same entries
  -- in the same order.
  pub walk_all-append_all :
      (es : List E) (l : Layout T A F)
      → Reads
      → HasRoomForTwo T K A F entries (geometry T A F l)
      → IsSpacious (geometry T A F l) l.address (length es)
      → AllGood es
      → (r : Bool × Layout T A F) × (append_all es l ≡ some r)
        × (r.0 ≡ true
            → (reader : Layout T A F) → reader.storage ≡ r.1.storage
            → reader.iterator ≡ room_at (geometry T A F l) entries.codec.size l.address
            → (l' : Layout T A F) × (walk_all (length es) reader ≡ some (es, l')))
  walk_all-append_all es l reading two spacious good =
      let (r, r_is, same, kept) = append_all-Stored es l two spacious in
      (
        r,
        r_is,
        λ h reader same_storage at_b.
            let g_is : geometry T A F reader ≡ geometry T A F l =
              ap T.geometry same_storage ∙ same in
            let back = sym g_is in
            walk_all-Stored es reader l.address reading
              (subst (λ (g : Geometry). HasRoomForTwo T K A F entries g) back two)
              (subst (λ (g : Geometry). IsSpacious g l.address (length es)) back spacious)
              (at_b ∙ ap (λ (g : Geometry). room_at g n l.address) back)
              (subst (λ (s : T.State). Stored (K.view s) (geometry T A F reader) l.address es)
                (sym same_storage)
                (subst (λ (g : Geometry). Stored (K.view r.1.storage) g l.address es) back
                  (kept h).0))
              good,
      )
