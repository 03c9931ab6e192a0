-- ===== src/Reclaimer/Keeps.antt =====
-- What `reclaim` of src/unused_block_reclaimer.cpp leaves as it is.
use consfs.Common.{
  ℕ, zero, suc, ◌+◌, ◌-◌, ◌≤◌, ◌<◌, ◌≡◌, Bool, true, false, not, ◌&&◌, ◌||◌, some, List, [], ◌∷◌,
  ltb, ◌==◌, refl, arith, ltb→lt, ==_ne, Bool-cases, inl, inr, ◌∙◌, sym, ap, subst,
}
use consfs.Addressing.{Geometry, block_index_invalid}
use consfs.Backend.{Storage, Codec, load, Answers, BlockHead, magic_valid}
use consfs.SuperBlocks.{SuperBlock, Reuses, Manager, walk_visited}
use consfs.SerialFlash.{
  Map, Flash, Scan, is_taken, visit_block, is_free, initialize_flash, scan_block, scan_from,
  scan_blocks, scan_one, note_one, note_free, is_unallocated,
}
use consfs.SerialFlash.Map.{
  free_in, IsBytes, is_block_free-free_in, set_block_taken_lem, set_block_free_lem,
}
use consfs.SerialFlash.Select.{note_one-map}
use consfs.SerialFlash.Least.{take_anchors_lem}
use consfs.Reclaimer.{visit_all, Reclaimer, reclaim_block, reclaim_from, reclaim}

-- Whether the tracker has the block as free.
abbrev pub untracked : Map → ℕ → Bool
untracked map block = ltb block 64 && free_in map block

is_free-untracked : (map : Map) (block : ℕ) → is_free map block ≡ some (untracked map block)
unfolding is_free
is_free-untracked map block = elim (Bool-cases (ltb block 64)) [
  | inl small ↦ rw (small, is_block_free-free_in map block (ltb→lt block 64 small)) refl
  | inr far ↦ rw far refl
]

-- Whether the list has the block.
abbrev pub among : ℕ → List ℕ → Bool
among k [] = false
among k (block ∷ rest) = k == block || among k rest

visit_block_lem :
    (map : Map) (block : ℕ)
    → IsBytes map
    → (after : Map) × (visit_block map block ≡ some after)
      × IsBytes after
      × ((k : ℕ) → untracked after k ≡ (not (k == block) && untracked map k))
unfolding visit_block
visit_block_lem map block bytes = elim (Bool-cases (ltb block 64)) [
  | inl small ↦
      let (m, m_is, m_bytes, m_bits) =
        set_block_taken_lem map block bytes (ltb→lt block 64 small) in
      (
        m,
        rw (small, m_is) refl,
        m_bytes,
        λ k. ap (λ (b : Bool). ltb k 64 && b) (m_bits k) ∙ ground arith,
      )
  | inr far ↦ (map, rw far refl, bytes, λ k. ground arith)
]

visit_all_lem :
    (blocks : List ℕ) (map : Map)
    → IsBytes map
    → (after : Map) × (visit_all blocks map ≡ some after)
      × IsBytes after
      × ((k : ℕ) → untracked after k ≡ (not (among k blocks) && untracked map k))
unfolding visit_all
visit_all_lem [] map bytes = (map, refl, bytes, λ k. refl)
visit_all_lem (block ∷ rest) map bytes =
    let (m, m_is, m_bytes, m_bits) = visit_block_lem map block bytes in
    let (n, n_is, n_bytes, n_bits) = visit_all_lem rest m m_bytes in
    (n, rw (m_is, n_is) refl, n_bytes, λ k. n_bits k ∙ rw (m_bits k) (ground arith))

module _ (T : Storage) (K : Answers T) (heads : Codec BlockHead) where
  reclaim_block-Keeps :
      (block : ℕ) (r : Reclaimer T heads)
      → (ok : Bool) × (q : Reclaimer T heads) × (reclaim_block T heads r block ≡ some (ok, q))
        × (q.flash.map ≡ r.flash.map)
        × (q.tracker ≡ r.tracker)
        × (T.geometry q.flash.storage ≡ T.geometry r.flash.storage)
        × (ok ≡ true
            → (k p : ℕ) → untracked r.tracker k ≡ false
            → K.view q.flash.storage k p ≡ K.view r.flash.storage k p)
  unfolding reclaim_block is_taken load
  reclaim_block-Keeps block r =
      let free_is = is_free-untracked r.tracker block in
      let (h, h_is, h_bytes) =
        K.reads r.flash.storage (record { block = block; position = 0 }) heads.size in
      let head = heads.decode h.1 in
      let taken = h.0 && (magic_valid head && not (is_unallocated head.type)) in
      let (e, e_is, e_same, e_bytes) = K.erases r.flash.storage block in
      let erased = record r { flash = record r.flash { storage = e.1 } } in
      elim (Bool-cases (untracked r.tracker block)) [
        | inr tracked ↦ (true, r, rw (free_is, tracked) refl, refl, refl, refl, λ done k p h. refl)
        | inl free ↦ elim (Bool-cases taken) [
          | inr idle ↦
              (true, r, rw (free_is, free, h_is, idle) refl, refl, refl, refl, λ done k p h. refl)
          | inl used ↦ (
            e.0,
            erased,
            rw (free_is, free, h_is, used, e_is) refl,
            refl,
            refl,
            e_same,
            λ done k p tracked.
                e_bytes done k p
                ∙ rw
                    (==_ne k block
                      (λ same. absurd (cc (free, tracked, ap (untracked r.tracker) same))))
                    refl,
          )
        ]
      ]

  reclaim_from-Keeps :
      (left block : ℕ) (r : Reclaimer T heads)
      → (ok : Bool) × (q : Reclaimer T heads) × (reclaim_from T heads left block r ≡ some (ok, q))
        × (q.flash.map ≡ r.flash.map)
        × (T.geometry q.flash.storage ≡ T.geometry r.flash.storage)
        × (ok ≡ true
            → (k p : ℕ) → untracked r.tracker k ≡ false
            → K.view q.flash.storage k p ≡ K.view r.flash.storage k p)
  unfolding reclaim_from
  reclaim_from-Keeps zero block r = (true, r, refl, refl, refl, λ done k p tracked. refl)
  reclaim_from-Keeps (suc left) block r =
      let (ok, q, q_is, q_map, q_tracker, q_same, q_kept) = reclaim_block-Keeps block r in
      let (ok_on, t, t_is, t_map, t_same, t_kept) = reclaim_from-Keeps left (block + 1) q in
      elim (Bool-cases ok) [
        | inl done ↦ (
          ok_on,
          t,
          rw (q_is, done, t_is) refl,
          t_map ∙ q_map,
          t_same ∙ q_same,
          λ done_on k p tracked.
              t_kept done_on k p (ap (λ (m : Map). untracked m k) q_tracker ∙ tracked)
              ∙ q_kept done k p tracked,
        )
        | inr failed ↦ (false, q, rw (q_is, failed) refl, q_map, q_same, λ h. absurd (cc (h)))
      ]

  -- A scan of all blocks changes the map alone.
  scan_block-total :
      (storage : T.State) (b : ℕ) (s : Scan)
      → b < 64
      → IsBytes s.map
      → (t : Scan) × (scan_block T heads storage false 1 b s ≡ some (t, false)) × IsBytes t.map
  unfolding scan_block is_taken load note_free
  scan_block-total storage b s small bytes =
      let (h, h_is, h_bytes) = K.reads storage (record { block = b; position = 0 }) heads.size in
      let head = heads.decode h.1 in
      let taken = h.0 && (magic_valid head && not (is_unallocated head.type)) in
      elim (Bool-cases taken) [
        | inl used ↦
            let (m, m_is, m_bytes, m_bits) = set_block_taken_lem s.map b bytes small in
            (record s { map = m }, rw (h_is, used, m_is) refl, m_bytes)
        | inr idle ↦
            let (m, m_is, m_bytes, m_bits) = set_block_free_lem s.map b bytes small in
            let t = record s { map = m } in
            (
              note_one b head t,
              rw (h_is, idle, m_is) refl,
              subst IsBytes (sym (note_one-map s.map (λ k. (true, head)) b head t)) m_bytes,
            )
      ]

  scan_from-total :
      (left : ℕ) (storage : T.State) (b : ℕ) (s : Scan)
      → b + left ≤ 64
      → IsBytes s.map
      → (t : Scan) × (scan_from T heads left storage false 1 b s ≡ some t) × IsBytes t.map
  unfolding scan_from
  scan_from-total zero storage b s small bytes = (s, refl, bytes)
  scan_from-total (suc left) storage b s small bytes =
      let (t, t_is, t_bytes) = scan_block-total storage b s (omega arith) bytes in
      let (u, u_is, u_bytes) = scan_from-total left storage (b + 1) t (omega arith) t_bytes in
      (u, rw (t_is, u_is) refl, u_bytes)

  initialize_flash-total :
      (f : Flash T heads)
      → (T.geometry f.storage).number_of_blocks ≤ 64
      → IsBytes f.map
      → (map : Map) × (initialize_flash T heads f ≡ some (true, record f { map = map }))
  unfolding initialize_flash scan_one scan_blocks
  initialize_flash-total f most bytes =
      let start : Scan = record {
        map = f.map;
        blocks = λ i. record { block = block_index_invalid; age = 0 };
        n = 0;
      } in
      let left = (T.geometry f.storage).number_of_blocks - 3 in
      let (t, t_is, t_bytes) = scan_from-total left f.storage 3 start (omega arith) bytes in
      let (m, m_is, m_bytes, m_bits) = take_anchors_lem t.map t_bytes in (m, rw (t_is, m_is) refl)

  -- On storage that always answers, though an operation may fail, with at most 64 blocks and maps
  -- of bytes, where the walk along the super blocks does not stop, whatever it returns and tells,
  -- reclaim does not stop; where it returns true, every block that was tracked before or that the
  -- walk told holds the bytes that it held.
  pub reclaim-Keeps :
      (B : Reuses) (P : SuperBlock) (m : Manager T B P) (r : Reclaimer T heads) (walked : Bool)
      (visited : List ℕ)
      → walk_visited T B P (record m { storage = r.flash.storage }) ≡ some (walked, visited)
      → (T.geometry r.flash.storage).number_of_blocks ≤ 64
      → IsBytes r.flash.map
      → IsBytes r.tracker
      → (ok : Bool) × (q : Reclaimer T heads) × (reclaim T heads B P m r ≡ some (ok, q))
        × (ok ≡ true
            → (k p : ℕ) → (among k visited || not (untracked r.tracker k)) ≡ true
            → K.view q.flash.storage k p ≡ K.view r.flash.storage k p)
  unfolding reclaim
  reclaim-Keeps B P m r walked visited walk_is most bytes tracked_bytes =
      let (tracker, tracker_is, tracker_bytes, tracks) =
        visit_all_lem visited r.tracker tracked_bytes in
      let n = (T.geometry r.flash.storage).number_of_blocks in
      let (ok, q, q_is, q_map, q_same, kept) =
        reclaim_from-Keeps n 0 (record r { tracker = tracker }) in
      let tracked = λ (k : ℕ) (h : (among k visited || not (untracked r.tracker k)) ≡ true).
        tracks k ∙ not_free k h in
      elim (Bool-cases ok) [
        | inr failed ↦
            (false, q, rw (walk_is, tracker_is, q_is, failed) refl, λ done. absurd (cc done))
        | inl done ↦
            let few = subst (λ (g : Geometry). g.number_of_blocks ≤ 64) (sym q_same) most in
            let (map, map_is) =
              initialize_flash-total q.flash few (subst IsBytes (sym q_map) bytes) in
            (
              true,
              record q { flash = record q.flash { map = map } },
              rw (walk_is, tracker_is, q_is, done, map_is) refl,
              λ all k p h. kept done k p (tracked k h),
            )
      ]
    where
      not_free :
          (k : ℕ)
          → (among k visited || not (untracked r.tracker k)) ≡ true
          → (not (among k visited) && untracked r.tracker k) ≡ false
      not_free k h = ground arith
