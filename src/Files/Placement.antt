-- ===== src/Files/Placement.antt =====
-- What src/file_preallocator.cpp promises for the files of a layout: their extents lie in the geometry,
-- one behind the other.
use Prim.Native.Nat.{max}
use native.Mathlib.Nat.{div-le_self, le-div_iff_mul-le, div-lt_iff_lt-mul, lt-mul-div-succ}
use consfs.Common.{
  ℕ, ◌+◌, ◌-◌, ◌*◌, ◌/◌, ◌^◌, ◌≤◌, ◌<◌, ◌≡◌, Bool, true, false, ◌&&◌, some, List, [], ◌∷◌, refl,
  arith, ltb, lt→ltb, le→ltb, ltb→lt, leb, ◌==◌, if◌then◌else◌, u32, u64, add32, sub32, Bool-cases,
  lt_or_le, inl, inr, ==_ne, length, ◌∙◌, sym, subst, ◌⊎◌,
}
use consfs.Addressing.{Geometry}
use consfs.Addressing.Geom.{block_size, size, contains}
use consfs.Files.Extents.{FileAllocation, contains_block}
use consfs.Files.Prealloc.{
  Sizes, effective_file_block_size, effective_index_block_size, index_frequency,
  blocks_required_for_index, blocks_required_for_data, Preallocator, Placed, required, place,
  allocate_file, allocate_each, allocate_files, new_preallocator, kilobyte, megabyte,
}

-- A block has room for the bytes of a file and for an index record, and the geometry is of at most 2 ^ 30
-- blocks.
pub record IsUsable (z : Sizes) (g : Geometry) : Type 0 where
  pub some_record : 0 < z.index_record
  pub index_room : z.index_record ≤ effective_index_block_size z g
  pub data_room : 0 < effective_file_block_size z g
  pub some_bytes : 0 < block_size g
  pub some_blocks : 2 < g.number_of_blocks
  pub few_blocks : g.number_of_blocks ≤ 2 ^ 30

blocks_required_for_index-bounds :
    (z : Sizes) (g : Geometry) (nblocks : ℕ)
    → IsUsable z g
    → nblocks < 2 ^ 32
    → (n : ℕ) × (blocks_required_for_index z g nblocks ≡ some n) × (1 ≤ n) × (n ≤ nblocks / 8 + 1)
unfolding blocks_required_for_index
blocks_required_for_index-bounds z g nblocks ok small =
    let per = effective_index_block_size z g / z.index_record in
    let per_pos : 1 ≤ per = (le-div_iff_mul-le ok.some_record).1 (omega (arith, ok.index_room)) in
    let entries = add32 (nblocks / index_frequency) 1 in
    let less : entries / per ≤ entries = div-le_self entries per in
    (
      u32 (max 1 (entries / per)),
      rw (==_ne z.index_record 0 (omega (arith, ok.some_record)), ==_ne per 0 (omega arith)) refl,
      omega arith,
      omega arith,
    )

-- The blocks that a file of a maximum size asks for are fewer than 2 ^ 30.
abbrev pub IsModest : Sizes → Geometry → ℕ → Type 0
IsModest z g maximum_size =
    0 < maximum_size → (n : ℕ) → blocks_required_for_data z g maximum_size ≡ some n → n < 2 ^ 30

blocks_required_for_data-total :
    (z : Sizes) (g : Geometry) (maximum_size : ℕ)
    → IsUsable z g
    → (n : ℕ) × (blocks_required_for_data z g maximum_size ≡ some n) × (n < 2 ^ 32)
unfolding blocks_required_for_data
blocks_required_for_data-total z g maximum_size ok = (
  u32 (
      u64 (maximum_size * (if ltb (size g) (1024 * megabyte) then kilobyte else megabyte))
        / effective_file_block_size z g
      + 1),
  rw (==_ne (effective_file_block_size z g) 0 (omega (arith, ok.data_room))) refl,
  omega arith,
)

-- A pair of numbers of blocks that `place` can take without a wrap that its tests do not see.
record IsSafe (p : Preallocator) (n : ℕ × ℕ) : Type 0 where
  index_fits : p.head + n.1 < 2 ^ 32
  data_fits : p.head + n.1 < p.geometry.number_of_blocks → p.head + n.1 + n.0 < 2 ^ 32
  some_index : 1 ≤ n.1

required-IsSafe :
    (z : Sizes) (p : Preallocator) (maximum_size : ℕ)
    → IsUsable z p.geometry
    → p.head < p.geometry.number_of_blocks
    → IsModest z p.geometry maximum_size
    → (n : ℕ × ℕ) × (required z p maximum_size ≡ some n) × IsSafe p n
unfolding required
required-IsSafe z p maximum_size ok inside modest = elim (lt_or_le 0 maximum_size) [
  | inl pos ↦
      let (n, e, small) = blocks_required_for_data-total z p.geometry maximum_size ok in
      let less = modest pos n e in
      let (k, f, some_k, few_k) = blocks_required_for_index-bounds z p.geometry n ok small in
      (
        (n, u32 (k * 2)),
        rw (lt→ltb 0 maximum_size pos, e, f) refl,
        record {
          index_fits = omega (arith, ok.few_blocks);
          data_fits = λ h. omega (arith, ok.few_blocks);
          some_index = omega arith;
        },
      )
  | inr none_it ↦
      let n = sub32 (sub32 p.geometry.number_of_blocks p.head) 1 in
      let (k, f, some_k, few_k) =
        blocks_required_for_index-bounds z p.geometry n ok (omega arith) in
      (
        (sub32 n (u32 (k * 2)), u32 (k * 2)),
        rw (le→ltb 0 maximum_size none_it, f) refl,
        record {
          index_fits = omega (arith, ok.few_blocks);
          data_fits = λ h. omega (arith, ok.few_blocks);
          some_index = omega arith;
        },
      )
]

-- The file's index is at `head` and its data behind it, both of at least one block; `head'` is behind
-- the data and in a geometry of `blocks` blocks.
pub record IsPlaced (head : ℕ) (file : FileAllocation) (head' : ℕ) (blocks : ℕ) : Type 0 where
  pub index_start : file.index.start ≡ head
  pub some_index : 1 ≤ file.index.nblocks
  pub content_start : file.content.start ≡ head + file.index.nblocks
  pub some_content : 1 ≤ file.content.nblocks
  pub next_head : head' ≡ head + file.index.nblocks + file.content.nblocks
  pub inside : head' < blocks

contains-inside :
    (g : Geometry) (b : ℕ)
    → contains g (record { block = b; position = 0 }) ≡ true
    → b < g.number_of_blocks
unfolding contains
contains-inside g b h = ltb→lt b g.number_of_blocks (ground (arith, h))

place-IsPlaced :
    (p : Preallocator) (n : ℕ × ℕ)
    → IsSafe p n
    → (place p n.0 n.1).ok ≡ true
    → IsPlaced p.head
        (place p n.0 n.1).file
        (place p n.0 n.1).after.head
        p.geometry.number_of_blocks
      × ((place p n.0 n.1).after.geometry ≡ p.geometry)
unfolding place
place-IsPlaced p n safe e =
    let behind_index = add32 p.head n.1 in
    let behind_data = add32 behind_index n.0 in
    elim (Bool-cases (n.0 == 0)) [
      | inl none_it ↦ absurd (cc (rw none_it at e))
      | inr some_it ↦
          elim (Bool-cases (contains p.geometry (record { block = behind_index; position = 0 }))) [
            | inr out ↦ absurd (cc (rw (some_it, out) at e))
            | inl index_in ↦
                elim (Bool-cases
                  (contains p.geometry (record { block = behind_data; position = 0 }))) [
                    | inr out ↦ absurd (cc (rw (some_it, index_in, out) at e))
                    | inl data_in ↦
                        let index_lt = contains-inside p.geometry behind_index index_in in
                        let data_lt = contains-inside p.geometry behind_data data_in in
                        let fits = safe.data_fits (omega (arith, safe.index_fits)) in
                        rw (some_it, index_in, data_in)
                          (
                            record {
                              index_start = refl;
                              some_index = safe.some_index;
                              content_start = omega (arith, safe.index_fits);
                              some_content = ground (arith, some_it);
                              next_head = omega (arith, safe.index_fits);
                              inside = data_lt;
                            },
                            refl,
                          )
                  ]
          ]
    ]

-- A call with a modest maximum size does not stop, and where it returns true the file is placed.
allocate_file-IsPlaced :
    (z : Sizes) (p : Preallocator) (maximum_size : ℕ)
    → IsUsable z p.geometry
    → p.head < p.geometry.number_of_blocks
    → IsModest z p.geometry maximum_size
    → (r : Placed) × (allocate_file z p maximum_size ≡ some r)
      × (r.ok ≡ true
          → IsPlaced p.head r.file r.after.head p.geometry.number_of_blocks
            × (r.after.geometry ≡ p.geometry))
unfolding allocate_file
allocate_file-IsPlaced z p maximum_size ok inside modest =
    let (n, e, safe) = required-IsSafe z p maximum_size ok inside modest in
    (place p n.0 n.1, rw e refl, place-IsPlaced p n safe)

-- The number of extents of the files that have the block.
abbrev pub owners : List FileAllocation → ℕ → ℕ
owners [] b = 0
owners (f ∷ rest) b =
    (if contains_block f.index b then 1 else 0)
    + ((if contains_block f.content b then 1 else 0) + owners rest b)

abbrev pub AllModest : Sizes → Geometry → List ℕ → Type 0
AllModest z g [] = Unit {0}
AllModest z g (maximum_size ∷ rest) = IsModest z g maximum_size × AllModest z g rest

-- 1 for the blocks of the geometry from a first one on.
abbrev between : ℕ → ℕ → ℕ → ℕ
between first blocks b = if leb first b && ltb b blocks then 1 else 0

owners-cons :
    (f : FileAllocation) (rest : List FileAllocation) (head head' blocks b : ℕ)
    → blocks ≤ 2 ^ 30
    → IsPlaced head f head' blocks
    → owners rest b ≤ between head' blocks b
    → owners (f ∷ rest) b ≤ between head blocks b
unfolding contains_block
owners-cons f rest head head' blocks b few placed less =
    let index_end : add32 f.index.start f.index.nblocks ≡ f.index.start + f.index.nblocks =
      omega (arith, placed.index_start, placed.next_head, placed.inside) in
    let content_end : add32 f.content.start f.content.nblocks
        ≡ f.content.start + f.content.nblocks =
      omega (arith, placed.content_start, placed.next_head, placed.inside) in
    rw (index_end, content_end)
      (ground
        (arith, less, placed.index_start, placed.content_start, placed.next_head, placed.inside))

-- What a run of the loop from `head` on gives.
abbrev IsLaidOut : ℕ → ℕ → List ℕ → Bool × List FileAllocation → Type 0
IsLaidOut head blocks sizes r =
    r.0 ≡ true → (length r.1 ≡ length sizes) × ((b : ℕ) → owners r.1 b ≤ between head blocks b)

allocate_each-IsLaidOut :
    (z : Sizes) (g : Geometry) (sizes : List ℕ) (p : Preallocator)
    → IsUsable z g
    → p.geometry ≡ g
    → p.head < g.number_of_blocks
    → AllModest z g sizes
    → (r : Bool × List FileAllocation) × (allocate_each z sizes p ≡ some r)
      × IsLaidOut p.head g.number_of_blocks sizes r
unfolding allocate_each
allocate_each-IsLaidOut z g [] p ok same inside modest =
    ((true, []), refl, λ e. (refl, λ b. omega arith))
allocate_each-IsLaidOut z g (maximum_size ∷ rest) p ok same inside modest =
    let ok_p = subst (λ k. IsUsable z k) (sym same) ok in
    let inside_p = subst (λ (k : Geometry). p.head < k.number_of_blocks) (sym same) inside in
    let modest_p = subst (λ k. IsModest z k maximum_size) (sym same) modest.0 in
    let (r, e, placed) = allocate_file-IsPlaced z p maximum_size ok_p inside_p modest_p in
    elim (Bool-cases r.ok) [
      | inr failed ↦ ((false, r.file ∷ []), rw (e, failed) refl, λ h. absurd (cc))
      | inl done_it ↦
          let (at_p, same_after) = placed done_it in
          let at_g =
            subst (λ (k : Geometry). IsPlaced p.head r.file r.after.head k.number_of_blocks) same
              at_p in
          let (s, f, laid_out) =
            allocate_each-IsLaidOut z g rest r.after ok (same_after ∙ same) at_g.inside modest.1 in
          (
            (s.0, r.file ∷ s.1),
            rw (e, done_it, f) refl,
            λ h. (
              omega (arith, (laid_out h).0),
              λ b.
                  owners-cons r.file s.1 p.head r.after.head g.number_of_blocks b ok.few_blocks at_g
                    ((laid_out h).1 b),
            ),
          )
    ]

-- For a geometry of 3 to 2 ^ 30 blocks, each with room for a file's bytes and for an index record, and
-- files that ask for fewer than 2 ^ 30 blocks each or for the rest of the geometry, the allocation of
-- all files does not stop. Where it returns true, each file has an allocation, and each block belongs to
-- at most one extent of one file, and to none if it is one of the blocks 0 and 1 or outside the geometry.
pub allocate_files-owners :
    (z : Sizes) (g : Geometry) (sizes : List ℕ)
    → IsUsable z g
    → AllModest z g sizes
    → (r : Bool × List FileAllocation) × (allocate_files z g sizes ≡ some r)
      × (r.0 ≡ true
          → (length r.1 ≡ length sizes)
            × ((b : ℕ)
                → (owners r.1 b ≤ 1) × ((b < 2) ⊎ (g.number_of_blocks ≤ b) → owners r.1 b ≡ 0)))
unfolding allocate_files
allocate_files-owners z g sizes ok modest =
    let (r, e, laid_out) =
      allocate_each-IsLaidOut z g sizes (new_preallocator g) ok refl ok.some_blocks modest in
    (
      r,
      e,
      λ h. (
        (laid_out h).0,
        λ b.
            let less = (laid_out h).1 b in (ground (arith, less), λ out. ground (arith, less, out)),
      ),
    )

-- The unit of a maximum size.
abbrev pub scale : Geometry → ℕ
scale g = if ltb (size g) (1024 * megabyte) then kilobyte else megabyte

-- Where the maximum size of a file in bytes is a 64-bit number and its number of blocks a 32-bit number,
-- the blocks that its data asks for hold more bytes than that size, which is in units of a kilobyte in
-- a geometry of less than a gigabyte and of a megabyte in any other.
pub blocks_required_for_data-holds :
    (z : Sizes) (g : Geometry) (maximum_size : ℕ)
    → 0 < effective_file_block_size z g
    → maximum_size * scale g < 2 ^ 64
    → maximum_size * scale g < (2 ^ 32 - 1) * effective_file_block_size z g
    → (n : ℕ) × (blocks_required_for_data z g maximum_size ≡ some n)
      × (maximum_size * scale g < effective_file_block_size z g * n)
unfolding blocks_required_for_data
blocks_required_for_data-holds z g maximum_size room word fits =
    let eff = effective_file_block_size z g in
    let bytes = maximum_size * scale g in
    let few : bytes / eff < 2 ^ 32 - 1 = (div-lt_iff_lt-mul room).1 fits in
    let same_bytes : u64 bytes ≡ bytes = omega (arith, word) in
    let same : u32 (u64 bytes / eff + 1) ≡ bytes / eff + 1 = rw same_bytes (omega (arith, few)) in
    (bytes / eff + 1, rw (==_ne eff 0 (omega (arith, room)), same) refl, lt-mul-div-succ bytes room)
