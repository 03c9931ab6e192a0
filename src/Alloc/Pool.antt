-- ===== src/Alloc/Pool.antt =====
-- The queue allocator of src/block_alloc.cpp with a client that frees only blocks that it holds: every
-- block is in the queue or held, and in one place.
use consfs.Common.{
  ℕ, zero, suc, ◌+◌, ◌≤◌, ◌≡◌, Bool, ◌&&◌, Option, none, some, List, [], ◌∷◌, ◌++◌, refl, sym,
  arith, ltb, leb, ◌==◌, if◌then◌else◌, ◌>>=◌, ◌∙◌, ap, subst, Bool-cases, inl, inr,
}
use mathlib.Core.Option.{some-injective}
use consfs.Addressing.{Geometry}
use consfs.Alloc.{
  AllocatedBlock, BlockType, Queued, fill, blocks_to_fill, prepare, pop_front, allocate_queued,
  free_queued, new_queued, initialize_queued,
}

abbrev pub one_if : Bool → ℕ
one_if b = if b then 1 else 0

abbrev pub count : ℕ → List ℕ → ℕ
count b [] = 0
count b (x ∷ xs) = one_if (b == x) + count b xs

-- The first occurrence is taken out.
abbrev pub erase : ℕ → List ℕ → List ℕ
erase b [] = []
erase b (x ∷ xs) = if b == x then xs else x ∷ erase b xs

count-append : (b : ℕ) (xs ys : List ℕ) → count b (xs ++ ys) ≡ count b xs + count b ys
count-append b [] ys = omega arith
count-append b (x ∷ xs) ys = omega (arith, count-append b xs ys)

count-erase :
    (b x : ℕ) (xs : List ℕ) → 1 ≤ count x xs → count b (erase x xs) + one_if (b == x) ≡ count b xs
count-erase b x [] h = absurd (omega arith)
count-erase b x (y ∷ ys) h = ground (arith, count-erase b x ys)

count-fill :
    (b n first : ℕ) (xs : List ℕ)
    → count b (fill n first xs) ≡ count b xs + one_if (leb first b && ltb b (first + n))
unfolding fill
count-fill b zero first xs = ground arith
count-fill b (suc n) first xs =
    count-fill b n (first + 1) (xs ++ (first ∷ [])) ∙ ground (arith, count-append b xs (first ∷ []))

-- 1 for the blocks that the allocator manages: those from 3 on, in a geometry of fewer than 2 ^ 31.
abbrev pub managed : Geometry → ℕ → ℕ
managed g b = one_if (leb 3 b && ltb b (3 + blocks_to_fill g))

-- Each managed block is in the queue or held by the client, once; before the first allocation the queue
-- is what `prepare` will make of it.
pub record IsPool (g : Geometry) (a : Queued) (held : List ℕ) : Type 0 where
  pub known : a.geometry ≡ some g
  pub shared : (b : ℕ) → count b (prepare a g) + count b held ≡ managed g b

-- A client's calls, and the blocks that it holds.
pub data Step : Queued → List ℕ → Queued → List ℕ → Type 0 where
  take :
      {a : Queued} {held : List ℕ} (type : BlockType) (r : AllocatedBlock × Queued)
      → allocate_queued a type ≡ some r
      → Step a held r.1 (r.0.block ∷ held)
  give :
      {a : Queued} {held : List ℕ} (block age : ℕ)
      → 1 ≤ count block held
      → Step a held (free_queued a block age).0 (erase block held)

pub data Reach (g : Geometry) : Queued → List ℕ → Type 0 where
  start : Reach g (initialize_queued new_queued g).0 []
  next :
      {a b : Queued} {held held' : List ℕ} → Reach g a held → Step a held b held' → Reach g b held'

start-IsPool : (g : Geometry) → IsPool g (initialize_queued new_queued g).0 []
unfolding initialize_queued prepare
start-IsPool g = record {
  known = refl;
  shared = λ b. omega (arith, count-fill b (blocks_to_fill g) 3 []);
}

taken-IsPool :
    (g : Geometry) (a : Queued) (held l : List ℕ) (r : AllocatedBlock × Queued)
    → IsPool g a held
    → prepare a g ≡ l
    → pop_front a l ≡ some r
    → IsPool g r.1 (r.0.block ∷ held)
unfolding pop_front prepare
taken-IsPool g a held [] r ok same e = absurd (cc)
taken-IsPool g a held (x ∷ xs) r ok same e =
    subst (λ (s : AllocatedBlock × Queued). IsPool g s.1 (s.0.block ∷ held)) (some-injective _ _ e)
      (record { known = ok.known; shared = λ b. omega (arith, ok.shared b, ap (count b) same) })

allocate_queued-eq :
    (g : Geometry) (a : Queued) (type : BlockType)
    → a.geometry ≡ some g
    → allocate_queued a type ≡ pop_front a (prepare a g)
unfolding allocate_queued
allocate_queued-eq g a type known =
    ap (λ (o : Option Geometry). o >>= λ k. pop_front a (prepare a k)) known

take-IsPool :
    (g : Geometry) (a : Queued) (held : List ℕ) (type : BlockType) (r : AllocatedBlock × Queued)
    → IsPool g a held
    → allocate_queued a type ≡ some r
    → IsPool g r.1 (r.0.block ∷ held)
take-IsPool g a held type r ok e =
    taken-IsPool g a held (prepare a g) r ok refl (sym (allocate_queued-eq g a type ok.known) ∙ e)

count-prepare :
    (g : Geometry) (a : Queued) (b : ℕ)
    → count b (prepare a g) ≡ count b a.free + (if a.initialized then 0 else managed g b)
unfolding prepare
count-prepare g a b = elim (Bool-cases a.initialized) [
  | inl yes_it ↦ rw yes_it (omega arith)
  | inr no_it ↦ rw no_it (count-fill b (blocks_to_fill g) 3 a.free)
]

give-IsPool :
    (g : Geometry) (a : Queued) (held : List ℕ) (block age : ℕ)
    → IsPool g a held
    → 1 ≤ count block held
    → IsPool g (free_queued a block age).0 (erase block held)
unfolding free_queued
give-IsPool g a held block age ok has = record {
  known = ok.known;
  shared = λ b. omega (
    arith,
    ok.shared b,
    count-prepare g a b,
    count-prepare g (record a { free = a.free ++ (block ∷ []) }) b,
    count-append b a.free (block ∷ []),
    count-erase b block held has,
  );
}

Reach-IsPool : {g : Geometry} {a : Queued} {held : List ℕ} → Reach g a held → IsPool g a held
Reach-IsPool {g} start = start-IsPool g
Reach-IsPool {g} (next {a} {b} {held} {held'} reach step) =
    step_pool a held b held' step (Reach-IsPool reach)
  where
    step_pool :
        (a : Queued) (held : List ℕ) (b : Queued) (held' : List ℕ)
        → Step a held b held'
        → IsPool g a held
        → IsPool g b held'
    step_pool a held b held' (take type r e) ok = take-IsPool g a held type r ok e
    step_pool a held b held' (give block age h) ok = give-IsPool g a held block age ok h

-- In every state that such a client reaches, a block is held at most once, one that is held is a managed
-- block and not in the queue, and every managed block that is not held can be allocated: it is in the
-- queue.
pub Reach-count :
    {g : Geometry} {a : Queued} {held : List ℕ} (b : ℕ)
    → Reach g a held
    → (count b held ≤ 1)
      × (1 ≤ count b held → (managed g b ≡ 1) × (count b (prepare a g) ≡ 0))
      × (managed g b ≡ 1 → count b held ≡ 0 → count b (prepare a g) ≡ 1)
Reach-count {g} {a} {held} b reach =
    let shared = (Reach-IsPool reach).shared b in
    let small = managed-le g b in (omega arith, λ h. (omega arith, omega arith), λ m z. omega arith)
  where
    managed-le : (g : Geometry) (b : ℕ) → managed g b ≤ 1
    managed-le g b = ground arith

-- The next allocation stops only if no managed block is left, and then none is in the queue.
pub allocate_queued-none :
    {g : Geometry} {a : Queued} {held : List ℕ} (type : BlockType) (b : ℕ)
    → Reach g a held
    → allocate_queued a type ≡ none
    → count b held ≡ managed g b
unfolding pop_front
allocate_queued-none {g} {a} {held} type b reach e =
    let ok = Reach-IsPool reach in
    empty (prepare a g) (sym (allocate_queued-eq g a type ok.known) ∙ e) (ok.shared b)
  where
    empty :
        (l : List ℕ)
        → pop_front a l ≡ none
        → count b l + count b held ≡ managed g b
        → count b held ≡ managed g b
    empty [] h shared = omega arith
    empty (x ∷ xs) h shared = absurd (cc)
