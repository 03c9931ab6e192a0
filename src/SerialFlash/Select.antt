-- ===== src/SerialFlash/Select.antt =====
-- Which block src/backends/arduino_serial_flash/serial_flash_allocator.cpp allocates.
use consfs.Common.{
  ℕ, ◌+◌, ◌≤◌, ◌<◌, ◌≡◌, ◌≢◌, Bool, true, false, not, ◌&&◌, ◌||◌, ltb, ◌==◌, if◌then◌else◌, refl,
  arith, ltb→lt, ltb→le, ==_iff, ==_ne, Bool-cases, ◌⊎◌, inl, inr, ◌∙◌, sym, ap, subst,
}
use consfs.Addressing.{block_index_invalid}
use consfs.Backend.{BlockHead, magic_valid}
use consfs.SerialFlash.{Map, ScanInfo, Scan, is_unallocated, note_one}
use consfs.SerialFlash.Map.{free_in, IsBytes}

-- What the head of a block says, with whether it could be read.
abbrev pub Head : Type 0
Head = Bool × BlockHead

abbrev pub seems_taken : Head → Bool
seems_taken r = r.0 && (magic_valid r.1 && not (is_unallocated r.1.type))

-- A block with no head comes before all others.
abbrev pub rank : Head → ℕ
rank r = if magic_valid r.1 then r.1.age else 0

module _ (map0 : Map) (head_at : ℕ → Head) where
  -- The map has the block as free, and its head does not say otherwise.
  pub record IsOpen (k : ℕ) : Type 0 where
    pub marked : free_in map0 k ≡ true
    pub untaken : seems_taken (head_at k) ≡ false

  pub record Candidate (end k : ℕ) : Type 0 where
    pub from_three : 3 ≤ k
    pub below : k < end
    pub is_open : IsOpen k

  -- The slot holds the best candidate, if there is one.
  abbrev pub Best : ℕ → ScanInfo → Type 0
  Best end info =
      ((info.block ≡ block_index_invalid) × ((k : ℕ) → ¬ Candidate end k))
      ⊎ (Candidate end info.block
          × (info.age ≡ rank (head_at info.block))
          × ((k : ℕ) → Candidate end k → info.age ≤ rank (head_at k)))

  before : (b k : ℕ) → Candidate (b + 1) k → k ≢ b → Candidate b k
  before b k c other = record {
    from_three = c.from_three;
    below = omega (arith, c.below, other);
    is_open = c.is_open;
  }

  after : (b k : ℕ) → Candidate b k → Candidate (b + 1) k
  after b k c = record {
    from_three = c.from_three;
    below = omega (arith, c.below);
    is_open = c.is_open;
  }

  pub skip-Best : (b : ℕ) (info : ScanInfo) → ¬ IsOpen b → Best b info → Best (b + 1) info
  skip-Best b info shut best = elim best [
    | inl nothing ↦ inl (nothing.0, λ k c. nothing.1 k (before b k c (not_here k c)))
    | inr found ↦
        inr (after b info.block found.0, found.1, λ k c. found.2 k (before b k c (not_here k c)))
  ]
    where
      not_here : (k : ℕ) → Candidate (b + 1) k → k ≢ b
      not_here k c e = shut (subst IsOpen e c.is_open)

  -- The candidates up to a new one, against a bound on the others.
  all_candidates :
      (b age : ℕ)
      → age ≤ rank (head_at b)
      → ((k : ℕ) → Candidate b k → age ≤ rank (head_at k))
      → (k : ℕ) → Candidate (b + 1) k
      → age ≤ rank (head_at k)
  all_candidates b age here others k c = elim (Bool-cases (k == b)) [
    | inl same ↦ subst (λ (j : ℕ). age ≤ rank (head_at j)) (sym ((==_iff k b).0 same)) here
    | inr other ↦ others k (before b k c (λ e. ground arith))
  ]

  pub note_one-Best :
      (b : ℕ) (s : Scan)
      → Candidate (b + 1) b
      → b < 64
      → Best b (s.blocks 0)
      → Best (b + 1) ((note_one b (head_at b).1 s).blocks 0)
  unfolding note_one
  note_one-Best b s here small best = elim (Bool-cases (magic_valid (head_at b).1)) [
    | inr bare ↦
        let least : rank (head_at b) ≡ 0 = rw bare refl in
        rw bare (inr (here, sym least, λ k c. omega arith))
    | inl headed ↦
        let age_is : (head_at b).1.age ≡ rank (head_at b) = rw headed refl in
        elim best [
          | inl nothing ↦
              let none_yet : ((s.blocks 0).block == block_index_invalid) ≡ true =
                (==_iff (s.blocks 0).block block_index_invalid).1 nothing.0 in
              rw (headed, none_yet)
                (inr (
                  here,
                  age_is,
                  all_candidates b (head_at b).1.age (omega (arith, age_is))
                      (λ k c. absurd (nothing.1 k c)),
                ))
          | inr found ↦
              let some_yet : ((s.blocks 0).block == block_index_invalid) ≡ false =
                ==_ne (s.blocks 0).block block_index_invalid
                  (λ e. omega (arith, found.0.below, small, e)) in
              elim (Bool-cases (ltb (head_at b).1.age (s.blocks 0).age)) [
                | inl younger ↦
                    let less = ltb→lt (head_at b).1.age (s.blocks 0).age younger in
                    rw (headed, some_yet, younger)
                      (inr (
                        here,
                        age_is,
                        all_candidates b (head_at b).1.age (omega (arith, age_is))
                            (λ k c. omega (arith, less, found.2 k c)),
                      ))
                | inr older ↦
                    let least = ltb→le (head_at b).1.age (s.blocks 0).age older in
                    rw (headed, some_yet, older)
                      (inr (
                        after b (s.blocks 0).block found.0,
                        found.1,
                        all_candidates b (s.blocks 0).age (omega (arith, age_is, least)) found.2,
                      ))
              ]
        ]
  ]

  pub note_one-map : (b : ℕ) (h : BlockHead) (s : Scan) → (note_one b h s).map ≡ s.map
  unfolding note_one
  note_one-map b h s = elim (Bool-cases (magic_valid h)) [
    | inr bare ↦ rw bare refl
    | inl headed ↦
        elim (Bool-cases
          ((s.blocks 0).block == block_index_invalid || ltb h.age (s.blocks 0).age)) [
            | inl better ↦ rw (headed, better) refl
            | inr worse ↦ rw (headed, worse) refl
          ]
  ]

  -- The map of a scan: no block becomes free, the open blocks stay free, and those ahead are as they were.
  pub record Narrowed (end : ℕ) (map : Map) : Type 0 where
    pub bytes : IsBytes map
    pub no_more : (k : ℕ) → free_in map k ≡ true → free_in map0 k ≡ true
    pub no_less : (k : ℕ) → IsOpen k → free_in map k ≡ true
    pub ahead : (k : ℕ) → end ≤ k → free_in map k ≡ free_in map0 k

  pub further : (b : ℕ) (map : Map) → Narrowed b map → Narrowed (b + 1) map
  further b map narrowed = record {
    bytes = narrowed.bytes;
    no_more = narrowed.no_more;
    no_less = narrowed.no_less;
    ahead = λ k far. narrowed.ahead k (omega arith);
  }

  -- The bit of an open block set as free, or that of a block that is taken as taken.
  pub clear-Narrowed :
      (b : ℕ) (map then_map : Map)
      → Narrowed b map
      → IsOpen b
      → IsBytes then_map
      → ((k : ℕ) → free_in then_map k ≡ (if k == b then true else free_in map k))
      → Narrowed (b + 1) then_map
  clear-Narrowed b map then_map narrowed is_here bytes bits =
      let same = λ (k : ℕ). bits k ∙ unchanged k in
      record {
        bytes = bytes;
        no_more = λ k free. narrowed.no_more k (sym (same k) ∙ free);
        no_less = λ k is_open. same k ∙ narrowed.no_less k is_open;
        ahead = λ k far. same k ∙ narrowed.ahead k (omega arith);
      }
    where
      unchanged : (k : ℕ) → (if k == b then true else free_in map k) ≡ free_in map k
      unchanged k = elim (Bool-cases (k == b)) [
        | inl here ↦
            rw here (
              sym
                (ap (λ (j : ℕ). free_in map j) ((==_iff k b).0 here) ∙ narrowed.no_less b is_here))
        | inr other ↦ rw other refl
      ]

  pub set-Narrowed :
      (b : ℕ) (map then_map : Map)
      → Narrowed b map
      → ¬ IsOpen b
      → IsBytes then_map
      → ((k : ℕ) → free_in then_map k ≡ (if k == b then false else free_in map k))
      → Narrowed (b + 1) then_map
  set-Narrowed b map then_map narrowed shut bytes bits = record {
    bytes = bytes;
    no_more = λ k free. narrowed.no_more k (was_free k (sym (bits k) ∙ free));
    no_less = λ k is_open.
        bits k ∙ rw (==_ne k b (λ e. shut (subst IsOpen e is_open))) (narrowed.no_less k is_open);
    ahead = λ k far. bits k ∙ rw (==_ne k b (λ e. omega arith)) (narrowed.ahead k (omega arith));
  }
    where
      was_free : (k : ℕ) → (if k == b then false else free_in map k) ≡ true → free_in map k ≡ true
      was_free k h = elim (Bool-cases (k == b)) [
        | inl here ↦ absurd (cc)
        | inr other ↦ sym (ap (λ (c : Bool). if c then false else free_in map k) other) ∙ h
      ]
