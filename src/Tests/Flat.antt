-- ===== src/Tests/Flat.antt =====
-- Storage that never fails, for the witnesses: 8 blocks of 8192 bytes.
use consfs.Common.{
  ℕ, ◌+◌, ◌-◌, Bool, true, false, ◌&&◌, Option, some, leb, ltb, ◌==◌, if◌then◌else◌, refl,
}
use consfs.Addressing.{BlockAddress, Geometry}
use consfs.Backend.{Storage, Answers, Allocates}

abbrev pub flat_geometry : Geometry
flat_geometry = record {
  first = 0;
  number_of_blocks = 8;
  pages_per_block = 4;
  sectors_per_page = 4;
  sector_size = 512;
}

abbrev pub Bytes : Type 0
Bytes = ℕ → ℕ → ℕ

abbrev pub flat_read : Bytes → BlockAddress → ℕ → Option (Bool × (ℕ → ℕ))
flat_read s a n = some (true, λ i. s a.block (a.position + i))

abbrev pub flat_write : Bytes → BlockAddress → (ℕ → ℕ) → ℕ → Option (Bool × Bytes)
flat_write s a d n = some (
  true,
  λ b p.
      if b == a.block && (leb a.position p && ltb p (a.position + n))
      then d (p - a.position)
      else s b p,
)

abbrev pub flat_erase : Bytes → ℕ → Option (Bool × Bytes)
flat_erase s block = some (true, λ b p. if b == block then 0xff else s b p)

abbrev pub flat : Storage
flat = record {
  State = Bytes;
  geometry = λ s. flat_geometry;
  read = flat_read;
  write = flat_write;
  erase = flat_erase;
  erase-geometry = λ s b r e. refl;
}

abbrev pub flat_answers : Answers flat
flat_answers = record {
  view = λ s. s;
  reads = λ s a n. (_, refl, λ h i small. refl);
  writes = λ s a d n. (_, refl, refl, λ h b p. refl);
  erases = λ s block. (_, refl, refl, λ h b p. refl);
}

-- Blocks from a counter.
abbrev pub counting : Allocates
counting = record {
  State = ℕ;
  allocate = λ s type. some (record { block = s; age = 0; erased = false }, s + 1);
}
