-- ===== src/Blocked/Client.antt =====
-- Clients of src/blocked_file.cpp: one that writes a whole file, and one that reads it.
use consfs.Common.{
  ℕ, zero, suc, ◌+◌, ◌-◌, Bool, true, false, ◌&&◌, Option, none, some, List, [], ◌∷◌, ltb, ◌==◌,
  if◌then◌else◌, ◌>>=◌,
}
use consfs.Backend.{Storage}
use consfs.Blocked.{FileFormat, Supply, BlockedFile, format_file}
use consfs.Blocked.Save.{write, close_file}
use consfs.Blocked.Reading.{Got, read}

abbrev pub empty_got : Got
empty_got = record { count = 0; byte = λ i. 0 }

module _ (T : Storage) (S : Supply T) (F : FileFormat) where
  -- Reads of so many bytes until one gives nothing.
  unfoldable pub read_all : ℕ → ℕ → ℕ → BlockedFile T S F → Option Got
  read_all zero fuel size f = none
  read_all (suc rounds) fuel size f = read T S F fuel f size >>= λ r.
      if r.0.count == 0
      then some empty_got
      else read_all rounds fuel size r.1 >>= λ more. some (record {
        count = r.0.count + more.count;
        byte = λ i. if ltb i r.0.count then r.0.byte i else more.byte (i - r.0.count);
      })

  -- The content in pieces of these sizes, from an offset on; false after a write that falls short.
  unfoldable pub write_all :
      (ℕ → ℕ) → List ℕ → ℕ → BlockedFile T S F → Option (Bool × BlockedFile T S F)
  write_all content [] off f = some (true, f)
  write_all content (n ∷ ns) off f = write T S F f (λ i. content (off + i)) n true true >>= λ r.
      let rest = write_all content ns (off + n) r.1 in if r.0 == n then rest else some (false, r.1)

  -- A file that is formatted, written and closed.
  unfoldable pub store_content :
      (ℕ → ℕ) → List ℕ → BlockedFile T S F → Option (Bool × BlockedFile T S F)
  store_content content sizes f = format_file T S F f >>= λ r.
      write_all content sizes 0 r.1 >>= λ w. close_file T S F w.1 >>= λ h. some (r.0 && w.0, h)
