-- ===== src/Simple/Mounting.antt =====
-- `FileLayout` of src/phylum/file_layout.h: the files of a storage, with their descriptors, in an array. A
-- descriptor that is not null stands for its place in that array.
use consfs.Common.{
  ℕ, zero, suc, Bool, true, false, not, Option, none, some, List, [], ◌∷◌, ◌==◌, if◌then◌else◌,
  ◌>>=◌,
}
use consfs.Backend.{Storage, magic_key}
use consfs.Files.Extents.{FileAllocation}
use consfs.Files.Prealloc.{Sizes, no_allocation, allocate_files}
use consfs.Files.Index.{IndexFormat}
use consfs.Blocked.{FileFormat, OpenMode}
use consfs.Simple.{
  SimpleFile, new_simple, initialize_simple, format_simple, erase_simple, close_simple,
}
use consfs.Simple.Table.{
  FileDescriptor, compatible, FileTableEntry, TableFormat, FileTable, new_table, erase_table,
  write_table, read_table,
}

pub record FileStat : Type 0 where
  pub size : ℕ
  pub version : ℕ

abbrev pub sizes_wanted : List FileDescriptor → List ℕ
sizes_wanted [] = []
sizes_wanted (d ∷ ds) = d.maximum_size ∷ sizes_wanted ds

-- The element at a place, if there is one.
abbrev pub element : {A : Type 0} → List A → ℕ → Option A
element [] i = none
element (x ∷ xs) zero = some x
element (x ∷ xs) (suc i) = element xs i

-- The new values of the first elements of an array.
abbrev pub overwrite : {A : Type 0} → List A → List A → List A
overwrite [] old = old
overwrite (x ∷ xs) [] = []
overwrite (x ∷ xs) (y ∷ old) = x ∷ overwrite xs old

module _ (T : Storage) (z : Sizes) (F : FileFormat) (X : IndexFormat) (Y : TableFormat)
    (garbage : ℕ → ℕ) where
  -- `none` for the descriptors is a null pointer.
  pub record FileLayout : Type 0 where
    pub storage : T.State
    pub fds : Option (List FileDescriptor)
    pub allocations : List FileAllocation

  abbrev pub file_at : T.State → FileAllocation → ℕ → OpenMode → SimpleFile T F X garbage
  file_at s a i mode = new_simple T F X garbage s a i mode garbage

  abbrev pub entry_for : FileDescriptor → FileAllocation → FileTableEntry
  entry_for d a = record { magic = magic_key; fd = d; alloc = a }

  -- The loop of `format`, with the table's layout and the storage that the files share with it. A file that
  -- goes out of scope is closed.
  unfoldable pub format_each :
      ℕ → List FileDescriptor → List FileAllocation → FileTable T Y → Option (Bool × T.State)
  format_each i [] allocations t = some (true, t.storage)
  format_each i (d ∷ ds) [] t = none
  format_each i (d ∷ ds) (a ∷ allocations) t = write_table T Y t (entry_for d a) >>= λ w.
      if not w.0
      then some (false, w.1.storage)
      else format_simple T F X garbage (file_at w.1.storage a i OpenMode.write) >>= λ f.
          close_simple T F X garbage f.1 >>= λ c.
          let rest =
            format_each (suc i) ds allocations (record w.1 { storage = c.blocked.storage }) in
          if f.0 then rest else some (false, c.blocked.storage)

  unfoldable pub format_layout : FileLayout → List FileDescriptor → Option (Bool × FileLayout)
  format_layout l fds = allocate_files z (T.geometry l.storage) (sizes_wanted fds) >>= λ a.
      let m = record l { fds = some fds; allocations = overwrite a.1 l.allocations } in
      if not a.0
      then some (false, m)
      else erase_table T Y (new_table T Y l.storage) >>= λ t.
          if not t.0
          then some (false, record m { storage = t.1.storage })
          else format_each 0 fds m.allocations t.1 >>= λ r. some (r.0, record m { storage = r.1 })

  -- The loop of `mount`, with the allocations that it sets.
  unfoldable pub mount_each :
      List FileDescriptor → FileTable T Y → Option (Bool × List FileAllocation)
  mount_each [] t = some (true, [])
  mount_each (d ∷ ds) t = read_table T Y t >>= λ r. elim (r.0) [
    | none ↦ some (false, [])
    | some e ↦
        if not (e.magic == magic_key)
        then some (false, [])
        else compatible e.fd d >>= λ ok.
            if not ok
            then some (false, [])
            else mount_each ds r.1 >>= λ rest. some (rest.0, e.alloc ∷ rest.1)
  ]

  unfoldable pub mount : FileLayout → List FileDescriptor → Option (Bool × FileLayout)
  mount l fds = mount_each fds (new_table T Y l.storage) >>= λ r.
      some (r.0, record l { fds = some fds; allocations = overwrite r.1 l.allocations })

  abbrev pub clear_all : List FileAllocation → List FileAllocation
  clear_all [] = []
  clear_all (a ∷ rest) = no_allocation ∷ clear_all rest

  unfoldable pub unmount : FileLayout → Bool × FileLayout
  unmount l = (true, record l { fds = none; allocations = clear_all l.allocations })

  -- A file of the layout; `none` in the result is a file that is not there. The descriptors of a layout that
  -- is not mounted are a null pointer, whose read is a stop.
  unfoldable pub open_file :
      ℕ → FileLayout → ℕ → OpenMode → Option (Option (SimpleFile T F X garbage) × FileLayout)
  open_file fuel l i mode = l.fds >>= λ fds. elim (element l.allocations i) [
    | none ↦ some (none, l)
    | some a ↦ initialize_simple T F X garbage fuel (file_at l.storage a i mode) >>= λ r.
        some (if r.0 then some r.1 else none, record l { storage = r.1.blocked.storage })
  ]

  unfoldable pub stat : ℕ → FileLayout → ℕ → Option (FileStat × FileLayout)
  stat fuel l i = open_file fuel l i OpenMode.read >>= λ r. elim (r.0) [
    | none ↦ some (record { size = 0; version = 0 }, r.1)
    | some f ↦ close_simple T F X garbage f >>= λ c. some (
      record { size = f.blocked.length; version = f.blocked.version },
      record r.1 { storage = c.blocked.storage },
    )
  ]

  unfoldable pub erase_in : ℕ → FileLayout → ℕ → Option (Bool × FileLayout)
  erase_in fuel l i = l.fds >>= λ fds. elim (element l.allocations i) [
    | none ↦ some (true, l)
    | some a ↦ erase_simple T F X garbage fuel (file_at l.storage a i OpenMode.write) >>= λ r.
        close_simple T F X garbage r.1 >>= λ c. some (r.0, record l { storage = c.blocked.storage })
  ]
