-- ===== src/Agent/Disk.antt =====
-- The file system as agent/internal/fetch/fetch.go uses it. A file is its bytes and its mode.
-- Temporary files have names of their own (os.CreateTemp returns a name that is not in use), so
-- they stand apart, under numbers. Every call may fail: `faults` says of each call in turn
-- whether it does, and a call past its end succeeds.
use kube_secret_gateway.Base.{
  ℕ, Bool, true, false, not, Text, List, [], ◌∷◌, Option, some, none, if◌then◌else◌, ◌==◌, nat_eq,
  text_eq,
}

pub record File : Type 0 where
  pub content : Text
  pub mode : ℕ

pub record Disk : Type 0 where
  pub files : Text → Option File
  pub temps : List (ℕ × File)
  pub next_temp : ℕ
  pub faults : List Bool

take_fault : Disk → List Bool → Bool × Disk
take_fault d [] = (true, d)
take_fault d (fault ∷ more) = (not fault, record d { faults = more })

-- Whether the next call succeeds.
unfoldable pub attempt : Disk → Bool × Disk
unfolding take_fault
attempt d = take_fault d d.faults

unfoldable pub put_file : Text → File → (Text → Option File) → Text → Option File
put_file path file files p = if p == path then some file else files p

unfoldable pub drop_temp : ℕ → List (ℕ × File) → List (ℕ × File)
drop_temp id [] = []
drop_temp id ((j, f) ∷ temps) =
    let rest = drop_temp id temps in if j == id then rest else (j, f) ∷ rest

unfoldable pub find_temp : ℕ → List (ℕ × File) → Option File
find_temp id [] = none
find_temp id ((j, f) ∷ temps) = if j == id then some f else find_temp id temps

-- A call that changes the disk if it succeeds.
unfoldable pub call : (Disk → Disk) → Disk → Bool × Disk
call f d = let (done, d') = attempt d in if done then (true, f d') else (false, d')

unfoldable pub delete_temp : ℕ → Disk → Disk
unfolding drop_temp
delete_temp id d = record d { temps = drop_temp id d.temps }

-- os.Remove of a temporary file, its error ignored.
unfoldable pub remove_temp : ℕ → Disk → Disk
unfolding call delete_temp
remove_temp id d = (call (delete_temp id) d).1

unfoldable pub remove_temps : List ℕ → Disk → Disk
remove_temps [] d = d
remove_temps (id ∷ ids) d = remove_temps ids (remove_temp id d)

-- The bytes and the mode of a temporary file, written in place.
unfoldable pub write_onto : ℕ → (File → File) → List (ℕ × File) → List (ℕ × File)
write_onto id f [] = []
write_onto id f ((j, file) ∷ temps) =
    if j == id then (j, f file) ∷ temps else (j, file) ∷ write_onto id f temps

unfoldable pub change_temp : ℕ → (File → File) → Disk → Disk
unfolding write_onto
change_temp id f d = record d { temps = write_onto id f d.temps }

-- os.Rename of a temporary file over a path.
unfoldable pub rename_temp : ℕ → Text → Disk → Disk
unfolding find_temp drop_temp put_file
rename_temp id path d = elim (find_temp id d.temps) [
  | none ↦ d
  | some file ↦ record d { files = put_file path file d.files; temps = drop_temp id d.temps }
]
