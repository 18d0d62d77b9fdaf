-- ===== src/Agent/Fetch/Install.antt =====
-- fetch.go: writing the targets of an exposure. Flushing directories changes nothing that the
-- model has, and is left out.
use kube_secret_gateway.Base.{
  ℕ, ◌+◌, Bool, true, false, not, ◌&&◌, Text, List, [], ◌∷◌, ◌++◌, Option, some, none,
  if◌then◌else◌, text_eq,
}
use kube_secret_gateway.Gateway.Auth.{value_or_nil}
use kube_secret_gateway.Agent.Settings.{Target}
use kube_secret_gateway.Agent.Disk.{
  File, Disk, attempt, call, change_temp, remove_temp, remove_temps, rename_temp, put_file,
}

-- The function literal in writeTemp: chmod, write and sync, up to the first that fails.
unfoldable pub fill : ℕ → Text → ℕ → Disk → Bool × Disk
unfolding call change_temp
fill id bytes mode d =
    let (chmodded, d1) = call (change_temp id (λ f. record f { mode = mode })) d in
    let (written, d2) = call (change_temp id (λ f. record f { content = bytes })) d1 in
    let (synced, d3) = call (λ d. d) d2 in
    if not chmodded then (false, d1) else if not written then (false, d2) else (synced, d3)

-- writeTemp behind CreateTemp.
unfoldable pub fill_temp : ℕ → Text → ℕ → Disk → Option ℕ × Disk
unfolding fill call remove_temp
fill_temp id bytes mode d =
    let (filled, d1) = fill id bytes mode d in
    let (closed, d2) = call (λ d. d) d1 in
    if filled && closed then (some id, d2) else (none, remove_temp id d2)

-- os.CreateTemp makes an empty file with mode 0600 (384).
unfoldable pub create_temp : Disk → Disk
create_temp d = record d {
  temps = (d.next_temp, record { content = []; mode = 384 }) ∷ d.temps;
  next_temp = d.next_temp + 1;
}

-- writeTemp: the new file, or an error.
unfoldable pub write_temp : Text → ℕ → Disk → Option ℕ × Disk
unfolding attempt create_temp fill_temp
write_temp bytes mode d =
    let (created, d1) = attempt d in
    if not created then (none, d1) else fill_temp d1.next_temp bytes mode (create_temp d1)

-- The first loop of install; an error removes the files written so far.
unfoldable pub write_temps :
    List Target → List (Text × Text) → List ℕ → Disk → Option (List ℕ) × Disk
unfolding value_or_nil remove_temps
write_temps [] values temps d = (some temps, d)
write_temps (f ∷ files) values temps d =
    let (tmp, d') = write_temp (value_or_nil f.key values) f.mode d in
    elim tmp [
      | none ↦ (none, remove_temps temps d')
      | some id ↦ write_temps files values (temps ++ (id ∷ [])) d'
    ]

-- The second loop of install; an error removes the files that were not renamed.
unfoldable pub rename_temps : List Target → List ℕ → Disk → Bool × Disk
unfolding call rename_temp remove_temps
rename_temps [] temps d = (true, d)
rename_temps (f ∷ files) [] d = (true, d)
rename_temps (f ∷ files) (id ∷ temps) d =
    let (renamed, d') = call (rename_temp id f.path) d in
    let rest = rename_temps files temps d' in
    if renamed then rest else (false, remove_temps (id ∷ temps) d')

-- install
unfoldable pub install : List Target → List (Text × Text) → Disk → Bool × Disk
unfolding write_temps rename_temps
install files values d =
    let (temps, d') = write_temps files values [] d in
    elim temps [ none ↦ (false, d') | some ids ↦ rename_temps files ids d' ]

-- writeFile
unfoldable pub write_file : Text → Text → ℕ → Disk → Bool × Disk
unfolding write_temp call rename_temp remove_temp
write_file path bytes mode d =
    let (tmp, d') = write_temp bytes mode d in
    elim tmp [
      | none ↦ (false, d')
      | some id ↦
          let (renamed, d2) = call (rename_temp id path) d' in
          if renamed then (true, d2) else (false, remove_temp id d2)
    ]

-- The file that os.OpenFile leaves at a path: emptied, with its mode or, if it is new, 0644 (420).
unfoldable pub emptied : Option File → File
emptied none = record { content = []; mode = 420 }
emptied (some file) = record file { content = [] }

unfoldable pub overwrite : Text → Text → Disk → Disk
unfolding put_file emptied
overwrite path bytes d = record d {
  files = put_file path (record (emptied (d.files path)) { content = bytes }) d.files;
}

-- touchStamp: the file is emptied in place, and then the time is written into it.
unfoldable pub touch_stamp : Text → Text → Disk → Bool × Disk
unfolding call overwrite
touch_stamp path now d =
    let (opened, d1) = call (overwrite path []) d in
    let (written, d2) = call (overwrite path (now ++ (10 ∷ []))) d1 in
    let (closed, d3) = call (λ d. d) d2 in if opened then (written && closed, d3) else (false, d1)
