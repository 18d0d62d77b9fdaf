-- ===== src/Agent/Fetch/FreshLaws.antt =====
-- The numbers of temporary files that are free stay free (fetch.go), and what the two state files
-- are after they are written.
use kube_secret_gateway.Base.{
  ℕ, Text, List, [], ◌∷◌, ◌++◌, Option, some, ◌≡◌, ◌≢◌, inl, inr, arith, Option-cases, Bool-cases,
  ◌∙◌, ap, nat_eq, text_eq, if◌then◌else◌,
}
use kube_secret_gateway.Gateway.Auth.{value_or_nil}
use kube_secret_gateway.Agent.Settings.{Target}
use kube_secret_gateway.Agent.Disk.{
  File, Disk, attempt, call, find_temp, put_file, rename_temp, remove_temps, remove_temp,
  delete_temp,
}
use kube_secret_gateway.Agent.Fetch.Install.{
  write_temp, write_temps, rename_temps, install, write_file, touch_stamp, overwrite,
}
use kube_secret_gateway.Agent.Fetch.FrameLaws.{
  attempt_keeps, call_cases, find_temp-drop_temp, remove_temp-Frame,
}
use kube_secret_gateway.Agent.Fetch.TempLaws.{IsFresh, write_temp-Written, attempt-IsFresh}
use kube_secret_gateway.Agent.Fetch.Atomic.{renamed_lem}

call-IsFresh :
    (f : Disk → Disk) (d : Disk)
    → ((e : Disk) → IsFresh e → IsFresh (f e))
    → IsFresh d
    → IsFresh (call f d).1
call-IsFresh f d keep free = elim (call_cases f d) [
  | inl (done, e) ↦ rw e (keep (attempt d).1 (attempt-IsFresh d free))
  | inr (failed, e) ↦ rw e (attempt-IsFresh d free)
]

delete_temp-IsFresh : (id : ℕ) (d : Disk) → IsFresh d → IsFresh (delete_temp id d)
unfolding delete_temp
delete_temp-IsFresh id d free j far = ground (arith, find_temp-drop_temp id j d.temps, free j)

remove_temp-IsFresh : (id : ℕ) (d : Disk) → IsFresh d → IsFresh (remove_temp id d)
unfolding remove_temp
remove_temp-IsFresh id d free = call-IsFresh (delete_temp id) d (delete_temp-IsFresh id) free

remove_temps-IsFresh : (ids : List ℕ) (d : Disk) → IsFresh d → IsFresh (remove_temps ids d)
unfolding remove_temps
remove_temps-IsFresh [] d free = free
remove_temps-IsFresh (id ∷ ids) d free =
    remove_temps-IsFresh ids (remove_temp id d) (remove_temp-IsFresh id d free)

rename_temp-IsFresh :
    (id : ℕ) (path : Text) (d : Disk) → IsFresh d → IsFresh (rename_temp id path d)
unfolding rename_temp
rename_temp-IsFresh id path d free = elim (Option-cases (find_temp id d.temps)) [
  | inl missing ↦ rw (missing, rename_temp) free
  | inr (file, found) ↦
      rw (found, rename_temp)
        (λ j far. ground (arith, find_temp-drop_temp id j d.temps, free j far))
]

write_temps-IsFresh :
    (targets : List Target) (values : List (Text × Text)) (temps : List ℕ) (d : Disk)
    → IsFresh d
    → IsFresh (write_temps targets values temps d).1
unfolding write_temps
write_temps-IsFresh [] values temps d free = free
write_temps-IsFresh (f ∷ targets) values temps d free =
    let bytes = value_or_nil f.key values in
    let w = write_temp-Written bytes f.mode d free in
    let d1 = (write_temp bytes f.mode d).1 in
    elim (Option-cases (write_temp bytes f.mode d).0) [
      | inl failed ↦ rw (failed, write_temps) (remove_temps-IsFresh temps d1 w.fresh)
      | inr (id, found) ↦
          rw (found, write_temps)
            (write_temps-IsFresh targets values (temps ++ (id ∷ [])) d1 w.fresh)
    ]

rename_temps-IsFresh :
    (targets : List Target) (ids : List ℕ) (d : Disk)
    → IsFresh d
    → IsFresh (rename_temps targets ids d).1
unfolding rename_temps
rename_temps-IsFresh [] ids d free = free
rename_temps-IsFresh (f ∷ targets) [] d free = free
rename_temps-IsFresh (f ∷ targets) (id ∷ ids) d free =
    let d1 = (call (rename_temp id f.path) d).1 in
    let free1 = call-IsFresh (rename_temp id f.path) d (rename_temp-IsFresh id f.path) free in
    elim (Bool-cases (call (rename_temp id f.path) d).0) [
      | inl done ↦ rw (done, rename_temps) (rename_temps-IsFresh targets ids d1 free1)
      | inr failed ↦ rw (failed, rename_temps) (remove_temps-IsFresh (id ∷ ids) d1 free1)
    ]

pub install-IsFresh :
    (targets : List Target) (values : List (Text × Text)) (d : Disk)
    → IsFresh d
    → IsFresh (install targets values d).1
unfolding install
install-IsFresh targets values d free =
    let d1 = (write_temps targets values [] d).1 in
    let free1 = write_temps-IsFresh targets values [] d free in
    elim (Option-cases (write_temps targets values [] d).0) [
      | inl failed ↦ rw (failed, install) free1
      | inr (ids, found) ↦ rw (found, install) (rename_temps-IsFresh targets ids d1 free1)
    ]

overwrite-IsFresh : (path bytes : Text) (d : Disk) → IsFresh d → IsFresh (overwrite path bytes d)
unfolding overwrite
overwrite-IsFresh path bytes d free = free

overwrite_other :
    (path bytes p : Text) (d : Disk) → p ≢ path → (overwrite path bytes d).files p ≡ d.files p
unfolding overwrite put_file
overwrite_other path bytes p d far = ground (arith, text_eq.same_iff p path)

call_other :
    (path bytes p : Text) (d : Disk)
    → p ≢ path
    → (call (overwrite path bytes) d).1.files p ≡ d.files p
call_other path bytes p d far = elim (call_cases (overwrite path bytes) d) [
  | inl (done, e) ↦ rw e (
      overwrite_other path bytes p (attempt d).1 far
      ∙ ap (λ (f : Text → Option File). f p) (attempt_keeps d).0)
  | inr (failed, e) ↦ rw e (ap (λ (f : Text → Option File). f p) (attempt_keeps d).0)
]

idle_files : (d : Disk) → (call (λ d. d) d).1.files ≡ d.files
idle_files d = ground (arith, call_cases (λ d. d) d, attempt_keeps d)

-- touchStamp changes no file but the stamp.
pub touch_stamp_other :
    (path now p : Text) (d : Disk) → p ≢ path → (touch_stamp path now d).1.files p ≡ d.files p
unfolding touch_stamp
touch_stamp_other path now p d far =
    let d1 = (call (overwrite path []) d).1 in
    let d2 = (call (overwrite path (now ++ (10 ∷ []))) d1).1 in
    let same1 = call_other path [] p d far in
    let same2 = call_other path (now ++ (10 ∷ [])) p d1 far ∙ same1 in
    elim (Bool-cases (call (overwrite path []) d).0) [
      | inl done ↦
          rw (done, touch_stamp) (ap (λ (f : Text → Option File). f p) (idle_files d2) ∙ same2)
      | inr failed ↦ rw (failed, touch_stamp) same1
    ]

pub touch_stamp-IsFresh :
    (path now : Text) (d : Disk) → IsFresh d → IsFresh (touch_stamp path now d).1
unfolding touch_stamp
touch_stamp-IsFresh path now d free =
    let d1 = (call (overwrite path []) d).1 in
    let d2 = (call (overwrite path (now ++ (10 ∷ []))) d1).1 in
    let free1 = call-IsFresh (overwrite path []) d (overwrite-IsFresh path []) free in
    let free2 =
      call-IsFresh (overwrite path (now ++ (10 ∷ []))) d1
        (overwrite-IsFresh path (now ++ (10 ∷ []))) free1 in
    elim (Bool-cases (call (overwrite path []) d).0) [
      | inl done ↦ rw (done, touch_stamp) (call-IsFresh (λ d. d) d2 (λ e h. h) free2)
      | inr failed ↦ rw (failed, touch_stamp) free1
    ]

-- writeFile replaces the file completely, or leaves every file as it was.
pub write_file_lem :
    (path bytes : Text) (mode : ℕ) (d : Disk)
    → IsFresh d
    → let (ok, d') = write_file path bytes mode d in
      d'.files
      ≡ (if ok then put_file path (record { content = bytes; mode = mode }) d.files else d.files)
unfolding write_file
write_file_lem path bytes mode d free =
    let w = write_temp-Written bytes mode d free in
    let d1 = (write_temp bytes mode d).1 in
    elim (Option-cases (write_temp bytes mode d).0) [
      | inl failed ↦ rw (failed, write_file) w.same_files
      | inr (id, found) ↦
          let here : find_temp id (attempt d1).1.temps
              ≡ some (record { content = bytes; mode = mode }) =
            ground (arith, attempt_keeps d1, w.made id found) in
          let (put, others) =
            renamed_lem id path (attempt d1).1 (record { content = bytes; mode = mode }) here in
          let before = (attempt_keeps d1).0 ∙ w.same_files in
          elim (call_cases (rename_temp id path) d1) [
            | inl (done, e) ↦
                rw (found, done, e, write_file)
                  (put ∙ ap (put_file path (record { content = bytes; mode = mode })) before)
            | inr (failed, e) ↦
                rw (found, failed, e, write_file)
                  ((remove_temp-Frame id (attempt d1).1).same_files ∙ before)
          ]
    ]
