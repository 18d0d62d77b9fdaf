-- ===== src/Agent/Fetch/InstallLaws.antt =====
-- What a synchronization leaves on the disk (agent/internal/fetch/fetch.go).
use kube_secret_gateway.Base.{
  ℕ, Bool, true, false, Text, List, [], ◌∷◌, ◌++◌, some, text_eq, nat_eq, ◌≡◌, ◌≢◌, inl, inr, refl,
  arith, ◌∙◌, Option-cases, Bool-cases,
}
use kube_secret_gateway.Agent.Settings.{Auth, Target, Exposure}
use kube_secret_gateway.Agent.Client.{Fetched, unmodified, fetched, fetch_failed}
use kube_secret_gateway.Agent.Disk.{
  Disk, attempt, call, change_temp, remove_temp, remove_temps, delete_temp,
}
use kube_secret_gateway.Gateway.Auth.{value_or_nil}
use kube_secret_gateway.Agent.Fetch.Install.{
  fill, touch_stamp, fill_temp, create_temp, write_temp, write_temps, install,
}
use kube_secret_gateway.Agent.Fetch.Sync.{
  read_file, resolve, check_targets, stored_tag, current_tag, commit, apply, handle_fetched, sync,
  etag_path, stamp_path, install_failed,
}

attempt_files : (d : Disk) → (attempt d).1.files ≡ d.files
unfolding attempt
attempt_files d = by_faults d.faults
  where
    by_faults : (faults : List Bool) → (attempt (record d { faults = faults })).1.files ≡ d.files
    by_faults [] = unfold attempt in refl
    by_faults (fault ∷ more) = unfold attempt in refl

-- A call that leaves the named files alone.
call_files :
    (f : Disk → Disk) (d : Disk)
    → ((e : Disk) → (f e).files ≡ e.files)
    → (call f d).1.files ≡ d.files
unfolding call
call_files f d keep = elim (Bool-cases (attempt d).0) [
  | inl done ↦ rw done (keep (attempt d).1 ∙ attempt_files d)
  | inr failed ↦ rw failed (attempt_files d)
]

remove_temp_files : (id : ℕ) (d : Disk) → (remove_temp id d).files ≡ d.files
unfolding remove_temp
remove_temp_files id d = call_files (delete_temp id) d (λ e. unfold delete_temp in refl)

pub remove_temps_files : (ids : List ℕ) (d : Disk) → (remove_temps ids d).files ≡ d.files
unfolding remove_temps
remove_temps_files [] d = refl
remove_temps_files (id ∷ ids) d = remove_temps_files ids (remove_temp id d) ∙ remove_temp_files id d

fill_files :
    (id : ℕ) (bytes : Text) (mode : ℕ) (d : Disk) → (fill id bytes mode d).1.files ≡ d.files
unfolding fill
fill_files id bytes mode d =
    let d1 = (call (change_temp id (λ f. record f { mode = mode })) d).1 in
    let d2 = (call (change_temp id (λ f. record f { content = bytes })) d1).1 in
    ground (
      arith,
      call_files (change_temp id (λ f. record f { mode = mode })) d
          (λ e. unfold change_temp in refl),
      call_files (change_temp id (λ f. record f { content = bytes })) d1
          (λ e. unfold change_temp in refl),
      call_files (λ d. d) d2 (λ e. refl),
    )

fill_temp_files :
    (id : ℕ) (bytes : Text) (mode : ℕ) (d : Disk) → (fill_temp id bytes mode d).1.files ≡ d.files
unfolding fill_temp
fill_temp_files id bytes mode d =
    let d1 = (fill id bytes mode d).1 in
    let d2 = (call (λ d. d) d1).1 in
    ground (
      arith,
      fill_files id bytes mode d,
      call_files (λ d. d) d1 (λ e. refl),
      remove_temp_files id d2,
    )

create_temp_files : (d : Disk) → (create_temp d).files ≡ d.files
unfolding create_temp
create_temp_files d = refl

write_temp_files :
    (bytes : Text) (mode : ℕ) (d : Disk) → (write_temp bytes mode d).1.files ≡ d.files
unfolding write_temp
write_temp_files bytes mode d =
    let d1 = (attempt d).1 in
    ground (
      arith,
      attempt_files d,
      create_temp_files d1,
      fill_temp_files d1.next_temp bytes mode (create_temp d1),
    )

read_file_files : (path : Text) (d : Disk) → (read_file path d).1.files ≡ d.files
unfolding read_file
read_file_files path d = attempt_files d

check_targets_files :
    (targets : List Target) (d : Disk) → (check_targets targets d).1.files ≡ d.files
unfolding check_targets
check_targets_files [] d = refl
check_targets_files (f ∷ targets) d =
    ground (arith, attempt_files d, check_targets_files targets (attempt d).1)

-- Up to the first rename no named file is touched: not where a temporary file cannot be written,
-- and not where all are.
pub write_temps_files :
    (targets : List Target) (values : List (Text × Text)) (temps : List ℕ) (d : Disk)
    → (write_temps targets values temps d).1.files ≡ d.files
unfolding write_temps
write_temps_files [] values temps d = refl
write_temps_files (f ∷ targets) values temps d =
    let tmp = write_temp (value_or_nil f.key values) f.mode d in
    let here = write_temp_files (value_or_nil f.key values) f.mode d in
    elim (Option-cases tmp.0) [
      | inl missing ↦ rw (missing, write_temps) (remove_temps_files temps tmp.1 ∙ here)
      | inr (id, found) ↦
          rw (found, write_temps)
            (write_temps_files targets values (temps ++ (id ∷ [])) tmp.1 ∙ here)
    ]

stored_tag_files : (path : Text) (d : Disk) → (stored_tag path d).1.files ≡ d.files
unfolding stored_tag
stored_tag_files path d = read_file_files path d

pub current_tag_files :
    (path : Text) (e : Exposure) (d : Disk) → (current_tag path e d).1.files ≡ d.files
unfolding current_tag
current_tag_files path e d =
    ground
      (arith, check_targets_files e.targets d, stored_tag_files path (check_targets e.targets d).1)

pub resolve_files : (a : Auth) (d : Disk) → (resolve a d).1.files ≡ d.files
unfolding resolve
resolve_files a d = read_file_files a.password_file d

module _ (exec : List Text → Disk → Bool × Disk) where
  commit_changed :
      (path : Text) (e : Exposure) (tag : Text) (d : Disk)
      → (commit exec path e tag d).0.changed ≡ true
  unfolding commit
  commit_changed path e tag d = ground arith

  handle_fetched_files :
      (tag_file stamp now : Text) (e : Exposure) (answer : Fetched) (d : Disk)
      → (handle_fetched exec tag_file stamp now e answer d).0.changed ≡ false
      → (handle_fetched exec tag_file stamp now e answer d).0.err ≢ some install_failed
      → (handle_fetched exec tag_file stamp now e answer d).1.files ≡ d.files
  unfolding handle_fetched apply
  handle_fetched_files tag_file stamp now e unmodified d same fine = refl
  handle_fetched_files tag_file stamp now e (fetch_failed why) d same fine = refl
  handle_fetched_files tag_file stamp now e (fetched result) d same fine = ground (
    arith,
    commit_changed tag_file e result.etag
        (touch_stamp stamp now (install e.targets result.values d).1).1,
  )

  module _ (fetch : Text → Text → Text → Text → Fetched) (join : Text → Text → Text) where
    -- A synchronization that reports no change leaves every file as it was, unless the installation
    -- itself failed: so a 304, missing keys, and any error before the installation touch nothing.
    pub sync_files :
        (state_dir now : Text) (e : Exposure) (d : Disk)
        → (sync exec fetch join state_dir now e d).0.changed ≡ false
        → (sync exec fetch join state_dir now e d).0.err ≢ some install_failed
        → (sync exec fetch join state_dir now e d).1.files ≡ d.files
    unfolding sync
    sync_files state_dir now e d same fine =
        let d1 = (resolve e.auth d).1 in
        let tag_file = etag_path exec fetch join state_dir e in
        let tag = current_tag tag_file e d1 in
        elim (Option-cases (resolve e.auth d).0) [
          | inl missing ↦ ground (arith, resolve_files e.auth d)
          | inr (p, known) ↦ elim (Option-cases tag.0) [
            | inl unread ↦ ground (arith, resolve_files e.auth d, current_tag_files tag_file e d1)
            | inr (t, stored) ↦ ground (
              arith,
              resolve_files e.auth d,
              current_tag_files tag_file e d1,
              handle_fetched_files tag_file (stamp_path exec fetch join state_dir e) now e
                  (fetch e.name t e.auth.username p) tag.1,
            )
          ]
        ]
