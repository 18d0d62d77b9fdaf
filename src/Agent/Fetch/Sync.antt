-- ===== src/Agent/Fetch/Sync.antt =====
-- fetch.go: one synchronization of an exposure. The gateway, the command and the names of the
-- state files are parameters; the state of the world that they see is the disk.
use kube_secret_gateway.Base.{
  Bool, true, false, not, Text, ascii, List, [], ◌∷◌, ◌++◌, Option, some, none, if◌then◌else◌, ◌==◌,
  nat_eq, text_eq, lookup, null, is_some, trim_space,
}
use kube_secret_gateway.Agent.Settings.{Auth, Target, Exposure}
use kube_secret_gateway.Agent.Client.{
  Result, FetchError, Fetched, fetched, unmodified, fetch_failed,
}
use kube_secret_gateway.Agent.Disk.{File, Disk, attempt}
use kube_secret_gateway.Agent.Fetch.Install.{install, write_file, touch_stamp}

pub data SyncError : Type 0 where
  no_credentials tag_unreadable install_failed stamp_failed command_failed : SyncError
  tag_not_recorded : SyncError
  not_fetched : FetchError → SyncError
  missing_keys : List Text → SyncError

-- The two results of Sync.
pub record Synced : Type 0 where
  pub changed : Bool
  pub err : Option SyncError

-- os.ReadFile: an error, a missing file, or the bytes.
pub data Read : Type 0 where
  read_error missing : Read
  bytes_of : Text → Read

read_existing : Option File → Read
read_existing none = missing
read_existing (some file) = bytes_of file.content

unfoldable pub read_file : Text → Disk → Read × Disk
unfolding read_existing attempt
read_file path d =
    let (done, d') = attempt d in (if done then read_existing (d.files path) else read_error, d')

-- Auth.Resolve: the password, or an error for an unreadable, missing or empty file.
unfoldable pub resolve : Auth → Disk → Option Text × Disk
unfolding read_file
resolve a d =
    let (found, d') = read_file a.password_file d in
    (
      elim found [ bytes_of password ↦ if null password then none else some password | _ ↦ none ],
      d',
    )

-- The targets on disk as the configuration wants them, not so, or unknown because of an error.
pub data Targets : Type 0 where
  intact stale unknown : Targets

-- The loop of currentETag.
unfoldable pub check_targets : List Target → Disk → Targets × Disk
unfolding attempt
check_targets [] d = (intact, d)
check_targets (f ∷ targets) d =
    let (done, d') = attempt d in
    let rest = check_targets targets d' in
    if done
    then elim (d.files f.path) [
      | none ↦ (stale, d')
      | some file ↦ if file.mode == f.mode then rest else (stale, d')
    ]
    else (unknown, d')

-- The stored tag: "" where there is none, and `none` for an error.
unfoldable pub stored_tag : Text → Disk → Option Text × Disk
unfolding read_file trim_space
stored_tag path d =
    let (found, d') = read_file path d in
    (
      elim found [ read_error ↦ none | missing ↦ some [] | bytes_of tag ↦ some (trim_space tag) ],
      d',
    )

-- currentETag
unfoldable pub current_tag : Text → Exposure → Disk → Option Text × Disk
unfolding check_targets stored_tag
current_tag etag_path e d =
    let (state, d') = check_targets e.targets d in
    let tag = stored_tag etag_path d' in
    elim state [ unknown ↦ (none, d') | stale ↦ (some [], d') | intact ↦ tag ]

-- The target keys that a response lacks.
unfoldable pub lacking : List Target → List (Text × Text) → List Text
lacking [] values = []
lacking (f ∷ targets) values =
    let rest = lacking targets values in
    if is_some (lookup f.key values) then rest else f.key ∷ rest

module _ (exec : List Text → Disk → Bool × Disk) where
  -- The end of Sync: the command, if there is one, and then the tag.
  unfoldable pub commit : Text → Exposure → Text → Disk → Synced × Disk
  unfolding write_file
  commit etag_path e tag d =
      let (ran, d1) = if null e.on_change_command then (true, d) else exec e.on_change_command d in
      let (recorded, d2) = write_file etag_path (tag ++ (10 ∷ [])) 384 d1 in
      if not ran
      then (record { changed = true; err = some command_failed }, d1)
      else if recorded
      then (record { changed = true; err = none }, d2)
      else (record { changed = true; err = some tag_not_recorded }, d2)

  -- Sync behind a response with all target keys.
  unfoldable pub apply : Text → Text → Text → Exposure → Result → Disk → Synced × Disk
  unfolding install touch_stamp commit
  apply etag_path stamp_path now e result d =
      let (installed, d1) = install e.targets result.values d in
      let (stamped, d2) = touch_stamp stamp_path now d1 in
      let committed = commit etag_path e result.etag d2 in
      if not installed
      then (record { changed = false; err = some install_failed }, d1)
      else if stamped
      then committed
      else (record { changed = true; err = some stamp_failed }, d2)

  -- Sync behind the fetch.
  unfoldable pub handle_fetched : Text → Text → Text → Exposure → Fetched → Disk → Synced × Disk
  unfolding apply lacking
  handle_fetched etag_path stamp_path now e unmodified d =
      (record { changed = false; err = none }, d)
  handle_fetched etag_path stamp_path now e (fetch_failed why) d =
      (record { changed = false; err = some (not_fetched why) }, d)
  handle_fetched etag_path stamp_path now e (fetched result) d =
      let keys = lacking e.targets result.values in
      if null keys
      then apply etag_path stamp_path now e result d
      else (record { changed = false; err = some (missing_keys keys) }, d)

  -- `fetch` is Client.Fetch, by exposure, tag, user name and password; `join` is filepath.Join.
  module _ (fetch : Text → Text → Text → Text → Fetched) (join : Text → Text → Text) where
    unfoldable pub etag_path : Text → Exposure → Text
    unfolding ascii
    etag_path state_dir e = join state_dir (e.name ++ ascii ".etag")

    unfoldable pub stamp_path : Text → Exposure → Text
    unfolding ascii
    stamp_path state_dir e = join state_dir (e.name ++ ascii ".stamp")

    -- Runner.Sync
    unfoldable pub sync : Text → Text → Exposure → Disk → Synced × Disk
    unfolding resolve current_tag handle_fetched etag_path stamp_path
    sync state_dir now e d =
        let (password, d1) = resolve e.auth d in
        let (tag, d2) = current_tag (etag_path state_dir e) e d1 in
        elim password [
          | none ↦ (record { changed = false; err = some no_credentials }, d1)
          | some p ↦ elim tag [
            | none ↦ (record { changed = false; err = some tag_unreadable }, d2)
            | some t ↦
                handle_fetched (etag_path state_dir e) (stamp_path state_dir e) now e
                  (fetch e.name t e.auth.username p) d2
          ]
        ]
