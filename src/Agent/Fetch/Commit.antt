-- ===== src/Agent/Fetch/Commit.antt =====
-- Runner.Sync of fetch.go: the recorded tag commits a complete synchronization, and nothing less.
use mathlib.Core.List.{append-nil}
use kube_secret_gateway.Base.{
  Bool, true, Text, List, [], ◌∷◌, ◌++◌, Option, none, ◌≡◌, ◌≢◌, ◌⊎◌, inl, inr, refl, arith, All,
  null, Option-cases, Bool-cases, ◌∙◌, ap, subst, ◌==◌, text_eq, nat_eq, if◌then◌else◌,
}
use kube_secret_gateway.Agent.Settings.{Auth, Target, Exposure}
use kube_secret_gateway.Agent.Client.{Result, Fetched, unmodified, fetched, fetch_failed}
use kube_secret_gateway.Agent.Disk.{File, Disk, put_file, attempt}
use kube_secret_gateway.Agent.Fetch.Install.{install, touch_stamp}
use kube_secret_gateway.Agent.Fetch.TempLaws.{IsFresh, attempt-IsFresh}
use kube_secret_gateway.Agent.Fetch.Atomic.{wanted, put_all, install-Installs}
use kube_secret_gateway.Agent.Fetch.FreshLaws.{
  install-IsFresh, touch_stamp-IsFresh, touch_stamp_other, write_file_lem,
}
use kube_secret_gateway.Agent.Fetch.InstallLaws.{current_tag_files, resolve_files}
use kube_secret_gateway.Agent.Fetch.Sync.{
  read_file, check_targets, stored_tag, Targets, intact, stale, resolve, current_tag, lacking,
  commit, apply, handle_fetched, sync, etag_path, stamp_path,
}

read_file-IsFresh : (path : Text) (d : Disk) → IsFresh d → IsFresh (read_file path d).1
unfolding read_file
read_file-IsFresh path d free = attempt-IsFresh d free

pub resolve-IsFresh : (a : Auth) (d : Disk) → IsFresh d → IsFresh (resolve a d).1
unfolding resolve
resolve-IsFresh a d free = read_file-IsFresh a.password_file d free

check_targets-IsFresh :
    (targets : List Target) (d : Disk) → IsFresh d → IsFresh (check_targets targets d).1
unfolding check_targets
check_targets-IsFresh [] d free = free
check_targets-IsFresh (f ∷ targets) d free =
    let d1 = (attempt d).1 in
    let free1 = attempt-IsFresh d free in
    let later = check_targets-IsFresh targets d1 free1 in
    elim (Bool-cases (attempt d).0) [
      | inr failed ↦ rw (failed, check_targets) free1
      | inl done ↦ elim (Option-cases (d.files f.path)) [
        | inl missing ↦ rw (done, missing, check_targets) free1
        | inr (file, found) ↦ elim (Bool-cases (file.mode == f.mode)) [
          | inl same ↦ rw (done, found, same, check_targets) later
          | inr other ↦ rw (done, found, other, check_targets) free1
        ]
      ]
    ]

pub current_tag-IsFresh :
    (path : Text) (e : Exposure) (d : Disk) → IsFresh d → IsFresh (current_tag path e d).1
unfolding current_tag stored_tag
current_tag-IsFresh path e d free =
    let d1 = (check_targets e.targets d).1 in
    let free1 = check_targets-IsFresh e.targets d free in
    elim (Targets-cases (check_targets e.targets d).0) [
      | inl sound ↦ rw (sound, current_tag) (read_file-IsFresh path d1 free1)
      | inr (inl old) ↦ rw (old, current_tag) free1
      | inr (inr unread) ↦ rw (unread, current_tag) free1
    ]
  where
    Targets-cases : (t : Targets) → (t ≡ intact) ⊎ (t ≡ stale) ⊎ (t ≡ Targets.unknown)
    Targets-cases intact = inl refl
    Targets-cases stale = inr (inl refl)
    Targets-cases Targets.unknown = inr (inr refl)

-- A path that no target has is left alone.
pub put_all_other :
    (targets : List Target) (values : List (Text × Text)) (files : Text → Option File) (p : Text)
    → All (λ f. p ≢ f.path) targets
    → put_all targets values files p ≡ files p
unfolding put_all put_file
put_all_other [] values files p h = refl
put_all_other (f ∷ targets) values files p (far, h) = ground (
  arith,
  put_all_other targets values (put_file f.path (wanted values f) files) p h,
  text_eq.same_iff p f.path,
)

All-prefix {κ} : {A : Type 0} (P : A → Type κ) (xs ys : List A) → All P (xs ++ ys) → All P xs
All-prefix P [] ys h = tt
All-prefix P (x ∷ xs) ys (p, h) = (p, All-prefix P xs ys h)

-- install changes no file but those of its targets.
install_other :
    (targets : List Target) (values : List (Text × Text)) (d : Disk) (p : Text)
    → IsFresh d
    → All (λ f. p ≢ f.path) targets
    → (install targets values d).1.files p ≡ d.files p
install_other targets values d p free far =
    let i = install-Installs values targets d free in
    ap (λ (f : Text → Option File). f p) i.result
    ∙ put_all_other i.written values d.files p
        (All-prefix (λ f. p ≢ f.path) i.written i.left (subst (All (λ f. p ≢ f.path)) i.split far))

-- A successful install has written every target.
pub install_all :
    (targets : List Target) (values : List (Text × Text)) (d : Disk)
    → IsFresh d
    → (install targets values d).0 ≡ true
    → (install targets values d).1.files ≡ put_all targets values d.files
install_all targets values d free ok =
    let i = install-Installs values targets d free in
    let none_left : i.left ≡ [] = ground (arith, i.complete) in
    i.result
    ∙ ap (λ (l : List Target). put_all l values d.files)
        (ground (arith, i.split, append-nil i.written))

-- The command leaves the file at a path alone.
abbrev pub Spares : (List Text → Disk → Bool × Disk) → Text → Type 0
Spares exec p = (c : List Text) (d : Disk) → (exec c d).1.files p ≡ d.files p

-- The command takes none of the numbers of temporary files.
abbrev pub IsTidy : (List Text → Disk → Bool × Disk) → Type 0
IsTidy exec = (c : List Text) (d : Disk) → IsFresh d → IsFresh (exec c d).1

module _ (exec : List Text → Disk → Bool × Disk) (tidy : IsTidy exec) where
  -- The disk behind the command, or behind none.
  unfoldable pub ran : List Text → Disk → Bool × Disk
  ran c d = if null c then (true, d) else exec c d

  pub ran-IsFresh : (c : List Text) (d : Disk) → IsFresh d → IsFresh (ran c d).1
  unfolding ran
  ran-IsFresh [] d free = free
  ran-IsFresh (word ∷ c) d free = tidy (word ∷ c) d free

  pub ran_other :
      (c : List Text) (d : Disk) (p : Text) → Spares exec p → (ran c d).1.files p ≡ d.files p
  unfolding ran
  ran_other [] d p spares = refl
  ran_other (word ∷ c) d p spares = spares (word ∷ c) d

  commit_failed :
      (tag_file : Text) (e : Exposure) (tag : Text) (d : Disk)
      → IsFresh d
      → Spares exec tag_file
      → (commit exec tag_file e tag d).0.err ≢ none
      → (commit exec tag_file e tag d).1.files tag_file ≡ d.files tag_file
  unfolding commit ran
  commit_failed tag_file e tag d free spares failed =
      let d1 = (ran e.on_change_command d).1 in
      let free1 = ran-IsFresh e.on_change_command d free in
      ground (
        arith,
        ran_other e.on_change_command d tag_file spares,
        ap (λ (f : Text → Option File). f tag_file)
            (write_file_lem tag_file (tag ++ (10 ∷ [])) 384 d1 free1),
      )

  -- The paths of an exposure that the synchronization treats apart from one another.
  abbrev pub Apart : Text → Text → Exposure → Type 0
  Apart p stamp e = (p ≢ stamp) × All (λ f. p ≢ f.path) e.targets

  apply_failed :
      (tag_file stamp now : Text) (e : Exposure) (result : Result) (d : Disk)
      → IsFresh d
      → Spares exec tag_file
      → Apart tag_file stamp e
      → (apply exec tag_file stamp now e result d).0.err ≢ none
      → (apply exec tag_file stamp now e result d).1.files tag_file ≡ d.files tag_file
  unfolding apply
  apply_failed tag_file stamp now e result d free spares apart failed =
      let d1 = (install e.targets result.values d).1 in
      let d2 = (touch_stamp stamp now d1).1 in
      let same1 = install_other e.targets result.values d tag_file free apart.1 in
      let same2 = touch_stamp_other stamp now tag_file d1 apart.0 ∙ same1 in
      let free2 =
        touch_stamp-IsFresh stamp now d1 (install-IsFresh e.targets result.values d free) in
      elim (Bool-cases (install e.targets result.values d).0) [
        | inr broken ↦ rw (broken, apply) same1
        | inl installed ↦ elim (Bool-cases (touch_stamp stamp now d1).0) [
          | inr broken ↦ rw (installed, broken, apply) same2
          | inl stamped ↦
              rw (installed, stamped, apply)
                (commit_failed tag_file e result.etag d2 free2 spares
                    (λ ok. failed (rw (installed, stamped, apply) ok))
                  ∙ same2)
        ]
      ]

  pub handle_fetched_failed :
      (tag_file stamp now : Text) (e : Exposure) (answer : Fetched) (d : Disk)
      → IsFresh d
      → Spares exec tag_file
      → Apart tag_file stamp e
      → (handle_fetched exec tag_file stamp now e answer d).0.err ≢ none
      → (handle_fetched exec tag_file stamp now e answer d).1.files tag_file ≡ d.files tag_file
  unfolding handle_fetched
  handle_fetched_failed tag_file stamp now e unmodified d free spares apart failed = refl
  handle_fetched_failed tag_file stamp now e (fetch_failed why) d free spares apart failed = refl
  handle_fetched_failed tag_file stamp now e (fetched result) d free spares apart failed =
      elim (Bool-cases (null (lacking e.targets result.values))) [
        | inr missing ↦ rw (missing, handle_fetched) refl
        | inl all ↦
            rw (all, handle_fetched)
              (apply_failed tag_file stamp now e result d free spares apart
                (λ ok. failed (rw (all, handle_fetched) ok)))
      ]

  module _ (fetch : Text → Text → Text → Text → Fetched) (join : Text → Text → Text) where
    -- A synchronization that ends in an error, wherever it failed, leaves the recorded tag as it was,
    -- so that the next one asks for the exposure again; the tag's file is none of the targets
    -- and not the stamp, and the command leaves it alone.
    pub sync_uncommitted :
        (state_dir now : Text) (e : Exposure) (d : Disk)
        → let tag_file = etag_path exec fetch join state_dir e in
          let stamp = stamp_path exec fetch join state_dir e in
          IsFresh d
          → Spares exec tag_file
          → Apart tag_file stamp e
          → (sync exec fetch join state_dir now e d).0.err ≢ none
          → (sync exec fetch join state_dir now e d).1.files tag_file ≡ d.files tag_file
    unfolding sync
    sync_uncommitted state_dir now e d free spares apart failed =
        let tag_file = etag_path exec fetch join state_dir e in
        let stamp = stamp_path exec fetch join state_dir e in
        let d1 = (resolve e.auth d).1 in
        let tag = current_tag tag_file e d1 in
        let free2 = current_tag-IsFresh tag_file e d1 (resolve-IsFresh e.auth d free) in
        let same1 = ap (λ (f : Text → Option File). f tag_file) (resolve_files e.auth d) in
        let same2 =
          ap (λ (f : Text → Option File). f tag_file) (current_tag_files tag_file e d1) ∙ same1 in
        elim (Option-cases (resolve e.auth d).0) [
          | inl missing ↦ rw (missing, sync) same1
          | inr (p, known) ↦ elim (Option-cases tag.0) [
            | inl unread ↦ rw (known, unread, sync) same2
            | inr (t, stored) ↦
                rw (known, stored, sync)
                  (handle_fetched_failed tag_file stamp now e (fetch e.name t e.auth.username p)
                      tag.1 free2 spares apart (λ ok. failed (rw (known, stored, sync) ok))
                    ∙ same2)
          ]
        ]
