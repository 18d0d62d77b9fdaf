-- ===== src/Agent/Fetch/Recorded.antt =====
-- A synchronization that succeeds, and what the next one reads (fetch.go, Sync and currentETag).
use kube_secret_gateway.Base.{
  Bool, true, Text, List, [], ◌∷◌, ◌++◌, Option, some, none, ◌≡◌, ◌≢◌, inl, inr, refl, arith, null,
  Option-cases, Bool-cases, ◌∙◌, ap, subst, text_eq, nat_eq,
}
use kube_secret_gateway.Agent.Settings.{Exposure}
use kube_secret_gateway.Agent.Client.{Result, Fetched, unmodified, fetched, fetch_failed}
use kube_secret_gateway.Agent.Disk.{File, Disk, put_file}
use kube_secret_gateway.Agent.Fetch.Install.{install, touch_stamp}
use kube_secret_gateway.Agent.Fetch.TempLaws.{IsFresh}
use kube_secret_gateway.Agent.Fetch.Atomic.{put_all}
use kube_secret_gateway.Agent.Fetch.FreshLaws.{
  install-IsFresh, touch_stamp-IsFresh, touch_stamp_other, write_file_lem,
}
use kube_secret_gateway.Agent.Fetch.InstallLaws.{current_tag_files, resolve_files}
use kube_secret_gateway.Agent.Fetch.Commit.{
  install_all, Spares, IsTidy, ran, ran-IsFresh, ran_other, resolve-IsFresh, current_tag-IsFresh,
}
use kube_secret_gateway.Agent.Fetch.Sync.{
  Synced, resolve, current_tag, lacking, commit, apply, handle_fetched, sync, etag_path, stamp_path,
}

abbrev pub success : Synced
success = record { changed = true; err = none }

-- The file of the recorded tag.
abbrev pub tag_content : Text → File
tag_content tag = record { content = tag ++ (10 ∷ []); mode = 384 }

pub put_file_at :
    (path : Text) (file : File) (files : Text → Option File)
    → put_file path file files path ≡ some file
unfolding put_file
put_file_at path file files = ground (arith, text_eq.same_iff path path)

put_file_other :
    (path p : Text) (file : File) (files : Text → Option File)
    → p ≢ path
    → put_file path file files p ≡ files p
unfolding put_file
put_file_other path p file files far = ground (arith, text_eq.same_iff p path)

-- What a successful synchronization has written.
pub record Recorded (exec : List Text → Disk → Bool × Disk) (tag_file stamp : Text) (e : Exposure)
    (result : Result) (before after : Text → Option File) : Type 0 where
  pub all_keys : lacking e.targets result.values ≡ []
  pub tag : after tag_file ≡ some (tag_content result.etag)
  pub targets :
      (p : Text)
      → p ≢ tag_file
      → p ≢ stamp
      → Spares exec p
      → after p ≡ put_all e.targets result.values before p

module _ (exec : List Text → Disk → Bool × Disk) (tidy : IsTidy exec) where
  commit-success :
      (tag_file : Text) (e : Exposure) (tag : Text) (d : Disk)
      → IsFresh d
      → (commit exec tag_file e tag d).0 ≡ success
      → (commit exec tag_file e tag d).1.files
        ≡ put_file tag_file (tag_content tag) (ran exec tidy e.on_change_command d).1.files
  unfolding commit ran
  commit-success tag_file e tag d free ok =
      let d1 = (ran exec tidy e.on_change_command d).1 in
      let free1 = ran-IsFresh exec tidy e.on_change_command d free in
      ground (arith, write_file_lem tag_file (tag ++ (10 ∷ [])) 384 d1 free1)

  apply-success :
      (tag_file stamp now : Text) (e : Exposure) (result : Result) (d : Disk)
      → IsFresh d
      → lacking e.targets result.values ≡ []
      → (apply exec tag_file stamp now e result d).0 ≡ success
      → Recorded exec tag_file stamp e result d.files
          (apply exec tag_file stamp now e result d).1.files
  unfolding apply
  apply-success tag_file stamp now e result d free all ok =
      let d1 = (install e.targets result.values d).1 in
      let d2 = (touch_stamp stamp now d1).1 in
      let d3 = (ran exec tidy e.on_change_command d2).1 in
      let free2 =
        touch_stamp-IsFresh stamp now d1 (install-IsFresh e.targets result.values d free) in
      elim (Bool-cases (install e.targets result.values d).0) [
        | inr broken ↦ absurd (ground arith)
        | inl installed ↦ elim (Bool-cases (touch_stamp stamp now d1).0) [
          | inr broken ↦ absurd (ground arith)
          | inl stamped ↦
              let done : (commit exec tag_file e result.etag d2).0 ≡ success = ground arith in
              let files = commit-success tag_file e result.etag d2 free2 done in
              let at : (p : Text)
                  → (commit exec tag_file e result.etag d2).1.files p
                    ≡ put_file tag_file (tag_content result.etag) d3.files p =
                λ p. ap (λ (f : Text → Option File). f p) files in
              rw (installed, stamped, apply)
                (record {
                  all_keys = all;
                  tag = at tag_file ∙ put_file_at tag_file (tag_content result.etag) d3.files;
                  targets = λ p own far spared.
                      at p
                      ∙ put_file_other tag_file p (tag_content result.etag) d3.files own
                      ∙ ran_other exec tidy e.on_change_command d2 p spared
                      ∙ touch_stamp_other stamp now p d1 far
                      ∙ ap (λ (f : Text → Option File). f p)
                          (install_all e.targets result.values d free installed);
                })
        ]
      ]

  handle_fetched-success :
      (tag_file stamp now : Text) (e : Exposure) (answer : Fetched) (d : Disk)
      → IsFresh d
      → (handle_fetched exec tag_file stamp now e answer d).0 ≡ success
      → (result : Result) × (answer ≡ fetched result)
        × Recorded exec tag_file stamp e result d.files
            (handle_fetched exec tag_file stamp now e answer d).1.files
  unfolding handle_fetched
  handle_fetched-success tag_file stamp now e unmodified d free ok = absurd (ground arith)
  handle_fetched-success tag_file stamp now e (fetch_failed why) d free ok = absurd (ground arith)
  handle_fetched-success tag_file stamp now e (fetched result) d free ok =
      elim (Bool-cases (null (lacking e.targets result.values))) [
        | inr missing ↦ absurd (ground arith)
        | inl all ↦
            rw (all, handle_fetched)
              (
                result,
                refl,
                apply-success tag_file stamp now e result d free (ground arith) (ground arith),
              )
      ]

  module _ (fetch : Text → Text → Text → Text → Fetched) (join : Text → Text → Text) where
    -- The gateway's answer behind a synchronization that succeeded, and what was written.
    pub record Committed (state_dir : Text) (e : Exposure) (before after : Text → Option File)
        : Type 0 where
      pub result : Result
      pub asked : Text
      pub password : Text
      pub answered : fetch e.name asked e.auth.username password ≡ fetched result
      pub recorded :
          Recorded exec
            (etag_path exec fetch join state_dir e)
            (stamp_path exec fetch join state_dir e)
            e
            result
            before
            after

    -- A synchronization that reports a change and no error has got an answer of the gateway with all
    -- target keys; each target holds its value with its mode, every other file that the command
    -- spares is as before, except for the stamp, and the tag of the answer is recorded.
    pub sync-Committed :
        (state_dir now : Text) (e : Exposure) (d : Disk)
        → IsFresh d
        → (sync exec fetch join state_dir now e d).0 ≡ success
        → Committed state_dir e d.files (sync exec fetch join state_dir now e d).1.files
    unfolding sync
    sync-Committed state_dir now e d free ok =
        let tag_file = etag_path exec fetch join state_dir e in
        let stamp = stamp_path exec fetch join state_dir e in
        let d1 = (resolve e.auth d).1 in
        let tag = current_tag tag_file e d1 in
        let free2 = current_tag-IsFresh tag_file e d1 (resolve-IsFresh e.auth d free) in
        let same2 = current_tag_files tag_file e d1 ∙ resolve_files e.auth d in
        elim (Option-cases (resolve e.auth d).0) [
          | inl missing ↦ absurd (ground arith)
          | inr (p, known) ↦ elim (Option-cases tag.0) [
            | inl unread ↦ absurd (ground arith)
            | inr (t, stored) ↦
                let answer = fetch e.name t e.auth.username p in
                let (result, got, done) =
                  handle_fetched-success tag_file stamp now e answer tag.1 free2 (ground arith) in
                rw (known, stored, sync)
                  (record {
                    result = result;
                    asked = t;
                    password = p;
                    answered = got;
                    recorded =
                        subst
                          (λ (before : Text → Option File).
                            Recorded exec tag_file stamp e result before
                              (handle_fetched exec tag_file stamp now e answer tag.1).1.files)
                          same2 done;
                  })
          ]
        ]
