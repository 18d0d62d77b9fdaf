-- ===== src/Tests/Commit.antt =====
-- The theorems on Runner.Sync of agent/internal/fetch/fetch.go at one exposure with one target,
-- with a command that succeeds and with one that fails.
use kube_secret_gateway.Base.{
  Bool, false, Text, ascii, List, [], ◌∷◌, ◌++◌, Option, some, none, ◌≡◌, ◌≢◌, refl, arith,
  if◌then◌else◌, ◌==◌, text_eq, text_beq, Distinct, All, trim_space,
}
use kube_secret_gateway.Agent.Settings.{Exposure}
use kube_secret_gateway.Agent.Client.{Result, fetched}
use kube_secret_gateway.Agent.Disk.{File, Disk, find_temp}
use kube_secret_gateway.Agent.Fetch.Install.{install}
use kube_secret_gateway.Agent.Fetch.TempLaws.{IsFresh}
use kube_secret_gateway.Agent.Fetch.Atomic.{wanted, Installs, install-Installs}
use kube_secret_gateway.Agent.Fetch.Commit.{Spares, IsTidy, Apart, sync_uncommitted}
use kube_secret_gateway.Agent.Fetch.Recorded.{success, tag_content, Committed, sync-Committed}
use kube_secret_gateway.Agent.Fetch.RoundTrip.{paths, calm, IsClear, SendsTags, current_tag-sync}
use kube_secret_gateway.Agent.Fetch.Reverted.{current_tag_reverted}
use kube_secret_gateway.Agent.Fetch.Sync.{
  command_failed, handle_fetched, current_tag, sync, etag_path, stamp_path,
}
use kube_secret_gateway.Tests.Agent.{target, exposure, disk, own_key, no_command, in_dir}

abbrev tag_file : Text
tag_file = ascii "/var/db.etag"

abbrev stamp : Text
stamp = ascii "/var/db.stamp"

-- The command of the exposure, which fails.
abbrev failing : List Text → Disk → Bool × Disk
failing command d = (false, d)

abbrev reloading : Exposure
reloading = record exposure { on_change_command = ascii "reload" ∷ [] }

stored : Text → Option File
unfolding ascii text_beq
stored path =
    if path == ascii "/var/db.etag"
    then some (tag_content (ascii "t0"))
    else if path == ascii "/etc/p"
    then some (record { content = ascii "secret"; mode = 384 })
    else none

-- A disk with the tag of an earlier synchronization.
abbrev used : Disk
used = record disk { files = stored }

abbrev answer : Result
answer = record { values = (ascii "user", ascii "root") ∷ []; etag = ascii "t1" }

fresh : (d : Disk) → d.temps ≡ [] → IsFresh d
unfolding find_temp
fresh d empty j far = ground (arith, empty)

no_command_tidy : IsTidy no_command
no_command_tidy c d free = free

failing_tidy : IsTidy failing
failing_tidy c d free = free

failing-Spares : (p : Text) → Spares failing p
failing-Spares p c d = refl

install-Installs_example :
    let (ok, d') = install (target ∷ []) answer.values used in
    Installs answer.values (target ∷ []) used.files d'.files ok
install-Installs_example = install-Installs answer.values (target ∷ []) used (fresh used refl)

synced : (sync no_command own_key in_dir (ascii "/var/") (ascii "now") exposure used).0 ≡ success
unfolding sync stored
synced = refl

sync-Committed_example :
    Committed no_command no_command_tidy own_key in_dir
      (ascii "/var/")
      exposure
      used.files
      (sync no_command own_key in_dir (ascii "/var/") (ascii "now") exposure used).1.files
sync-Committed_example =
    sync-Committed no_command no_command_tidy own_key in_dir (ascii "/var/") (ascii "now") exposure
      used (fresh used refl) synced

sends : SendsTags no_command no_command_tidy own_key in_dir
unfolding trim_space ascii
sends name tag username password result e = ground arith

distinct : Distinct (paths exposure.targets)
distinct = ground arith

clear :
    IsClear no_command no_command_tidy
      (etag_path no_command own_key in_dir (ascii "/var/") exposure)
      (stamp_path no_command own_key in_dir (ascii "/var/") exposure)
      exposure
unfolding etag_path stamp_path ascii
clear = ((λ e. ground arith, λ e. ground arith, λ c d. refl), tt)

current_tag-sync_example :
    (result : Result) × (asked : Text) × (password : Text) × (own_key
        (ascii "db")
        asked
        (ascii "u")
        password
      ≡ fetched result)
    × ((current_tag
          (etag_path no_command own_key in_dir (ascii "/var/") exposure)
          exposure
          (calm (sync no_command own_key in_dir (ascii "/var/") (ascii "now") exposure used).1)).0
        ≡ some result.etag)
current_tag-sync_example =
    current_tag-sync no_command no_command_tidy own_key in_dir (ascii "/var/") (ascii "now")
      exposure used sends (fresh used refl) distinct clear synced

apart :
    Apart failing failing_tidy
      (etag_path failing own_key in_dir (ascii "/var/") reloading)
      (stamp_path failing own_key in_dir (ascii "/var/") reloading)
      reloading
unfolding etag_path stamp_path ascii
apart = (λ e. ground arith, (λ e. ground arith, tt))

reload_failed :
    (sync failing own_key in_dir (ascii "/var/") (ascii "now") reloading used).0.err ≢ none
unfolding sync stored
reload_failed e = ground arith

sync_uncommitted_example :
    (sync failing own_key in_dir (ascii "/var/") (ascii "now") reloading used).1.files
      (etag_path failing own_key in_dir (ascii "/var/") reloading)
    ≡ stored (etag_path failing own_key in_dir (ascii "/var/") reloading)
sync_uncommitted_example =
    sync_uncommitted failing failing_tidy own_key in_dir (ascii "/var/") (ascii "now") reloading
      used (fresh used refl)
      (failing-Spares (etag_path failing own_key in_dir (ascii "/var/") reloading)) apart
      reload_failed

reloading-IsClear : IsClear failing failing_tidy tag_file stamp reloading
unfolding ascii
reloading-IsClear = ((λ e. ground arith, λ e. ground arith, λ c d. refl), tt)

reloading-Apart : Apart failing failing_tidy tag_file stamp reloading
unfolding ascii
reloading-Apart = (λ e. ground arith, (λ e. ground arith, tt))

old_kept : used.files tag_file ≡ some (tag_content (ascii "t0"))
unfolding stored
old_kept = refl

not_reloaded :
    (handle_fetched failing tag_file stamp (ascii "now") reloading (fetched answer) used).0.err
    ≡ some command_failed
unfolding handle_fetched text_beq ascii
not_reloaded = refl

current_tag_reverted_example :
    let after =
      (handle_fetched failing tag_file stamp (ascii "now") reloading (fetched answer) used).1 in
    All (λ f. after.files f.path ≡ some (wanted answer.values f)) reloading.targets
    × ((current_tag tag_file reloading (calm after)).0
        ≡ some (trim_space (ascii "t0" ++ (10 ∷ []))))
current_tag_reverted_example =
    current_tag_reverted failing failing_tidy tag_file stamp (ascii "now") (ascii "t0") reloading
      answer used (fresh used refl) distinct reloading-IsClear reloading-Apart
      (failing-Spares tag_file) old_kept not_reloaded
