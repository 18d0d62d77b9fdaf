-- ===== src/Tests/Agent.antt =====
-- agent/internal/fetch/fetch.go on one exposure with one target.
use kube_secret_gateway.Base.{
  Bool, true, false, Text, ascii, List, [], ◌∷◌, ◌++◌, Option, some, none, ◌≡◌, ◌≢◌, refl, arith,
  if◌then◌else◌, ◌==◌, text_eq, text_beq,
}
use kube_secret_gateway.Agent.Settings.{Target, Exposure}
use kube_secret_gateway.Agent.Client.{Fetched, fetched}
use kube_secret_gateway.Agent.Disk.{File, Disk}
use kube_secret_gateway.Agent.Fetch.Sync.{sync, install_failed}
use kube_secret_gateway.Agent.Fetch.InstallLaws.{sync_files}

abbrev pub target : Target
target = record { key = ascii "user"; path = ascii "/run/user"; mode = 384 }

abbrev pub exposure : Exposure
exposure = record {
  name = ascii "db";
  auth = record { username = ascii "u"; password_file = ascii "/etc/p" };
  interval = 60_000_000_000;
  on_change_command = [];
  targets = target ∷ [];
}

unfoldable pub password_only : Text → Option File
unfolding ascii text_beq
password_only path =
    if path == ascii "/etc/p" then some (record { content = ascii "secret"; mode = 384 }) else none

abbrev pub disk : Disk
disk = record { files = password_only; temps = []; next_temp = 0; faults = [] }

-- The gateway answers with a key that is not the target's, and then with the target's.
abbrev pub other_key : Text → Text → Text → Text → Fetched
other_key name tag username password =
    fetched (record { values = (ascii "host", ascii "h") ∷ []; etag = ascii "t1" })

abbrev pub own_key : Text → Text → Text → Text → Fetched
own_key name tag username password =
    fetched (record { values = (ascii "user", ascii "root") ∷ []; etag = ascii "t1" })

abbrev pub no_command : List Text → Disk → Bool × Disk
no_command command d = (true, d)

abbrev pub in_dir : Text → Text → Text
in_dir dir name = dir ++ name

lacking_unchanged :
    (sync no_command other_key in_dir (ascii "/var/") (ascii "now") exposure disk).0.changed ≡ false
unfolding sync password_only
lacking_unchanged = refl

lacking_reported :
    (sync no_command other_key in_dir (ascii "/var/") (ascii "now") exposure disk).0.err
    ≢ some install_failed
unfolding sync password_only
lacking_reported e = ground arith

sync_files_example :
    (sync no_command other_key in_dir (ascii "/var/") (ascii "now") exposure disk).1.files
    ≡ password_only
sync_files_example =
    sync_files no_command other_key in_dir (ascii "/var/") (ascii "now") exposure disk
      lacking_unchanged lacking_reported

installed :
    (sync no_command own_key in_dir (ascii "/var/") (ascii "now") exposure disk).1.files
      (ascii "/run/user")
    ≡ some (record { content = ascii "root"; mode = 384 })
unfolding sync password_only
installed = refl
