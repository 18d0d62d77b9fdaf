-- ===== src/Agent/Fetch/Atomic.antt =====
-- install of fetch.go against its contract: the disk looks as if some first part of the targets
-- had been written completely, and all of them where install succeeds.
use kube_secret_gateway.Base.{
  ℕ, ◌≤◌, ◌<◌, Bool, false, Text, List, [], ◌∷◌, ◌++◌, Option, some, none, ◌≡◌, ◌≢◌, inl, inr, refl,
  arith, All, null, Option-cases, ◌∙◌, ap, sym, subst, nat_eq,
}
use mathlib.Core.List.{append_assoc, append-nil}
use kube_secret_gateway.Gateway.Auth.{value_or_nil}
use kube_secret_gateway.Agent.Settings.{Target}
use kube_secret_gateway.Agent.Disk.{File, Disk, attempt, call, find_temp, put_file, rename_temp}
use kube_secret_gateway.Agent.Fetch.Install.{write_temp, write_temps, rename_temps, install}
use kube_secret_gateway.Agent.Fetch.FrameLaws.{attempt_keeps, call_cases, find_temp-drop_temp}
use kube_secret_gateway.Agent.Fetch.TempLaws.{IsFresh, write_temp-Written}
use kube_secret_gateway.Agent.Fetch.InstallLaws.{write_temps_files, remove_temps_files}

-- The file that a target asks for.
unfoldable pub wanted : List (Text × Text) → Target → File
wanted values f = record { content = value_or_nil f.key values; mode = f.mode }

-- The files once these targets have been written, one after the other.
unfoldable pub put_all :
    List Target → List (Text × Text) → (Text → Option File) → Text → Option File
put_all [] values files = files
put_all (f ∷ targets) values files =
    put_all targets values (put_file f.path (wanted values f) files)

-- Under each number stands the complete file of its target, and no number stands twice.
abbrev Ready : List (Text × Text) → List Target → List ℕ → Disk → Type 0
Ready values [] ids d = Unit {0}
Ready values (f ∷ targets) [] d = ⊥
Ready values (f ∷ targets) (id ∷ ids) d =
    (find_temp id d.temps ≡ some (wanted values f))
    × All (λ j. j ≢ id) ids
    × Ready values targets ids d

wanted_lem :
    (values : List (Text × Text)) (f : Target)
    → wanted values f ≡ record { content = value_or_nil f.key values; mode = f.mode }
unfolding wanted
wanted_lem values f = refl

above : (id n : ℕ) (ids : List ℕ) → id < n → All (λ j. n ≤ j) ids → All (λ j. j ≢ id) ids
above id n [] h hs = tt
above id n (j ∷ ids) h (low, hs) = (omega (arith, low), above id n ids h hs)

weaken : (m n : ℕ) (ids : List ℕ) → m ≤ n → All (λ j. n ≤ j) ids → All (λ j. m ≤ j) ids
weaken m n [] h hs = tt
weaken m n (j ∷ ids) h (low, hs) = (omega (arith, low), weaken m n ids h hs)

-- What the first loop leaves where it succeeds.
record Prepared (values : List (Text × Text)) (targets : List Target) (temps out : List ℕ)
    (d d' : Disk) : Type 0 where
  ids : List ℕ
  listed : out ≡ temps ++ ids
  ready : Ready values targets ids d'
  new : All (λ j. d.next_temp ≤ j) ids
  kept : (j : ℕ) → j < d.next_temp → find_temp j d'.temps ≡ find_temp j d.temps

module _ (values : List (Text × Text)) where
  write_temps-Prepared :
      (targets : List Target) (temps out : List ℕ) (d : Disk)
      → IsFresh d
      → (write_temps targets values temps d).0 ≡ some out
      → Prepared values targets temps out d (write_temps targets values temps d).1
  unfolding write_temps
  write_temps-Prepared [] temps out d free e = record {
    ids = [];
    listed = ground (arith, append-nil temps);
    ready = tt;
    new = tt;
    kept = λ j near. refl;
  }
  write_temps-Prepared (f ∷ targets) temps out d free e =
      let bytes = value_or_nil f.key values in
      let w = write_temp-Written bytes f.mode d free in
      let d1 = (write_temp bytes f.mode d).1 in
      elim (Option-cases (write_temp bytes f.mode d).0) [
        | inl failed ↦ absurd (ground arith)
        | inr (id, found) ↦
            let made = w.made id found in
            let rest =
              write_temps-Prepared targets (temps ++ (id ∷ [])) out d1 w.fresh (ground arith) in
            rw (found, write_temps)
              (record {
                ids = id ∷ rest.ids;
                listed = rest.listed ∙ append_assoc temps (id ∷ []) rest.ids;
                ready = (
                  ground (arith, rest.kept id, made, wanted_lem values f),
                  above id d1.next_temp rest.ids made.1 rest.new,
                  rest.ready,
                );
                new = (made.0, weaken d.next_temp d1.next_temp rest.ids w.next_le rest.new);
                kept = λ j near. rest.kept j (omega (arith, near, w.next_le)) ∙ w.kept j near;
              })
      ]

-- A call of os.Rename for a temporary file that is there.
pub renamed_lem :
    (id : ℕ) (path : Text) (d : Disk) (file : File)
    → find_temp id d.temps ≡ some file
    → ((rename_temp id path d).files ≡ put_file path file d.files)
      × ((j : ℕ) → j ≢ id → find_temp j (rename_temp id path d).temps ≡ find_temp j d.temps)
unfolding rename_temp
renamed_lem id path d file e =
    rw (e, rename_temp) (refl, λ j far. ground (arith, find_temp-drop_temp id j d.temps))

-- What is ready stays ready while other numbers change.
Ready-transport :
    (values : List (Text × Text)) (targets : List Target) (ids : List ℕ) (id : ℕ) (d d' : Disk)
    → ((j : ℕ) → j ≢ id → find_temp j d'.temps ≡ find_temp j d.temps)
    → All (λ j. j ≢ id) ids
    → Ready values targets ids d
    → Ready values targets ids d'
Ready-transport values [] ids id d d' same far r = tt
Ready-transport values (f ∷ targets) [] id d d' same far r = absurd r
Ready-transport values (f ∷ targets) (j ∷ ids) id d d' same (new, far) (file, alone, r) =
    (same j new ∙ file, alone, Ready-transport values targets ids id d d' same far r)

-- The disk looks as if a first part of the targets had been written, and all of them on success.
pub record Installs (values : List (Text × Text)) (targets : List Target)
    (before after : Text → Option File) (ok : Bool) : Type 0 where
  pub written : List Target
  pub left : List Target
  pub split : targets ≡ written ++ left
  pub result : after ≡ put_all written values before
  pub complete : ok ≡ null left

module _ (values : List (Text × Text)) where
  rename_temps-Installs :
      (targets : List Target) (ids : List ℕ) (d : Disk)
      → Ready values targets ids d
      → let (ok, d') = rename_temps targets ids d in Installs values targets d.files d'.files ok
  unfolding rename_temps put_all
  rename_temps-Installs [] ids d r = record {
    written = [];
    left = [];
    split = refl;
    result = refl;
    complete = refl;
  }
  rename_temps-Installs (f ∷ targets) [] d r = absurd r
  rename_temps-Installs (f ∷ targets) (id ∷ ids) d (file, far, r) =
      let d0 = (attempt d).1 in
      let d1 = (call (rename_temp id f.path) d).1 in
      let here : find_temp id d0.temps ≡ some (wanted values f) = ground (arith, attempt_keeps d) in
      let r0 =
        Ready-transport values targets ids id d d0 (λ j new. rw (attempt_keeps d).1 refl) far r in
      let (put, others) = renamed_lem id f.path d0 (wanted values f) here in
      elim (call_cases (rename_temp id f.path) d) [
        | inl (done, e) ↦
            let r1 =
              Ready-transport values targets ids id d0 (rename_temp id f.path d0) others far r0 in
            let rest = rename_temps-Installs targets ids (rename_temp id f.path d0) r1 in
            rw (done, e, rename_temps)
              (record {
                written = f ∷ rest.written;
                left = rest.left;
                split = ap (λ (l : List Target). f ∷ l) rest.split;
                result =
                    rest.result
                    ∙ ap (put_all rest.written values)
                        (put ∙ ap (put_file f.path (wanted values f)) (attempt_keeps d).0);
                complete = rest.complete;
              })
        | inr (failed, e) ↦
            rw (failed, e, rename_temps)
              (record {
                written = [];
                left = f ∷ targets;
                split = refl;
                result = remove_temps_files (id ∷ ids) d0 ∙ (attempt_keeps d).0;
                complete = refl;
              })
      ]

  failed_lem :
      (targets : List Target) (d : Disk)
      → (write_temps targets values [] d).0 ≡ none
      → false ≡ null targets
  unfolding write_temps
  failed_lem [] d e = cc e
  failed_lem (f ∷ targets) d e = refl

  -- From a disk on whose temporary files the next numbers are free, install leaves the disk as if
  -- some first part of the targets had been written, each with its whole value and its mode: all
  -- of them if it succeeds, not all if it fails, and no file is ever seen half-written.
  pub install-Installs :
      (targets : List Target) (d : Disk)
      → IsFresh d
      → let (ok, d') = install targets values d in Installs values targets d.files d'.files ok
  unfolding install
  install-Installs targets d free =
      let d1 = (write_temps targets values [] d).1 in
      let same = write_temps_files targets values [] d in
      elim (Option-cases (write_temps targets values [] d).0) [
        | inl failed ↦
            rw (failed, install)
              (record {
                written = [];
                left = targets;
                split = refl;
                result = unfold put_all in same;
                complete = failed_lem targets d failed;
              })
        | inr (out, found) ↦
            let p = write_temps-Prepared values targets [] out d free found in
            let ids_out : p.ids ≡ out = sym p.listed in
            let ready = subst (λ ids. Ready values targets ids d1) ids_out p.ready in
            let r = rename_temps-Installs targets out d1 ready in
            rw (found, install)
              (record {
                written = r.written;
                left = r.left;
                split = r.split;
                result = r.result ∙ ap (put_all r.written values) same;
                complete = r.complete;
              })
      ]
