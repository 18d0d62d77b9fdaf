-- ===== src/Agent/Fetch/TempLaws.antt =====
-- Writing the temporary files of fetch.go: what writeTemp leaves under its number, and what it
-- leaves alone.
use kube_secret_gateway.Base.{
  ℕ, ◌+◌, ◌≤◌, ◌<◌, true, ◌&&◌, Text, [], Option, some, none, ◌==◌, nat_eq, ◌≡◌, inl, inr, refl,
  arith, Bool-cases, if◌then◌else◌, ◌∙◌,
}
use kube_secret_gateway.Agent.Disk.{File, Disk, attempt, call, change_temp, remove_temp, find_temp}
use kube_secret_gateway.Agent.Fetch.Install.{fill, fill_temp, create_temp, write_temp}
use kube_secret_gateway.Agent.Fetch.FrameLaws.{
  attempt_keeps, Frame, Frame-trans, call-Frame, Frame-refl, remove_temp-Frame, change_temp-Frame,
  change_lem, idle_lem,
}

fill-Frame : (id : ℕ) (bytes : Text) (mode : ℕ) (d : Disk) → Frame id d (fill id bytes mode d).1
unfolding fill
fill-Frame id bytes mode d =
    let change1 : File → File = λ f. record f { mode = mode } in
    let change2 : File → File = λ f. record f { content = bytes } in
    let d1 = (call (change_temp id change1) d).1 in
    let d2 = (call (change_temp id change2) d1).1 in
    let d3 = (call (λ d. d) d2).1 in
    let f1 =
      call-Frame id (change_temp id change1) d (change_temp-Frame id change1 (attempt d).1) in
    let f2 =
      Frame-trans id d d1 d2 f1
        (call-Frame id (change_temp id change2) d1 (change_temp-Frame id change2 (attempt d1).1)) in
    let f3 = Frame-trans id d d2 d3 f2 (call-Frame id (λ d. d) d2 (Frame-refl id (attempt d2).1)) in
    elim (Bool-cases (call (change_temp id change1) d).0) [
      | inr failed ↦ rw failed f1
      | inl done ↦ elim (Bool-cases (call (change_temp id change2) d1).0) [
        | inr failed ↦ rw (done, failed) f2
        | inl done2 ↦ rw (done, done2) f3
      ]
    ]

fill_lem :
    (id : ℕ) (bytes : Text) (mode : ℕ) (d : Disk) (file : File)
    → find_temp id d.temps ≡ some file
    → (fill id bytes mode d).0 ≡ true
    → find_temp id (fill id bytes mode d).1.temps ≡ some (record { content = bytes; mode = mode })
unfolding fill
fill_lem id bytes mode d file e done =
    let change1 : File → File = λ f. record f { mode = mode } in
    let change2 : File → File = λ f. record f { content = bytes } in
    let d1 = (call (change_temp id change1) d).1 in
    let d2 = (call (change_temp id change2) d1).1 in
    ground
      (arith, change_lem id change1 d file e, change_lem id change2 d1 (change1 file), idle_lem d2)

fill_temp-Frame :
    (id : ℕ) (bytes : Text) (mode : ℕ) (d : Disk) → Frame id d (fill_temp id bytes mode d).1
unfolding fill_temp
fill_temp-Frame id bytes mode d =
    let filled = fill id bytes mode d in
    let d2 = (call (λ d. d) filled.1).1 in
    let f2 =
      Frame-trans id d filled.1 d2 (fill-Frame id bytes mode d)
        (call-Frame id (λ d. d) filled.1 (Frame-refl id (attempt filled.1).1)) in
    elim (Bool-cases (filled.0 && (call (λ d. d) filled.1).0)) [
      | inl done ↦ rw done f2
      | inr failed ↦
          rw failed (Frame-trans id d d2 (remove_temp id d2) f2 (remove_temp-Frame id d2))
    ]

fill_temp_lem :
    (id j : ℕ) (bytes : Text) (mode : ℕ) (d : Disk) (file : File)
    → find_temp id d.temps ≡ some file
    → (fill_temp id bytes mode d).0 ≡ some j
    → (j ≡ id)
      × (find_temp id (fill_temp id bytes mode d).1.temps
          ≡ some (record { content = bytes; mode = mode }))
unfolding fill_temp
fill_temp_lem id j bytes mode d file e made =
    let filled = fill id bytes mode d in
    elim (Bool-cases (filled.0 && (call (λ d. d) filled.1).0)) [
      | inl done ↦ ground (arith, fill_lem id bytes mode d file e, idle_lem filled.1)
      | inr failed ↦ absurd (ground arith)
    ]

-- Numbers from the next one on are free.
abbrev pub IsFresh : Disk → Type 0
IsFresh d = (j : ℕ) → d.next_temp ≤ j → find_temp j d.temps ≡ none

-- What writeTemp does: at most a new temporary file, complete if it is returned.
pub record Written (bytes : Text) (mode : ℕ) (d : Disk) (tmp : Option ℕ) (d' : Disk) : Type 0 where
  pub same_files : d'.files ≡ d.files
  pub next_le : d.next_temp ≤ d'.next_temp
  pub fresh : IsFresh d'
  pub kept : (j : ℕ) → j < d.next_temp → find_temp j d'.temps ≡ find_temp j d.temps
  pub made :
      (id : ℕ)
      → tmp ≡ some id
      → (d.next_temp ≤ id)
        × (id < d'.next_temp)
        × (find_temp id d'.temps ≡ some (record { content = bytes; mode = mode }))

find_temp-create_temp :
    (j : ℕ) (d : Disk)
    → find_temp j (create_temp d).temps ≡ (
        if d.next_temp == j
        then some (record { content = []; mode = 384 })
        else find_temp j d.temps)
unfolding find_temp create_temp
find_temp-create_temp j d = refl

-- Behind the creation of the temporary file.
fill_created_lem :
    (bytes : Text) (mode : ℕ) (d : Disk)
    → IsFresh d
    → let (tmp, d') = fill_temp d.next_temp bytes mode (create_temp d) in
      Written bytes mode d tmp d'
fill_created_lem bytes mode d free =
    let id = d.next_temp in
    let d' = (fill_temp id bytes mode (create_temp d)).1 in
    let frame = fill_temp-Frame id bytes mode (create_temp d) in
    let new : find_temp id (create_temp d).temps ≡ some (record { content = []; mode = 384 }) =
      ground (arith, find_temp-create_temp id d) in
    let next : (create_temp d).next_temp ≡ id + 1 = unfold create_temp in refl in
    let files : (create_temp d).files ≡ d.files = unfold create_temp in refl in
    record {
      same_files = frame.same_files ∙ files;
      next_le = omega (arith, frame.same_next, next);
      fresh = λ j far.
          ground (arith, frame.same_next, next, frame.others j, find_temp-create_temp j d, free j);
      kept = λ j near. ground (arith, frame.others j, find_temp-create_temp j d);
      made = λ j found. ground (
        arith,
        frame.same_next,
        next,
        fill_temp_lem id j bytes mode (create_temp d) (record { content = []; mode = 384 }) new
            found,
      );
    }

-- The state behind a call that takes a fault is as good a start as the one before it.
attempt-Written :
    (bytes : Text) (mode : ℕ) (d : Disk) (tmp : Option ℕ) (d' : Disk)
    → Written bytes mode (attempt d).1 tmp d'
    → Written bytes mode d tmp d'
attempt-Written bytes mode d tmp d' w =
    let (files, temps, next) = attempt_keeps d in
    record {
      same_files = w.same_files ∙ files;
      next_le = omega (arith, next, w.next_le);
      fresh = w.fresh;
      kept = λ j near. ground (arith, w.kept j, temps, next);
      made = λ j found. ground (arith, w.made j found, next);
    }

pub attempt-IsFresh : (d : Disk) → IsFresh d → IsFresh (attempt d).1
attempt-IsFresh d free j far = ground (arith, attempt_keeps d, free j)

-- writeTemp at a state with free numbers.
pub write_temp-Written :
    (bytes : Text) (mode : ℕ) (d : Disk)
    → IsFresh d
    → let (tmp, d') = write_temp bytes mode d in Written bytes mode d tmp d'
unfolding write_temp
write_temp-Written bytes mode d free =
    let d1 = (attempt d).1 in
    elim (Bool-cases (attempt d).0) [
      | inl done ↦ rw done (
          attempt-Written bytes mode d (fill_temp d1.next_temp bytes mode (create_temp d1)).0
            (fill_temp d1.next_temp bytes mode (create_temp d1)).1
            (fill_created_lem bytes mode d1 (attempt-IsFresh d free)))
      | inr failed ↦ rw failed (
          attempt-Written bytes mode d none d1 (record {
            same_files = refl;
            next_le = omega arith;
            fresh = attempt-IsFresh d free;
            kept = λ j near. refl;
            made = λ j found. absurd (cc found);
          }))
    ]
