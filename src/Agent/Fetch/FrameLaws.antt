-- ===== src/Agent/Fetch/FrameLaws.antt =====
-- The calls on one temporary file of fetch.go: each leaves all else on the disk alone.
use kube_secret_gateway.Base.{
  ℕ, true, false, List, [], ◌∷◌, some, none, ◌==◌, nat_eq, ◌≡◌, ◌≢◌, ◌⊎◌, inl, inr, refl, arith,
  Bool-cases, if◌then◌else◌, ◌∙◌,
}
use kube_secret_gateway.Agent.Disk.{
  File, Disk, attempt, call, change_temp, write_onto, remove_temp, delete_temp, drop_temp,
  find_temp,
}

pub find_temp-drop_temp :
    (id j : ℕ) (temps : List (ℕ × File))
    → find_temp j (drop_temp id temps) ≡ (if j == id then none else find_temp j temps)
unfolding find_temp drop_temp
find_temp-drop_temp id j [] = ground arith
find_temp-drop_temp id j ((k, f) ∷ temps) = ground (arith, find_temp-drop_temp id j temps)

pub find_temp-write_onto :
    (id j : ℕ) (change : File → File) (temps : List (ℕ × File)) (file : File)
    → find_temp id temps ≡ some file
    → find_temp j (write_onto id change temps)
      ≡ (if j == id then some (change file) else find_temp j temps)
unfolding find_temp write_onto
find_temp-write_onto id j change [] file e = absurd (cc e)
find_temp-write_onto id j change ((k, f) ∷ temps) file e =
    ground (arith, find_temp-write_onto id j change temps file)

-- What a call can do to the disk besides taking a fault.
pub attempt_keeps :
    (d : Disk)
    → ((attempt d).1.files ≡ d.files)
      × ((attempt d).1.temps ≡ d.temps)
      × ((attempt d).1.next_temp ≡ d.next_temp)
unfolding attempt
attempt_keeps d = ground arith

-- A call succeeds, or does nothing.
pub call_cases :
    (f : Disk → Disk) (d : Disk)
    → (((call f d).0 ≡ true) × ((call f d).1 ≡ f (attempt d).1))
      ⊎ (((call f d).0 ≡ false) × ((call f d).1 ≡ (attempt d).1))
unfolding call
call_cases f d = elim (Bool-cases (attempt d).0) [
  | inl done ↦ inl (rw done (refl, refl))
  | inr failed ↦ inr (rw failed (refl, refl))
]

-- Only the temporary file `id` differs.
pub record Frame (id : ℕ) (d d' : Disk) : Type 0 where
  pub same_files : d'.files ≡ d.files
  pub same_next : d'.next_temp ≡ d.next_temp
  pub others : (j : ℕ) → j ≢ id → find_temp j d'.temps ≡ find_temp j d.temps

pub Frame-trans : (id : ℕ) (a b c : Disk) → Frame id a b → Frame id b c → Frame id a c
Frame-trans id a b c p q = record {
  same_files = q.same_files ∙ p.same_files;
  same_next = q.same_next ∙ p.same_next;
  others = λ j far. q.others j far ∙ p.others j far;
}

pub attempt-Frame : (id : ℕ) (d : Disk) → Frame id d (attempt d).1
attempt-Frame id d = record {
  same_files = (attempt_keeps d).0;
  same_next = (attempt_keeps d).2;
  others = λ j far. rw (attempt_keeps d).1 refl;
}

pub call-Frame :
    (id : ℕ) (f : Disk → Disk) (d : Disk)
    → Frame id (attempt d).1 (f (attempt d).1)
    → Frame id d (call f d).1
call-Frame id f d step = elim (call_cases f d) [
  | inl (done, e) ↦
      rw e (Frame-trans id d (attempt d).1 (f (attempt d).1) (attempt-Frame id d) step)
  | inr (failed, e) ↦ rw e (attempt-Frame id d)
]

pub Frame-refl : (id : ℕ) (d : Disk) → Frame id d d
Frame-refl id d = record { same_files = refl; same_next = refl; others = λ j far. refl }

delete_temp-Frame : (id : ℕ) (d : Disk) → Frame id d (delete_temp id d)
unfolding delete_temp
delete_temp-Frame id d = record {
  same_files = refl;
  same_next = refl;
  others = λ j far. ground (arith, find_temp-drop_temp id j d.temps);
}

pub remove_temp-Frame : (id : ℕ) (d : Disk) → Frame id d (remove_temp id d)
unfolding remove_temp
remove_temp-Frame id d = call-Frame id (delete_temp id) d (delete_temp-Frame id (attempt d).1)

write_onto_others :
    (id j : ℕ) (change : File → File) (temps : List (ℕ × File))
    → j ≢ id
    → find_temp j (write_onto id change temps) ≡ find_temp j temps
unfolding find_temp write_onto
write_onto_others id j change [] far = refl
write_onto_others id j change ((k, f) ∷ temps) far =
    ground (arith, write_onto_others id j change temps far)

pub change_temp-Frame : (id : ℕ) (f : File → File) (d : Disk) → Frame id d (change_temp id f d)
unfolding change_temp
change_temp-Frame id f d = record {
  same_files = refl;
  same_next = refl;
  others = λ j far. write_onto_others id j f d.temps far;
}

-- One call in the life of a temporary file: only that file can change, and if the call succeeds it
-- is changed as the call says.
pub change_lem :
    (id : ℕ) (change : File → File) (d : Disk) (file : File)
    → find_temp id d.temps ≡ some file
    → (call (change_temp id change) d).0 ≡ true
    → find_temp id (call (change_temp id change) d).1.temps ≡ some (change file)
unfolding change_temp
change_lem id change d file e done = ground (
  arith,
  call_cases (change_temp id change) d,
  find_temp-write_onto id id change (attempt d).1.temps file,
  attempt_keeps d,
)

pub idle_lem : (d : Disk) → (call (λ d. d) d).1.temps ≡ d.temps
idle_lem d = ground (arith, call_cases (λ d. d) d, attempt_keeps d)
