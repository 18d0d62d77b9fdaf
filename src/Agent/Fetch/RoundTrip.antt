-- ===== src/Agent/Fetch/RoundTrip.antt =====
-- The tag that Sync records is the tag that the next Sync asks with (fetch.go, currentETag).
use kube_secret_gateway.Base.{
  Bool, false, Text, List, [], ◌∷◌, ◌++◌, Option, some, ◌≡◌, ◌≢◌, refl, arith, All, ◌∙◌, ap,
  text_eq, nat_eq, trim_space, map, contains, Distinct,
}
use kube_secret_gateway.Agent.Settings.{Target, Exposure}
use kube_secret_gateway.Agent.Client.{Result, Fetched, fetched}
use kube_secret_gateway.Agent.Disk.{File, Disk, put_file}
use kube_secret_gateway.Agent.Fetch.TempLaws.{IsFresh}
use kube_secret_gateway.Agent.Fetch.Atomic.{wanted, put_all}
use kube_secret_gateway.Agent.Fetch.Commit.{put_all_other, Spares, IsTidy}
use kube_secret_gateway.Agent.Fetch.Recorded.{
  Recorded, success, tag_content, sync-Committed, put_file_at,
}
use kube_secret_gateway.Agent.Fetch.Sync.{
  check_targets, intact, stored_tag, current_tag, sync, etag_path, stamp_path,
}

abbrev pub paths : List Target → List Text
paths targets = map (λ f. f.path) targets

not_listed :
    (p : Text) (targets : List Target)
    → contains (paths targets) p ≡ false
    → All (λ g. p ≢ g.path) targets
not_listed p [] h = tt
not_listed p (g ∷ targets) h =
    (ground (arith, text_eq.same_iff p g.path), not_listed p targets (ground arith))

-- Targets with paths of their own all hold what they ask for.
pub put_all-All :
    (targets : List Target) (values : List (Text × Text)) (files : Text → Option File)
    → Distinct (paths targets)
    → All (λ f. put_all targets values files f.path ≡ some (wanted values f)) targets
unfolding put_all
put_all-All [] values files d = tt
put_all-All (f ∷ targets) values files (alone, d) = (
  put_all_other targets values (put_file f.path (wanted values f) files) f.path
        (not_listed f.path targets alone)
      ∙ put_file_at f.path (wanted values f) files,
  put_all-All targets values (put_file f.path (wanted values f) files) d,
)

-- A target that is present with its mode.
abbrev pub InPlace : (Text → Option File) → Target → Type 0
InPlace files f = (file : File) × (files f.path ≡ some file) × (file.mode ≡ f.mode)

-- The disk when no call fails any more.
abbrev pub calm : Disk → Disk
calm d = record d { faults = [] }

check_targets-InPlace :
    (targets : List Target) (d : Disk)
    → All (InPlace d.files) targets
    → check_targets targets (calm d) ≡ (intact, calm d)
unfolding check_targets
check_targets-InPlace [] d h = refl
check_targets-InPlace (f ∷ targets) d ((file, found, mode), h) =
    ground (arith, found, mode, check_targets-InPlace targets d h)

pub All-zip2 {κ μ ν} :
    {A : Type 0} (P : A → Type κ) (Q : A → Type μ) (R : A → Type ν) (xs : List A)
    → ((x : A) → P x → Q x → R x)
    → All P xs
    → All Q xs
    → All R xs
All-zip2 P Q R [] f h k = tt
All-zip2 P Q R (x ∷ xs) f (p, h) (q, k) = (f x p q, All-zip2 P Q R xs f h k)

module _ (exec : List Text → Disk → Bool × Disk) (tidy : IsTidy exec) where
  -- The targets keep clear of the state files, and the command leaves them alone.
  abbrev pub IsClear : Text → Text → Exposure → Type 0
  IsClear tag_file stamp e =
      All (λ f. (f.path ≢ tag_file) × (f.path ≢ stamp) × Spares exec f.path) e.targets

  Recorded-InPlace :
      (tag_file stamp : Text) (e : Exposure) (result : Result) (before after : Text → Option File)
      → Distinct (paths e.targets)
      → IsClear tag_file stamp e
      → Recorded exec tag_file stamp e result before after
      → All (InPlace after) e.targets
  unfolding wanted
  Recorded-InPlace tag_file stamp e result before after distinct clear r =
      All-zip2 (λ f. put_all e.targets result.values before f.path ≡ some (wanted result.values f))
        (λ f. (f.path ≢ tag_file) × (f.path ≢ stamp) × Spares exec f.path) (InPlace after) e.targets
        (λ f here (own, far, spared).
          (wanted result.values f, r.targets f.path own far spared ∙ here, refl))
        (put_all-All e.targets result.values before distinct) clear

  stored_tag-calm :
      (tag_file tag : Text) (d : Disk)
      → d.files tag_file ≡ some (tag_content tag)
      → (stored_tag tag_file (calm d)).0 ≡ some (trim_space (tag ++ (10 ∷ [])))
  unfolding stored_tag
  stored_tag-calm tag_file tag d e = rw (e, stored_tag) refl

  pub current_tag-calm :
      (tag_file tag : Text) (e : Exposure) (d : Disk)
      → All (InPlace d.files) e.targets
      → d.files tag_file ≡ some (tag_content tag)
      → (current_tag tag_file e (calm d)).0 ≡ some (trim_space (tag ++ (10 ∷ [])))
  unfolding current_tag
  current_tag-calm tag_file tag e d here stored =
      ground (arith, check_targets-InPlace e.targets d here, stored_tag-calm tag_file tag d stored)

  module _ (fetch : Text → Text → Text → Text → Fetched) (join : Text → Text → Text) where
    -- The tags that the gateway sends neither begin nor end with white space.
    abbrev pub SendsTags : Type 0
    SendsTags =
        (name tag username password : Text) (result : Result)
        → fetch name tag username password ≡ fetched result
        → trim_space (result.etag ++ (10 ∷ [])) ≡ result.etag

    -- After a synchronization that succeeds, currentETag reads the tag of the answer that was
    -- installed, as long as no call on the disk fails: the exposure's targets have paths of their
    -- own, away from the state files, the command leaves them alone, and the gateway's tags
    -- neither begin nor end with white space.
    pub current_tag-sync :
        (state_dir now : Text) (e : Exposure) (d : Disk)
        → SendsTags
        → IsFresh d
        → Distinct (paths e.targets)
        → IsClear (etag_path exec fetch join state_dir e) (stamp_path exec fetch join state_dir e) e
        → (sync exec fetch join state_dir now e d).0 ≡ success
        → (result : Result) × (asked : Text) × (password : Text) × (fetch e.name asked
              e.auth.username password
            ≡ fetched result)
          × ((current_tag
                (etag_path exec fetch join state_dir e)
                e
                (calm (sync exec fetch join state_dir now e d).1)).0
              ≡ some result.etag)
    current_tag-sync state_dir now e d sends free distinct clear ok =
        let tag_file = etag_path exec fetch join state_dir e in
        let stamp = stamp_path exec fetch join state_dir e in
        let after = (sync exec fetch join state_dir now e d).1 in
        let c = sync-Committed exec tidy fetch join state_dir now e d free ok in
        let here =
          Recorded-InPlace tag_file stamp e c.result d.files after.files distinct clear
            c.recorded in
        (
          c.result,
          c.asked,
          c.password,
          c.answered,
          current_tag-calm tag_file c.result.etag e after here c.recorded.tag
              ∙ ap some (sends e.name c.asked e.auth.username c.password c.result c.answered),
        )
