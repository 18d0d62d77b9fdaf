-- ===== src/Agent/Fetch/Reverted.antt =====
-- A command that fails leaves new targets beside the old tag (fetch.go, Sync and currentETag).
use kube_secret_gateway.Base.{
  Bool, Text, List, [], ◌∷◌, ◌++◌, Option, some, ◌≡◌, ◌≢◌, refl, arith, All, ◌∙◌, ap, trim_space,
  Distinct, Bool-cases, inl, inr, null, text_eq,
}
use kube_secret_gateway.Agent.Settings.{Exposure}
use kube_secret_gateway.Agent.Client.{Result, fetched}
use kube_secret_gateway.Agent.Disk.{File, Disk}
use kube_secret_gateway.Agent.Fetch.Install.{install, touch_stamp}
use kube_secret_gateway.Agent.Fetch.TempLaws.{IsFresh}
use kube_secret_gateway.Agent.Fetch.Atomic.{wanted, put_all}
use kube_secret_gateway.Agent.Fetch.FreshLaws.{touch_stamp_other}
use kube_secret_gateway.Agent.Fetch.Commit.{
  install_all, Spares, IsTidy, ran, ran_other, Apart, handle_fetched_failed,
}
use kube_secret_gateway.Agent.Fetch.Recorded.{tag_content}
use kube_secret_gateway.Agent.Fetch.RoundTrip.{
  paths, put_all-All, All-zip2, InPlace, calm, IsClear, current_tag-calm,
}
use kube_secret_gateway.Agent.Fetch.Sync.{
  command_failed, lacking, commit, apply, handle_fetched, current_tag,
}

module _ (exec : List Text → Disk → Bool × Disk) (tidy : IsTidy exec) where
  -- Where the command fails, the targets have been written.
  apply_command_failed :
      (tag_file stamp now : Text) (e : Exposure) (result : Result) (d : Disk) (p : Text)
      → IsFresh d
      → p ≢ stamp
      → Spares exec p
      → (apply exec tag_file stamp now e result d).0.err ≡ some command_failed
      → (apply exec tag_file stamp now e result d).1.files p
        ≡ put_all e.targets result.values d.files p
  unfolding apply commit ran
  apply_command_failed tag_file stamp now e result d p free far spared failed =
      let d1 = (install e.targets result.values d).1 in
      let d2 = (touch_stamp stamp now d1).1 in
      let same =
        ran_other exec tidy e.on_change_command d2 p spared
        ∙ touch_stamp_other stamp now p d1 far in
      elim (Bool-cases (install e.targets result.values d).0) [
        | inr broken ↦ absurd (ground arith)
        | inl installed ↦
            let all =
              ap (λ (f : Text → Option File). f p)
                (install_all e.targets result.values d free installed) in
            elim (Bool-cases (touch_stamp stamp now d1).0) [
              | inr broken ↦ absurd (ground arith)
              | inl stamped ↦ ground (arith, same ∙ all)
            ]
      ]

  handle_fetched_command_failed :
      (tag_file stamp now : Text) (e : Exposure) (result : Result) (d : Disk) (p : Text)
      → IsFresh d
      → p ≢ stamp
      → Spares exec p
      → (handle_fetched exec tag_file stamp now e (fetched result) d).0.err ≡ some command_failed
      → (handle_fetched exec tag_file stamp now e (fetched result) d).1.files p
        ≡ put_all e.targets result.values d.files p
  unfolding handle_fetched
  handle_fetched_command_failed tag_file stamp now e result d p free far spared failed =
      elim (Bool-cases (null (lacking e.targets result.values))) [
        | inr missing ↦ absurd (ground arith)
        | inl all ↦
            rw (all, handle_fetched)
              (apply_command_failed tag_file stamp now e result d p free far spared (ground arith))
      ]

  -- Where the command fails after an answer was installed, every target holds the new value, but
  -- currentETag goes on to read the old tag: a gateway whose Secret has meanwhile gone back to the
  -- old value then answers 304, and the targets keep the new one.
  pub current_tag_reverted :
      (tag_file stamp now old : Text) (e : Exposure) (result : Result) (d : Disk)
      → IsFresh d
      → Distinct (paths e.targets)
      → IsClear exec tidy tag_file stamp e
      → Apart exec tidy tag_file stamp e
      → Spares exec tag_file
      → d.files tag_file ≡ some (tag_content old)
      → (handle_fetched exec tag_file stamp now e (fetched result) d).0.err ≡ some command_failed
      → let after = (handle_fetched exec tag_file stamp now e (fetched result) d).1 in
        All (λ f. after.files f.path ≡ some (wanted result.values f)) e.targets
        × ((current_tag tag_file e (calm after)).0 ≡ some (trim_space (old ++ (10 ∷ []))))
  unfolding wanted
  current_tag_reverted tag_file stamp now old e result d free distinct clear apart spares kept
        failed =
      let after = (handle_fetched exec tag_file stamp now e (fetched result) d).1 in
      let held : All (λ f. after.files f.path ≡ some (wanted result.values f)) e.targets =
        All-zip2
          (λ f. put_all e.targets result.values d.files f.path ≡ some (wanted result.values f))
          (λ f. (f.path ≢ tag_file) × (f.path ≢ stamp) × Spares exec f.path)
          (λ f. after.files f.path ≡ some (wanted result.values f)) e.targets
          (λ f here (own, far, spared).
            handle_fetched_command_failed tag_file stamp now e result d f.path free far spared
              failed
            ∙ here)
          (put_all-All e.targets result.values d.files distinct) clear in
      let in_place : All (InPlace after.files) e.targets =
        All-zip2 (λ f. after.files f.path ≡ some (wanted result.values f))
          (λ f. (f.path ≢ tag_file) × (f.path ≢ stamp) × Spares exec f.path) (InPlace after.files)
          e.targets (λ f here clear. (wanted result.values f, here, refl)) held clear in
      (
        held,
        current_tag-calm exec tidy tag_file old e after in_place (
            handle_fetched_failed exec tidy tag_file stamp now e (fetched result) d free spares
              apart (λ ok. ground arith)
            ∙ kept),
      )
