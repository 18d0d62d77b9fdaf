-- ===== src/Agent/Main/ExitLaws.antt =====
-- What the exit code of the agent says with -once (main.go, run).
use kube_secret_gateway.Base.{
  ℕ, Bool, true, false, ◌≢◌, Text, List, [], ◌∷◌, Option, some, none, ◌≡◌, ◌⊎◌, ◌↔◌, inl, inr, refl,
  arith, All, Distinct, Option-cases, split, text_eq, nat_eq, subst,
}
use kube_secret_gateway.Agent.Settings.{Exposure}
use kube_secret_gateway.Agent.Config.{Gateway, Config, Parsers, Document, Problem}
use kube_secret_gateway.Agent.Config.Resolve.{Resolved, valid, invalid, resolve_document}
use kube_secret_gateway.Agent.Config.FieldLaws.{IsDurations}
use kube_secret_gateway.Agent.Config.ResolveLaws.{resolve_document-IsRunnable}
use kube_secret_gateway.Agent.Disk.{Disk}
use kube_secret_gateway.Agent.Metrics.{Observation, new_metrics, observe_all}
use kube_secret_gateway.Agent.Select.{
  Selection, selected, no_such_exposure, selected_none, select_exposures, check_credentials,
}
use kube_secret_gateway.Agent.Select.Found.{names}
use kube_secret_gateway.Agent.Select.Laws.{Selects, select_exposures-Selects}
use kube_secret_gateway.Agent.Fetch.Poll.{OnceError, once}
use kube_secret_gateway.Agent.Fetch.PollLaws.{once-tries_all}
use kube_secret_gateway.Agent.Main.{
  Flags, World, tried_once, exit_code, load_config, run_runner, run_selected, run_flags, run,
}

Resolved-cases :
    (answer : Resolved)
    → ((cfg : Config) × (answer ≡ valid cfg))
      ⊎ ((problems : List Problem) × (answer ≡ invalid problems))
Resolved-cases (valid cfg) = inl (cfg, refl)
Resolved-cases (invalid problems) = inr (problems, refl)

Selection-cases :
    (s : Selection)
    → ((es : List Exposure) × (s ≡ selected es))
      ⊎ ((missing : List Text) × (s ≡ no_such_exposure missing))
      ⊎ (s ≡ selected_none)
Selection-cases (selected es) = inl (es, refl)
Selection-cases (no_such_exposure missing) = inr (inl (missing, refl))
Selection-cases selected_none = inr (inr refl)

-- What the flag -exposure selects: everything without it.
abbrev pub IsSelection : Config → Text → List Exposure → Type 0
IsSelection cfg only chosen =
    ((only ≡ []) × (chosen ≡ cfg.exposures))
    ⊎ ((only ≢ []) × Selects cfg.exposures (split b',' only) (selected chosen))

-- The flags ask for one try of these exposures of the accepted configuration.
pub record IsAsked (lib : Parsers) (world : World) (chosen : List Exposure) : Type 0 where
  pub flags : Flags
  pub doc : Document
  pub cfg : Config
  pub parsed : world.flags ≡ some flags
  pub only_once : flags.once ≡ true
  pub read : world.read_document ≡ some doc
  pub accepted : resolve_document lib doc ≡ valid cfg
  pub selection : IsSelection cfg flags.only chosen

load_config_lem :
    (lib : Parsers) (doc : Option Document) (cfg : Config)
    → IsDurations lib
    → load_config lib doc ≡ some cfg
    → (d : Document) × (doc ≡ some d)
      × (resolve_document lib d ≡ valid cfg)
      × Distinct (names cfg.exposures)
unfolding load_config
load_config_lem lib none cfg durations e = absurd (cc e)
load_config_lem lib (some d) cfg durations e = elim (Resolved-cases (resolve_document lib d)) [
  | inl (found, accepted) ↦
      let valid_cfg : resolve_document lib d ≡ valid cfg = ground arith in
      (
        d,
        refl,
        valid_cfg,
        (resolve_document-IsRunnable lib d cfg durations valid_cfg).names_distinct,
      )
  | inr (problems, refused) ↦ absurd (ground arith)
]

select_exposures-IsSelection :
    (cfg : Config) (only : Text) (es : List Exposure)
    → select_exposures cfg.exposures only ≡ selected es
    → IsSelection cfg only es
unfolding select_exposures
select_exposures-IsSelection cfg [] es e = inl (refl, ground arith)
select_exposures-IsSelection cfg (c ∷ only) es e = inr (
  λ empty. cc empty,
  subst (Selects cfg.exposures (split b',' (c ∷ only))) e
      (select_exposures-Selects cfg.exposures (c ∷ only) (λ empty. cc empty)),
)

-- What is selected has names of its own.
selected-Distinct :
    (configured : List Exposure) (only : Text) (es : List Exposure)
    → Distinct (names configured)
    → select_exposures configured only ≡ selected es
    → Distinct (names es)
unfolding select_exposures
selected-Distinct configured [] es distinct e =
    subst (λ xs. Distinct (names xs)) (ground arith) distinct
selected-Distinct configured (c ∷ only) es distinct e =
    let s = select_exposures-Selects configured (c ∷ only) (λ empty. cc empty) in
    let s' : Selects configured (split b',' (c ∷ only)) (selected es) =
      subst (Selects configured (split b',' (c ∷ only))) e s in
    s'.1

module _ (lib : Parsers) (has_certificate : Text → Bool) (exec : List Text → Disk → Bool × Disk)
    (join : Text → Text → Text) (world : World) where
  run_selected_lem :
      (flags : Flags) (g : Gateway) (es chosen : List Exposure) (d d' : Disk)
      (errs : List OnceError) (seen : List Observation)
      → run_selected lib has_certificate exec join world flags g es d
        ≡ tried_once chosen errs seen d'
      → run_runner lib has_certificate exec join world flags es (check_credentials es d).1
        ≡ tried_once chosen errs seen d'
  unfolding run_selected
  run_selected_lem flags g es chosen d d' errs seen e = ground arith

  run_runner_lem :
      (flags : Flags) (es chosen : List Exposure) (d d' : Disk) (errs : List OnceError)
      (seen : List Observation)
      → run_runner lib has_certificate exec join world flags es d ≡ tried_once chosen errs seen d'
      → (es ≡ chosen)
        × (flags.once ≡ true)
        × (once exec join flags.state_dir world.moments 0 es d ≡ ((errs, seen), d'))
  unfolding run_runner
  run_runner_lem flags es chosen d d' errs seen e = ground arith

  abbrev pub IsTried : List Exposure → List OnceError → List Observation → Type 0
  IsTried es errs seen =
      let m = observe_all seen new_metrics in
      All (λ e. (m e.name).attempts ≡ 1) es × ((errs ≡ []) ↔ All (λ e. (m e.name).healthy ≡ 1) es)

  run_flags_lem :
      (flags : Flags) (chosen : List Exposure) (d d' : Disk) (errs : List OnceError)
      (seen : List Observation)
      → IsDurations lib
      → ((i : ℕ) → (world.moments i).cancelled ≡ false)
      → run_flags lib has_certificate exec join world flags d ≡ tried_once chosen errs seen d'
      → world.flags ≡ some flags
      → IsAsked lib world chosen × IsTried chosen errs seen
  unfolding run_flags
  run_flags_lem flags chosen d d' errs seen durations going e parsed =
      elim (Option-cases (load_config lib world.read_document)) [
        | inl missing ↦ absurd (ground arith)
        | inr (cfg, loaded) ↦ elim (Selection-cases (select_exposures cfg.exposures flags.only)) [
          | inr (inl (missing, e1)) ↦ absurd (ground arith)
          | inr (inr e1) ↦ absurd (ground arith)
          | inl (es, chose) ↦
              let (doc, read, accepted, own_names) =
                load_config_lem lib world.read_document cfg durations loaded in
              let distinct = selected-Distinct cfg.exposures flags.only es own_names chose in
              let d1 = (check_credentials es d).1 in
              let ran =
                run_selected_lem flags cfg.gateway es chosen d d' errs seen (ground arith) in
              let (same, only_once, tried) = run_runner_lem flags es chosen d1 d' errs seen ran in
              let all =
                once-tries_all exec join flags.state_dir world.moments going es d1 distinct in
              (
                record {
                  flags = flags;
                  doc = doc;
                  cfg = cfg;
                  parsed = parsed;
                  only_once = only_once;
                  read = read;
                  accepted = accepted;
                  selection =
                      subst (IsSelection cfg flags.only) same
                        (select_exposures-IsSelection cfg flags.only es chose);
                },
                subst (λ xs. IsTried xs errs seen) same
                    (subst
                      (λ (x : (List OnceError × List Observation) × Disk). IsTried es x.0.0 x.0.1)
                      tried all),
              )
        ]
      ]

  exit_code_lem :
      (es : List Exposure) (errs : List OnceError) (seen : List Observation) (d : Disk)
      → (exit_code (tried_once es errs seen d) ≡ 0) ↔ (errs ≡ [])
  unfolding exit_code
  exit_code_lem es [] seen d = (λ e. refl, λ e. refl)
  exit_code_lem es (x ∷ errs) seen d = (λ e. absurd (ground arith), λ e. absurd (cc e))

  -- If run ends behind Once over some exposures, -once was given and its document is one that
  -- document.resolve accepts, and the exposures are what -exposure selects of the configuration: all
  -- of them if it is empty, and otherwise those that it names. If the context does not end, each of
  -- them has been tried exactly once, and the exit code is 0 exactly if all of them are healthy in
  -- the metrics. Parsed durations are 64-bit patterns.
  pub run-tried_once :
      (chosen : List Exposure) (d d' : Disk) (errs : List OnceError) (seen : List Observation)
      → IsDurations lib
      → ((i : ℕ) → (world.moments i).cancelled ≡ false)
      → run lib has_certificate exec join world d ≡ tried_once chosen errs seen d'
      → let m = observe_all seen new_metrics in
        IsAsked lib world chosen
        × All (λ e. (m e.name).attempts ≡ 1) chosen
        × ((exit_code (tried_once chosen errs seen d') ≡ 0)
            ↔ All (λ e. (m e.name).healthy ≡ 1) chosen)
  unfolding run
  run-tried_once chosen d d' errs seen durations going e = elim (Option-cases world.flags) [
    | inl bad ↦ absurd (ground arith)
    | inr (flags, parsed) ↦
        let (asked, (all, same)) =
          run_flags_lem flags chosen d d' errs seen durations going (ground arith) parsed in
        let code = exit_code_lem chosen errs seen d' in
        (asked, all, (λ zero_code. same.0 (code.0 zero_code), λ healthy. code.1 (same.1 healthy)))
  ]
