-- ===== src/Tests/Polling.antt =====
-- agent/cmd/kube-secret-gateway-agent/main.go and the rounds of agent/internal/fetch/fetch.go.
use kube_secret_gateway.Base.{
  true, false, ascii, List, [], ◌∷◌, some, ◌≡◌, ◌≢◌, refl, arith, split, text_beq, text_eq,
  trim_space, cons_first,
}
use kube_secret_gateway.Agent.Settings.{Exposure}
use kube_secret_gateway.Agent.Select.{selected, no_such_exposure, selected_none, select_exposures}
use kube_secret_gateway.Agent.Select.Laws.{Selects, select_exposures-Selects}
use kube_secret_gateway.Agent.Metrics.{Observation, initial_series, new_metrics, observe_all}
use kube_secret_gateway.Agent.Metrics.Tally.{Tallies, observe_all-Tallies}
use kube_secret_gateway.Agent.Fetch.Poll.{poll_wait}
use kube_secret_gateway.Tests.Agent.{exposure}

abbrev cache : Exposure
cache = record exposure { name = ascii "cache" }

abbrev both : List Exposure
both = exposure ∷ cache ∷ []

one_selected : select_exposures both (ascii " cache,,cache") ≡ selected (cache ∷ [])
unfolding select_exposures ascii split trim_space text_beq cons_first
one_selected = refl

unknown_reported : select_exposures both (ascii "db,web") ≡ no_such_exposure (ascii "web" ∷ [])
unfolding select_exposures ascii split trim_space text_beq cons_first
unknown_reported = refl

commas_refused : select_exposures both (ascii " ,") ≡ selected_none
unfolding select_exposures ascii split trim_space text_beq cons_first
commas_refused = refl

given : ascii "db,web" ≢ []
unfolding ascii
given e = ground arith

select_exposures-Selects_example :
    Selects both (split b',' (ascii "db,web")) (select_exposures both (ascii "db,web"))
select_exposures-Selects_example = select_exposures-Selects both (ascii "db,web") given

abbrev history : List Observation
history =
    record { name = ascii "db"; changed = true; failed = false; duration = 3; now = 10 }
    ∷ record { name = ascii "cache"; changed = false; failed = false; duration = 2; now = 11 }
    ∷ record { name = ascii "db"; changed = true; failed = true; duration = 5; now = 20 }
    ∷ []

db_series : observe_all history new_metrics (ascii "db") ≡ record {
  attempts = 2;
  errors = 1;
  changes = 1;
  healthy = 0;
  last_attempt = 20;
  last_success = 10;
  last_change = 10;
  durations = 3 ∷ 5 ∷ [];
}
unfolding observe_all new_metrics ascii text_beq
db_series = refl

observe_all-Tallies_example :
    Tallies (ascii "db") history initial_series (observe_all history new_metrics (ascii "db"))
observe_all-Tallies_example = observe_all-Tallies (ascii "db") history

minute_wait : poll_wait (λ n. 7) 60_000_000_000 ≡ some 57_000_000_007
unfolding poll_wait
minute_wait = refl
