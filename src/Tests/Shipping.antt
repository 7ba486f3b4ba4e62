-- ===== src/Tests/Shipping.antt =====
-- Shipping config maps: the reconciler, its loop and its retries.
use insights_remote.Base.{none, some, [], ◌∷◌, ◌≡◌, refl, true, false, arith, eq_iff, ◌≤◌, ◌+◌}
use insights_remote.Base.Int.{pos, wrap64, ◌+ℤ◌}
use insights_remote.Base.Exec.{ok}
use insights_remote.Base.Maps.{insert, lookup}
use insights_remote.ConfigMaps
use insights_remote.CmLib.{batch_update_cm}
use insights_remote.ConfigMaps.{
  Tally, insights_message, insights_type, is_accepted, run_processors, reconcile, is_handled,
}
use insights_remote.ConfigMaps.Loop.Statuses.{Accounted, run_processors-Ran}
use insights_remote.ConfigMaps.Written.{fresh_tally, outcome_of}
use insights_remote.ConfigMaps.Outcomes.{
  Settles, Finishes, Defers, loaded, reconcile-Settles, reconcile_success, reconcile_failure,
}
use insights_remote.Retries.{
  Attempts, retries, untried, again, attempt, Attempts-bounded, Attempts-exhausted,
}
use insights_remote.Crons.{undeferred}
use insights_remote.Events.{create, delete, update}
use insights_remote.World.{Trace, ConfigMap}
use insights_remote.Tests.Fixtures.{request, sbom, shop, world, failing, working, reconciler}

-- The definitions that a run of the reconciler goes through.
running : Unit {0}
unfolding ConfigMaps.reconcile ConfigMaps.ship ConfigMaps.run_processors ConfigMaps.run_processor
    ConfigMaps.note_failure ConfigMaps.note_success ConfigMaps.insights_message
    ConfigMaps.insights_type ConfigMaps.is_accepted insert lookup
running = tt

abbrev after : Trace
after = loaded request []

abbrev failed_tally : Tally
failed_tally = record {
  retry = "core" ∷ [];
  annotations = ("core", "failure") ∷ ("core-error", "broken") ∷ ("track", "success") ∷ [];
}

failing_run :
    run_processors
      (insights_message sbom shop)
      (some failing ∷ none ∷ some working ∷ [])
      fresh_tally
      after
    ≡ (ok failed_tally, after)
unfolding running
failing_run = refl

run_processors-Ran_example :
    Accounted
      (insights_message sbom shop)
      (some failing ∷ none ∷ some working ∷ [])
      after
      after
      failed_tally
run_processors-Ran_example =
    run_processors-Ran (insights_message sbom shop) (some failing ∷ none ∷ some working ∷ []) after
      after failed_tally
      (
        (
          ground (
            arith,
            eq_iff "core" "track",
            eq_iff "core-error" "track",
            eq_iff "track-error" "core",
          ),
          tt,
        ),
        (tt, tt),
      )
      failing_run

sbom_accepted : is_accepted (insights_type sbom) ≡ true
unfolding running
sbom_accepted = refl

ends_well :
    (reconcile world (reconciler (some failing ∷ none ∷ some working ∷ [])) request []).0 ≡ ok tt
unfolding running ConfigMaps.update_labels ConfigMaps.update_annotations batch_update_cm wrap64 ◌+ℤ◌
    ConfigMaps.number_of_retries
ends_well = refl

-- A config map that states a type that no post-processor is for.
abbrev packages : ConfigMap
packages = record sbom { labels = some (("insights.lagoon.sh/type", "packages") ∷ []) }

reconcile-Settles_example :
    Settles world (reconciler (some failing ∷ none ∷ some working ∷ [])) request [] sbom shop
reconcile-Settles_example =
    reconcile-Settles world (reconciler (some failing ∷ none ∷ some working ∷ [])) request [] sbom
      shop refl refl sbom_accepted (λ e. cc (ends_well, e))

reconcile_failure_example :
    Defers world (reconciler (some failing ∷ none ∷ some working ∷ [])) request [] sbom after
reconcile_failure_example =
    reconcile_failure world (reconciler (some failing ∷ none ∷ some working ∷ [])) request [] sbom
      shop refl refl sbom_accepted failed_tally after failing_run refl

reconcile_success_example : Finishes world (reconciler (some working ∷ [])) request [] sbom after
reconcile_success_example =
    reconcile_success world (reconciler (some working ∷ [])) request [] sbom shop refl refl
      sbom_accepted (record { retry = []; annotations = ("track", "success") ∷ [] }) after
      (unfold running in refl) refl

abbrev failed_once : Tally
failed_once = record {
  retry = "core" ∷ [];
  annotations = ("core", "failure") ∷ ("core-error", "broken") ∷ [];
}

sbom_untried : retries sbom ≡ pos 0
unfolding ConfigMaps.number_of_retries lookup
sbom_untried = refl

abbrev tried : ConfigMap
tried = undeferred (outcome_of world (reconciler (some failing ∷ [])) sbom failed_once after)

one_attempt : Attempts (reconciler (some failing ∷ [])) sbom 1 tried
unfolding running is_handled
one_attempt = again untried (attempt world sbom shop after after failed_once refl refl refl)

Attempts-bounded_example : (1 ≤ 0 + 1) × (retries tried ≡ pos 1)
Attempts-bounded_example =
    Attempts-bounded (reconciler (some failing ∷ [])) 0 sbom refl (omega arith) sbom_untried
      one_attempt

Attempts-exhausted_example :
    ((old : ConfigMap) → is_handled (update old tried) ≡ false)
    × (is_handled (create tried) ≡ false)
    × (is_handled (delete tried) ≡ false)
Attempts-exhausted_example =
    Attempts-exhausted (reconciler (some failing ∷ [])) 0 sbom refl (omega arith) sbom_untried
      one_attempt
