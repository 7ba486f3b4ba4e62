-- ===== src/Tests/Lifecycle.antt =====
-- A config map that reaches Lagoon core, and the theorem about it.
use insights_remote.Base.{some, [], ◌∷◌, ◌≡◌, refl, inr, true, ◌≢◌, arith}
use insights_remote.Base.Int.{pos}
use insights_remote.Base.Maps.{at, at, insert, insert_all, lookup}
use insights_remote.Command.Config.{default_settings}
use insights_remote.CmLib.{batch_update_cm, relabelled}
use insights_remote.Command.{post_processors}
use insights_remote.ConfigMaps
use insights_remote.ConfigMaps.{insights_message}
use insights_remote.PostProcess.InsightsCore
use insights_remote.PostProcess.InsightsCore.{mq_write_object, new_post_processor}
use insights_remote.PostProcess.DependencyTrack.Processors.{
  new_default_post_processor, new_custom_post_processor,
}
use insights_remote.Base.Text.Decimal.{format_int}
use insights_remote.World.{
  World, Trace, ConfigMap, insights, mq_new, mq_producer, mq_produce, mq_close, update_config_map,
}
use insights_remote.ConfigMaps.Outcomes.{loaded}
use insights_remote.Tests.Fixtures.{world, request, sbom, shop}
use insights_remote.Tests.Tracking.{plain_libraries}
use insights_remote.Command.Lifecycle.Sent.{Life-IsSent}
use insights_remote.Command.Lifecycle.{reconciler, Life, fresh, reconciled, meanwhile, IsSent}
use insights_remote.Base.Exec.{ok}
use insights_remote.Base.{◌++◌, Bool, false, true, if◌then◌else◌, inr, inl}
use insights_remote.Base.Int.{wrap64, ◌+ℤ◌, ◌*ℤ◌, floor_div}
use insights_remote.Base.Text.Decimal.{parse_int}
use insights_remote.Base.Maps.{remove}
use insights_remote.Crons.{undeferred}
use insights_remote.Tests.Fixtures.{sbom_labels, broken}
use insights_remote.Command.Lifecycle.{freed}
use insights_remote.World.{get_namespace}

-- A config map for Lagoon core.
abbrev core_sbom : ConfigMap
core_sbom = record sbom { annotations = some (("core.insights.lagoon.sh/enabled", "true") ∷ []) }

-- Whether the config map was written before.
unfoldable was_written : Trace → Bool
was_written [] = false
was_written (update_config_map c ∷ t) = true
was_written (c ∷ t) = was_written t

-- After a first reconciliation without the broker, with the reason of the failure.
abbrev failed : ConfigMap
failed = record core_sbom {
  labels = some (
      ("lagoon.sh/insightsType", "sbom-gz")
      ∷ ("lagoon.sh/service", "nginx")
      ∷ ("lagoon.sh/insightsWriteDeferred", "1180")
      ∷ []);
  annotations = some (
      ("core.insights.lagoon.sh/enabled", "true")
      ∷ ("core.insights.lagoon.sh/status", "failure")
      ∷ ("core.insights.lagoon.sh/status-error", "unable to write to message broker: broken")
      ∷ ("insights.lagoon.sh/retries", "1")
      ∷ []);
}

abbrev freed_again : ConfigMap
freed_again = record failed { labels = some sbom_labels }

-- The broker cannot be reached until the config map is written.
abbrev core_world : World
unfolding was_written
core_world = record world {
  config_map = λ t n. inr (if was_written t then freed_again else core_sbom);
  written = λ t c. elim c [ mq_new ↦ if was_written t then inr tt else inl broken | _ ↦ inr tt ];
}

abbrev after_failure : Trace
after_failure =
    update_config_map freed_again ∷ update_config_map failed ∷ mq_new ∷ loaded request []

abbrev after : Trace
after =
    mq_close
    ∷ mq_produce (insights (insights_message freed_again shop))
    ∷ mq_producer
    ∷ mq_new
    ∷ loaded request after_failure

abbrev delivered : ConfigMap
delivered = record freed_again {
  annotations = some (
      ("core.insights.lagoon.sh/enabled", "true")
      ∷ ("core.insights.lagoon.sh/status", "success")
      ∷ ("core.insights.lagoon.sh/status-error", "unable to write to message broker: broken")
      ∷ ("insights.lagoon.sh/retries", "1")
      ∷ ("lagoon.sh/insightsProcessed", "1970-01-01T00:16:40Z")
      ∷ []);
}

-- The definitions that a run of the reconciler goes through.
shipping_run : Unit {0}
unfolding was_written ConfigMaps.note_failure ConfigMaps.minutes_from_now wrap64 ◌+ℤ◌ ◌*ℤ◌ floor_div
    parse_int ConfigMaps.reconcile ConfigMaps.ship ConfigMaps.run_processors
    ConfigMaps.run_processor ConfigMaps.note_success ConfigMaps.insights_message
    ConfigMaps.insights_type ConfigMaps.is_accepted ConfigMaps.update_labels
    ConfigMaps.update_annotations ConfigMaps.number_of_retries batch_update_cm relabelled insert_all
    ConfigMaps.next_retries post_processors new_post_processor InsightsCore.post_process
    mq_write_object new_default_post_processor new_custom_post_processor insert lookup format_int
shipping_run = tt

core_accepted : ConfigMaps.is_accepted (ConfigMaps.insights_type core_sbom) ≡ true
unfolding shipping_run
core_accepted = refl

again_accepted : ConfigMaps.is_accepted (ConfigMaps.insights_type freed_again) ≡ true
unfolding shipping_run
again_accepted = refl

unshipped :
    ConfigMaps.reconcile core_world
      (reconciler plain_libraries core_world default_settings.tracking (pos 3) (pos 3))
      request
      []
    ≡ (ok tt, update_config_map failed ∷ mq_new ∷ loaded request [])
unfolding shipping_run
unshipped = refl

freed_failed : undeferred failed ≡ freed_again
unfolding undeferred remove
freed_failed = refl

shipped :
    ConfigMaps.reconcile core_world
      (reconciler plain_libraries core_world default_settings.tracking (pos 3) (pos 3))
      request
      after_failure
    ≡ (ok tt, update_config_map delivered ∷ after)
unfolding shipping_run
shipped = refl

none_done :
    at core_sbom.annotations "core.insights.lagoon.sh/status" ≢ some ConfigMaps.successful_run
unfolding lookup
none_done h = ground (arith, h)

-- The config map is reconciled in vain, freed and reconciled again, and then a namespace is read.
abbrev later : Trace
later = (get_namespace request ∷ []) ++ update_config_map delivered ∷ after

core-Life :
    Life plain_libraries core_world default_settings.tracking
      (pos 3)
      (pos 3)
      core_sbom
      []
      delivered
      later
unfolding was_written undeferred remove
core-Life =
    meanwhile
      (reconciled (freed (reconciled fresh request shop refl refl core_accepted unshipped)) request
        shop refl refl again_accepted shipped)
      (get_namespace request ∷ [])

Life-IsSent_example : IsSent core_world core_sbom [] later
unfolding lookup
Life-IsSent_example =
    Life-IsSent plain_libraries core_world default_settings.tracking (pos 3) (pos 3) refl none_done
      refl core-Life refl
