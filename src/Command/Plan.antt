-- ===== src/Command/Plan.antt =====
-- The calls that the settings of cmd/main.go ask for, in their order, with all that they carry.
use insights_remote.Base.{String, none, List, [], ◌∷◌, ◌++◌, Bool, ◌◂◌, if◌then◌else◌}
use insights_remote.Base.Maps.{Entries}
use insights_remote.PostProcess.DependencyTrack.{Libraries}
use insights_remote.World.{World}
use insights_remote.PostProcess.{PostProcessor}
use insights_remote.PostProcess.InsightsCore.{mq_write_object}
use insights_remote.Command.Each.{core_processor, default_processor, custom_processor}
use insights_remote.Base.{some, none, Option, not, ◌||◌, ◌==◌}
use insights_remote.Command.Calls.{ManagerOptions}
use insights_remote.Command.Config.{Management, Settings}
use insights_remote.Command.Calls.{
  Startup, burn_after_reading, insights_deferred_clear, new_manager, set_up_config_maps, add_job,
  start_cron, set_up_namespaces, set_up_builds, serve, add_healthz, add_readyz, start_manager,
}

-- The calls of an optional part.
abbrev pub with_part : Bool → List Startup → List Startup
with_part b p = if b then p else []

-- The post-processors that the settings ask for, none in the place of one that is not wanted.
abbrev pub wanted_processors : Libraries → World → Settings → List (Option PostProcessor)
wanted_processors libraries w s =
    (if s.broker.enabled then some (core_processor w) else none)
    ∷ (if not s.tracking.enabled || s.tracking.api_endpoint == "" || s.tracking.api_key == ""
        then none
        else some (default_processor libraries w s.tracking))
    ∷ (if not s.tracking.enabled then none else some (custom_processor libraries w s.tracking))
    ∷ []

abbrev pub wanted_manager : Management → ManagerOptions
wanted_manager s = record {
  metrics = record {
    bind_address = s.metrics_addr;
    secure_serving = s.secure_metrics;
    next_protos = if s.enable_http2 then [] else ("http/1.1" ∷ []) ∷ [];
    filtered = s.secure_metrics;
  };
  health_probe_bind_address = s.probe_addr;
  leader_election = s.enable_leader_election;
  leader_election_id = "ac8a682b.lagoon.sh";
}

-- What the settings ask for, each part with the settings that are its own.
abbrev pub plan : Libraries → World → Settings → Entries String → List Startup
plan libraries w s extra =
    (new_manager (wanted_manager s.management) ∷ [])
    ++ (with_part s.processing.enable_cm_reconciler (
          set_up_config_maps
            (record {
              post_processors = wanted_processors libraries w s;
              minutes_between_retries = s.processing.minutes_between_retries;
              max_number_of_retries = s.processing.max_retries;
            })
            s.processing.max_concurrent
          ∷ [])
        ++ (with_part s.processing.burn_after_reading (
              add_job s.processing.clear_configmap_cron_sched burn_after_reading
              ∷ start_cron burn_after_reading
              ∷ [])
            ++ (with_part s.processing.enable_insight_deferred (
                  add_job s.processing.clear_configmap_cron_sched insights_deferred_clear
                  ∷ start_cron insights_deferred_clear
                  ∷ [])
                ++ (with_part s.processing.enable_ns_reconciler (
                      set_up_namespaces s.endpoint.token_secret s.processing.token_target_label
                      ∷ [])
                    ++ (with_part s.processing.enable_build_scanning (
                          set_up_builds (record {
                            scan_image_name = s.processing.build_scanner_image;
                            extra_env_vars = extra;
                          })
                          ∷ [])
                        ++ (with_part s.endpoint.enabled (
                              serve
                                (record {
                                  secret = s.endpoint.token_secret;
                                  message_q_writer = mq_write_object w;
                                  write_to_queue = s.broker.enabled;
                                })
                                (":" ◂ s.endpoint.port)
                              ∷ [])
                            ++ ((add_healthz ∷ [])
                                ++ ((add_readyz ∷ []) ++ (start_manager ∷ [])))))))))
