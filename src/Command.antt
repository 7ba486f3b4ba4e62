-- ===== src/Command.antt =====
-- cmd/main.go: the command, from the flags that were parsed to the end of the program.
pub mod Address
pub mod Pairs
pub mod Lifecycle
pub mod Parts
pub mod Plan
pub mod Published
pub mod Queue
pub mod Each
pub mod Harmless
pub mod Reader
pub mod Config
pub mod Calls
pub mod Shipping
pub mod Tokens
pub mod Unset
pub mod Variables
use insights_remote.Base.{
  String, Option, none, some, List, [], ◌∷◌, ◌◂◌, Bool, true, false, not, ◌||◌, ◌⊎◌, inl, inr, ◌==◌,
  if◌then◌else◌,
}
use insights_remote.Base.Maps.{Entries}
use insights_remote.Base.Exec.{Error, Outcome, ok, err, panic, pure, ◌>>=◌, ◌>>◌}
use insights_remote.Builds.{BuildReconciler}
use insights_remote.ConfigMaps.{ConfigMapReconciler}
use insights_remote.PostProcess.{PostProcessor}
use insights_remote.PostProcess.InsightsCore.{mq_write_object, new_post_processor}
use insights_remote.PostProcess.DependencyTrack.{Libraries}
use insights_remote.PostProcess.DependencyTrack.Processors.{
  new_default_post_processor, new_custom_post_processor,
}
use insights_remote.Service.{Router}
use insights_remote.Tokens.{Jwt, NamespaceDetails, generate_token_for_namespace}
use insights_remote.World.{World}
use insights_remote.Command.Pairs.{Invalid, parse_flags, merge_env_vars}
use insights_remote.Command.Config.{
  Settings, Environment, Tracking, Processing, Endpoint, Management, override,
}
use insights_remote.Command.Calls.{
  Startup, Log, Start, Answers, call, call_and_log, MetricsOptions, ManagerOptions, Job,
  burn_after_reading, insights_deferred_clear, new_manager, set_up_config_maps, add_job, start_cron,
  set_up_namespaces, set_up_builds, serve, add_healthz, add_readyz, start_manager,
}

-- The end of the program when a token is all that is asked for: what it prints, or a fatal error.
pub data TokenOnly : Type 0 where
  printed : String → TokenOnly
  missing_flags : TokenOnly
  unable : Error → TokenOnly

unfoldable pub generate_token_only : Jwt → String → NamespaceDetails → TokenOnly
unfolding generate_token_for_namespace
generate_token_only j secret d =
    if d.environment_name == ""
      || d.environment_id == ""
      || d.project_name == ""
      || d.namespace == ""
    then missing_flags
    else elim (generate_token_for_namespace j secret d) [
      | inl e ↦ unable e
      | inr token ↦ printed token
    ]

-- The post-processors of the reconciler of config maps, in their order.
unfoldable pub post_processors :
    Libraries → World → (mq_enable : Bool) → Tracking → List (Option PostProcessor)
unfolding new_post_processor new_default_post_processor new_custom_post_processor mq_write_object
post_processors libraries w mq_enable s =
    new_post_processor mq_enable (mq_write_object w)
    ∷ new_default_post_processor libraries w s.enabled s.api_endpoint s.api_key s.push_prod_only
        s.root_template s.parent_template s.name_template s.version_template
    ∷ new_custom_post_processor libraries w s.enabled s.push_prod_only s.root_template
        s.parent_template s.name_template s.version_template
    ∷ []

-- HTTP/1.1 alone, unless HTTP/2 is enabled.
abbrev pub metrics_options : Management → MetricsOptions
metrics_options s = record {
  bind_address = s.metrics_addr;
  secure_serving = s.secure_metrics;
  next_protos = if s.enable_http2 then [] else ("http/1.1" ∷ []) ∷ [];
  filtered = s.secure_metrics;
}

abbrev pub manager_options : Management → ManagerOptions
manager_options s = record {
  metrics = metrics_options s;
  health_probe_bind_address = s.probe_addr;
  leader_election = s.enable_leader_election;
  leader_election_id = "ac8a682b.lagoon.sh";
}

abbrev pub config_map_reconciler : Libraries → World → Settings → ConfigMapReconciler
config_map_reconciler libraries w s = record {
  post_processors = post_processors libraries w s.broker.enabled s.tracking;
  minutes_between_retries = s.processing.minutes_between_retries;
  max_number_of_retries = s.processing.max_retries;
}

abbrev pub build_reconciler : Settings → Entries String → BuildReconciler
build_reconciler s extra = record {
  scan_image_name = s.processing.build_scanner_image;
  extra_env_vars = extra;
}

-- service.SetupRouter(insightsTokenSecret, mqWriteObject, mqEnable)
abbrev pub router : World → Settings → Router
router w s = record {
  secret = s.endpoint.token_secret;
  message_q_writer = mq_write_object w;
  write_to_queue = s.broker.enabled;
}

-- startInsightsEndpoint: the web service runs beside the rest, and its end is only logged.
unfoldable pub start_insights_endpoint : World → Settings → Start
unfolding call_and_log
start_insights_endpoint w s = call_and_log (serve (router w s) (":" ◂ s.endpoint.port))

-- A cron with one job; it is started also if the schedule of the job is not understood.
unfoldable pub start_job : String → Job → Start
unfolding call_and_log
start_job schedule job = do call_and_log (add_job schedule job); call_and_log (start_cron job)

-- if enabled { ... } else { log }
abbrev pub on : Bool → Start → Start
on enabled m = if enabled then m else pure tt

module _ (libraries : Libraries) (w : World) (answers : Answers) where
  -- Everything behind the settings: the program runs until the manager stops.
  unfoldable pub run : Settings → Entries String → Start
  unfolding call start_job start_insights_endpoint
  run s extra = do
    call answers (new_manager (manager_options s.management))
    on s.processing.enable_cm_reconciler (
        call answers
          (set_up_config_maps (config_map_reconciler libraries w s) s.processing.max_concurrent))
    on s.processing.burn_after_reading
        (start_job s.processing.clear_configmap_cron_sched burn_after_reading)
    on s.processing.enable_insight_deferred
        (start_job s.processing.clear_configmap_cron_sched insights_deferred_clear)
    on s.processing.enable_ns_reconciler
        (call answers (set_up_namespaces s.endpoint.token_secret s.processing.token_target_label))
    on s.processing.enable_build_scanning (call answers (set_up_builds (build_reconciler s extra)))
    on s.endpoint.enabled (start_insights_endpoint w s)
    call answers add_healthz
    call answers add_readyz
    call answers start_manager

-- How the program ends: with a wrong flag, with a token, by a fatal error, or when the manager stops.
pub data Ended : Type 0 where
  usage : Invalid → Ended
  token : String → Ended
  fatal stopped : Ended

abbrev pub ended_by : TokenOnly → Ended
ended_by (printed s) = token s
ended_by missing_flags = fatal
ended_by (unable e) = fatal

abbrev pub ended : Outcome (Unit {0}) × Log → Ended × Log
ended (ok _, log) = (stopped, log)
ended (err e, log) = (fatal, log)
ended (panic, log) = (fatal, log)

-- The flags as they were parsed: the settings, the extra variables, and the details of the token if
-- that is all that is asked for.
pub record Flags : Type 0 where
  pub settings : Settings
  pub extra_env : List String
  pub token_only : Option NamespaceDetails

module _ (libraries : Libraries) (w : World) (j : Jwt) (env : Environment) (answers : Answers) where
  -- The environment is read only after the check for a token.
  unfoldable pub main : Flags → Ended × Log
  unfolding generate_token_only run
  main flags = elim (parse_flags [] flags.extra_env) [
    | inl e ↦ (usage e, [])
    | inr given ↦ elim flags.token_only [
      | some details ↦
          (ended_by (generate_token_only j flags.settings.endpoint.token_secret details), [])
      | none ↦ elim (merge_env_vars given (env.get_env "BUILD_SCANNER_EXTRA_ENV_VARS" "")) [
        | inl e ↦ (fatal, [])
        | inr extra ↦ ended (run libraries w answers (override env flags.settings) extra [])
      ]
    ]
  ]
