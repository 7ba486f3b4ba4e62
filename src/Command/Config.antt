-- ===== src/Command/Config.antt =====
-- cmd/main.go: the flags with their defaults, and the environment variables that override them. The
-- readers of the environment, of the package `variables`, are the parameter `Environment`.
use insights_remote.Base.{String, none, some, Bool, true, false, ◌==◌, if◌then◌else◌}
use insights_remote.Base.Int.{ℤ, pos}
use insights_remote.Base.Text.Decimal.{parse_int}

-- variables.GetEnv, GetEnvBool and GetEnvInt: a name and what stands in for a variable not set.
pub record Environment : Type 0 where
  pub get_env : String → String → String
  pub get_env_bool : String → Bool → Bool
  pub get_env_int : String → ℤ → ℤ

-- The settings of the broker.
pub record Broker : Type 0 where
  pub enabled : Bool
  pub user : String
  pub pass : String
  pub host : String
  pub tls : Bool
  pub verify : Bool
  pub ca_cert : String
  pub client_cert : String
  pub client_key : String
  pub reconnect_retry_interval : ℤ

-- The settings of Dependency Track.
pub record Tracking : Type 0 where
  pub enabled : Bool
  pub api_endpoint : String
  pub api_key : String
  pub push_prod_only : Bool
  pub root_template : String
  pub parent_template : String
  pub name_template : String
  pub version_template : String

-- The settings of the controllers and the cron jobs.
pub record Processing : Type 0 where
  pub enable_cm_reconciler : Bool
  pub burn_after_reading : Bool
  pub clear_configmap_cron_sched : String
  pub enable_insight_deferred : Bool
  pub max_retries : ℤ
  pub minutes_between_retries : ℤ
  pub max_concurrent : ℤ
  pub enable_ns_reconciler : Bool
  pub token_target_label : String
  pub enable_build_scanning : Bool
  pub build_scanner_image : String

-- The settings of the web service.
pub record Endpoint : Type 0 where
  pub enabled : Bool
  pub port : String
  pub token_secret : String

-- The settings of the manager of the controllers.
pub record Management : Type 0 where
  pub enable_leader_election : Bool
  pub metrics_addr : String
  pub secure_metrics : Bool
  pub enable_http2 : Bool
  pub probe_addr : String

pub record Settings : Type 0 where
  pub processing : Processing
  pub endpoint : Endpoint
  pub tracking : Tracking
  pub broker : Broker
  pub management : Management

-- What the flags are when none is given.
abbrev pub default_settings : Settings
default_settings = record {
  processing = record {
    enable_cm_reconciler = true;
    burn_after_reading = false;
    clear_configmap_cron_sched = "* * * * *";
    enable_insight_deferred = false;
    max_retries = pos 3;
    minutes_between_retries = pos 3;
    max_concurrent = pos 1;
    enable_ns_reconciler = true;
    token_target_label = "";
    enable_build_scanning = false;
    build_scanner_image = "uselagoon/insights-scanner:latest";
  };
  endpoint = record { enabled = true; port = "8888"; token_secret = "testsecret" };
  tracking = record {
    enabled = false;
    api_endpoint = "";
    api_key = "";
    push_prod_only = true;
    root_template = "{{ .ProjectName }}";
    parent_template = "{{ .ProjectName }}-{{ .EnvironmentName }}";
    name_template = "{{ .ProjectName }}-{{ .EnvironmentName }}-{{ .ServiceName }}";
    version_template = "unset";
  };
  broker = record {
    enabled = true;
    user = "guest";
    pass = "guest";
    host = "localhost";
    tls = false;
    verify = false;
    ca_cert = "";
    client_cert = "";
    client_key = "";
    reconnect_retry_interval = pos 30;
  };
  management = record {
    enable_leader_election = false;
    metrics_addr = "0";
    secure_metrics = true;
    enable_http2 = false;
    probe_addr = ":8081";
  };
}

-- strconv.Atoi of a variable, where it parses.
abbrev atoi_or : String → ℤ → ℤ
atoi_or text held = elim (parse_int 64 text).1 [ none ↦ (parse_int 64 text).0 | some e ↦ held ]

module _ (env : Environment) where
  -- The flag of the reconciler of namespaces stands in for ENABLE_CONFIGMAP_RECONCILER.
  unfoldable pub override_processing : Processing → Processing
  override_processing s = record s {
    enable_cm_reconciler = env.get_env_bool "ENABLE_CONFIGMAP_RECONCILER" s.enable_ns_reconciler;
    burn_after_reading =
        if env.get_env "BURN_AFTER_READING" "FALSE" == "TRUE" then true else s.burn_after_reading;
    clear_configmap_cron_sched = env.get_env "CLEAR_CONFIGMAP_SCHED" s.clear_configmap_cron_sched;
    enable_insight_deferred = env.get_env_bool "ENABLE_INSIGHTS_DEFERRED" s.enable_insight_deferred;
    max_retries = env.get_env_int "CONFIGMAP_RECONCILER_MAX_RETRIES" s.max_retries;
    minutes_between_retries =
        env.get_env_int "CONFIGMAP_RECONCILER_MINS_BETWEEN_RETRIES" s.minutes_between_retries;
    max_concurrent =
        atoi_or (env.get_env "CONFIGMAP_RECONCILER_MAX_CONCURRENT" "") s.max_concurrent;
    enable_ns_reconciler = env.get_env_bool "ENABLE_NAMESPACE_RECONCILER" s.enable_ns_reconciler;
    token_target_label = env.get_env "TOKEN_TARGET_LABEL" s.token_target_label;
    enable_build_scanning = env.get_env_bool "ENABLE_BUILD_SCANNING" s.enable_build_scanning;
    build_scanner_image = env.get_env "BUILD_SCANNER_IMAGE" s.build_scanner_image;
  }

  unfoldable pub override_endpoint : Endpoint → Endpoint
  override_endpoint s = record {
    enabled = env.get_env_bool "ENABLE_WEBSERVICE" s.enabled;
    port = env.get_env "WEBSERVICE_PORT" s.port;
    token_secret = env.get_env "INSIGHTS_TOKEN_SECRET" s.token_secret;
  }

  unfoldable pub override_tracking : Tracking → Tracking
  override_tracking s = record s {
    enabled = env.get_env_bool "ENABLE_DEPENDENCY_TRACK_INTEGRATION" s.enabled;
    api_endpoint = env.get_env "DEPENDENCY_TRACK_API_ENDPOINT" s.api_endpoint;
    api_key = env.get_env "DEPENDENCY_TRACK_API_KEY" s.api_key;
  }

  unfoldable pub override_broker : Broker → Broker
  override_broker s = record s {
    user = env.get_env "RABBITMQ_USERNAME" s.user;
    pass = env.get_env "RABBITMQ_PASSWORD" s.pass;
    host = env.get_env "RABBITMQ_ADDRESS" s.host;
    enabled = env.get_env_bool "RABBITMQ_ENABLED" s.enabled;
    tls = env.get_env_bool "RABBITMQ_TLS" s.tls;
    ca_cert = env.get_env "RABBITMQ_CACERT" s.ca_cert;
    client_cert = env.get_env "RABBITMQ_CLIENTCERT" s.client_cert;
    client_key = env.get_env "RABBITMQ_CLIENTKEY" s.client_key;
    verify = env.get_env_bool "RABBITMQ_VERIFY" s.verify;
  }

  unfoldable pub override : Settings → Settings
  unfolding override_processing override_endpoint override_tracking override_broker
  override s = record s {
    processing = override_processing s.processing;
    endpoint = override_endpoint s.endpoint;
    tracking = override_tracking s.tracking;
    broker = override_broker s.broker;
  }
