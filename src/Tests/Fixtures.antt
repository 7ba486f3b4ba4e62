-- ===== src/Tests/Fixtures.antt =====
-- A world that answers every request, and the objects in it.
use insights_remote.Base.{String, Option, none, some, List, [], ◌∷◌, true, false, inl, inr}
use insights_remote.Base.Int.{pos}
use insights_remote.Base.Maps.{Entries}
use insights_remote.Base.Exec.{Error, new_error, pure, raise}
use insights_remote.ConfigMaps.{ConfigMapReconciler}
use insights_remote.PostProcess.{PostProcessor}
use insights_remote.Tokens.{NamespaceDetails}
use insights_remote.World.{World, NamespacedName, ConfigMap, Namespace, Secret, Pod, Project}

abbrev pub request : NamespacedName
request = record { namespace = "shop"; name = "nginx" }

abbrev pub sbom_labels : Entries String
sbom_labels = ("lagoon.sh/insightsType", "sbom-gz") ∷ ("lagoon.sh/service", "nginx") ∷ []

abbrev pub sbom : ConfigMap
sbom = record {
  name = "nginx";
  namespace = "shop";
  labels = some sbom_labels;
  annotations = none;
  payload = none;
  binary_data = none;
}

abbrev pub done : ConfigMap
done = record sbom {
  annotations = some (("lagoon.sh/insightsProcessed", "2026-01-01T00:00:00Z") ∷ []);
}

abbrev pub deferred : ConfigMap
deferred = record sbom { labels = some (("lagoon.sh/insightsWriteDeferred", "100") ∷ sbom_labels) }

abbrev pub shop : Namespace
shop = record {
  name = "shop";
  labels = some (
      ("lagoon.sh/environmentId", "7")
      ∷ ("lagoon.sh/project", "web")
      ∷ ("lagoon.sh/environment", "main")
      ∷ []);
  phase = "Active";
}

abbrev pub shop_details : NamespaceDetails
shop_details = record {
  namespace = "shop";
  environment_id = "7";
  project_name = "web";
  environment_name = "main";
}

abbrev pub secret_of : String → Secret
secret_of token = record {
  name = "insights-token";
  namespace = "shop";
  labels = none;
  annotations = none;
  payload = some (("INSIGHTS_TOKEN", token) ∷ []);
}

abbrev pub bare_secret : Secret
bare_secret = record {
  name = "x";
  namespace = "shop";
  labels = none;
  annotations = none;
  payload = none;
}

abbrev pub no_pod : Pod
no_pod = record {
  name = "";
  namespace = "";
  labels = none;
  annotations = none;
  phase = "";
  service_account_name = "";
  containers = [];
  restart_policy = "";
  volumes = [];
}

abbrev pub root_project : Project
root_project = record {
  uuid = "u1";
  name = "web";
  active = true;
  parent_ref = none;
  collection_logic = none;
}

-- Every read finds something, every write is accepted, and it is 1000 seconds past the epoch.
abbrev pub world : World
world = record {
  config_map = λ t n. inr sbom;
  namespace = λ t n. inr shop;
  secret = λ t n. inr bare_secret;
  pod = λ t n. inr no_pod;
  secrets = λ t l n. inr [];
  deployments = λ t n. inr [];
  pods = λ t n l. inr [];
  config_maps = λ t l n. inr (done ∷ deferred ∷ []);
  written = λ t c. inr tt;
  projects = λ t n. inr [];
  project_created = λ t p. inr root_project;
  project = λ t u. inr root_project;
  uploaded = λ t r. inr "token";
  processing = λ t u. inr false;
  heartbeats = λ t. 3;
  now_ns = λ t. 1_000_000_000_000;
  now_rfc3339 = λ t. "1970-01-01T00:16:40Z";
}

-- The world with these secrets in it.
abbrev pub with_secrets : List Secret → World
with_secrets vs = record world { secrets = λ t l n. inr vs }

abbrev pub broken : Error
broken = new_error "broken"

-- The world in which every write is refused.
abbrev pub refusing : World
refusing = record world { written = λ t c. inl broken }

abbrev pub failing : PostProcessor
failing = record { label = "core"; post_process = λ m. raise broken }

abbrev pub working : PostProcessor
working = record { label = "track"; post_process = λ m. pure tt }

abbrev pub reconciler : List (Option PostProcessor) → ConfigMapReconciler
reconciler ps = record {
  post_processors = ps;
  minutes_between_retries = pos 3;
  max_number_of_retries = pos 0;
}
