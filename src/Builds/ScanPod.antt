-- ===== src/Builds/ScanPod.antt =====
-- `generateScanPodSpec` of internal/controller/build_controller.go and what it calls.
pub mod Determined
pub mod Env
pub mod Listed
pub mod Sorted
use Prim.Native.Char.{Char, code}
use Prim.Native.String
use Prim.Native.String.{[], ◌∷◌}
use Prim.Native.Nat.{Ordering}
use insights_remote.Base.{
  ℕ, ◌+◌, String, Option, none, some, List, [], ◌∷◌, map, Bool, true, false, ◌&&◌, ◌||◌, ◌⊎◌, inl,
  inr, ◌==◌, ◌◂◌, if◌then◌else◌, any, is_empty, leb, nat_eq,
}
use insights_remote.Base.Maps.{Entries, insert, insert_all, lookup}
use insights_remote.Base.Exec.{Error, new_error, Outcome, ok, err, panic}
use insights_remote.Base.Text.Fields.{join}
use insights_remote.World.{Pod, EnvVar, Container, VolumeMount, Volume}

abbrev pub image_scan_pod_labels : Entries String
image_scan_pod_labels =
    ("insights.lagoon.sh/scan-status", "scanning")
    ∷ ("insights.lagoon.sh/imagescanner", "true")
    ∷ []

abbrev pub scanner_name_from_buildname : String → String
scanner_name_from_buildname build_name = "insights-scanner-" ◂ build_name

-- A character of the regular expressions, which are in capitals, against one of the text: the flag
-- `(?i)` folds the small letters, the long s and the Kelvin sign.
unfoldable pub folds : ℕ → ℕ → Bool
folds p c =
    nat_eq p c
    || leb 65 p && leb p 90 && nat_eq c (p + 32)
    || nat_eq p 83 && nat_eq c 0x17f
    || nat_eq p 75 && nat_eq c 0x212a

-- A name in full, or a name that `.+` follows.
pub data Regex : Type 0 where
  literal prefix : String → Regex

-- `.` is any character but the end of a line.
unfoldable pub no_newline : String → Bool
no_newline [] = true
no_newline (c ∷ s) = if nat_eq (code c) 10 then false else no_newline s

unfoldable pub matches_literal : String → String → Bool
unfolding folds
matches_literal [] [] = true
matches_literal [] (c ∷ s) = false
matches_literal (p ∷ r) [] = false
matches_literal (p ∷ r) (c ∷ s) = folds (code p) (code c) && matches_literal r s

unfoldable pub matches_prefix : String → String → Bool
unfolding folds no_newline
matches_prefix [] [] = false
matches_prefix [] (c ∷ s) = no_newline (c ∷ s)
matches_prefix (p ∷ r) [] = false
matches_prefix (p ∷ r) (c ∷ s) = folds (code p) (code c) && matches_prefix r s

abbrev match_string : Regex → String → Bool
match_string (literal p) v = matches_literal p v
match_string (prefix p) v = matches_prefix p v

-- Every expression compiles.
unfoldable pub contains_regex : List Regex → String → Bool
unfolding matches_literal matches_prefix
contains_regex s v = any (λ r. match_string r v) s

abbrev pub copy_vars : List Regex
copy_vars =
    literal "BRANCH"
    ∷ literal "BUILD_TYPE"
    ∷ literal "ENVIRONMENT"
    ∷ literal "ENVIRONMENT_TYPE"
    ∷ literal "PROJECT"
    ∷ literal "PR_BASE_BRANCH"
    ∷ literal "PR_HEAD_BRANCH"
    ∷ literal "PR_NUMBER"
    ∷ literal "LAGOON_ENVIRONMENT_VARIABLES"
    ∷ prefix "LAGOON_FEATURE_FLAG_"
    ∷ []

abbrev pub env_var : String → String → EnvVar
env_var name value = record { name = name; value = value; value_from = none }

abbrev pub scan_vars : Pod → List String → String → Entries EnvVar
scan_vars build images dockerhost =
    ("INSIGHT_SCAN_IMAGES", env_var "INSIGHT_SCAN_IMAGES" (join "," images))
    ∷ ("NAMESPACE", env_var "NAMESPACE" build.namespace)
    ∷ ("DOCKER_HOST", env_var "DOCKER_HOST" dockerhost)
    ∷ ("LAGOON_BUILD_NAME", env_var "LAGOON_BUILD_NAME" build.name)
    ∷ []

-- The loop over the variables of the build.
unfoldable pub copy_env : List EnvVar → Entries EnvVar → Entries EnvVar
unfolding contains_regex
copy_env [] env = env
copy_env (e ∷ es) env =
    copy_env es (if contains_regex copy_vars e.name then insert e.name e env else env)

unfoldable pub extra_vars : Entries String → Entries EnvVar
extra_vars [] = []
extra_vars ((k, v) ∷ extra) = (k, env_var k v) ∷ extra_vars extra

-- The map of the variables, whose order does not matter.
unfoldable pub env_map : Pod → List EnvVar → List String → String → Entries String → Entries EnvVar
unfolding copy_env extra_vars
env_map build env images dockerhost extra =
    insert_all (extra_vars extra) (copy_env env (scan_vars build images dockerhost))

-- sort.Strings: bytes are in the order of the characters
unfoldable pub insert_sorted : String → List String → List String
insert_sorted k [] = k ∷ []
insert_sorted k (j ∷ js) =
    let rest = insert_sorted k js in
    elim (String.compare k j) [ Ordering.gt ↦ j ∷ rest | _ ↦ k ∷ j ∷ js ]

unfoldable pub sort_strings : List String → List String
unfolding insert_sorted
sort_strings [] = []
sort_strings (k ∷ ks) = insert_sorted k (sort_strings ks)

abbrev pub value_at : Entries EnvVar → String → EnvVar
value_at env k = elim (lookup k env) [ none ↦ env_var "" "" | some e ↦ e ]

unfoldable pub sorted_env : Entries EnvVar → List EnvVar
unfolding sort_strings
sorted_env env = map (value_at env) (sort_strings (map (λ e. e.0) env))

abbrev pub scanner : String → List EnvVar → Container
scanner scan_image_name env = record {
  name = "scanner";
  image = scan_image_name;
  image_pull_policy = "Always";
  volume_mounts =
      record {
        name = "lagoon-internal-registry-secret";
        mount_path = "/home/.docker/";
        read_only = true;
      }
      ∷ [];
  env = env;
}

abbrev pub scan_pod : Pod → String → List EnvVar → Pod
scan_pod build scan_image_name env = record {
  name = scanner_name_from_buildname build.name;
  namespace = build.namespace;
  labels = some image_scan_pod_labels;
  annotations = none;
  phase = "";
  service_account_name = "lagoon-deployer";
  containers = scanner scan_image_name env ∷ [];
  restart_policy = "Never";
  volumes =
      record {
        name = "lagoon-internal-registry-secret";
        secret_name = "lagoon-internal-registry-secret";
        items = (".dockerconfigjson", "config.json") ∷ [];
      }
      ∷ [];
}

-- The first container of the build is indexed, which is a panic without one.
unfoldable pub generate_scan_pod_spec :
    Pod → List String → String → String → Entries String → Outcome Pod
unfolding env_map sorted_env
generate_scan_pod_spec build [] scan_image_name dockerhost extra =
    err (new_error "no images to scan")
generate_scan_pod_spec build (i ∷ is) scan_image_name dockerhost extra = elim build.containers [
  | [] ↦ panic
  | c ∷ cs ↦
      ok (
        scan_pod build scan_image_name (sorted_env (env_map build c.env (i ∷ is) dockerhost extra)))
]
