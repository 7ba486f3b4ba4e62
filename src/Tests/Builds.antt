-- ===== src/Tests/Builds.antt =====
-- A build with one image to scan, and the theorems about its scan.
use insights_remote.Base.{inl, String, some, [], ◌∷◌, ◌≡◌, refl, false, inr, arith, eq_iff}
use insights_remote.Base.Maps.{Entries, lookup, or_else}
use insights_remote.Base.Exec.{ok, err, new_error}
use insights_remote.Events.{Event, subject}
use insights_remote.World.{
  World, Pod, Container, Deployment, update_pod, create_pod, delete_pod, list_pods,
  list_deployments, get_pod,
}
use insights_remote.Builds.{BuildReconciler, reconcile, images_of, successful_build_pods}
use insights_remote.Builds.ScanPod.{env_var, env_map, image_scan_pod_labels}
use insights_remote.Builds.ScanPod.Env.{as_var, copied}
use insights_remote.Builds.ScanPod.{generate_scan_pod_spec, sorted_env, scan_vars}
use insights_remote.Builds.ScanPod.Determined.{generate_scan_pod_spec-ext}
use insights_remote.Builds.ScanPod.Listed.{sorted_env-Ascending, find_var, names}
use insights_remote.Builds.ScanPod.Sorted.{Ascending}
use insights_remote.Builds.Rescan.{labelled, spec, reconcile_scans, reconcile_unscanned}
use insights_remote.Builds.Refused.{reconcile_undeleted}
use insights_remote.Tests.Fixtures.{world, no_pod, request, broken}

abbrev container : Container
container = record {
  name = "build";
  image = "builder";
  image_pull_policy = "";
  volume_mounts = [];
  env =
      record { name = "project"; value = ""; value_from = some "config" }
      ∷ env_var "HOME" "/root"
      ∷ [];
}

abbrev build_labels : Entries String
build_labels = ("lagoon.sh/buildName", "build-1") ∷ []

abbrev build : Pod
build = record no_pod {
  name = "build-1";
  namespace = "shop";
  labels = some build_labels;
  phase = "Succeeded";
  containers = container ∷ [];
}

abbrev old_scan : Pod
old_scan = record no_pod { name = "insights-scanner-build-0"; namespace = "shop" }

abbrev deployment : Deployment
deployment = record { name = "nginx"; containers = record container { image = "nginx:1" } ∷ [] }

abbrev built : World
built = record world {
  pod = λ t n. inr build;
  deployments = λ t n. inr (deployment ∷ []);
  pods = λ t n l. inr (old_scan ∷ []);
}

abbrev extra : Entries String
extra = ("NAMESPACE", "other") ∷ []

abbrev scans : BuildReconciler
scans = record { scan_image_name = "scanner"; extra_env_vars = extra }

reconcile_scans_example :
    (reconcile built scans request [] ≡ (
      ok tt,
      update_pod (labelled build build_labels)
          ∷ create_pod (spec built scans build container ("nginx:1" ∷ []))
          ∷ delete_pod old_scan
          ∷ list_pods "shop" image_scan_pod_labels
          ∷ list_deployments "shop"
          ∷ get_pod request
          ∷ [],
    ))
    × ((e : Event Pod) → subject e ≡ labelled build build_labels → successful_build_pods e ≡ false)
unfolding images_of
reconcile_scans_example =
    reconcile_scans built scans request [] (λ s c. refl) refl refl refl refl refl refl refl

reconcile_unscanned_example :
    reconcile (record built { deployments = λ t n. inr [] }) scans request []
    ≡ (err (new_error "no images to scan"), list_deployments "shop" ∷ get_pod request ∷ [])
unfolding images_of
reconcile_unscanned_example =
    reconcile_unscanned (record built { deployments = λ t n. inr [] }) scans request [] refl refl
      refl refl

-- The old scan pod cannot be deleted.
abbrev stuck : World
stuck = record built { written = λ t c. inl broken }

reconcile_undeleted_example : reconcile stuck scans request [] ≡ (
  err broken,
  delete_pod old_scan
      ∷ list_pods "shop" image_scan_pod_labels
      ∷ list_deployments "shop"
      ∷ get_pod request
      ∷ [],
)
unfolding images_of
reconcile_undeleted_example =
    reconcile_undeleted stuck scans request [] [] [] old_scan broken refl refl refl refl refl refl
      tt refl

-- The entries of one map, in two orders.
abbrev ab : Entries String
ab = ("A", "1") ∷ ("B", "2") ∷ []

abbrev ba : Entries String
ba = ("B", "2") ∷ ("A", "1") ∷ []

either_order : (k : String) → lookup k ab ≡ lookup k ba
unfolding lookup
either_order k = ground (arith, eq_iff "A" k, eq_iff "B" k, eq_iff "A" "B")

generate_scan_pod_spec-ext_example :
    generate_scan_pod_spec build ("nginx:1" ∷ []) "scanner" "docker" ab
    ≡ generate_scan_pod_spec build ("nginx:1" ∷ []) "scanner" "docker" ba
unfolding lookup
generate_scan_pod_spec-ext_example =
    generate_scan_pod_spec-ext build ("nginx:1" ∷ []) "scanner" "docker" ab ba (refl, (refl, tt))
      (refl, (refl, tt)) either_order

sorted_env-Ascending_example :
    Ascending (names (sorted_env (env_map build container.env ("nginx:1" ∷ []) "docker" ba)))
    × ((k : String)
        → find_var k (sorted_env (env_map build container.env ("nginx:1" ∷ []) "docker" ba))
          ≡ or_else (as_var k (lookup k ba)) (
              or_else
                (copied k container.env)
                (lookup k (scan_vars build ("nginx:1" ∷ []) "docker"))))
unfolding lookup
sorted_env-Ascending_example =
    sorted_env-Ascending build container.env ("nginx:1" ∷ []) "docker" ba (refl, (refl, tt))
