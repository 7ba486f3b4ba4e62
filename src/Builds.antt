-- ===== src/Builds.antt =====
-- internal/controller/build_controller.go: the scan pod for a build that succeeded.
pub mod ScanPod
pub mod Rescan
pub mod Refused
use insights_remote.Base.{
  ℕ, String, Option, none, some, List, [], ◌∷◌, ◌++◌, map, Bool, true, false, not, ◌&&◌, ◌||◌, ◌⊎◌,
  inl, inr, ◌==◌, ◌◂◌, if◌then◌else◌, is_some, any,
}
use insights_remote.Base.Maps.{Entries, GoMap, at, entries, insert, lookup}
use insights_remote.Base.Exec.{
  Error, new_error, Outcome, ok, err, panic, pure, raise, crash, lift, attempt, ignore_not_found,
  ◌>>=◌, ◌>>◌,
}
use insights_remote.Base.Text.Fields.{join}
use insights_remote.Builds.ScanPod.{
  generate_scan_pod_spec, scanner_name_from_buildname, image_scan_pod_labels,
}
use insights_remote.Events.{Event, create, delete, update, generic}
use insights_remote.World.{
  World, Action, Trace, NamespacedName, Pod, Deployment, Container, ask, perform, get_pod,
  list_deployments, list_pods, create_pod, update_pod, delete_pod,
}

-- `Client` and `Scheme` are the `World`; the secret of the tokens is not used here.
pub record BuildReconciler : Type 0 where
  pub scan_image_name : String
  pub extra_env_vars : Entries String

abbrev pub insights_build_pod_scanned_label : String
insights_build_pod_scanned_label = "insights.lagoon.sh/scanned"

abbrev pub docker_host_annotation_key : String
docker_host_annotation_key = "dockerhost.lagoon.sh/name"

abbrev pub default_dockerhost : String
default_dockerhost = "docker-host.lagoon.svc"

unfoldable pub extract_docker_host : Pod → Error ⊎ String
extract_docker_host p = elim (at p.annotations docker_host_annotation_key) [
  | none ↦ inl (new_error "no dockerhost.lagoon.sh/name annotation found on build pod")
  | some v ↦
      if v == ""
      then inl (new_error "empty dockerhost.lagoon.sh/name annotation found on build pod")
      else inr v
]

unfoldable pub images_of : List Deployment → List String
images_of [] = []
images_of (d ∷ ds) = map (λ c. c.image) d.containers ++ images_of ds

module _ (w : World) where
  unfoldable pub scan_deployments : (namespace : String) → Action (List String)
  unfolding images_of
  scan_deployments namespace = do
    deployments ← ask (list_deployments namespace) (λ s. w.deployments s namespace)
    pure (images_of deployments)

  -- The loop ends at the first delete that fails.
  unfoldable pub delete_all : List Pod → Action (Unit {0})
  delete_all [] = pure tt
  delete_all (p ∷ ps) = do perform w (delete_pod p); delete_all ps

  unfoldable pub kill_existing_scans : (namespace : String) → Action (Unit {0})
  unfolding delete_all
  kill_existing_scans namespace = do
    pods ←
        ask (list_pods namespace image_scan_pod_labels)
          (λ s. w.pods s namespace image_scan_pod_labels)
    delete_all pods

  -- Writing to the labels of a build without any is a panic.
  unfoldable pub label_scanned : Pod → Action (Unit {0})
  label_scanned build = elim build.labels [
    | none ↦ crash
    | some labels ↦ perform w (
        update_pod
          (record build { labels = some (insert insights_build_pod_scanned_label "true" labels) }))
  ]

  abbrev pub dockerhost_of : Pod → String
  dockerhost_of build = elim (extract_docker_host build) [
    | inl e ↦ default_dockerhost
    | inr host ↦ host
  ]

  -- What is done for a build that succeeded; its errors end the reconciliation alike.
  unfoldable pub scan : BuildReconciler → Pod → Action (Unit {0})
  unfolding scan_deployments extract_docker_host generate_scan_pod_spec kill_existing_scans
      label_scanned
  scan r build = do
    images ← scan_deployments build.namespace
    pod ← lift (
        generate_scan_pod_spec build images r.scan_image_name (dockerhost_of build)
          r.extra_env_vars)
    kill_existing_scans build.namespace
    perform w (create_pod pod)
    label_scanned build

  unfoldable pub reconcile : BuildReconciler → NamespacedName → Action (Unit {0})
  unfolding scan
  reconcile r req = do
    found ← attempt (do
      build ← ask (get_pod req) (λ s. w.pod s req)
      if build.phase == "Succeeded" then scan r build else pure tt)
    elim found [ inl e ↦ ignore_not_found e | inr _ ↦ pure tt ]

-- The labels of a build that is still to be scanned.
abbrev wants_scan : GoMap String → Bool
wants_scan labels =
    is_some (at labels "lagoon.sh/buildName")
    && not (is_some (at labels "insights.lagoon.sh/scan-status"))
    && not (is_some (at labels insights_build_pod_scanned_label))

-- successfulBuildPodsPredicate
unfoldable pub successful_build_pods : Event Pod → Bool
successful_build_pods (create pod) = false
successful_build_pods (delete pod) = false
successful_build_pods (update old new) = wants_scan new.labels
successful_build_pods (generic pod) = false
