-- ===== src/Builds/Rescan.antt =====
-- What the reconciliation of a build in internal/controller/build_controller.go does to the namespace.
use insights_remote.Base.{String, some, List, [], ◌∷◌, ◌≡◌, inr, refl, arith, eq_iff, false}
use insights_remote.Base.Maps.{Entries, insert, lookup-insert_self}
use insights_remote.Base.Exec.{new_error, ok, err}
use insights_remote.Events.{Event, create, delete, update, generic, subject}
use insights_remote.World.{
  World, Trace, Call, NamespacedName, Pod, Deployment, Container, get_pod, list_deployments,
  list_pods, create_pod, update_pod, delete_pod,
}
use insights_remote.Builds.ScanPod.{
  image_scan_pod_labels, generate_scan_pod_spec, scan_pod, sorted_env, env_map,
}
use insights_remote.Builds.{
  BuildReconciler, insights_build_pod_scanned_label, images_of, scan_deployments, delete_all,
  kill_existing_scans, label_scanned, dockerhost_of, scan, reconcile, successful_build_pods,
}

-- The pods are deleted, in order.
abbrev pub deletes : List Pod → Trace → Trace
deletes [] t = t
deletes (p ∷ ps) t = deletes ps (delete_pod p ∷ t)

-- The trace after the images and the existing scan pods of the build are listed.
abbrev pub listed : NamespacedName → Pod → Trace → Trace
listed req build t =
    list_pods build.namespace image_scan_pod_labels
    ∷ list_deployments build.namespace
    ∷ get_pod req
    ∷ t

abbrev pub labelled : Pod → Entries String → Pod
labelled build labels = record build {
  labels = some (insert insights_build_pod_scanned_label "true" labels);
}

-- No event of a build that is labelled as scanned is handled.
ignored :
    (build : Pod) (labels : Entries String) (e : Event Pod)
    → subject e ≡ labelled build labels
    → successful_build_pods e ≡ false
unfolding successful_build_pods
ignored build labels (create pod) h = refl
ignored build labels (delete pod) h = refl
ignored build labels (generic pod) h = refl
ignored build labels (update old new) h =
    ground (arith, h, lookup-insert_self insights_build_pod_scanned_label "true" labels)

module _ (w : World) where
  abbrev pub AcceptsWrites : Type 0
  AcceptsWrites = (s : Trace) (c : Call) → w.written s c ≡ inr tt

  delete_all_accepted :
      (ps : List Pod) (t : Trace) → AcceptsWrites → delete_all w ps t ≡ (ok tt, deletes ps t)
  unfolding delete_all
  delete_all_accepted [] t accepts = refl
  delete_all_accepted (p ∷ ps) t accepts =
      ground (arith, accepts t (delete_pod p), delete_all_accepted ps (delete_pod p ∷ t) accepts)

  abbrev pub spec : BuildReconciler → Pod → Container → List String → Pod
  spec r build c images =
      scan_pod build r.scan_image_name
        (sorted_env (env_map build c.env images (dockerhost_of w build) r.extra_env_vars))

  kill_accepted :
      (namespace : String) (t : Trace) {existing : List Pod}
      → AcceptsWrites
      → w.pods t namespace image_scan_pod_labels ≡ inr existing
      → kill_existing_scans w namespace t
        ≡ (ok tt, deletes existing (list_pods namespace image_scan_pod_labels ∷ t))
  unfolding kill_existing_scans
  kill_accepted namespace t {existing} accepts has_pods = ground (
    arith,
    has_pods,
    delete_all_accepted existing (list_pods namespace image_scan_pod_labels ∷ t) accepts,
  )

  pub spec_generated :
      (r : BuildReconciler) (build : Pod) {c : Container} {cs : List Container} (image : String)
      (images : List String)
      → build.containers ≡ c ∷ cs
      → generate_scan_pod_spec build
          (image ∷ images)
          r.scan_image_name
          (dockerhost_of w build)
          r.extra_env_vars
        ≡ ok (spec r build c (image ∷ images))
  unfolding generate_scan_pod_spec
  spec_generated r build image images has_c = ground (arith, has_c)

  scan_runs :
      (r : BuildReconciler) (build : Pod) (t : Trace) {labels : Entries String} {c : Container}
      {cs : List Container} {ds : List Deployment} {image : String} {images : List String}
      {existing : List Pod}
      → AcceptsWrites
      → build.labels ≡ some labels
      → build.containers ≡ c ∷ cs
      → w.deployments t build.namespace ≡ inr ds
      → images_of ds ≡ image ∷ images
      → w.pods (list_deployments build.namespace ∷ t) build.namespace image_scan_pod_labels
        ≡ inr existing
      → scan w r build t ≡ (
        ok tt,
        update_pod (labelled build labels)
            ∷ create_pod (spec r build c (image ∷ images))
            ∷ deletes existing (
                list_pods build.namespace image_scan_pod_labels
                ∷ list_deployments build.namespace
                ∷ t),
      )
  unfolding scan scan_deployments label_scanned
  scan_runs r build t {labels} {c} {cs} {ds} {image} {images} {existing} accepts has_labels has_c
        has_ds has_images has_pods =
      let killed : Trace =
        deletes existing (
          list_pods build.namespace image_scan_pod_labels ∷ list_deployments build.namespace ∷ t) in
      ground (
        arith,
        has_ds,
        has_images,
        has_labels,
        spec_generated r build image images has_c,
        kill_accepted build.namespace (list_deployments build.namespace ∷ t) accepts has_pods,
        accepts killed (create_pod (spec r build c (image ∷ images))),
        accepts (create_pod (spec r build c (image ∷ images)) ∷ killed)
            (update_pod (labelled build labels)),
      )

  -- A build that succeeded, with images to scan, while writes are accepted: every scan pod listed in
  -- its namespace is deleted, then one new scan pod is created, then the build is labelled as scanned,
  -- and no later event of the build is handled.
  pub reconcile_scans :
      (r : BuildReconciler) (req : NamespacedName) (t : Trace) {build : Pod}
      {labels : Entries String} {c : Container} {cs : List Container} {ds : List Deployment}
      {image : String} {images : List String} {existing : List Pod}
      → AcceptsWrites
      → w.pod t req ≡ inr build
      → build.phase ≡ "Succeeded"
      → build.labels ≡ some labels
      → build.containers ≡ c ∷ cs
      → w.deployments (get_pod req ∷ t) build.namespace ≡ inr ds
      → images_of ds ≡ image ∷ images
      → w.pods
          (list_deployments build.namespace ∷ get_pod req ∷ t)
          build.namespace
          image_scan_pod_labels
        ≡ inr existing
      → (reconcile w r req t ≡ (
        ok tt,
        update_pod (labelled build labels)
            ∷ create_pod (spec r build c (image ∷ images))
            ∷ deletes existing (listed req build t),
      ))
        × ((e : Event Pod) → subject e ≡ labelled build labels → successful_build_pods e ≡ false)
  unfolding reconcile
  reconcile_scans r req t {build} {labels} {c} {cs} {ds} {image} {images} {existing} accepts found
        done has_labels has_c has_ds has_images has_pods =
      (
        ground (
          arith,
          found,
          done,
          eq_iff build.phase "Succeeded",
          scan_runs r build (get_pod req ∷ t) accepts has_labels has_c has_ds has_images has_pods,
        ),
        ignored build labels,
      )

  -- Without an image in the namespace the reconciliation ends with an error, and no pod is deleted,
  -- created or labelled.
  pub reconcile_unscanned :
      (r : BuildReconciler) (req : NamespacedName) (t : Trace) {build : Pod} {ds : List Deployment}
      → w.pod t req ≡ inr build
      → build.phase ≡ "Succeeded"
      → w.deployments (get_pod req ∷ t) build.namespace ≡ inr ds
      → images_of ds ≡ []
      → reconcile w r req t
        ≡ (err (new_error "no images to scan"), list_deployments build.namespace ∷ get_pod req ∷ t)
  unfolding reconcile scan scan_deployments generate_scan_pod_spec
  reconcile_unscanned r req t {build} {ds} found done has_ds no_images =
      ground (arith, found, done, eq_iff build.phase "Succeeded", has_ds, no_images)
