-- ===== src/Builds/Refused.antt =====
-- What the reconciliation of a build in internal/controller/build_controller.go leaves when the delete
-- of an existing scan pod is refused.
use insights_remote.Base.{if◌then◌else◌, String, List, [], ◌∷◌, ◌++◌, ◌≡◌, inl, inr, arith, eq_iff}
use insights_remote.Base.Exec.{Error, ok, err}
use insights_remote.World.{
  World, Trace, NamespacedName, Pod, Deployment, Container, get_pod, list_deployments, list_pods,
  delete_pod,
}
use insights_remote.Builds.ScanPod.{image_scan_pod_labels}
use insights_remote.Builds.{
  BuildReconciler, images_of, scan_deployments, delete_all, kill_existing_scans, scan, reconcile,
}
use insights_remote.Builds.Rescan.{deletes, listed, spec_generated}

module _ (w : World) where
  -- The deletes of the pods are accepted, one after the other.
  abbrev pub AcceptsDeletes : List Pod → Trace → Type 0
  AcceptsDeletes [] t = Unit
  AcceptsDeletes (p ∷ ps) t =
      (w.written t (delete_pod p) ≡ inr tt) × AcceptsDeletes ps (delete_pod p ∷ t)

  delete_all_refused :
      (before after : List Pod) (p : Pod) (t : Trace) (e : Error)
      → AcceptsDeletes before t
      → w.written (deletes before t) (delete_pod p) ≡ inl e
      → delete_all w (before ++ p ∷ after) t ≡ (err e, delete_pod p ∷ deletes before t)
  unfolding delete_all
  delete_all_refused [] after p t e accepted refused = ground (arith, refused)
  delete_all_refused (u ∷ before) after p t e (first, accepted) refused =
      ground (arith, first, delete_all_refused before after p (delete_pod u ∷ t) e accepted refused)

  kill_refused :
      (namespace : String) (t : Trace) (before after : List Pod) (p : Pod) (e : Error)
      → w.pods t namespace image_scan_pod_labels ≡ inr (before ++ p ∷ after)
      → AcceptsDeletes before (list_pods namespace image_scan_pod_labels ∷ t)
      → w.written (deletes before (list_pods namespace image_scan_pod_labels ∷ t)) (delete_pod p)
        ≡ inl e
      → kill_existing_scans w namespace t
        ≡ (err e, delete_pod p ∷ deletes before (list_pods namespace image_scan_pod_labels ∷ t))
  unfolding kill_existing_scans
  kill_refused namespace t before after p e has_pods accepted refused = ground (
    arith,
    has_pods,
    delete_all_refused before after p (list_pods namespace image_scan_pod_labels ∷ t) e accepted
        refused,
  )

  -- When the delete of one of the existing scan pods is refused, the reconciliation of a build with
  -- images ends there: the pods before it are deleted and the others are left, no scan pod is created,
  -- the build is not labelled, and the error is returned unless it says "not found".
  pub reconcile_undeleted :
      (r : BuildReconciler) (req : NamespacedName) (t : Trace) (before after : List Pod) (p : Pod)
      (e : Error) {build : Pod} {c : Container} {cs : List Container} {ds : List Deployment}
      {image : String} {images : List String}
      → w.pod t req ≡ inr build
      → build.phase ≡ "Succeeded"
      → build.containers ≡ c ∷ cs
      → w.deployments (get_pod req ∷ t) build.namespace ≡ inr ds
      → images_of ds ≡ image ∷ images
      → w.pods
          (list_deployments build.namespace ∷ get_pod req ∷ t)
          build.namespace
          image_scan_pod_labels
        ≡ inr (before ++ p ∷ after)
      → AcceptsDeletes before (listed req build t)
      → w.written (deletes before (listed req build t)) (delete_pod p) ≡ inl e
      → reconcile w r req t
        ≡ (if e.not_found then ok tt else err e, delete_pod p ∷ deletes before (listed req build t))
  unfolding reconcile scan scan_deployments
  reconcile_undeleted r req t before after p e {build} {c} {cs} {ds} {image} {images} found done
        has_c has_ds has_images has_pods accepted refused =
      ground (
        arith,
        found,
        done,
        eq_iff build.phase "Succeeded",
        has_ds,
        has_images,
        spec_generated w r build image images has_c,
        kill_refused build.namespace (list_deployments build.namespace ∷ get_pod req ∷ t) before
            after p e has_pods accepted refused,
      )
