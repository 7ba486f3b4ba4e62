-- ===== src/ConfigMaps/Stops.antt =====
-- How a reconciliation of a config map ends before the post-processors.
use insights_remote.Base.{String, none, some, ◌≡◌, ◌≢◌, if◌then◌else◌, inl, inr, ◌◂◌}
use insights_remote.Base.Maps.{at}
use insights_remote.Base.Exec.{Error, Outcome, ok, err, new_error}
use insights_remote.World.{World, Trace, ConfigMap, Namespace, NamespacedName}
use insights_remote.ConfigMaps.Outcomes.{asked, loaded, owner_name}

-- The labels state a type that is neither `sbom` nor `inspect`, or state none and are not those of a
-- zipped bill of materials or image inspection; the text is what the type is called.
pub data IsUnsupported (cm : ConfigMap) : String → Type 0 where
  stated :
      {t : String}
      → at cm.labels "insights.lagoon.sh/type" ≡ some t
      → t ≢ "sbom"
      → t ≢ "inspect"
      → IsUnsupported cm t
  unknown :
      {v : String}
      → at cm.labels "insights.lagoon.sh/type" ≡ none
      → at cm.labels "lagoon.sh/insightsType" ≡ some v
      → v ≢ "sbom-gz"
      → v ≢ "image-gz"
      → IsUnsupported cm "unclassified"
  unstated :
      at cm.labels "insights.lagoon.sh/type" ≡ none
      → at cm.labels "lagoon.sh/insightsType" ≡ none
      → IsUnsupported cm "unclassified"

-- How a reconciliation ends before the post-processors: the config map or its namespace cannot be
-- read, which is no error if it is gone, or the labels are not for a type that is supported.
pub data Stopped (w : World) (req : NamespacedName) (trace : Trace)
    : Outcome (Unit {0}) → Trace → Type 0 where
  no_config_map :
      {e : Error}
      → w.config_map trace req ≡ inl e
      → Stopped w req trace (if e.not_found then ok tt else err e) (asked req trace)
  no_namespace :
      {e : Error} {cm : ConfigMap}
      → w.config_map trace req ≡ inr cm
      → w.namespace (asked req trace) (owner_name req trace) ≡ inl e
      → Stopped w req trace (if e.not_found then ok tt else err e) (loaded req trace)
  rejected :
      {cm : ConfigMap} {ns : Namespace} {kind : String}
      → w.config_map trace req ≡ inr cm
      → w.namespace (asked req trace) (owner_name req trace) ≡ inr ns
      → IsUnsupported cm kind
      → Stopped w req trace
          (err (new_error ("insightsType '" ◂ kind ◂ "' unrecognized - rejecting configMap")))
          (loaded req trace)
