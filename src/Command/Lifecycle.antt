-- ===== src/Command/Lifecycle.antt =====
-- The life of a config map with insights in the running program: the reconciliations that are called
-- for it (internal/controller/configmap_controller.go), the job that ends its deferrals (cmd/main.go),
-- and anything else in between; and what has reached Lagoon core by the time it is marked as processed.
pub mod Kept
pub mod Run
pub mod Sent
use insights_remote.Base.{String, ◌++◌, ◌∷◌, ◌≡◌, true, inr}
use insights_remote.Base.Int.{ℤ}
use insights_remote.Base.Exec.{ok}
use insights_remote.ConfigMaps.{ConfigMapReconciler, is_accepted, insights_type, reconcile}
use insights_remote.ConfigMaps.Outcomes.{asked, owner_name}
use insights_remote.Crons.{undeferred}
use insights_remote.PostProcess.DependencyTrack.{Libraries}
use insights_remote.Types.{LagoonInsightsMessage}
use insights_remote.World.{World, Trace, ConfigMap, Namespace, NamespacedName, update_config_map}
use insights_remote.Command.{post_processors}
use insights_remote.Command.Config.{Tracking}
use insights_remote.Command.Published.{published, Took}

abbrev pub core_status : String
core_status = "core.insights.lagoon.sh/status"

abbrev pub core_enabled : String
core_enabled = "core.insights.lagoon.sh/enabled"

module _ (w : World) where
  -- Since it was born the broker has taken a message with the data of the config map, and the
  -- connection to it was closed.
  abbrev pub IsSent : ConfigMap → Trace → Trace → Type 0
  IsSent start born t =
      (m : LagoonInsightsMessage) × (p : Trace) × (q : Trace) × (m.payload ≡ start.payload)
      × (m.binary_payload ≡ start.binary_data)
      × (m.namespace ≡ start.namespace)
      × Took w m (p ++ born)
      × (t ≡ q ++ published m (p ++ born))

module _ (libraries : Libraries) (w : World) (s : Tracking) (minutes limit : ℤ) where
  -- The reconciler of the program, with the broker enabled.
  abbrev pub reconciler : ConfigMapReconciler
  reconciler = record {
    post_processors = post_processors libraries w true s;
    minutes_between_retries = minutes;
    max_number_of_retries = limit;
  }

  -- From a config map at one trace to what it is at a later one.
  pub data Life (start : ConfigMap) (born : Trace) : ConfigMap → Trace → Type 0 where
    fresh : Life start born start born
    -- A reconciliation reads the config map as it is, and its write is accepted.
    reconciled :
        {cm cm' : ConfigMap} {t t' : Trace}
        → Life start born cm t
        → (req : NamespacedName) (ns : Namespace) → w.config_map t req ≡ inr cm
        → w.namespace (asked req t) (owner_name req t) ≡ inr ns
        → is_accepted (insights_type cm) ≡ true
        → reconcile w reconciler req t ≡ (ok tt, update_config_map cm' ∷ t')
        → Life start born cm' (update_config_map cm' ∷ t')
    -- The job that ends deferrals writes it.
    freed :
        {cm : ConfigMap} {t : Trace}
        → Life start born cm t
        → Life start born (undeferred cm) (update_config_map (undeferred cm) ∷ t)
    -- The program makes other calls, in whatever order.
    meanwhile :
        {cm : ConfigMap} {t : Trace}
        → Life start born cm t
        → (q : Trace) → Life start born cm (q ++ t)
