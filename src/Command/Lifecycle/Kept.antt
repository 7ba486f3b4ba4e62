-- ===== src/Command/Lifecycle/Kept.antt =====
-- What stays true over the life of a config map that is to be sent to Lagoon core.
use insights_remote.Base.{
  String, Option, some, ◌++◌, ◌≡◌, refl, sym, ap, ◌∙◌, true, arith, is_some, eq_iff,
}
use mathlib.Core.List.{append_assoc}
use insights_remote.Base.Maps.{at}
use insights_remote.ConfigMaps.{insights_message, successful_run, failed_run}
use insights_remote.PostProcess.InsightsCore.{enabled}
use insights_remote.Types.{insights_updated_annotation_label}
use insights_remote.World.{World, Trace, ConfigMap, Namespace}
use insights_remote.Command.Lifecycle.{core_status, core_enabled, IsSent}

module _ (w : World) where
  pub later-IsSent :
      (start : ConfigMap) (born q t : Trace) → IsSent w start born t → IsSent w start born (q ++ t)
  later-IsSent start born q t (m, p, q', same, same_binary, same_namespace, took, sent) = (
    m,
    p,
    q ++ q',
    same,
    same_binary,
    same_namespace,
    took,
    ap (λ z. q ++ z) sent ∙ sym (append_assoc q q' _),
  )

  pub failure-ne-success : ◌≡◌ {A = Option String} (some failed_run) (some successful_run) → ⊥
  failure-ne-success h = ground (arith, h, eq_iff failed_run successful_run)

  pub enabled_message :
      (cm : ConfigMap) (ns : Namespace)
      → at cm.annotations core_enabled ≡ some "true"
      → enabled (insights_message cm ns) ≡ true
  unfolding insights_message
  enabled_message cm ns h = rw (h, enabled) refl

  -- What stays true over the life of a config map that is to be sent to Lagoon core.
  pub record Kept (start : ConfigMap) (born : Trace) (cm : ConfigMap) (t : Trace) : Type 0 where
    pub lived : (q : Trace) × (t ≡ q ++ born)
    pub same_namespace : cm.namespace ≡ start.namespace
    pub same_payload : cm.payload ≡ start.payload
    pub same_binary : cm.binary_data ≡ start.binary_data
    pub enabled_still : at cm.annotations core_enabled ≡ some "true"
    pub status_sent : at cm.annotations core_status ≡ some successful_run → IsSent w start born t
    pub marked_sent :
        is_some (at cm.annotations insights_updated_annotation_label) ≡ true → IsSent w start born t

  pub later-Kept :
      (start : ConfigMap) (born : Trace) (cm : ConfigMap) (q t : Trace)
      → Kept start born cm t
      → Kept start born cm (q ++ t)
  later-Kept start born cm q t k = record {
    lived = (q ++ k.lived.0, ap (λ z. q ++ z) k.lived.1 ∙ sym (append_assoc q k.lived.0 born));
    same_namespace = k.same_namespace;
    same_payload = k.same_payload;
    same_binary = k.same_binary;
    enabled_still = k.enabled_still;
    status_sent = λ h. later-IsSent start born q t (k.status_sent h);
    marked_sent = λ h. later-IsSent start born q t (k.marked_sent h);
  }
