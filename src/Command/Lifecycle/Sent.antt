-- ===== src/Command/Lifecycle/Sent.antt =====
-- What has reached Lagoon core by the time a config map is marked as processed.
use insights_remote.Base.{none, some, [], ◌∷◌, ◌≡◌, ◌≢◌, refl, sym, ap, ◌∙◌, true, arith, is_some}
use insights_remote.Base.Int.{ℤ}
use insights_remote.Base.Maps.{at}
use insights_remote.ConfigMaps.{successful_run}
use insights_remote.ConfigMaps.Outcomes.{reconcile-Settles}
use mathlib.Core.Path.{subst}
use insights_remote.Crons.{undeferred}
use insights_remote.PostProcess.DependencyTrack.{Libraries}
use insights_remote.Types.{insights_updated_annotation_label}
use insights_remote.World.{World, Trace, ConfigMap, update_config_map}
use insights_remote.Command.Config.{Tracking}
use insights_remote.Command.Lifecycle.{
  core_status, core_enabled, IsSent, Life, fresh, reconciled, freed, meanwhile,
}
use insights_remote.Command.Lifecycle.Kept.{Kept, later-Kept}
use insights_remote.Command.Lifecycle.Run.{own, written, written-Kept}

module _ (libraries : Libraries) (w : World) (s : Tracking) (minutes limit : ℤ) where
  -- What the write leaves is what was to be written.
  settle :
      (start : ConfigMap) (born : Trace) (c c' : ConfigMap) (p p' : Trace)
      → update_config_map c ∷ p ≡ update_config_map c' ∷ p'
      → Kept w start born c p
      → Kept w start born c' (update_config_map c' ∷ p')
  settle start born c c' p p' h k =
      let same : c ≡ c' = cc h in
      let same_trace : p ≡ p' = cc h in
      later-Kept w start born c' (update_config_map c' ∷ []) p'
        (subst (λ z. Kept w start born z p') same (subst (Kept w start born c) same_trace k))

  Life-Kept :
      {start : ConfigMap} {born : Trace} {cm : ConfigMap} {t : Trace}
      → at start.annotations core_enabled ≡ some "true"
      → at start.annotations core_status ≢ some successful_run
      → at start.annotations insights_updated_annotation_label ≡ none
      → Life libraries w s minutes limit start born cm t
      → Kept w start born cm t
  unfolding undeferred
  Life-Kept on todo unmarked fresh = record {
    lived = ([], refl);
    same_namespace = refl;
    same_payload = refl;
    same_binary = refl;
    enabled_still = on;
    status_sent = λ h. absurd (todo h);
    marked_sent = λ h. absurd (ground (arith, unmarked, h));
  }
  Life-Kept {start} {born} on todo unmarked
        (reconciled {cm} {cm'} {t} {t'} life req ns found owned accepted ends) =
      let k = Life-Kept on todo unmarked life in
      let (tally, s', ran, ends', _) =
        reconcile-Settles w (own libraries w s minutes limit) req t cm ns found owned accepted
          (λ crashed. ground (arith, ends, crashed)) in
      settle start born (written libraries w s minutes limit req t start born cm ns tally s' ran k)
        cm' s' t' (ap (λ r. r.1) (sym ends' ∙ ends))
        (written-Kept libraries w s minutes limit req t start born cm ns tally s' ran k)
  Life-Kept {start} {born} on todo unmarked (freed {cm} {t} life) =
      let k =
        later-Kept w start born cm (update_config_map (undeferred cm) ∷ []) t
          (Life-Kept on todo unmarked life) in
      record {
        lived = k.lived;
        same_namespace = k.same_namespace;
        same_payload = k.same_payload;
        same_binary = k.same_binary;
        enabled_still = k.enabled_still;
        status_sent = k.status_sent;
        marked_sent = k.marked_sent;
      }
  Life-Kept {start} {born} on todo unmarked (meanwhile {cm} {t} life q) =
      later-Kept w start born cm q t (Life-Kept on todo unmarked life)

  -- Whatever the order in which a config map is reconciled, deferred and freed while the program makes
  -- other calls, one that asks for Lagoon core, and began with neither a success for it nor the
  -- annotation for processed ones, has that annotation only when the broker has since taken a message
  -- with its namespace and its data, and the connection was closed. The broker is enabled, and each
  -- reconciliation reads the config map as it is and has its write accepted.
  pub Life-IsSent :
      {start : ConfigMap} {born : Trace} {cm : ConfigMap} {t : Trace}
      → at start.annotations core_enabled ≡ some "true"
      → at start.annotations core_status ≢ some successful_run
      → at start.annotations insights_updated_annotation_label ≡ none
      → Life libraries w s minutes limit start born cm t
      → is_some (at cm.annotations insights_updated_annotation_label) ≡ true
      → IsSent w start born t
  Life-IsSent on todo unmarked life marked = (Life-Kept on todo unmarked life).marked_sent marked
