-- ===== src/Command/Lifecycle/Run.antt =====
-- What one reconciliation makes of a config map that is to be sent to Lagoon core.
use insights_remote.Base.{
  String, some, List, [], ◌∷◌, ◌++◌, ◌≡◌, refl, sym, ap, ◌∙◌, true, false, ◌⊎◌, inl, inr, arith,
  is_empty, is_some, All, ◌==◌,
}
use mathlib.Core.List.{append_assoc}
use insights_remote.Base.Int.{ℤ}
use insights_remote.Base.Maps.{at, lookup, insert, or_else, IsMap}
use insights_remote.Base.Exec.{Error, ok}
use insights_remote.ConfigMaps.{
  ConfigMapReconciler, Tally, run_processors, insights_message, failed_run, retries_annotation_key,
}
use insights_remote.ConfigMaps.Outcomes.{loaded, owner_name}
use insights_remote.ConfigMaps.Settled.{annotation_other}
use insights_remote.ConfigMaps.Written.{fresh_tally, outcome_of}
use insights_remote.ConfigMaps.Loop.{
  Verdict, failed, failed_labels, noted, all_noted, run_processors-Described,
}
use mathlib.Core.Path.{subst}
use insights_remote.ConfigMaps.Loop.Statuses.{
  Apart, verdict_labels, run_processors-IsMap, lookup-all_noted,
}
use insights_remote.CmLib.{relabelled}
use insights_remote.PostProcess.InsightsCore.{new_post_processor}
use insights_remote.PostProcess.DependencyTrack.{Libraries}
use insights_remote.Types.{insights_updated_annotation_label}
use insights_remote.World.{
  World, Trace, ConfigMap, Namespace, NamespacedName, get_config_map, get_namespace,
}
use insights_remote.Command.{post_processors}
use insights_remote.Command.Config.{Tracking}
use insights_remote.Command.Each.{core_processor}
use insights_remote.Command.Published.{
  published, Took, lookup-run_processors, post_processors-Elsewhere, is_apart, own_labels,
  tracking-labels, post_processors-Appends, Ran-extends, Ran-first, core-published,
}
use insights_remote.Command.Lifecycle.{core_status, core_enabled, reconciler, IsSent}
use insights_remote.Command.Lifecycle.Kept.{Kept, later-IsSent, failure-ne-success, enabled_message}

module _ (libraries : Libraries) (w : World) (s : Tracking) (minutes limit : ℤ) where
  abbrev pub own : ConfigMapReconciler
  own = reconciler libraries w s minutes limit

  module _ (req : NamespacedName) (t : Trace) (start : ConfigMap) (born : Trace) (cm : ConfigMap)
      (ns : Namespace) (tally : Tally) (s' : Trace)
      (ran : run_processors (insights_message cm ns) own.post_processors fresh_tally (loaded req t)
        ≡ (ok tally, s'))
      (k : Kept w start born cm t) where
    abbrev pub written : ConfigMap
    written = outcome_of w own cm tally s'

    unique : IsMap tally.annotations
    unique = run_processors-IsMap _ _ _ s' tally ran

    -- An annotation that is neither a status nor one of the reconciler's own is left as it was.
    kept_at :
        (key : String)
        → (retries_annotation_key == key) ≡ false
        → (is_empty tally.retry ≡ false) ⊎ ((insights_updated_annotation_label == key) ≡ false)
        → is_apart key own_labels ≡ true
        → at written.annotations key ≡ at cm.annotations key
    kept_at key other h free =
        annotation_other w own cm tally s' unique key other h
        ∙ ap (λ o. or_else o (at cm.annotations key))
            (lookup-run_processors key _ _ _ s' tally
              (post_processors-Elsewhere libraries w true s key free) ran)

    written-enabled : at written.annotations core_enabled ≡ some "true"
    written-enabled = kept_at core_enabled refl (inr refl) refl ∙ k.enabled_still

    run-extends : (q : Trace) × (s' ≡ q ++ loaded req t)
    run-extends =
        let (vs, described, _, _) = run_processors-Described _ _ _ _ tally s' ran in
        Ran-extends described (post_processors-Appends libraries w true s)

    -- The reads of the reconciliation.
    abbrev reads : Trace
    reads = get_namespace (owner_name req t) ∷ get_config_map req ∷ []

    loaded-born : loaded req t ≡ (reads ++ k.lived.0) ++ born
    loaded-born = ap (λ z. reads ++ z) k.lived.1

    after_reads : s' ≡ (run-extends.0 ++ reads) ++ t
    after_reads = run-extends.1 ∙ sym (append_assoc run-extends.0 reads t)

    lived_on : (q : Trace) × (s' ≡ q ++ born)
    lived_on = (
      (run-extends.0 ++ reads) ++ k.lived.0,
      after_reads
          ∙ ap (λ z. (run-extends.0 ++ reads) ++ z) k.lived.1
          ∙ sym (append_assoc (run-extends.0 ++ reads) k.lived.0 born),
    )

    -- What was sent before the reconciliation, or in it.
    IsSent-before : IsSent w start born t → IsSent w start born s'
    IsSent-before h =
        subst (IsSent w start born) (sym after_reads) (later-IsSent w start born _ t h)

    IsSent-now :
        (s₁ q : Trace)
        → (core_processor w).post_process (insights_message cm ns) (loaded req t) ≡ (ok tt, s₁)
        → s' ≡ q ++ s₁
        → IsSent w start born s'
    unfolding insights_message
    IsSent-now s₁ q sent later =
        let m = insights_message cm ns in
        let (took, now) =
          core-published w m (loaded req t) s₁ (enabled_message w cm ns k.enabled_still) sent in
        (
          m,
          reads ++ k.lived.0,
          q,
          k.same_payload,
          k.same_binary,
          k.same_namespace,
          subst (Took w m) loaded-born took,
          later ∙ ap (λ z. q ++ z) (now ∙ ap (published m) loaded-born),
        )

    sent_all : IsSent w start born s' → Kept w start born written s'
    unfolding relabelled
    sent_all sent = record {
      lived = lived_on;
      same_namespace = k.same_namespace;
      same_payload = k.same_payload;
      same_binary = k.same_binary;
      enabled_still = written-enabled;
      status_sent = λ _. sent;
      marked_sent = λ _. sent;
    }

    -- A failure at Lagoon core leaves the config map unmarked, and its status is no success.
    unsent :
        (e : Error) (us : List (String × Verdict))
        → tally.retry ≡ core_status ∷ failed_labels us
        → tally.annotations ≡ all_noted us (noted (core_status, failed e) [])
        → All (Apart core_status) (verdict_labels us)
        → Kept w start born written s'
    unfolding relabelled lookup insert
    unsent e us retry gathered apart =
        let some_failed : is_empty tally.retry ≡ false = ground (arith, retry) in
        let status : at written.annotations core_status ≡ some failed_run =
          annotation_other w own cm tally s' unique core_status refl (inr refl)
          ∙ ap (λ o. or_else o (at cm.annotations core_status))
              (ap (lookup core_status) gathered ∙ lookup-all_noted core_status us _ apart) in
        let marked : at written.annotations insights_updated_annotation_label
            ≡ at cm.annotations insights_updated_annotation_label =
          kept_at insights_updated_annotation_label refl (inl some_failed) refl in
        record {
          lived = lived_on;
          same_namespace = k.same_namespace;
          same_payload = k.same_payload;
          same_binary = k.same_binary;
          enabled_still = written-enabled;
          status_sent = λ h. absurd (failure-ne-success w (sym status ∙ h));
          marked_sent = λ h. IsSent-before (k.marked_sent (ap is_some (sym marked) ∙ h));
        }

    pub written-Kept : Kept w start born written s'
    unfolding post_processors new_post_processor insights_message
    written-Kept =
        let (vs, described, retry, gathered) = run_processors-Described _ _ _ _ tally s' ran in
        elim (Ran-first described (post_processors-Appends libraries w true s).1) [
          | inl done ↦ sent_all (IsSent-before (k.status_sent done))
          | inr (inl (s₁, q, sent, later)) ↦ sent_all (IsSent-now s₁ q sent later)
          | inr (inr (e, us, failed_first, same)) ↦
              unsent e us (retry ∙ ap failed_labels failed_first)
                (gathered ∙ ap (λ z. all_noted z []) failed_first)
                (subst (All (Apart core_status)) (sym same)
                  (tracking-labels libraries w s core_status refl))
        ]
