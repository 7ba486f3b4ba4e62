-- ===== src/ConfigMaps/Outcomes.antt =====
-- The paths of a reconciliation of a config map, from the request to the last call.
use insights_remote.Base.{
  String, Option, none, some, ◌∷◌, ◌≡◌, ◌≢◌, refl, ◌∙◌, Bool, true, false, is_empty, if◌then◌else◌,
  inl, inr,
}
use insights_remote.Base.Int.{pos, ◌+ℤ◌, wrap64, ltb_ℤ}
use insights_remote.Base.Maps.{at, or_else}
use insights_remote.Base.Exec.{ok, panic}
use insights_remote.CmLib.{relabelled}
use insights_remote.Events.{update}
use insights_remote.Types.{insights_updated_annotation_label, insights_write_deferred}
use insights_remote.World.{
  World, Trace, ConfigMap, Namespace, NamespacedName, update_config_map, get_config_map,
  get_namespace, perform,
}
use insights_remote.ConfigMaps.{
  ConfigMapReconciler, Tally, number_of_retries, insights_message, insights_type, is_accepted,
  run_processors, next_retries, minutes_from_now, ship, reconcile, is_handled,
}
use insights_remote.ConfigMaps.Filter.{max_retry_exceeded_label_key}
use insights_remote.ConfigMaps.Loop.Statuses.{run_processors-IsMap}
use insights_remote.ConfigMaps.Written.{fresh_tally, outcome_of, ship-write}
use insights_remote.ConfigMaps.Settled.{
  run_processors-cases, outcome_of-not_handled, number_of_retries-outcome_of, annotation_processed,
  label_deferred, label_max, labels_kept,
}

module _ (req : NamespacedName) (trace : Trace) where
  -- The name under which the namespace is looked up, and the calls before the post-processors.
  abbrev pub owner_name : NamespacedName
  owner_name = record { namespace = ""; name = req.namespace }

  abbrev pub asked : Trace
  asked = get_config_map req ∷ trace

  abbrev pub loaded : Trace
  loaded = get_namespace owner_name ∷ asked

or_else-if :
    (b : Bool) (v : String) (old : Option String)
    → or_else (if b then some v else none) old ≡ (if b then some v else old)
or_else-if true v old = refl
or_else-if false v old = refl

module _ (w : World) (r : ConfigMapReconciler) (req : NamespacedName) (trace : Trace)
    (cm : ConfigMap) where
  -- The reconciliation ran all the post-processors and ended with one write, of which no event is
  -- handled.
  abbrev pub Settles : Namespace → Type 0
  Settles ns =
      (t : Tally) × (s : Trace) × (run_processors (insights_message cm ns) r.post_processors
          fresh_tally (loaded req trace)
        ≡ (ok t, s))
      × (reconcile w r req trace ≡ perform w (update_config_map (outcome_of w r cm t s)) s)
      × ((old : ConfigMap) → is_handled (update old (outcome_of w r cm t s)) ≡ false)

  -- It wrote the config map as processed, at the time of the trace.
  abbrev pub Finishes : Trace → Type 0
  Finishes s =
      (cm' : ConfigMap) × (reconcile w r req trace ≡ perform w (update_config_map cm') s)
      × (at cm'.annotations insights_updated_annotation_label ≡ some (w.now_rfc3339 s))
      × (number_of_retries cm'.annotations ≡ number_of_retries cm.annotations)
      × (cm'.labels ≡ cm.labels)
      × (cm'.payload ≡ cm.payload)
      × (cm'.binary_data ≡ cm.binary_data)

  -- It wrote the config map as deferred, from the time of the trace on, with one retry more.
  abbrev pub Defers : Trace → Type 0
  Defers s =
      (cm' : ConfigMap) × (reconcile w r req trace ≡ perform w (update_config_map cm') s)
      × (at cm'.labels insights_write_deferred
          ≡ some (minutes_from_now (pos (w.now_ns s)) r.minutes_between_retries))
      × (number_of_retries cm'.annotations ≡ wrap64 (number_of_retries cm.annotations +ℤ pos 1))
      × (at cm'.labels max_retry_exceeded_label_key ≡ (
          if ltb_ℤ r.max_number_of_retries (wrap64 (number_of_retries cm.annotations +ℤ pos 1))
          then some "MAX_RETRY_EXCEEDED"
          else at cm.labels max_retry_exceeded_label_key))

module _ (w : World) (r : ConfigMapReconciler) (req : NamespacedName) (trace : Trace) where
  module _ (cm : ConfigMap) (ns : Namespace) (found : w.config_map trace req ≡ inr cm)
      (owned : w.namespace (asked req trace) (owner_name req trace) ≡ inr ns)
      (accepted : is_accepted (insights_type cm) ≡ true) where
    pub reconcile-ship : reconcile w r req trace ≡ ship w r cm ns (loaded req trace)
    unfolding reconcile
    reconcile-ship = rw (found, owned, accepted) refl

    -- A reconciliation that reads its config map and namespace, of an accepted type, and does not
    -- panic, ran all the post-processors and ended with one write: its outcome is that of the
    -- write, and the update event of what it wrote is not handled, so it does not set itself off.
    pub reconcile-Settles : (reconcile w r req trace).0 ≢ panic → Settles w r req trace cm ns
    reconcile-Settles h =
        elim (run_processors-cases (insights_message cm ns) r.post_processors fresh_tally
          (loaded req trace)) [
            | inl (t, s, ran) ↦ (
              t,
              s,
              ran,
              reconcile-ship ∙ ship-write w r cm ns t (loaded req trace) s ran,
              outcome_of-not_handled w r cm t s (run_processors-IsMap _ _ _ s t ran),
            )
            | inr (s, crashed) ↦ absurd (h (unfold ship in rw (reconcile-ship, crashed) refl))
          ]

    module _ (t : Tally) (s : Trace)
        (ran : run_processors
            (insights_message cm ns)
            r.post_processors
            fresh_tally
            (loaded req trace)
          ≡ (ok t, s)) where
      ends : reconcile w r req trace ≡ perform w (update_config_map (outcome_of w r cm t s)) s
      ends = reconcile-ship ∙ ship-write w r cm ns t (loaded req trace) s ran

      -- If no post-processor failed or panicked, the config map that is written has the
      -- time in its annotation for processed ones, its labels, data and binary data as they were, and
      -- the same count of retries.
      pub reconcile_success : is_empty t.retry ≡ true → Finishes w r req trace cm s
      unfolding relabelled
      reconcile_success h =
          let unique = run_processors-IsMap _ _ _ s t ran in
          (
            outcome_of w r cm t s,
            ends,
            annotation_processed w r cm t s unique h,
            number_of_retries-outcome_of w r cm t s unique ∙ (unfold next_retries in rw h refl),
            labels_kept w r cm t s unique h,
            refl,
            refl,
          )

      -- If a post-processor failed, and none panicked, the config map that is written is labelled
      -- with the time of the retry, its count of retries is one more, as an int64, and if that passes
      -- the limit it is labelled as given up; otherwise that label stays as it was.
      pub reconcile_failure : is_empty t.retry ≡ false → Defers w r req trace cm s
      reconcile_failure h =
          let unique = run_processors-IsMap _ _ _ s t ran in
          (
            outcome_of w r cm t s,
            ends,
            label_deferred w r cm t s unique h,
            number_of_retries-outcome_of w r cm t s unique ∙ (unfold next_retries in rw h refl),
            label_max w r cm t s unique h
                ∙ or_else-if
                    (ltb_ℤ r.max_number_of_retries
                      (wrap64 (number_of_retries cm.annotations +ℤ pos 1)))
                    _ _,
          )
