-- ===== src/Command/Shipping.antt =====
-- The reconciler of config maps with the post-processors that cmd/main.go gives it.
use insights_remote.Base.{◌≡◌, ◌≢◌, ap, Bool, true, ◌⊎◌, inl, inr, arith}
use insights_remote.Base.Exec.{ok, panic}
use insights_remote.ConfigMaps.{
  ConfigMapReconciler, Tally, run_processors, insights_message, is_accepted, insights_type,
  reconcile,
}
use insights_remote.ConfigMaps.Outcomes.{
  Settles, reconcile-Settles, reconcile-ship, asked, loaded, owner_name,
}
use insights_remote.ConfigMaps.Settled.{run_processors-cases}
use insights_remote.ConfigMaps.Written.{fresh_tally, ship-write}
use insights_remote.PostProcess.DependencyTrack.{Libraries}
use insights_remote.Base.Int.{ℤ}
use insights_remote.World.{World, Trace, ConfigMap, Namespace, NamespacedName}
use insights_remote.Command.{post_processors}
use insights_remote.Command.Config.{Tracking}
use insights_remote.Command.Harmless.{run_processors-ne-panic, post_processors-Harmless}

module _ (libraries : Libraries) (w : World) where
  module _ (mq_enable : Bool) (s : Tracking) (given : s.parent_template ≢ "")
      (minutes limit : ℤ) where
    abbrev pub shipping : ConfigMapReconciler
    shipping = record {
      post_processors = post_processors libraries w mq_enable s;
      minutes_between_retries = minutes;
      max_number_of_retries = limit;
    }

    -- With the post-processors that the program starts with and a template for the parent, the
    -- reconciliation of a config map that is read with its namespace and is of an accepted type never
    -- panics: it runs them all and ends with one write, of which no event is handled.
    pub shipping-Settles :
        (req : NamespacedName) (t : Trace) (cm : ConfigMap) (ns : Namespace)
        → w.config_map t req ≡ inr cm
        → w.namespace (asked req t) (owner_name req t) ≡ inr ns
        → is_accepted (insights_type cm) ≡ true
        → Settles w shipping req t cm ns
    shipping-Settles req t cm ns found owned accepted =
        reconcile-Settles w shipping req t cm ns found owned accepted (λ crashed.
          ends_well
            (run_processors-cases (insights_message cm ns) shipping.post_processors fresh_tally
              (loaded req t))
            crashed)
      where
        ends_well :
            ((tally : Tally) × (s' : Trace) × (run_processors
                    (insights_message cm ns)
                    shipping.post_processors
                    fresh_tally
                    (loaded req t)
                  ≡ (ok tally, s')))
              ⊎ ((s' : Trace) × (run_processors
                      (insights_message cm ns)
                      shipping.post_processors
                      fresh_tally
                      (loaded req t)
                    ≡ (panic, s')))
            → (reconcile w shipping req t).0 ≢ panic
        ends_well (inl (tally, s', ran)) = ground (
          arith,
          reconcile-ship w shipping req t cm ns found owned accepted,
          ship-write w shipping cm ns tally (loaded req t) s' ran,
        )
        ends_well (inr (s', crashed)) = absurd (
            run_processors-ne-panic (insights_message cm ns) shipping.post_processors fresh_tally
              (loaded req t) (post_processors-Harmless libraries w mq_enable s given)
              (ap (λ r. r.0) crashed))
