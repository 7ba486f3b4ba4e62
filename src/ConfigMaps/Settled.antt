-- ===== src/ConfigMaps/Settled.antt =====
-- What a reconciliation of a config map comes to, on each of its paths.
use insights_remote.Base.{
  String, Option, none, some, List, [], ◌∷◌, ◌≡◌, ◌≢◌, refl, true, false, ◌||◌, is_empty, arith,
  ◌==◌, eq_refl, if◌then◌else◌, inl, inr, Bool-cases, Option-cases, ◌⊎◌,
}
use insights_remote.Base.Int.{ℤ, pos, ◌+ℤ◌, wrap64, ltb_ℤ, IsI64, wrap64-IsI64}
use insights_remote.Base.Maps.{lookup, Entries, entries, at, IsMap, any-lookup, or_else}
use insights_remote.Base.Exec.{Error, ok, err, panic, Outcome}
use insights_remote.Base.Text.Decimal.{format_int}
use insights_remote.Base.Text.Decimal.RoundTrip.{parse_int-format_int, parse_int-IsI64}
use insights_remote.CmLib.{relabelled, merged}
use insights_remote.Events.{update}
use insights_remote.PostProcess.{PostProcessor}
use insights_remote.Types.{
  LagoonInsightsMessage, insights_updated_annotation_label, insights_write_deferred,
}
use insights_remote.World.{World, Trace, ConfigMap}
use insights_remote.ConfigMaps.{
  ConfigMapReconciler, Tally, number_of_retries, run_processor, run_processors, next_retries,
  minutes_from_now, update_labels, retries_annotation_key, label_exists, is_handled,
}
use insights_remote.ConfigMaps.Filter.{max_retry_exceeded_label_key}
use insights_remote.ConfigMaps.Written.{
  outcome_of, lookup-merged, update_labels-IsMap, lookup-update_labels_deferred,
  lookup-update_labels_max, update_annotations-IsMap, lookup-update_annotations_retries,
  lookup-update_annotations_processed, lookup-update_annotations_other,
}

number_of_retries-IsI64 :
    (annotations : Option (Entries String)) → IsI64 (number_of_retries annotations)
unfolding number_of_retries
number_of_retries-IsI64 annotations = elim (Option-cases (at annotations retries_annotation_key)) [
  | inl missing ↦ rw missing (omega arith)
  | inr (s, found) ↦ rw found (ground (arith, parse_int-IsI64 s))
]

next_retries-IsI64 : (t : Tally) (n : ℤ) → IsI64 n → IsI64 (next_retries t n)
unfolding next_retries
next_retries-IsI64 t n h = ground (arith, wrap64-IsI64 (n +ℤ pos 1))

number_of_retries_read :
    (annotations : Option (Entries String)) (n : ℤ)
    → IsI64 n
    → at annotations retries_annotation_key ≡ some (format_int n)
    → number_of_retries annotations ≡ n
unfolding number_of_retries
number_of_retries_read annotations n h e = rw (e, parse_int-format_int n h) refl

pub label_exists-at :
    (label v : String) (cm : ConfigMap) → at cm.labels label ≡ some v → label_exists label cm ≡ true
unfolding label_exists
label_exists-at label v cm h =
    any-lookup label (λ e. e.0 == label || e.1 == label) (entries cm.labels) h
      (λ u. ground (arith, eq_refl label))

module _ (w : World) (r : ConfigMapReconciler) (cm : ConfigMap) (t : Tally) (s : Trace)
    (unique : IsMap t.annotations) where
  -- The written annotations carry the count, as the next reconciliation reads it.
  pub number_of_retries-outcome_of :
      number_of_retries (outcome_of w r cm t s).annotations
      ≡ next_retries t (number_of_retries cm.annotations)
  unfolding relabelled
  number_of_retries-outcome_of =
      let n = number_of_retries cm.annotations in
      number_of_retries_read _ (next_retries t n)
        (next_retries-IsI64 t n (number_of_retries-IsI64 cm.annotations))
        (rw
          (
            lookup-merged retries_annotation_key _ cm.annotations
                (update_annotations-IsMap t n (w.now_rfc3339 s) unique),
            lookup-update_annotations_retries t n (w.now_rfc3339 s),
          )
          refl)

  pub annotation_processed :
      is_empty t.retry ≡ true
      → at (outcome_of w r cm t s).annotations insights_updated_annotation_label
        ≡ some (w.now_rfc3339 s)
  unfolding relabelled
  annotation_processed h =
      let n = number_of_retries cm.annotations in
      rw
        (
          lookup-merged insights_updated_annotation_label _ cm.annotations
              (update_annotations-IsMap t n (w.now_rfc3339 s) unique),
          lookup-update_annotations_processed t n (w.now_rfc3339 s) h,
        )
        refl

  -- Any other annotation, and the one for processed config maps after a failure, is as gathered, or
  -- as it was.
  pub annotation_other :
      (key : String)
      → (retries_annotation_key == key) ≡ false
      → (is_empty t.retry ≡ false) ⊎ ((insights_updated_annotation_label == key) ≡ false)
      → at (outcome_of w r cm t s).annotations key
        ≡ or_else (lookup key t.annotations) (at cm.annotations key)
  unfolding relabelled
  annotation_other key other h =
      let n = number_of_retries cm.annotations in
      rw
        (
          lookup-merged key _ cm.annotations
              (update_annotations-IsMap t n (w.now_rfc3339 s) unique),
          lookup-update_annotations_other t n (w.now_rfc3339 s) key other h,
        )
        refl

  module _ (some_failed : is_empty t.retry ≡ false) where
    pub label_deferred :
        at (outcome_of w r cm t s).labels insights_write_deferred
        ≡ some (minutes_from_now (pos (w.now_ns s)) r.minutes_between_retries)
    unfolding relabelled
    label_deferred =
        let n = number_of_retries cm.annotations in
        rw
          (
            lookup-merged insights_write_deferred _ cm.labels
                (update_labels-IsMap r t n (pos (w.now_ns s))),
            lookup-update_labels_deferred r t n (pos (w.now_ns s)) some_failed,
          )
          refl

    pub label_max :
        at (outcome_of w r cm t s).labels max_retry_exceeded_label_key
        ≡ or_else
            (if ltb_ℤ r.max_number_of_retries (wrap64 (number_of_retries cm.annotations +ℤ pos 1))
              then some "MAX_RETRY_EXCEEDED"
              else none)
            (at cm.labels max_retry_exceeded_label_key)
    unfolding relabelled
    label_max =
        let n = number_of_retries cm.annotations in
        rw
          (
            lookup-merged max_retry_exceeded_label_key _ cm.labels
                (update_labels-IsMap r t n (pos (w.now_ns s))),
            lookup-update_labels_max r t n (pos (w.now_ns s)) some_failed,
          )
          refl

  pub outcome_of-not_handled :
      (old : ConfigMap) → is_handled (update old (outcome_of w r cm t s)) ≡ false
  unfolding is_handled
  outcome_of-not_handled old = elim (Bool-cases (is_empty t.retry)) [
    | inl none_failed ↦ ground (arith, annotation_processed none_failed)
    | inr some_failed ↦ ground (
      arith,
      label_exists-at insights_write_deferred _ (outcome_of w r cm t s)
          (label_deferred some_failed),
    )
  ]

  -- With no failure the labels are not touched.
  pub labels_kept : is_empty t.retry ≡ true → (outcome_of w r cm t s).labels ≡ cm.labels
  unfolding relabelled update_labels merged
  labels_kept h = rw h refl

run_processor-ne-err :
    (m : LagoonInsightsMessage) (p : PostProcessor) (t : Tally) (s : Trace) (x : Error) (s' : Trace)
    → run_processor m p t s ≢ (err x, s')
unfolding run_processor
run_processor-ne-err m p t s x s' e = ground arith

-- The loop over the post-processors returns no error of its own.
pub run_processors-cases :
    (m : LagoonInsightsMessage) (ps : List (Option PostProcessor)) (t : Tally) (s : Trace)
    → ((t' : Tally) × (s' : Trace) × (run_processors m ps t s ≡ (ok t', s')))
      ⊎ ((s' : Trace) × (run_processors m ps t s ≡ (panic, s')))
unfolding run_processors
run_processors-cases m [] t s = inl (t, s, refl)
run_processors-cases m (none ∷ ps) t s = run_processors-cases m ps t s
run_processors-cases m (some p ∷ ps) t s =
    go (run_processors-cases m ps) (run_processor m p t s) refl
  where
    go :
        ((t₁ : Tally) (s₁ : Trace)
          → ((t' : Tally) × (s' : Trace) × (run_processors m ps t₁ s₁ ≡ (ok t', s')))
            ⊎ ((s' : Trace) × (run_processors m ps t₁ s₁ ≡ (panic, s'))))
        → (o : Outcome Tally × Trace) → run_processor m p t s ≡ o
        → ((t' : Tally) × (s' : Trace) × (run_processors m (some p ∷ ps) t s ≡ (ok t', s')))
          ⊎ ((s' : Trace) × (run_processors m (some p ∷ ps) t s ≡ (panic, s')))
    go ih (ok t₁, s₁) e = rw e (ih t₁ s₁)
    go ih (err x, s₁) e = absurd (run_processor-ne-err m p t s x s₁ e)
    go ih (panic, s₁) e = inr (s₁, rw e refl)
