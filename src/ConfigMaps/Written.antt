-- ===== src/ConfigMaps/Written.antt =====
-- The config map that a reconciliation writes, and why it does not set off the next one.
use insights_remote.Base.{
  ◌==◌, ◌⊎◌, String, Option, none, some, [], ◌∷◌, ◌≡◌, refl, true, false, is_empty, arith,
  if◌then◌else◌, inl, inr, Bool-cases,
}
use insights_remote.Base.Int.{ℤ, pos, ◌+ℤ◌, wrap64, ltb_ℤ}
use insights_remote.Base.Maps.{
  Entries, entries, at, lookup, insert, lookup-insert, lookup-insert_self, insert-IsMap, IsMap,
  lookup-insert_all, or_else,
}
use insights_remote.Base.Exec.{ok}
use insights_remote.Base.Text.Decimal.{format_int}
use insights_remote.CmLib.{merged, relabelled, batch_update_cm}
use insights_remote.Types.{insights_updated_annotation_label, insights_write_deferred}
use insights_remote.World.{World, Trace, ConfigMap, Namespace, update_config_map, perform}
use insights_remote.ConfigMaps.{
  ConfigMapReconciler, Tally, number_of_retries, insights_message, run_processors, next_retries,
  minutes_from_now, update_labels, update_annotations, ship, retries_annotation_key,
}
use insights_remote.ConfigMaps.Filter.{max_retry_exceeded_label_key}

abbrev pub fresh_tally : Tally
fresh_tally = record { retry = []; annotations = [] }

module _ (w : World) (r : ConfigMapReconciler) (cm : ConfigMap) (t : Tally) (s : Trace) where
  -- What is written after a loop that ended with the tally `t` and the trace `s`.
  abbrev pub outcome_of : ConfigMap
  outcome_of =
      let n = number_of_retries cm.annotations in
      relabelled cm (update_labels r t n (pos (w.now_ns s)))
        (update_annotations t n (w.now_rfc3339 s))

insert-is_empty : (k v : String) (m : Entries String) → is_empty (insert k v m) ≡ false
unfolding insert
insert-is_empty k v [] = refl
insert-is_empty k v ((j, u) ∷ m) = ground arith

update_annotations-is_empty :
    (t : Tally) (n : ℤ) (now : String) → is_empty (update_annotations t n now) ≡ false
unfolding update_annotations
update_annotations-is_empty t n now = insert-is_empty _ _ _

batch_update_cm-write :
    (w : World) (cm : ConfigMap) (labels annotations : Entries String)
    → is_empty annotations ≡ false
    → (s : Trace)
    → batch_update_cm w cm (some labels) (some annotations) s
      ≡ perform w (update_config_map (relabelled cm labels annotations)) s
unfolding batch_update_cm
batch_update_cm-write w cm [] annotations h s = rw h
batch_update_cm-write w cm (l ∷ labels) annotations h s = refl

module _ (w : World) (r : ConfigMapReconciler) (cm : ConfigMap) (ns : Namespace) (t : Tally)
    (s₀ s : Trace)
    (ran : run_processors (insights_message cm ns) r.post_processors fresh_tally s₀
      ≡ (ok t, s)) where
  -- After the loop there is one write, and it is never refused as empty.
  pub ship-write : ship w r cm ns s₀ ≡ perform w (update_config_map (outcome_of w r cm t s)) s
  unfolding ship insights_message
  ship-write = rw ran (batch_update_cm-write w cm _ _ (update_annotations-is_empty t _ _) s)

pub lookup-merged :
    (j : String) (new : Entries String) (old : Option (Entries String))
    → IsMap new
    → at (merged new old) j ≡ or_else (lookup j new) (at old j)
unfolding merged lookup
lookup-merged j [] old h = refl
lookup-merged j (e ∷ new) old h = lookup-insert_all j (e ∷ new) (entries old) h

module _ (r : ConfigMapReconciler) (t : Tally) (n now : ℤ) where
  pub update_labels-IsMap : IsMap (update_labels r t n now)
  unfolding update_labels insert lookup
  update_labels-IsMap = elim (Bool-cases (is_empty t.retry)) [
    | inl none_failed ↦ rw none_failed tt
    | inr some_failed ↦ rw some_failed (ground arith)
  ]

  -- A failed run is deferred.
  pub lookup-update_labels_deferred :
      is_empty t.retry ≡ false
      → lookup insights_write_deferred (update_labels r t n now)
        ≡ some (minutes_from_now now r.minutes_between_retries)
  unfolding update_labels insert lookup
  lookup-update_labels_deferred h = ground arith

  -- It is the last one if the new count passes the limit.
  pub lookup-update_labels_max :
      is_empty t.retry ≡ false
      → lookup max_retry_exceeded_label_key (update_labels r t n now) ≡ (
          if ltb_ℤ r.max_number_of_retries (wrap64 (n +ℤ pos 1))
          then some "MAX_RETRY_EXCEEDED"
          else none)
  unfolding update_labels insert lookup
  lookup-update_labels_max h = ground arith

module _ (t : Tally) (n : ℤ) (now : String) where
  pub update_annotations-IsMap : IsMap t.annotations → IsMap (update_annotations t n now)
  unfolding update_annotations
  update_annotations-IsMap h = elim (Bool-cases (is_empty t.retry)) [
    | inl none_failed ↦ rw none_failed (insert-IsMap _ _ _ (insert-IsMap _ _ _ h))
    | inr some_failed ↦ rw some_failed (insert-IsMap _ _ _ h)
  ]

  pub lookup-update_annotations_retries :
      lookup retries_annotation_key (update_annotations t n now)
      ≡ some (format_int (next_retries t n))
  unfolding update_annotations
  lookup-update_annotations_retries = rw lookup-insert_self

  pub lookup-update_annotations_processed :
      is_empty t.retry ≡ true
      → lookup insights_updated_annotation_label (update_annotations t n now) ≡ some now
  unfolding update_annotations
  lookup-update_annotations_processed h = rw h (simp lookup-insert)

  -- Any other key, and the one for processed config maps after a failure, is left as gathered.
  pub lookup-update_annotations_other :
      (key : String)
      → (retries_annotation_key == key) ≡ false
      → (is_empty t.retry ≡ false) ⊎ ((insights_updated_annotation_label == key) ≡ false)
      → lookup key (update_annotations t n now) ≡ lookup key t.annotations
  unfolding update_annotations
  lookup-update_annotations_other key other h = ground (
    arith,
    other,
    h,
    lookup-insert retries_annotation_key key (format_int (next_retries t n)) t.annotations,
    lookup-insert retries_annotation_key key (format_int (next_retries t n))
        (insert insights_updated_annotation_label now t.annotations),
    lookup-insert insights_updated_annotation_label key now t.annotations,
  )
