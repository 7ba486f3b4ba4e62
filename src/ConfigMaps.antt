-- ===== src/ConfigMaps.antt =====
-- internal/controller/configmap_controller.go: the reconciler that ships insights config maps.
mod Filter
pub mod Loop
pub mod Written
pub mod Settled
pub mod Outcomes
pub mod Stops
unfoldable pub use Filter.*
use insights_remote.Base.{
  String, Option, none, some, List, [], ◌∷◌, ◌++◌, ◌||◌, ◌&&◌, not, Bool, true, false, any,
  is_empty, is_some, if◌then◌else◌, ◌==◌, inl, inr, ◌◂◌,
}
use insights_remote.Base.Int.{ℤ, pos, ◌+ℤ◌, ◌*ℤ◌, ltb_ℤ, wrap64, floor_div}
use insights_remote.Base.Maps.{Entries, GoMap, entries, at, insert}
use insights_remote.Base.Exec.{
  Error, Outcome, ok, err, panic, new_error, pure, raise, attempt, ignore_not_found, ◌>>=◌,
}
use insights_remote.Base.Text.Decimal.{parse_int, format_int}
use insights_remote.CmLib.{batch_update_cm}
use insights_remote.Events.{Event, create, delete, generic, update}
use insights_remote.PostProcess.{PostProcessor}
use insights_remote.Types.{
  LagoonInsightsMessage, insights_type_sbom, insights_type_inspect, insights_type_unclassified,
  insights_label, insights_updated_annotation_label, insights_write_deferred,
}
use insights_remote.World.{
  World, Action, Trace, NamespacedName, ConfigMap, Namespace, get_config_map, get_namespace, ask,
}

pub record ConfigMapReconciler : Type 0 where
  pub post_processors : List (Option PostProcessor)
  pub minutes_between_retries : ℤ
  pub max_number_of_retries : ℤ

abbrev pub retries_annotation_key : String
retries_annotation_key = "insights.lagoon.sh/retries"

abbrev pub successful_run : String
successful_run = "success"

abbrev pub failed_run : String
failed_run = "failure"

-- `if _, ok := m[k]; ok { x = m[k] }` for an `x` that starts empty.
abbrev pub or_empty : Option String → String
or_empty none = ""
or_empty (some v) = v

-- The switch on the label that the scanner sets.
unfoldable pub inferred_type : Option String → String
inferred_type none = insights_type_unclassified
inferred_type (some v) =
    if v == "sbom-gz"
    then insights_type_sbom
    else if v == "image-gz"
    then insights_type_inspect
    else insights_type_unclassified

-- The type stated by one label, or else inferred from the other.
abbrev stated_type : Option String → Option String → String
stated_type (some t) inferred = t
stated_type none inferred = inferred_type inferred

unfoldable pub insights_type : ConfigMap → String
unfolding inferred_type
insights_type cm =
    stated_type (at cm.labels "insights.lagoon.sh/type") (at cm.labels insights_label)

unfoldable pub is_accepted : String → Bool
is_accepted t = t == insights_type_sbom || t == insights_type_inspect

unfoldable pub insights_message : ConfigMap → Namespace → LagoonInsightsMessage
insights_message cm ns = record {
  payload = cm.payload;
  binary_payload = cm.binary_data;
  annotations = cm.annotations;
  labels = cm.labels;
  namespace = cm.namespace;
  environment = or_empty (at ns.labels "lagoon.sh/environment");
  service = or_empty (at cm.labels "lagoon.sh/service");
  project = or_empty (at ns.labels "lagoon.sh/project");
  message_type = insights_type cm;
}

-- A count that does not parse counts as a first run.
abbrev parsed_retries : Option String → ℤ
parsed_retries none = pos 0
parsed_retries (some s) = let (n, e) = parse_int 64 s in if is_some e then pos 0 else n

unfoldable pub number_of_retries : GoMap String → ℤ
number_of_retries annotations = parsed_retries (at annotations retries_annotation_key)

-- What the loop over the post-processors gathers.
pub record Tally : Type 0 where
  pub retry : List String
  pub annotations : Entries String

abbrev is_successful : Option String → Bool
is_successful none = false
is_successful (some v) = v == successful_run

unfoldable pub already_done : LagoonInsightsMessage → PostProcessor → Bool
already_done m p = is_successful (at m.annotations p.label)

-- The annotations after a run that failed, and after one that did not.
unfoldable pub note_failure : PostProcessor → Error → Tally → Tally
note_failure p e t = record {
  retry = t.retry ++ p.label ∷ [];
  annotations = insert (p.label ◂ "-error") e.text (insert p.label failed_run t.annotations);
}

unfoldable pub note_success : PostProcessor → Tally → Tally
note_success p t = record t { annotations = insert p.label successful_run t.annotations }

-- One round of the loop.
unfoldable pub run_processor : LagoonInsightsMessage → PostProcessor → Tally → Action Tally
unfolding already_done
run_processor m p t = if already_done m p then pure t else do
  r ← attempt (p.post_process m)
  elim r [ inl e ↦ pure (note_failure p e t) | inr _ ↦ pure (note_success p t) ]

unfoldable pub run_processors :
    LagoonInsightsMessage → List (Option PostProcessor) → Tally → Action Tally
run_processors m [] t = pure t
run_processors m (none ∷ ps) t = run_processors m ps t
run_processors m (some p ∷ ps) t = do t' ← run_processor m p t; run_processors m ps t'

-- Unix seconds, `mins` minutes after a time in nanoseconds; a duration is an int64.
unfoldable pub minutes_from_now : ℤ → ℤ → String
minutes_from_now now mins =
    format_int (floor_div (now +ℤ wrap64 (60_000_000_000 *ℤ mins)) 1_000_000_000)

-- The count that is written: one more if a post-processor failed, as an int64.
unfoldable pub next_retries : Tally → ℤ → ℤ
next_retries t n = if is_empty t.retry then n else wrap64 (n +ℤ pos 1)

unfoldable pub update_labels : ConfigMapReconciler → Tally → ℤ → ℤ → Entries String
update_labels r t n now =
    if is_empty t.retry
    then []
    else let deferred =
        insert insights_write_deferred (minutes_from_now now r.minutes_between_retries) [] in
      if ltb_ℤ r.max_number_of_retries (wrap64 (n +ℤ pos 1))
      then insert max_retry_exceeded_label_key "MAX_RETRY_EXCEEDED" deferred
      else deferred

unfoldable pub update_annotations : Tally → ℤ → String → Entries String
update_annotations t n now = insert retries_annotation_key (format_int (next_retries t n)) (
    if is_empty t.retry
    then insert insights_updated_annotation_label now t.annotations
    else t.annotations)

-- Everything behind the check of the type.
unfoldable pub ship : World → ConfigMapReconciler → ConfigMap → Namespace → Action (Unit {0})
ship w r cm ns trace =
    let m = insights_message cm ns in
    let n = number_of_retries m.annotations in
    (do
      t ← run_processors m r.post_processors (record { retry = []; annotations = [] })
      λ (s : Trace).
          batch_update_cm w cm (some (update_labels r t n (pos (w.now_ns s))))
            (some (update_annotations t n (w.now_rfc3339 s))) s)
      trace

unfoldable pub reconcile : World → ConfigMapReconciler → NamespacedName → Action (Unit {0})
reconcile w r req = do
  found ← attempt (ask (get_config_map req) (λ t. w.config_map t req))
  elim found [
    | inl e ↦ ignore_not_found e
    | inr cm ↦ do
      let ns_name : NamespacedName = record { namespace = ""; name = req.namespace }
      owner ← attempt (ask (get_namespace ns_name) (λ t. w.namespace t ns_name))
      elim owner [
        | inl e ↦ ignore_not_found e
        | inr ns ↦
            if is_accepted (insights_type cm)
            then ship w r cm ns
            else raise (
                new_error
                  ("insightsType '" ◂ insights_type cm ◂ "' unrecognized - rejecting configMap"))
      ]
  ]
