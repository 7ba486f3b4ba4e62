-- ===== src/ConfigMaps/Filter.antt =====
-- internal/controller/configmap_controller.go: which events of config maps are handled.
use insights_remote.Base.{String, ◌||◌, ◌&&◌, not, Bool, true, false, any, is_some, ◌==◌}
use insights_remote.Base.Maps.{entries, at}
use insights_remote.Events.{Event, create, delete, generic, update}
use insights_remote.Types.{
  insights_label, insights_updated_annotation_label, insights_write_deferred,
}
use insights_remote.World.{ConfigMap}

abbrev pub max_retry_exceeded_label_key : String
max_retry_exceeded_label_key = "insights.lagoon.sh/max-retry-exceeded"

-- labelExists: the text stands among the labels, as a key or as a value.
unfoldable pub label_exists : String → ConfigMap → Bool
label_exists label cm = any (λ e. e.0 == label || e.1 == label) (entries cm.labels)

unfoldable pub processed_annotation_exists : ConfigMap → Bool
processed_annotation_exists cm = is_some (at cm.annotations insights_updated_annotation_label)

abbrev wants_work : ConfigMap → Bool
wants_work cm =
    label_exists insights_label cm
    && not (label_exists insights_write_deferred cm)
    && not (processed_annotation_exists cm)

-- A function that a predicate leaves out lets its events pass.
unfoldable pub insight_labels_only : Event ConfigMap → Bool
unfolding label_exists processed_annotation_exists
insight_labels_only (create cm) = wants_work cm
insight_labels_only (update old new) = wants_work new
insight_labels_only (delete cm) = false
insight_labels_only (generic cm) = true

unfoldable pub insight_max_retry : Event ConfigMap → Bool
unfolding label_exists
insight_max_retry (create cm) = not (label_exists max_retry_exceeded_label_key cm)
insight_max_retry (update old new) = not (label_exists max_retry_exceeded_label_key new)
insight_max_retry (delete cm) = false
insight_max_retry (generic cm) = true

-- The filters of `SetupWithManager`: an event is handled if both let it pass.
unfoldable pub is_handled : Event ConfigMap → Bool
unfolding insight_labels_only insight_max_retry
is_handled e = insight_labels_only e && insight_max_retry e
