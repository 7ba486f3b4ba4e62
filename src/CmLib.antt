-- ===== src/CmLib.antt =====
-- cmlib/cmlib.go: writing labels and annotations of a config map.
use insights_remote.Base.{String, none, some, [], ◌∷◌, is_empty, ◌&&◌, if◌then◌else◌}
use insights_remote.Base.Maps.{Entries, GoMap, entries, insert_all}
use insights_remote.Base.Exec.{raise, new_error}
use insights_remote.World.{World, Action, ConfigMap, update_config_map, perform}

-- The map after the loop over the new entries; with none of them it is left as it is, nil included.
unfoldable pub merged : Entries String → GoMap String → GoMap String
merged [] old = old
merged (e ∷ new) old = some (insert_all (e ∷ new) (entries old))

-- The config map that `BatchUpdateCM` writes.
unfoldable pub relabelled : ConfigMap → Entries String → Entries String → ConfigMap
unfolding merged
relabelled cm updated_labels updated_annotations = record cm {
  labels = merged updated_labels cm.labels;
  annotations = merged updated_annotations cm.annotations;
}

unfoldable pub batch_update_cm : World → ConfigMap → GoMap String → GoMap String → Action (Unit {0})
batch_update_cm w cm updated_labels updated_annotations =
    if is_empty (entries updated_labels) && is_empty (entries updated_annotations)
    then raise (new_error "no updates passed to BatchUpdateCM")
    else perform w
        (update_config_map (relabelled cm (entries updated_labels) (entries updated_annotations)))

unfoldable pub label_cm : World → ConfigMap → String → String → Action (Unit {0})
unfolding batch_update_cm
label_cm w cm key value = batch_update_cm w cm (some ((key, value) ∷ [])) none

unfoldable pub annotate_cm : World → ConfigMap → String → String → Action (Unit {0})
unfolding batch_update_cm
annotate_cm w cm key value = batch_update_cm w cm none (some ((key, value) ∷ []))
