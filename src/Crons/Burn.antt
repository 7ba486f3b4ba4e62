-- ===== src/Crons/Burn.antt =====
-- Which config maps the burn-after-reading job deletes.
use insights_remote.Base.{List, [], ◌∷◌, ◌≡◌, refl, is_some, inr, arith, if◌then◌else◌}
use insights_remote.Base.Maps.{at}
use insights_remote.Base.Exec.{ok}
use insights_remote.Types.{insights_label, insights_updated_annotation_label}
use insights_remote.World.{World, Trace, ConfigMap, list_config_maps, delete_config_map}
use insights_remote.Crons.{batch_limit, burn, burn_after_reading}

-- The calls that delete the processed ones of the config maps, the first one first.
abbrev pub burned : List ConfigMap → Trace → Trace
burned [] t = t
burned (x ∷ xs) t = burned xs (
    if is_some (at x.annotations insights_updated_annotation_label)
    then delete_config_map x ∷ t
    else t)

burn-burned : (w : World) (xs : List ConfigMap) (t : Trace) → burn w xs t ≡ (ok tt, burned xs t)
unfolding burn
burn-burned w [] t = refl
burn-burned w (x ∷ xs) t =
    ground (arith, burn-burned w xs t, burn-burned w xs (delete_config_map x ∷ t))

-- Each run asks for five config maps with the insights label. It deletes those of them with the
-- annotation for processed ones, in order, whether or not a deletion fails, makes no other call,
-- and ends with no error.
pub burn_after_reading-burned :
    (w : World) (xs : List ConfigMap) (t : Trace)
    → w.config_maps t insights_label batch_limit ≡ inr xs
    → burn_after_reading w t ≡ (ok tt, burned xs (list_config_maps insights_label batch_limit ∷ t))
unfolding burn_after_reading
burn_after_reading-burned w xs t listed = rw listed (burn-burned w xs _)
