-- ===== src/Crons.antt =====
-- cmd/main.go: the two jobs that the cron schedule runs over the insights config maps.
pub mod Burn
pub mod Deferred
use insights_remote.Base.{
  ℕ, String, Option, none, some, List, [], ◌∷◌, Bool, true, false, is_some, ◌⊎◌, inl, inr,
  if◌then◌else◌,
}
use insights_remote.Base.Int.{ℤ, pos, ◌*ℤ◌, ltb_ℤ}
use insights_remote.Base.Maps.{Entries, GoMap, at, remove}
use insights_remote.Base.Exec.{Error, ok, pure, attempt, ◌>>=◌, ◌>>◌}
use insights_remote.Base.Text.Decimal.{parse_int}
use insights_remote.Types.{
  insights_label, insights_updated_annotation_label, insights_write_deferred,
}
use insights_remote.World.{
  World, Action, Trace, ConfigMap, list_config_maps, update_config_map, delete_config_map, ask,
  perform,
}

-- How many config maps one run looks at.
abbrev pub batch_limit : ℕ
batch_limit = 5

-- delete(x.Labels, insightsWriteDeferred)
unfoldable pub undeferred : ConfigMap → ConfigMap
undeferred x = record x {
  labels = elim x.labels [ none ↦ none | some m ↦ some (remove insights_write_deferred m) ];
}

abbrev is_error {ℓ} : {A : Type ℓ} → Error ⊎ A → Bool
is_error (inl e) = true
is_error (inr a) = false

module _ (w : World) where
  -- A deletion that fails is only logged.
  unfoldable pub burn : List ConfigMap → Action (Unit {0})
  burn [] = pure tt
  burn (x ∷ xs) =
      if is_some (at x.annotations insights_updated_annotation_label)
      then (do _ ← attempt (perform w (delete_config_map x)); burn xs)
      else burn xs

  -- startBurnAfterReadingCron: what the job does at each of its times.
  unfoldable pub burn_after_reading : Action (Unit {0})
  burn_after_reading = do
    found ← attempt (
        ask (list_config_maps insights_label batch_limit)
          (λ t. w.config_maps t insights_label batch_limit))
    elim found [ inl e ↦ pure tt | inr xs ↦ burn xs ]

  -- time.Now().After(time.Unix(ts, 0)), for the text of the label; the error of the parser is dropped.
  unfoldable pub is_due : String → Trace → Bool
  is_due val t = ltb_ℤ (1_000_000_000 *ℤ (parse_int 32 val).0) (pos (w.now_ns t))

  -- The loop; `failed` says that the variable `err` of the job is not nil.
  unfoldable pub clear : List ConfigMap → (failed : Bool) → Action (Unit {0})
  clear [] failed t = (ok tt, t)
  clear (x ∷ xs) failed t =
      let skip = clear xs failed t in
      let write =
        (do r ← attempt (perform w (update_config_map (undeferred x))); clear xs (is_error r)) t in
      elim (at x.labels insights_write_deferred) [
        | none ↦ skip
        | some val ↦ if failed then skip else if is_due val t then write else skip
      ]

  -- startInsightsDeferredClearCron: what the job does at each of its times.
  unfoldable pub clear_deferred : Action (Unit {0})
  clear_deferred = do
    found ← attempt (
        ask (list_config_maps insights_write_deferred batch_limit)
          (λ t. w.config_maps t insights_write_deferred batch_limit))
    elim found [ inl e ↦ pure tt | inr xs ↦ clear xs false ]
