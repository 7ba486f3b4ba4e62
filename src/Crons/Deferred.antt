-- ===== src/Crons/Deferred.antt =====
-- Which deferred config maps the other job sets free, and when a deferral is over.
use insights_remote.Base.{
  ℕ, ◌*◌, ◌^◌, ◌-◌, ◌<◌, ◌≤◌, String, none, some, List, [], ◌∷◌, ◌≡◌, ◌∙◌, refl, Bool, true, false,
  inl, inr, arith, if◌then◌else◌, ◌==◌, Option-cases, Bool-cases, eq_refl, eq_iff, ◌≢◌,
}
use insights_remote.Base.Int.{ℤ, pos, ◌*ℤ◌, ltb_ℤ}
use insights_remote.Base.Maps.{at, lookup, lookup-remove}
use insights_remote.Base.Exec.{Error, ok}
use insights_remote.Base.Text.Decimal.{format_int, parse_int}
use insights_remote.Base.Text.Decimal.RoundTrip.{parse_int-format_int_32}
use insights_remote.Types.{insights_write_deferred}
use insights_remote.World.{World, Trace, ConfigMap, list_config_maps, update_config_map}
use insights_remote.Namespaces.Secrets.{AcceptsWrites}
use insights_remote.Crons.{batch_limit, undeferred, is_due, clear, clear_deferred}

-- The label of the deferral is there, and its time has come.
abbrev pub is_freed : World → ConfigMap → Trace → Bool
is_freed w x t = elim (at x.labels insights_write_deferred) [
  | none ↦ false
  | some val ↦ is_due w val t
]

-- The written config map has no label of a deferral, and its other labels as they were.
pub undeferred-labels :
    (x : ConfigMap) (k : String)
    → at (undeferred x).labels k ≡ (if insights_write_deferred == k then none else at x.labels k)
unfolding undeferred
undeferred-labels x k = elim (Option-cases x.labels) [
  | inl nil ↦ rw nil (unfold lookup in ground arith)
  | inr (m, is_m) ↦ rw is_m (lookup-remove insights_write_deferred k m)
]

-- The config map is the other one without the label of a deferral.
pub record IsFreed (x y : ConfigMap) : Type 0 where
  pub unlabelled : at y.labels insights_write_deferred ≡ none
  pub kept : (k : String) → k ≢ insights_write_deferred → at y.labels k ≡ at x.labels k
  pub same_name : y.name ≡ x.name
  pub same_namespace : y.namespace ≡ x.namespace
  pub same_annotations : y.annotations ≡ x.annotations
  pub same_payload : y.payload ≡ x.payload
  pub same_binary : y.binary_data ≡ x.binary_data

undeferred-IsFreed : (x : ConfigMap) → IsFreed x (undeferred x)
unfolding undeferred
undeferred-IsFreed x = record {
  unlabelled =
      undeferred-labels x insights_write_deferred ∙ ground (arith, eq_refl insights_write_deferred);
  kept = λ k other. undeferred-labels x k ∙ ground (arith, other, eq_iff insights_write_deferred k);
  same_name = refl;
  same_namespace = refl;
  same_annotations = refl;
  same_payload = refl;
  same_binary = refl;
}

-- The nanoseconds at which a deferral is over, for the text of its label.
abbrev pub over_at : String → ℤ
over_at val = 1_000_000_000 *ℤ (parse_int 32 val).0

-- From a trace to a later one, over the config maps in order: one whose label gives a time in the past
-- is written without it, and one without the label, or whose time has not passed, is left alone.
pub data Cleared (w : World) : List ConfigMap → Trace → Trace → Type 0 where
  finished : {t : Trace} → Cleared w [] t t
  freed :
      {x y : ConfigMap} {xs : List ConfigMap} {val : String} {t t' : Trace}
      → at x.labels insights_write_deferred ≡ some val
      → ltb_ℤ (over_at val) (pos (w.now_ns t)) ≡ true
      → IsFreed x y
      → Cleared w xs (update_config_map y ∷ t) t'
      → Cleared w (x ∷ xs) t t'
  early :
      {x : ConfigMap} {xs : List ConfigMap} {val : String} {t t' : Trace}
      → at x.labels insights_write_deferred ≡ some val
      → ltb_ℤ (over_at val) (pos (w.now_ns t)) ≡ false
      → Cleared w xs t t'
      → Cleared w (x ∷ xs) t t'
  unlabelled :
      {x : ConfigMap} {xs : List ConfigMap} {t t' : Trace}
      → at x.labels insights_write_deferred ≡ none
      → Cleared w xs t t'
      → Cleared w (x ∷ xs) t t'

clear-Cleared :
    (w : World) (xs : List ConfigMap) (t : Trace)
    → AcceptsWrites w
    → (t' : Trace) × (clear w xs false t ≡ (ok tt, t')) × Cleared w xs t t'
unfolding clear is_due
clear-Cleared w [] t accepts = (t, refl, finished)
clear-Cleared w (x ∷ xs) t accepts =
    let (s, skips, skipped) = clear-Cleared w xs t accepts in
    elim (Option-cases (at x.labels insights_write_deferred)) [
      | inl none_there ↦ (s, ground (arith, none_there, skips), unlabelled none_there skipped)
      | inr (val, there) ↦ elim (Bool-cases (ltb_ℤ (over_at val) (pos (w.now_ns t)))) [
        | inr not_yet ↦ (s, ground (arith, there, not_yet, skips), early there not_yet skipped)
        | inl due ↦
            let (s', goes, went) =
              clear-Cleared w xs (update_config_map (undeferred x) ∷ t) accepts in
            (
              s',
              ground (arith, there, due, accepts t (update_config_map (undeferred x)), goes),
              freed there due (undeferred-IsFreed x) went,
            )
      ]
    ]

-- Each run asks for five config maps with the label of a deferral. While the writes are accepted, it
-- ends with no error, and has written those of them whose time was past when their turn came, in
-- order, without that label and else as they were, and has made no other call.
pub clear_deferred-Cleared :
    (w : World) (xs : List ConfigMap) (t : Trace)
    → AcceptsWrites w
    → w.config_maps t insights_write_deferred batch_limit ≡ inr xs
    → (t' : Trace) × (clear_deferred w t ≡ (ok tt, t'))
      × Cleared w xs (list_config_maps insights_write_deferred batch_limit ∷ t) t'
unfolding clear_deferred
clear_deferred-Cleared w xs t accepts listed =
    let (t', ends, spec) =
      clear-Cleared w xs (list_config_maps insights_write_deferred batch_limit ∷ t) accepts in
    (t', rw listed ends, spec)

clear_failed : (w : World) (xs : List ConfigMap) (t : Trace) → clear w xs true t ≡ (ok tt, t)
unfolding clear
clear_failed w [] t = refl
clear_failed w (x ∷ xs) t = ground (arith, clear_failed w xs t)

-- If the write of the first config map that is due fails, the run writes none of the others, due or
-- not.
pub clear-stops :
    (w : World) (x : ConfigMap) (xs : List ConfigMap) (t : Trace) (e : Error)
    → is_freed w x t ≡ true
    → w.written t (update_config_map (undeferred x)) ≡ inl e
    → clear w (x ∷ xs) false t ≡ (ok tt, update_config_map (undeferred x) ∷ t)
unfolding clear
clear-stops w x xs t e due failed =
    ground (arith, failed, clear_failed w xs (update_config_map (undeferred x) ∷ t))

-- A deferral to a time at or past 2 ^ 31 seconds is over as soon as 2 ^ 31 - 1 seconds are past.
pub is_due_2038 :
    (w : World) (n : ℕ) (t : Trace)
    → 2 ^ 31 ≤ n
    → (2 ^ 31 - 1) * 1_000_000_000 < w.now_ns t
    → is_due w (format_int (pos n)) t ≡ true
unfolding is_due ◌*ℤ◌
is_due_2038 w n t late now = rw (parse_int-format_int_32 n late) (ground arith)
