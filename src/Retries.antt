-- ===== src/Retries.antt =====
-- The life of an insights config map over many reconciliations (internal/controller) and runs of
-- the job that ends deferrals (cmd/main.go): how often a failing one is tried.
use mathlib.Core.Bool.{false≢true}
use native.Mathlib.Decide.{dec_lt}
use insights_remote.Base.{
  ℕ, suc, ◌+◌, ◌^◌, ◌-◌, ◌<◌, ◌≤◌, ◌≡◌, refl, sym, ◌∙◌, true, false, is_empty, arith,
}
use insights_remote.Base.Int.{ℤ, pos, ◌+ℤ◌, wrap64, ltb_ℤ}
use insights_remote.Base.Exec.{ok}
use insights_remote.ConfigMaps.{
  ConfigMapReconciler, Tally, number_of_retries, insights_message, run_processors, next_retries,
  is_handled, label_exists, max_retry_exceeded_label_key,
}
use insights_remote.ConfigMaps.Loop.Statuses.{run_processors-IsMap}
use insights_remote.ConfigMaps.Written.{fresh_tally, outcome_of}
use insights_remote.ConfigMaps.Settled.{number_of_retries-outcome_of, label_max, label_exists-at}
use insights_remote.Crons.{undeferred}
use insights_remote.Crons.Deferred.{undeferred-labels}
use insights_remote.Events.{create, delete, update}
use insights_remote.World.{World, Trace, ConfigMap, Namespace}

abbrev pub retries : ConfigMap → ℤ
retries cm = number_of_retries cm.annotations

-- One failed attempt: an event lets the config map in, some post-processor fails, and what the
-- reconciliation writes is freed of its deferral.
pub data Attempt (r : ConfigMapReconciler) (cm : ConfigMap) : ConfigMap → Type 0 where
  attempt :
      (w : World) (old : ConfigMap) (ns : Namespace) (s₀ s : Trace) (t : Tally)
      → is_handled (update old cm) ≡ true
      → run_processors (insights_message cm ns) r.post_processors fresh_tally s₀ ≡ (ok t, s)
      → is_empty t.retry ≡ false
      → Attempt r cm (undeferred (outcome_of w r cm t s))

-- So many failed attempts, one after the other.
pub data Attempts (r : ConfigMapReconciler) (start : ConfigMap) : ℕ → ConfigMap → Type 0 where
  untried : Attempts r start 0 start
  again :
      {n : ℕ} {cm cm' : ConfigMap}
      → Attempts r start n cm
      → Attempt r cm cm'
      → Attempts r start (suc n) cm'

module _ {r : ConfigMapReconciler} {cm : ConfigMap} where
  Attempt-handled :
      {cm' : ConfigMap} → Attempt r cm cm' → (old : ConfigMap) × (is_handled (update old cm) ≡ true)
  Attempt-handled (attempt w old ns s₀ s t handled ran failed) = (old, handled)

  Attempt-retries :
      {cm' : ConfigMap} → Attempt r cm cm' → retries cm' ≡ wrap64 (retries cm +ℤ pos 1)
  unfolding undeferred
  Attempt-retries (attempt w old ns s₀ s t handled ran failed) =
      number_of_retries-outcome_of w r cm t s (run_processors-IsMap _ _ s₀ s t ran)
      ∙ (unfold next_retries in rw failed refl)

  Attempt-exhausted :
      {cm' : ConfigMap}
      → Attempt r cm cm'
      → ltb_ℤ r.max_number_of_retries (wrap64 (retries cm +ℤ pos 1)) ≡ true
      → label_exists max_retry_exceeded_label_key cm' ≡ true
  Attempt-exhausted (attempt w old ns s₀ s t handled ran failed) over =
      label_exists-at max_retry_exceeded_label_key "MAX_RETRY_EXCEEDED" _ (
        undeferred-labels (outcome_of w r cm t s) max_retry_exceeded_label_key
        ∙ (label_max w r cm t s (run_processors-IsMap _ _ s₀ s t ran) failed ∙ rw over refl))

-- A config map with the label for too many retries is not handled.
not_handled :
    (old cm : ConfigMap)
    → label_exists max_retry_exceeded_label_key cm ≡ true
    → is_handled (update old cm) ≡ false
unfolding is_handled
not_handled old cm h = ground (arith, h)

not_created :
    (cm : ConfigMap)
    → label_exists max_retry_exceeded_label_key cm ≡ true
    → is_handled (create cm) ≡ false
unfolding is_handled
not_created cm h = ground (arith, h)

not_deleted : (cm : ConfigMap) → is_handled (delete cm) ≡ false
unfolding is_handled
not_deleted cm = ground arith

next_count : (n : ℕ) → n < 2 ^ 63 - 1 → wrap64 (pos n +ℤ pos 1) ≡ pos (suc n)
unfolding wrap64 ◌+ℤ◌
next_count n h = ground arith

module _ (r : ConfigMapReconciler) (m : ℕ) (start : ConfigMap)
    (limit : r.max_number_of_retries ≡ pos m) (small : m < 2 ^ 63 - 1)
    (fresh : retries start ≡ pos 0) where
  -- After n failed attempts.
  record Counted (n : ℕ) (cm : ConfigMap) : Type 0 where
    count : retries cm ≡ pos n
    bounded : n ≤ m + 1
    given_up : n ≡ m + 1 → label_exists max_retry_exceeded_label_key cm ≡ true

  -- What is still handled has a try left.
  below_limit :
      (n : ℕ) (cm old : ConfigMap) → Counted n cm → is_handled (update old cm) ≡ true → n ≤ m
  below_limit n cm old c handled = elim (dec_lt m n) [
    | no fits ↦ omega arith
    | yes over ↦
        absurd
          (false≢true (sym (not_handled old cm (c.given_up (omega (arith, c.bounded)))) ∙ handled))
  ]

  Attempt-Counted :
      (n : ℕ) (cm cm' : ConfigMap) → Counted n cm → Attempt r cm cm' → Counted (suc n) cm'
  Attempt-Counted n cm cm' c a =
      let (old, handled) = Attempt-handled a in
      let below : n ≤ m = below_limit n cm old c handled in
      record {
        count = Attempt-retries a ∙ rw c.count (next_count n (omega arith));
        bounded = omega arith;
        given_up = λ e.
            Attempt-exhausted a (rw (limit, c.count, next_count n (omega arith)) (ground arith));
      }

  Attempts-Counted : {n : ℕ} {cm : ConfigMap} → Attempts r start n cm → Counted n cm
  Attempts-Counted untried = record {
    count = fresh;
    bounded = omega arith;
    given_up = λ e. absurd (omega arith);
  }
  Attempts-Counted (again {n} {cm} {cm'} tries a) =
      Attempt-Counted n cm cm' (Attempts-Counted tries) a

  -- A config map that was not retried before, under a limit of m retries, is tried at most m + 1
  -- times, if all the attempts fail, and its count of retries is the number of them.
  pub Attempts-bounded :
      {n : ℕ} {cm : ConfigMap} → Attempts r start n cm → (n ≤ m + 1) × (retries cm ≡ pos n)
  Attempts-bounded tries = let c = Attempts-Counted tries in (c.bounded, c.count)

  -- After m + 1 failed attempts no update of the config map that leaves it so is handled, nor is its
  -- creation, as the start of the controller reports it, nor its deletion. Of the kinds of event only
  -- the generic one passes the filter, and what the controller watches reports none.
  pub Attempts-exhausted :
      {cm : ConfigMap}
      → Attempts r start (m + 1) cm
      → ((old : ConfigMap) → is_handled (update old cm) ≡ false)
        × (is_handled (create cm) ≡ false)
        × (is_handled (delete cm) ≡ false)
  Attempts-exhausted {cm} tries =
      let labelled = (Attempts-Counted tries).given_up refl in
      (λ old. not_handled old cm labelled, not_created cm labelled, not_deleted cm)
