-- ===== src/ConfigMaps/Loop.antt =====
-- The loop over the post-processors against a description of it, one verdict for each of them.
pub mod Statuses
use insights_remote.Base.{
  String, Option, none, some, List, [], ◌∷◌, ◌++◌, ◌≡◌, ◌≢◌, refl, sym, Bool, true, false,
  Bool-cases, inl, inr, Option-cases, ap, ◌∙◌, arith, ◌==◌, eq_iff, eq_refl, ◌◂◌, if◌then◌else◌,
  All,
}
use insights_remote.Base.Maps.{Entries, at, lookup, insert, lookup-insert, insert-IsMap, IsMap}
use insights_remote.Base.Exec.{Error, ok, err, panic, Outcome}
use mathlib.Core.Bool.{false≢true}
use mathlib.Core.Path.{subst}
use mathlib.Core.List.{append-nil, append_assoc}
use insights_remote.PostProcess.{PostProcessor}
use insights_remote.Types.{LagoonInsightsMessage}
use insights_remote.World.{Trace}
use insights_remote.ConfigMaps.{
  Tally, already_done, note_failure, note_success, run_processor, run_processors, successful_run,
  failed_run,
}

pub data Verdict : Type 0 where
  skipped succeeded : Verdict
  failed : Error → Verdict

-- What the program does with each post-processor that is not nil, in order. One that succeeded in
-- the past is not called; the others are called one after the other, whatever the earlier ones did.
pub data Ran (m : LagoonInsightsMessage)
    : List (Option PostProcessor) → Trace → List (String × Verdict) → Trace → Type 0 where
  finished : {s : Trace} → Ran m [] s [] s
  absent :
      {ps : List (Option PostProcessor)} {s s' : Trace} {vs : List (String × Verdict)}
      → Ran m ps s vs s'
      → Ran m (none ∷ ps) s vs s'
  skip :
      {p : PostProcessor} {ps : List (Option PostProcessor)} {s s' : Trace}
      {vs : List (String × Verdict)}
      → at m.annotations p.label ≡ some successful_run
      → Ran m ps s vs s'
      → Ran m (some p ∷ ps) s ((p.label, skipped) ∷ vs) s'
  success :
      {p : PostProcessor} {ps : List (Option PostProcessor)} {s s' s'' : Trace}
      {vs : List (String × Verdict)}
      → at m.annotations p.label ≢ some successful_run
      → p.post_process m s ≡ (ok tt, s')
      → Ran m ps s' vs s''
      → Ran m (some p ∷ ps) s ((p.label, succeeded) ∷ vs) s''
  failure :
      {p : PostProcessor} {ps : List (Option PostProcessor)} {s s' s'' : Trace}
      {vs : List (String × Verdict)} {e : Error}
      → at m.annotations p.label ≢ some successful_run
      → p.post_process m s ≡ (err e, s')
      → Ran m ps s' vs s''
      → Ran m (some p ∷ ps) s ((p.label, failed e) ∷ vs) s''

-- The labels of the failed ones, in order.
abbrev pub failed_labels : List (String × Verdict) → List String
failed_labels [] = []
failed_labels ((l, failed e) ∷ vs) = l ∷ failed_labels vs
failed_labels ((l, skipped) ∷ vs) = failed_labels vs
failed_labels ((l, succeeded) ∷ vs) = failed_labels vs

-- The annotations that a verdict adds.
abbrev pub noted : String × Verdict → Entries String → Entries String
noted (l, skipped) a = a
noted (l, succeeded) a = insert l successful_run a
noted (l, failed e) a = insert (l ◂ "-error") e.text (insert l failed_run a)

abbrev pub all_noted : List (String × Verdict) → Entries String → Entries String
all_noted [] a = a
all_noted (v ∷ vs) a = all_noted vs (noted v a)

-- A loop that does not panic ran as described, from any tally.
abbrev pub Described :
    LagoonInsightsMessage → List (Option PostProcessor) → Trace → Tally → Tally → Trace → Type 0
Described m ps s t t' s' =
    (vs : List (String × Verdict)) × Ran m ps s vs s'
    × (t'.retry ≡ t.retry ++ failed_labels vs)
    × (t'.annotations ≡ all_noted vs t.annotations)

module _ (m : LagoonInsightsMessage) (p : PostProcessor) where
  already_done_sound : already_done m p ≡ true → at m.annotations p.label ≡ some successful_run
  unfolding already_done
  already_done_sound h = elim (Option-cases (at m.annotations p.label)) [
    | inl missing ↦ absurd (false≢true (rw missing at h))
    | inr (v, found) ↦ found ∙ ap some ((eq_iff v successful_run).0 (rw found at h))
  ]

  not_done_sound : already_done m p ≡ false → at m.annotations p.label ≢ some successful_run
  unfolding already_done
  not_done_sound h e = false≢true (sym (rw e at h))

  -- The round of a post-processor that is called, by what it returns.
  module _ {s s' : Trace} (todo : already_done m p ≡ false) (t : Tally) where
    run_processor_ok :
        p.post_process m s ≡ (ok tt, s') → run_processor m p t s ≡ (ok (note_success p t), s')
    unfolding run_processor
    run_processor_ok h = ground (arith, h)

    run_processor_err :
        {e : Error}
        → p.post_process m s ≡ (err e, s')
        → run_processor m p t s ≡ (ok (note_failure p e t), s')
    unfolding run_processor
    run_processor_err h = ground (arith, h)

    run_processor_panic : p.post_process m s ≡ (panic, s') → run_processor m p t s ≡ (panic, s')
    unfolding run_processor
    run_processor_panic h = ground (arith, h)

  run_processor_skip :
      {s : Trace} (t : Tally) → already_done m p ≡ true → run_processor m p t s ≡ (ok t, s)
  unfolding run_processor
  run_processor_skip t h = rw h

-- From any tally.
pub run_processors-Described :
    (m : LagoonInsightsMessage) (ps : List (Option PostProcessor)) (s : Trace) (t t' : Tally)
    (s' : Trace)
    → run_processors m ps t s ≡ (ok t', s')
    → Described m ps s t t' s'
unfolding run_processors note_success note_failure
run_processors-Described m [] s t t' s' h =
    ([], subst (λ z. Ran m [] s [] z) (ap (λ x. x.1) h) finished, cc (append-nil t.retry), cc)
run_processors-Described m (none ∷ ps) s t t' s' h =
    let (vs, ran, r, a) = run_processors-Described m ps s t t' s' h in (vs, absent ran, r, a)
run_processors-Described m (some p ∷ ps) s t t' s' h = elim (Bool-cases (already_done m p)) [
  | inl old ↦
      let (vs, ran, r, a) =
        run_processors-Described m ps s t t' s' (rw (run_processor_skip m p t old) at h) in
      ((p.label, skipped) ∷ vs, skip (already_done_sound m p old) ran, r, a)
  | inr todo ↦ go todo (run_processors-Described m ps) (p.post_process m s) refl
]
  where
    go :
        already_done m p ≡ false
        → ((s₁ : Trace) (t₁ t₂ : Tally) (s₂ : Trace)
            → run_processors m ps t₁ s₁ ≡ (ok t₂, s₂)
            → Described m ps s₁ t₁ t₂ s₂)
        → (r : Outcome (Unit {0}) × Trace) → p.post_process m s ≡ r
        → Described m (some p ∷ ps) s t t' s'
    go todo ih (ok tt, s₁) e =
        let (vs, ran, r, a) =
          ih s₁ (note_success p t) t' s' (rw (run_processor_ok m p todo t e) at h) in
        ((p.label, succeeded) ∷ vs, success (not_done_sound m p todo) e ran, r, a)
    go todo ih (err x, s₁) e =
        let (vs, ran, r, a) =
          ih s₁ (note_failure p x t) t' s' (rw (run_processor_err m p todo t e) at h) in
        (
          (p.label, failed x) ∷ vs,
          failure (not_done_sound m p todo) e ran,
          r ∙ append_assoc t.retry _ _,
          a,
        )
    go todo ih (panic, s₁) e = cc (run_processor_panic m p todo t e)
