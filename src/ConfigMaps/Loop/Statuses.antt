-- ===== src/ConfigMaps/Loop/Statuses.antt =====
-- What the loop over the post-processors leaves in the annotations, for each verdict.
use Prim.Native.String.{count}
use mathlib.Core.Path.{subst}
use text.Mathlib.TextLemmas.{length-append}
use insights_remote.Base.{
  String, Option, none, some, List, [], ◌∷◌, ◌≡◌, ◌≢◌, refl, sym, ap, ◌∙◌, arith, eq_iff, eq_refl,
  ◌◂◌, All,
}
use insights_remote.Base.Maps.{Entries, lookup, insert, lookup-insert, insert-IsMap, IsMap}
use insights_remote.Base.Exec.{ok}
use insights_remote.PostProcess.{PostProcessor}
use insights_remote.Types.{LagoonInsightsMessage}
use insights_remote.World.{Trace}
use insights_remote.ConfigMaps.{Tally, run_processors, successful_run, failed_run}
use insights_remote.ConfigMaps.Loop.{
  Verdict, skipped, succeeded, failed, Ran, finished, absent, skip, success, failure, failed_labels,
  noted, all_noted, run_processors-Described,
}

-- The labels of the post-processors that are not nil.
abbrev pub labels : List (Option PostProcessor) → List String
labels [] = []
labels (none ∷ ps) = labels ps
labels (some p ∷ ps) = p.label ∷ labels ps

-- Neither text is the other, nor the annotation for the error of the other.
abbrev pub Apart : String → String → Type 0
Apart l j = (l ≢ j) × (l ◂ "-error" ≢ j) × (j ◂ "-error" ≢ l)

abbrev pub IsDistinct : List String → Type 0
IsDistinct [] = Unit
IsDistinct (l ∷ ls) = All (Apart l) ls × IsDistinct ls

error-ne : (l : String) → l ◂ "-error" ≢ l
error-ne l e = omega (arith, length-append l "-error", ap count e)

-- The annotation at its label that a verdict leaves: one that was skipped gets none.
abbrev pub status : Verdict → Option String
status skipped = none
status succeeded = some successful_run
status (failed e) = some failed_run

abbrev pub verdict_labels : List (String × Verdict) → List String
verdict_labels [] = []
verdict_labels ((l, v) ∷ vs) = l ∷ verdict_labels vs

pub labels-Ran :
    {m : LagoonInsightsMessage} {ps : List (Option PostProcessor)} {s s' : Trace}
    {vs : List (String × Verdict)}
    → Ran m ps s vs s'
    → verdict_labels vs ≡ labels ps
labels-Ran finished = refl
labels-Ran (absent r) = labels-Ran r
labels-Ran (skip {p} _ r) = ap (λ ls. p.label ∷ ls) (labels-Ran r)
labels-Ran (success {p} _ _ r) = ap (λ ls. p.label ∷ ls) (labels-Ran r)
labels-Ran (failure {p} _ _ r) = ap (λ ls. p.label ∷ ls) (labels-Ran r)

lookup-noted-Apart :
    (l j : String) (v : Verdict) (a : Entries String)
    → Apart j l
    → lookup j (noted (l, v) a) ≡ lookup j a
lookup-noted-Apart l j skipped a h = refl
lookup-noted-Apart l j succeeded a h =
    ground (arith, eq_iff l j, lookup-insert l j successful_run a)
lookup-noted-Apart l j (failed e) a h = ground (
  arith,
  eq_iff l j,
  eq_iff (l ◂ "-error") j,
  lookup-insert l j failed_run a,
  lookup-insert (l ◂ "-error") j e.text (insert l failed_run a),
)

lookup-noted_self :
    (l : String) (v : Verdict) (a : Entries String)
    → lookup l a ≡ none
    → lookup l (noted (l, v) a) ≡ status v
lookup-noted_self l skipped a h = h
lookup-noted_self l succeeded a h = simp (lookup-insert, eq_refl)
lookup-noted_self l (failed e) a h = ground (
  arith,
  eq_refl l,
  eq_iff (l ◂ "-error") l,
  error-ne l,
  lookup-insert l l failed_run a,
  lookup-insert (l ◂ "-error") l e.text (insert l failed_run a),
)

pub lookup-all_noted :
    (j : String) (vs : List (String × Verdict)) (a : Entries String)
    → All (Apart j) (verdict_labels vs)
    → lookup j (all_noted vs a) ≡ lookup j a
lookup-all_noted j [] a h = refl
lookup-all_noted j ((l, v) ∷ vs) a (p, h) =
    lookup-all_noted j vs (noted (l, v) a) h ∙ lookup-noted-Apart l j v a p

statuses :
    (vs : List (String × Verdict)) (a : Entries String)
    → IsDistinct (verdict_labels vs)
    → All (λ l. lookup l a ≡ none) (verdict_labels vs)
    → All (λ v. lookup v.0 (all_noted vs a) ≡ status v.1) vs
statuses [] a d h = tt
statuses ((l, v) ∷ vs) a (apart, d) (unset, h) = (
  lookup-all_noted l vs (noted (l, v) a) apart ∙ lookup-noted_self l v a unset,
  statuses vs (noted (l, v) a) d (still vs apart h),
)
  where
    still :
        (us : List (String × Verdict))
        → All (Apart l) (verdict_labels us)
        → All (λ j. lookup j a ≡ none) (verdict_labels us)
        → All (λ j. lookup j (noted (l, v) a) ≡ none) (verdict_labels us)
    still [] _ _ = tt
    still ((j, u) ∷ us) ((p, q, r), ps) (n, ns) =
        (lookup-noted-Apart l j v a ((λ e. p (sym e)), r, q) ∙ n, still us ps ns)

All-unset : (ls : List String) → All (λ l. lookup {V = String} l [] ≡ none) ls
unfolding lookup
All-unset [] = tt
All-unset (l ∷ ls) = (refl, All-unset ls)

-- The loop ran with verdicts from which the tally is told.
abbrev pub Accounted :
    LagoonInsightsMessage → List (Option PostProcessor) → Trace → Trace → Tally → Type 0
Accounted m ps s s' t =
    (vs : List (String × Verdict)) × Ran m ps s vs s'
    × (t.retry ≡ failed_labels vs)
    × All (λ v. lookup v.0 t.annotations ≡ status v.1) vs

-- A run of the loop over the post-processors that does not panic gave each of those that are not
-- nil one verdict, in order: those with the annotation `success` were not called, the others were,
-- one after the other and whatever the others returned. The labels kept for the retry are those of
-- the failed ones, and if the labels are distinct, and none is another's with `-error` behind it,
-- the annotation gathered at each label is `success`, `failure`, or none for one that was skipped.
pub run_processors-Ran :
    (m : LagoonInsightsMessage) (ps : List (Option PostProcessor)) (s s' : Trace) (t : Tally)
    → IsDistinct (labels ps)
    → run_processors m ps (record { retry = []; annotations = [] }) s ≡ (ok t, s')
    → Accounted m ps s s' t
run_processors-Ran m ps s s' t d h =
    let (vs, ran, r, a) = run_processors-Described m ps s _ t s' h in
    let same = labels-Ran ran in
    (
      vs,
      ran,
      r,
      rw a (
          statuses vs [] (subst IsDistinct (sym same) d) (
            subst (All (λ l. lookup {V = String} l [] ≡ none)) (sym same) (All-unset (labels ps)))),
    )

all_noted-IsMap :
    (vs : List (String × Verdict)) (a : Entries String) → IsMap a → IsMap (all_noted vs a)
all_noted-IsMap [] a h = h
all_noted-IsMap ((l, skipped) ∷ vs) a h = all_noted-IsMap vs a h
all_noted-IsMap ((l, succeeded) ∷ vs) a h = all_noted-IsMap vs _ (insert-IsMap l successful_run a h)
all_noted-IsMap ((l, failed e) ∷ vs) a h =
    all_noted-IsMap vs _ (insert-IsMap (l ◂ "-error") e.text _ (insert-IsMap l failed_run a h))

-- The annotations that are gathered name no key twice.
pub run_processors-IsMap :
    (m : LagoonInsightsMessage) (ps : List (Option PostProcessor)) (s s' : Trace) (t : Tally)
    → run_processors m ps (record { retry = []; annotations = [] }) s ≡ (ok t, s')
    → IsMap t.annotations
run_processors-IsMap m ps s s' t h =
    let (vs, ran, r, a) = run_processors-Described m ps s _ t s' h in
    rw a (all_noted-IsMap vs [] tt)
