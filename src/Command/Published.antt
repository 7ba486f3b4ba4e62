-- ===== src/Command/Published.antt =====
-- What the post-processors that cmd/main.go makes leave in the trace and in the annotations: the
-- message that the broker took, and the keys of the annotations.
use mathlib.Core.Path.{subst}
use mathlib.Core.List.{append_assoc}
use insights_remote.Base.{
  String, Option, none, some, List, [], ◌∷◌, ◌++◌, ◌≡◌, refl, sym, ap, ◌∙◌, All, Bool, true, ◌⊎◌,
  inl, inr, arith, eq_iff, ◌==◌, ◌◂◌,
}
use insights_remote.Base.Maps.{at, lookup}
use insights_remote.Base.Exec.{Error, ok}
use insights_remote.ConfigMaps.{Tally, run_processors, successful_run}
use insights_remote.ConfigMaps.Loop.{
  Verdict, Ran, finished, absent, failed, skip, success, failure, run_processors-Described,
}
use insights_remote.ConfigMaps.Loop.Statuses.{
  labels, Apart, verdict_labels, labels-Ran, lookup-all_noted,
}
use insights_remote.ConfigMaps.Written.{fresh_tally}
use insights_remote.PostProcess.{PostProcessor}
use insights_remote.PostProcess.InsightsCore
use insights_remote.PostProcess.InsightsCore.{mq_write_object, enabled, new_post_processor}
use insights_remote.PostProcess.DependencyTrack.{Libraries}
use insights_remote.PostProcess.DependencyTrack.Calls.{
  default_post_process-Extends, custom_post_process-Extends,
}
use insights_remote.Types.{LagoonInsightsMessage}
use insights_remote.World.{World, Trace, insights, mq_new, mq_producer, mq_produce, mq_close}
use insights_remote.World.Extends.{
  Extends, told-Extends, if-Extends, pure-Extends, raise-Extends, bind-Extends, attempt-Extends,
  lift-Extends, perform-Extends,
}
use insights_remote.Base.{not, ◌&&◌}
use insights_remote.Base.Exec.{pure, raise}
use insights_remote.World.{Payload, result}
use insights_remote.Command.Each.{
  tracking, Each, core_processor, post_processors-Each, tracking-Each,
}
use insights_remote.Command.{post_processors}
use insights_remote.Command.Config.{Tracking}

-- The broker took the message, and the connection to it was closed, right behind the trace.
abbrev pub published : LagoonInsightsMessage → Trace → Trace
published m t = mq_close ∷ mq_produce (insights m) ∷ mq_producer ∷ mq_new ∷ t

abbrev pub Took : World → LagoonInsightsMessage → Trace → Type 0
Took w m t = w.written (mq_producer ∷ mq_new ∷ t) (mq_produce (insights m)) ≡ inr tt

pub core-published :
    (w : World) (m : LagoonInsightsMessage) (t s : Trace)
    → enabled m ≡ true
    → (core_processor w).post_process m t ≡ (ok tt, s)
    → Took w m t × (s ≡ published m t)
unfolding InsightsCore.post_process mq_write_object
core-published w m t s on sent =
    split_on (w.written t mq_new) (w.written (mq_new ∷ t) mq_producer)
      (w.written (mq_producer ∷ mq_new ∷ t) (mq_produce (insights m))) refl refl refl
  where
    split_on :
        (connected opened produced : Error ⊎ Unit {0})
        → w.written t mq_new ≡ connected
        → w.written (mq_new ∷ t) mq_producer ≡ opened
        → w.written (mq_producer ∷ mq_new ∷ t) (mq_produce (insights m)) ≡ produced
        → Took w m t × (s ≡ published m t)
    split_on (inl e) _ _ a b c = absurd (ground (arith, on, a, sent))
    split_on (inr _) (inl e) _ a b c = absurd (ground (arith, on, a, b, sent))
    split_on (inr _) (inr _) (inl e) a b c = absurd (ground (arith, on, a, b, c, sent))
    split_on (inr _) (inr _) (inr tt) a b c = (c, ground (arith, on, a, b, c, sent))

-- The post-processor makes its calls behind those before it.
abbrev pub Appends : PostProcessor → Type 0
Appends p = (m : LagoonInsightsMessage) → Extends (p.post_process m)

pub core-Appends : (w : World) → Appends (core_processor w)
unfolding InsightsCore.post_process mq_write_object
core-Appends w m =
    if-Extends (not (enabled m)) (pure-Extends tt)
      (bind-Extends _ _ (attempt-Extends _ (writes w (insights m))) ended)
  where
    writes : (w : World) (payload : Payload) → Extends (mq_write_object w payload)
    writes w payload = bind-Extends _ _ (perform-Extends w _) (λ _.
        bind-Extends _ _
          (attempt-Extends _ (bind-Extends _ _ (perform-Extends w _) (λ _. perform-Extends w _)))
          (λ sent. bind-Extends _ _ (told-Extends mq_close tt) (λ _. lift-Extends (result sent))))

    ended :
        (sent : Error ⊎ Unit {0})
        → Extends {A = Unit {0}} (elim sent [
          | inl e ↦ raise (record e { text = "unable to write to message broker: " ◂ e.text })
          | inr _ ↦ pure tt
        ])
    ended (inl e) = raise-Extends _
    ended (inr _) = pure-Extends tt

pub Ran-extends :
    {m : LagoonInsightsMessage} {ps : List (Option PostProcessor)} {s s' : Trace}
    {vs : List (String × Verdict)}
    → Ran m ps s vs s'
    → Each Appends ps
    → (q : Trace) × (s' ≡ q ++ s)
Ran-extends finished h = ([], refl)
Ran-extends (absent r) (_, h) = Ran-extends r h
Ran-extends (skip _ r) (_, h) = Ran-extends r h
Ran-extends {m} {s} (success _ ran r) (appends, h) =
    let (q, later) = Ran-extends r h in
    let (q', now) = (appends m).before s in (q ++ q', cc (later, now, ran, append_assoc q q' s))
Ran-extends {m} {s} (failure _ ran r) (appends, h) =
    let (q, later) = Ran-extends r h in
    let (q', now) = (appends m).before s in (q ++ q', cc (later, now, ran, append_assoc q q' s))

-- How the first post-processor fared: it was left out for an earlier success, or it succeeded and the
-- others made their calls behind it, or it failed.
pub Ran-first :
    {m : LagoonInsightsMessage} {p : PostProcessor} {ps : List (Option PostProcessor)}
    {s s' : Trace} {vs : List (String × Verdict)}
    → Ran m (some p ∷ ps) s vs s'
    → Each Appends ps
    → (at m.annotations p.label ≡ some successful_run)
      ⊎ ((s₁ : Trace) × (q : Trace) × (p.post_process m s ≡ (ok tt, s₁)) × (s' ≡ q ++ s₁))
      ⊎ ((e : Error) × (us : List (String × Verdict)) × (vs ≡ (p.label, failed e) ∷ us)
          × (verdict_labels us ≡ labels ps))
Ran-first (skip done r) h = inl done
Ran-first (success {s'} _ ran r) h =
    let (q, later) = Ran-extends r h in inr (inl (s', q, ran, later))
Ran-first (failure {vs} {e} _ ran r) h = inr (inr (e, vs, refl, labels-Ran r))

-- A key that is not the status of a post-processor, and neither is for the error of the other.
abbrev pub Elsewhere : String → PostProcessor → Type 0
Elsewhere key p = Apart key p.label

abbrev pub is_apart : String → List String → Bool
is_apart key [] = true
is_apart key (l ∷ ls) =
    not (key == l) && not (key ◂ "-error" == l) && not (l ◂ "-error" == key) && is_apart key ls

pub is_apart-Apart : (key : String) (ls : List String) → is_apart key ls ≡ true → All (Apart key) ls
is_apart-Apart key [] h = tt
is_apart-Apart key (l ∷ ls) h = (
  ground (arith, h, eq_iff key l, eq_iff (key ◂ "-error") l, eq_iff (l ◂ "-error") key),
  is_apart-Apart key ls (ground (arith, h)),
)

pub Elsewhere-labels :
    (key : String) (ps : List (Option PostProcessor))
    → Each (Elsewhere key) ps
    → All (Apart key) (labels ps)
Elsewhere-labels key [] h = tt
Elsewhere-labels key (none ∷ ps) (_, h) = Elsewhere-labels key ps h
Elsewhere-labels key (some p ∷ ps) (here, h) = (here, Elsewhere-labels key ps h)

-- A run does not write an annotation at such a key.
pub lookup-run_processors :
    (key : String) (m : LagoonInsightsMessage) (ps : List (Option PostProcessor)) (s s' : Trace)
    (tally : Tally)
    → Each (Elsewhere key) ps
    → run_processors m ps fresh_tally s ≡ (ok tally, s')
    → lookup key tally.annotations ≡ none
unfolding lookup
lookup-run_processors key m ps s s' tally h ran =
    let (vs, described, _, gathered) = run_processors-Described m ps s fresh_tally tally s' ran in
    ap (lookup key) gathered
    ∙ lookup-all_noted key vs []
        (subst (All (Apart key)) (sym (labels-Ran described)) (Elsewhere-labels key ps h))

-- The labels of the post-processors for Dependency Track.
abbrev tracking_labels : List String
tracking_labels =
    "dependencytrack.insights.lagoon.sh/default-status"
    ∷ "dependencytrack.insights.lagoon.sh/custom-status" ∷ []

-- The labels of the post-processors of the program.
abbrev pub own_labels : List String
own_labels = "core.insights.lagoon.sh/status" ∷ tracking_labels

pub post_processors-Elsewhere :
    (libraries : Libraries) (w : World) (mq_enable : Bool) (s : Tracking) (key : String)
    → is_apart key own_labels ≡ true
    → Each (Elsewhere key) (post_processors libraries w mq_enable s)
post_processors-Elsewhere libraries w mq_enable s key h =
    let (core, (default, (custom, _))) = is_apart-Apart key own_labels h in
    post_processors-Each (Elsewhere key) libraries w mq_enable s core default custom

pub post_processors-Appends :
    (libraries : Libraries) (w : World) (mq_enable : Bool) (s : Tracking)
    → Each Appends (post_processors libraries w mq_enable s)
post_processors-Appends libraries w mq_enable s =
    post_processors-Each Appends libraries w mq_enable s (core-Appends w)
      (λ m. default_post_process-Extends libraries w _ m)
      (λ m. custom_post_process-Extends libraries w _ m)

pub tracking-labels :
    (libraries : Libraries) (w : World) (s : Tracking) (key : String)
    → is_apart key tracking_labels ≡ true
    → All (Apart key) (labels (tracking libraries w s))
tracking-labels libraries w s key h =
    let (default, (custom, _)) = is_apart-Apart key tracking_labels h in
    Elsewhere-labels key (tracking libraries w s)
      (tracking-Each (Elsewhere key) libraries w s default custom)
