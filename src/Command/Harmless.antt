-- ===== src/Command/Harmless.antt =====
-- None of the post-processors that cmd/main.go makes panics, where the parent has a template.
use insights_remote.Base.{
  String, Option, none, some, List, [], ◌∷◌, ◌≡◌, ◌≢◌, refl, Bool, ◌⊎◌, inl, inr, arith,
}
use insights_remote.Base.Maps.{GoMap}
use insights_remote.Base.Exec.{Error, Outcome, ok, err, panic}
use insights_remote.ConfigMaps.{Tally, run_processor, run_processors}
use insights_remote.PostProcess.{PostProcessor}
use insights_remote.PostProcess.InsightsCore
use insights_remote.PostProcess.InsightsCore.{mq_write_object, new_post_processor}
use insights_remote.PostProcess.Templates.{new_template}
use insights_remote.PostProcess.DependencyTrack.{Libraries}
use insights_remote.PostProcess.DependencyTrack.Panics.{post_process-ne-panic}
use insights_remote.PostProcess.DependencyTrack.Processors.{
  default_post_process, custom_post_process, custom_with, read, lagoon_env_dt_api_key,
  resolve_push_prod_only, custom_endpoint,
}
use insights_remote.Types.{Bytes, LagoonInsightsMessage}
use insights_remote.World.{NamespacedName, World, Trace, Secret, new_tracker, get_secret}
use insights_remote.Command.{post_processors}
use insights_remote.Command.Config.{Tracking}
use insights_remote.Command.Each.{Each, post_processors-Each}

abbrev lagoon_env : LagoonInsightsMessage → NamespacedName
lagoon_env m = record { namespace = m.namespace; name = "lagoon-env" }

abbrev Harmless : PostProcessor → Type 0
Harmless p = (m : LagoonInsightsMessage) (t : Trace) → (p.post_process m t).0 ≢ panic

pub run_processors-ne-panic :
    (m : LagoonInsightsMessage) (ps : List (Option PostProcessor)) (tally : Tally) (t : Trace)
    → Each Harmless ps
    → (run_processors m ps tally t).0 ≢ panic
unfolding run_processors run_processor
run_processors-ne-panic m [] tally t h = ground arith
run_processors-ne-panic m (none ∷ ps) tally t (_, h) = run_processors-ne-panic m ps tally t h
run_processors-ne-panic m (some p ∷ ps) tally t (harmless, h) =
    split_on (λ tally' t'. run_processors-ne-panic m ps tally' t' h) (run_processor m p tally t)
      refl
  where
    split_on :
        ((tally' : Tally) (t' : Trace) → (run_processors m ps tally' t').0 ≢ panic)
        → (r : Outcome Tally × Trace) → run_processor m p tally t ≡ r
        → (run_processors m (some p ∷ ps) tally t).0 ≢ panic
    split_on later (ok tally', t') ran = ground (arith, ran, later tally' t')
    split_on later (err e, t') ran = ground (arith, ran)
    split_on later (panic, t') ran = ground (arith, ran, harmless m t)

module _ (libraries : Libraries) (w : World) where
  core-ne-panic :
      (m : LagoonInsightsMessage) (t : Trace)
      → (InsightsCore.post_process (record { message_q_writer = mq_write_object w }) m t).0 ≢ panic
  unfolding InsightsCore.post_process mq_write_object
  core-ne-panic m t = ground arith

  module _ (root parent name version : String) (given : parent ≢ "") where
    default-ne-panic :
        (endpoint key : String) (prod : Bool) (m : LagoonInsightsMessage) (t : Trace)
        → (default_post_process libraries w
            (record {
              api_endpoint = endpoint;
              api_key = key;
              templates = new_template root parent name version;
              push_prod_only = prod;
            })
            m
            t).0
          ≢ panic
    unfolding default_post_process
    default-ne-panic endpoint key prod m t = ground (
      arith,
      post_process-ne-panic libraries w prod root parent name version m
          (new_tracker endpoint key ∷ t) given,
    )

    custom_with-ne-panic :
        (prod : Bool) (m : LagoonInsightsMessage) (endpoint : String) (payload : GoMap Bytes)
        (t : Trace)
        → (custom_with libraries w
            (record { templates = new_template root parent name version; push_prod_only = prod })
            m
            endpoint
            payload
            t).0
          ≢ panic
    unfolding custom_with
    custom_with-ne-panic prod m endpoint payload t = ground (
      arith,
      post_process-ne-panic libraries w (resolve_push_prod_only prod payload) root parent name
          version m (new_tracker endpoint (read payload lagoon_env_dt_api_key) ∷ t) given,
    )

    custom-ne-panic :
        (prod : Bool) (m : LagoonInsightsMessage) (t : Trace)
        → (custom_post_process libraries w
            (record { templates = new_template root parent name version; push_prod_only = prod })
            m
            t).0
          ≢ panic
    unfolding custom_post_process
    custom-ne-panic prod m t = split_on (w.secret t (lagoon_env m)) refl
      where
        split_on :
            (x : Error ⊎ Secret)
            → w.secret t (lagoon_env m) ≡ x
            → (custom_post_process libraries w
                (record {
                  templates = new_template root parent name version;
                  push_prod_only = prod;
                })
                m
                t).0
              ≢ panic
        split_on (inl e) held = ground (arith, held)
        split_on (inr secret) held = ground (
          arith,
          held,
          custom_with-ne-panic prod m (custom_endpoint libraries w m) secret.payload
              (get_secret (lagoon_env m) ∷ t),
        )

  pub post_processors-Harmless :
      (mq_enable : Bool) (s : Tracking)
      → s.parent_template ≢ ""
      → Each Harmless (post_processors libraries w mq_enable s)
  post_processors-Harmless mq_enable s given =
      post_processors-Each Harmless libraries w mq_enable s core-ne-panic
        (default-ne-panic s.root_template s.parent_template s.name_template s.version_template given
          s.api_endpoint s.api_key s.push_prod_only)
        (custom-ne-panic s.root_template s.parent_template s.name_template s.version_template given
          s.push_prod_only)
