-- ===== src/Command/Each.antt =====
-- What holds of each of the post-processors that cmd/main.go makes.
use insights_remote.Base.{
  Option, none, some, List, [], ◌∷◌, Bool, true, false, All, not, ◌||◌, ◌==◌, if◌then◌else◌,
}
use insights_remote.PostProcess.{PostProcessor}
use insights_remote.PostProcess.InsightsCore
use insights_remote.PostProcess.InsightsCore.{mq_write_object, new_post_processor}
use insights_remote.PostProcess.Templates.{new_template}
use insights_remote.PostProcess.DependencyTrack.{Libraries}
use insights_remote.PostProcess.DependencyTrack.Processors.{
  default_post_process, custom_post_process, new_default_post_processor, new_custom_post_processor,
}
use insights_remote.World.{World}
use insights_remote.Command.{post_processors}
use insights_remote.Command.Config.{Tracking}

module _ (w : World) where
  abbrev pub core_processor : PostProcessor
  core_processor = record {
    label = "core.insights.lagoon.sh/status";
    post_process = InsightsCore.post_process (record { message_q_writer = mq_write_object w });
  }

module _ (libraries : Libraries) (w : World) (s : Tracking) where
  abbrev pub default_processor : PostProcessor
  default_processor = record {
    label = "dependencytrack.insights.lagoon.sh/default-status";
    post_process = default_post_process libraries w (record {
      api_endpoint = s.api_endpoint;
      api_key = s.api_key;
      templates = new_template s.root_template s.parent_template s.name_template s.version_template;
      push_prod_only = s.push_prod_only;
    });
  }

  abbrev pub custom_processor : PostProcessor
  custom_processor = record {
    label = "dependencytrack.insights.lagoon.sh/custom-status";
    post_process = custom_post_process libraries w (record {
      templates = new_template s.root_template s.parent_template s.name_template s.version_template;
      push_prod_only = s.push_prod_only;
    });
  }

-- The two for Dependency Track, where they are made.
abbrev pub tracking : Libraries → World → Tracking → List (Option PostProcessor)
tracking libraries w s =
    new_default_post_processor libraries w s.enabled s.api_endpoint s.api_key s.push_prod_only
      s.root_template s.parent_template s.name_template s.version_template
    ∷ new_custom_post_processor libraries w s.enabled s.push_prod_only s.root_template
        s.parent_template s.name_template s.version_template
    ∷ []

module _ (P : PostProcessor → Type 0) where
  -- One that is left out has every property.
  abbrev pub Held : Option PostProcessor → Type 0
  Held none = Unit
  Held (some p) = P p

  abbrev pub Each : List (Option PostProcessor) → Type 0
  Each ps = All Held ps

  Held-if : (b : Bool) (p : PostProcessor) → P p → Held (if b then some p else none)
  Held-if true p h = h
  Held-if false p h = tt

  Held-unless : (b : Bool) (p : PostProcessor) → P p → Held (if b then none else some p)
  Held-unless true p h = tt
  Held-unless false p h = h

  -- Of the two for Dependency Track.
  pub tracking-Each :
      (libraries : Libraries) (w : World) (s : Tracking)
      → P (default_processor libraries w s)
      → P (custom_processor libraries w s)
      → Each (tracking libraries w s)
  unfolding new_default_post_processor new_custom_post_processor
  tracking-Each libraries w s default custom = (
    Held-unless (not s.enabled || s.api_endpoint == "" || s.api_key == "") _ default,
    (Held-unless (not s.enabled) _ custom, tt),
  )

  pub post_processors-Each :
      (libraries : Libraries) (w : World) (mq_enable : Bool) (s : Tracking)
      → P (core_processor w)
      → P (default_processor libraries w s)
      → P (custom_processor libraries w s)
      → Each (post_processors libraries w mq_enable s)
  unfolding post_processors new_post_processor
  post_processors-Each libraries w mq_enable s core default custom =
      (Held-if mq_enable _ core, tracking-Each libraries w s default custom)
