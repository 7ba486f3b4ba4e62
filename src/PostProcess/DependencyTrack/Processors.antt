-- ===== src/PostProcess/DependencyTrack/Processors.antt =====
-- default_postprocess.go and custom_postprocess.go of internal/postprocess/dependency_track: the
-- instance of Dependency Track for all namespaces, and the one that a namespace configures.
use insights_remote.Base.{
  String, Option, none, some, Bool, not, ◌||◌, inl, inr, ◌==◌, ◌◂◌, if◌then◌else◌,
}
use insights_remote.Base.Maps.{GoMap, at}
use insights_remote.Base.Exec.{new_error, pure, raise, attempt, ◌>>=◌, ◌>>◌}
use insights_remote.Base.Text.{parse_bool}
use insights_remote.Types.{Bytes, LagoonInsightsMessage, insights_type_sbom}
use insights_remote.World.{World, Action, NamespacedName, ask, perform, new_tracker, get_secret}
use insights_remote.PostProcess.{PostProcessor}
use insights_remote.PostProcess.Templates.{Templates, new_template}
use insights_remote.PostProcess.DependencyTrack
use insights_remote.PostProcess.DependencyTrack.{Libraries}

abbrev pub lagoon_env_dt_api_key : String
lagoon_env_dt_api_key = "LAGOON_FEATURE_FLAG_INSIGHTS_DEPENDENCY_TRACK_API_KEY"

abbrev pub lagoon_env_dt_push_prod_only : String
lagoon_env_dt_push_prod_only = "LAGOON_FEATURE_FLAG_INSIGHTS_DEPENDENCY_TRACK_PUSH_PROD_ONLY"

unfoldable pub resolve_push_prod_only : Bool → GoMap Bytes → Bool
resolve_push_prod_only global_default payload = elim (at payload lagoon_env_dt_push_prod_only) [
  | none ↦ global_default
  | some v ↦
      if v == ""
      then global_default
      else elim (parse_bool v) [ none ↦ global_default | some parsed ↦ parsed ]
]

pub record DefaultPostProcess : Type 0 where
  pub api_endpoint : String
  pub api_key : String
  pub templates : Templates
  pub push_prod_only : Bool

pub record CustomPostProcess : Type 0 where
  pub templates : Templates
  pub push_prod_only : Bool

-- m[key] where a missing key reads as the empty text
abbrev pub read : GoMap String → String → String
read m key = elim (at m key) [ none ↦ "" | some v ↦ v ]

module _ (libraries : Libraries) (w : World) where
  unfoldable pub default_post_process :
      DefaultPostProcess → LagoonInsightsMessage → Action (Unit {0})
  unfolding DependencyTrack.post_process
  default_post_process d m = if not (m.message_type == insights_type_sbom) then pure tt else do
    perform w (new_tracker d.api_endpoint d.api_key)
    DependencyTrack.post_process libraries w d.push_prod_only d.templates m

  -- What is done with the secret of the namespace.
  unfoldable pub custom_with :
      CustomPostProcess → LagoonInsightsMessage → String → GoMap Bytes → Action (Unit {0})
  unfolding DependencyTrack.post_process resolve_push_prod_only
  custom_with d m endpoint payload =
      if read payload lagoon_env_dt_api_key == ""
      then raise (new_error "failed to load custom key")
      else do
        perform w (new_tracker endpoint (read payload lagoon_env_dt_api_key))
        DependencyTrack.post_process libraries w (resolve_push_prod_only d.push_prod_only payload)
            d.templates m

  abbrev pub custom_endpoint : LagoonInsightsMessage → String
  custom_endpoint m = read m.annotations "dependencytrack.insights.lagoon.sh/custom-endpoint"

  unfoldable pub custom_post_process : CustomPostProcess → LagoonInsightsMessage → Action (Unit {0})
  unfolding custom_with
  custom_post_process d m =
      if not (m.message_type == insights_type_sbom) || custom_endpoint m == "" then pure tt else do
        let key : NamespacedName = record { namespace = m.namespace; name = "lagoon-env" }
        held ← attempt (ask (get_secret key) (λ s. w.secret s key))
        elim held [
          | inl e ↦ raise (record e { text = "failed to load custom key: " ◂ e.text })
          | inr secret ↦ custom_with d m (custom_endpoint m) secret.payload
        ]

  -- The nil interface, which leaves the post-processor out, is `none`.
  unfoldable pub new_default_post_processor :
      (enabled : Bool) (endpoint key : String) (push_prod_only : Bool)
      → (root parent name version : String) → Option PostProcessor
  unfolding default_post_process new_template
  new_default_post_processor enabled endpoint key push_prod_only root parent name version =
      if not enabled || endpoint == "" || key == ""
      then none
      else some (record {
        label = "dependencytrack.insights.lagoon.sh/default-status";
        post_process = default_post_process (record {
          api_endpoint = endpoint;
          api_key = key;
          templates = new_template root parent name version;
          push_prod_only = push_prod_only;
        });
      })

  unfoldable pub new_custom_post_processor :
      (enabled push_prod_only : Bool) → (root parent name version : String) → Option PostProcessor
  unfolding custom_post_process new_template
  new_custom_post_processor enabled push_prod_only root parent name version =
      if not enabled
      then none
      else some (record {
        label = "dependencytrack.insights.lagoon.sh/custom-status";
        post_process = custom_post_process (record {
          templates = new_template root parent name version;
          push_prod_only = push_prod_only;
        });
      })
