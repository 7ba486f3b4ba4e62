-- ===== src/PostProcess.antt =====
-- internal/postprocess/postprocess.go: the interface of a post-processor.
pub mod InsightsCore
pub mod Templates
pub mod DependencyTrack
use insights_remote.Base.{String}
use insights_remote.Types.{LagoonInsightsMessage}
use insights_remote.World.{Action}

-- `post_process` returns an error or nil.
pub record PostProcessor : Type 0 where
  pub label : String
  pub post_process : LagoonInsightsMessage → Action (Unit {0})
