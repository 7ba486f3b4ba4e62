-- ===== src/Types.antt =====
-- internal/defs.go and internal/service/defs.go: what is sent to Lagoon core, and the shared names.
-- A Go string and a byte slice are both a text here.
use insights_remote.Base.{ℕ, String, List}
use insights_remote.Base.Int.{ℤ}
use insights_remote.Base.Maps.{GoMap}

abbrev pub Bytes : Type 0
Bytes = String

pub record Fact : Type 0 where
  pub environment_id : String
  pub project_name : String
  pub environment_name : String
  pub name : String
  pub value : String
  pub source : String
  pub description : String
  pub fact_type : String
  pub category : String
  pub service : String

pub record Facts : Type 0 where
  pub environment_id : ℤ
  pub project_name : String
  pub environment_name : String
  pub facts : List Fact
  pub message_type : String

-- `severity_score` holds the 64 bits of the float.
pub record Problem : Type 0 where
  pub environment_id : ℤ
  pub identifier : String
  pub version : String
  pub fixed_version : String
  pub source : String
  pub service : String
  pub payload : String
  pub severity : String
  pub severity_score : ℕ
  pub associated_package : String
  pub description : String
  pub links : String

pub record Problems : Type 0 where
  pub environment_id : ℤ
  pub project_name : String
  pub environment_name : String
  pub problems : List Problem
  pub message_type : String

pub record LagoonInsightsMessage : Type 0 where
  pub payload : GoMap String
  pub binary_payload : GoMap Bytes
  pub annotations : GoMap String
  pub labels : GoMap String
  pub namespace : String
  pub environment : String
  pub service : String
  pub project : String
  pub message_type : String

pub record DirectDeleteMessage : Type 0 where
  pub message_type : String
  pub environment_id : ℤ
  pub source : String
  pub service : String

abbrev pub insights_type_sbom : String
insights_type_sbom = "sbom"

abbrev pub insights_type_inspect : String
insights_type_inspect = "inspect"

abbrev pub insights_type_unclassified : String
insights_type_unclassified = "unclassified"

abbrev pub insights_label : String
insights_label = "lagoon.sh/insightsType"

abbrev pub insights_updated_annotation_label : String
insights_updated_annotation_label = "lagoon.sh/insightsProcessed"

abbrev pub insights_write_deferred : String
insights_write_deferred = "lagoon.sh/insightsWriteDeferred"

abbrev pub delete_facts_type : String
delete_facts_type = "direct.delete.facts"

abbrev pub delete_problems_type : String
delete_problems_type = "direct.delete.problems"
