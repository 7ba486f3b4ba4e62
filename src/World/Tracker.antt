-- ===== src/World/Tracker.antt =====
-- The objects of the Dependency Track client that the post-processors use.
use insights_remote.Base.{String, List, Option, Bool}

pub data CollectionLogic : Type 0 where
  collection_none aggregate_direct_children : CollectionLogic

-- A parent is given by its identifier.
pub record Project : Type 0 where
  pub uuid : String
  pub name : String
  pub active : Bool
  pub parent_ref : Option String
  pub collection_logic : Option CollectionLogic

pub record BomUploadRequest : Type 0 where
  pub project_name : String
  pub parent_uuid : String
  pub auto_create : Bool
  pub project_version : String
  pub bom : String
  pub project_tags : List String
