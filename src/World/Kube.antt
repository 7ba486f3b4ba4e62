-- ===== src/World/Kube.antt =====
-- The Kubernetes objects that the controllers read and write: the fields that they use.
use insights_remote.Base.{String, List, Option, Bool}
use insights_remote.Base.Maps.{GoMap}
use insights_remote.Types.{Bytes}

pub record NamespacedName : Type 0 where
  pub namespace : String
  pub name : String

pub record ConfigMap : Type 0 where
  pub name : String
  pub namespace : String
  pub labels : GoMap String
  pub annotations : GoMap String
  pub payload : GoMap String
  pub binary_data : GoMap Bytes

pub record Namespace : Type 0 where
  pub name : String
  pub labels : GoMap String
  pub phase : String

pub record Secret : Type 0 where
  pub name : String
  pub namespace : String
  pub labels : GoMap String
  pub annotations : GoMap String
  pub payload : GoMap Bytes

-- `value_from` is a reference to the source of the value, which is only copied.
pub record EnvVar : Type 0 where
  pub name : String
  pub value : String
  pub value_from : Option String

pub record VolumeMount : Type 0 where
  pub name : String
  pub mount_path : String
  pub read_only : Bool

pub record Container : Type 0 where
  pub name : String
  pub image : String
  pub image_pull_policy : String
  pub volume_mounts : List VolumeMount
  pub env : List EnvVar

-- A volume filled from a secret; `items` pairs a key with a path.
pub record Volume : Type 0 where
  pub name : String
  pub secret_name : String
  pub items : List (String × String)

pub record Pod : Type 0 where
  pub name : String
  pub namespace : String
  pub labels : GoMap String
  pub annotations : GoMap String
  pub phase : String
  pub service_account_name : String
  pub containers : List Container
  pub restart_policy : String
  pub volumes : List Volume

pub record Deployment : Type 0 where
  pub name : String
  pub containers : List Container
