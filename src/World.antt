-- ===== src/World.antt =====
-- What the program asks of its surroundings: the Kubernetes API, the message broker, Dependency
-- Track, the clock and the HTTP client. Each request is recorded in a trace, and the answers are a
-- parameter that may depend on all that was asked before.
mod Kube
mod Tracker
pub mod Extends
pub use Kube.*
pub use Tracker.*
use insights_remote.Base.{ℕ, String, List, ◌∷◌, Bool, ◌⊎◌, inl, inr}
use insights_remote.Base.Maps.{Entries}
use insights_remote.Base.Exec.{Error, Outcome, ok, err, Exec}
use insights_remote.Base.Text.Decimal.{NumError}
use insights_remote.Types.{Bytes, LagoonInsightsMessage}

-- What is published: bytes, or the JSON text of a message of the post-processors.
pub data Payload : Type 0 where
  bytes : Bytes → Payload
  insights : LagoonInsightsMessage → Payload

-- The `message` of an answer: the text of an error, or of a number that does not parse.
pub data Message : Type 0 where
  of_error : Error → Message
  of_number : String → NumError → Message

-- The JSON bodies that the web service answers with.
pub data Body : Type 0 where
  okay : Body
  unauthorized : Error → Body
  failure : String → Message → Body
  plain : Error → Body

pub data Call : Type 0 where
  get_config_map get_namespace get_secret get_pod : NamespacedName → Call
  list_secrets : (label namespace : String) → Call
  list_deployments : (namespace : String) → Call
  list_pods : (namespace : String) → Entries String → Call
  list_config_maps : (label : String) → (limit : ℕ) → Call
  update_config_map delete_config_map : ConfigMap → Call
  create_secret delete_secret : Secret → Call
  create_pod update_pod delete_pod : Pod → Call
  mq_new mq_producer mq_close : Call
  mq_produce : Payload → Call
  new_tracker : (endpoint api_key : String) → Call
  projects_for_name : String → Call
  create_project : Project → Call
  get_project : String → Call
  upload_bom : BomUploadRequest → Call
  is_being_processed : String → Call
  start_ticker : Call
  reply : ℕ → Body → Call

-- The calls made so far, the latest first.
abbrev pub Trace : Type 0
Trace = List Call

abbrev pub Action : Type 0 → Type 0
Action A = Exec Trace A

-- The answers. Times are in nanoseconds since 1970.
pub record World : Type 0 where
  pub config_map : Trace → NamespacedName → Error ⊎ ConfigMap
  pub namespace : Trace → NamespacedName → Error ⊎ Namespace
  pub secret : Trace → NamespacedName → Error ⊎ Secret
  pub pod : Trace → NamespacedName → Error ⊎ Pod
  pub secrets : Trace → String → String → Error ⊎ List Secret
  pub deployments : Trace → String → Error ⊎ List Deployment
  pub pods : Trace → String → Entries String → Error ⊎ List Pod
  pub config_maps : Trace → String → ℕ → Error ⊎ List ConfigMap
  pub written : Trace → Call → Error ⊎ Unit {0}
  pub projects : Trace → String → Error ⊎ List Project
  pub project_created : Trace → Project → Error ⊎ Project
  pub project : Trace → String → Error ⊎ Project
  pub uploaded : Trace → BomUploadRequest → Error ⊎ String
  pub processing : Trace → String → Error ⊎ Bool
  -- How often the ticker of an upload fires before its timeout is taken.
  pub heartbeats : Trace → ℕ
  pub now_ns : Trace → ℕ
  pub now_rfc3339 : Trace → String

abbrev pub result {ℓ} : {A : Type ℓ} → Error ⊎ A → Outcome A
result (inl e) = err e
result (inr a) = ok a

-- Make a call and take its answer.
abbrev pub ask : {A : Type 0} → Call → (Trace → Error ⊎ A) → Action A
ask c answer t = (result (answer t), c ∷ t)

module _ (w : World) where
  -- A call that returns only an error or nil.
  abbrev pub perform : Call → Action (Unit {0})
  perform c t = ask c (λ s. w.written s c) t
