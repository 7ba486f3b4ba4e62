-- ===== src/PostProcess/DependencyTrack.antt =====
-- internal/postprocess/dependency_track: bills of materials are sent to Dependency Track. The parser
-- of templates, gzip and base64 are parameters.
pub mod Processors
pub mod Projects
pub mod Panics
pub mod Calls
pub mod Chain
pub mod Upload
pub mod Wait
use insights_remote.Base.{
  ℕ, zero, suc, String, Option, none, some, List, [], ◌∷◌, Bool, true, false, not, ◌&&◌, ◌||◌, ◌⊎◌,
  inl, inr, ◌==◌, ◌◂◌, if◌then◌else◌,
}
use insights_remote.Base.Maps.{GoMap, at}
use insights_remote.Base.Exec.{Error, new_error, ok, pure, raise, crash, lift, attempt, ◌>>=◌, ◌>>◌}
use insights_remote.Base.Text.{parse_bool}
use insights_remote.Types.{Bytes, LagoonInsightsMessage, insights_type_sbom}
use insights_remote.World.{
  World, Action, Project, CollectionLogic, collection_none, aggregate_direct_children,
  BomUploadRequest, result, ask, perform, projects_for_name, create_project, get_project,
  upload_bom, is_being_processed, start_ticker, new_tracker, get_secret,
}
use insights_remote.PostProcess.{PostProcessor}
use insights_remote.PostProcess.Templates.{
  Templates, WriteInfo, Engine, get_write_info, new_template,
}

abbrev lagoon_sh_environment_type_prod : String
lagoon_sh_environment_type_prod = "production"

pub record Libraries : Type 0 where
  pub engine : Engine
  pub gunzip : Bytes → Error ⊎ Bytes
  pub base64 : Bytes → String

-- The reference to a parent, and nil without one.
abbrev pub parent_ref_of : Option Project → Option String
parent_ref_of none = none
parent_ref_of (some p) = some p.uuid

module _ (w : World) where
  -- The first of the projects whose full version has the parent.
  unfoldable pub find_child : (name parent : String) → List Project → Action Project
  find_child name parent [] =
      raise (new_error ("parent project " ◂ parent ◂ " not found for " ◂ name))
  find_child name parent (p ∷ ps) = do
    full ← ask (get_project p.uuid) (λ s. w.project s p.uuid)
    elim full.parent_ref [
      | none ↦ find_child name parent ps
      | some uuid ↦ if uuid == parent then pure full else find_child name parent ps
    ]

  abbrev pub new_project : String → Option String → Bool → Project
  new_project name parent leaf = record {
    uuid = "";
    name = name;
    active = true;
    parent_ref = parent;
    collection_logic = some (if leaf then collection_none else aggregate_direct_children);
  }

  unfoldable pub get_or_create_project : String → Option String → Bool → Action Project
  unfolding find_child
  get_or_create_project name parent leaf = do
    projects ← ask (projects_for_name name) (λ s. w.projects s name)
    elim projects [
      | [] ↦
          ask (create_project (new_project name parent leaf))
            (λ s. w.project_created s (new_project name parent leaf))
      | p ∷ ps ↦ elim parent [ none ↦ pure p | some uuid ↦ find_child name uuid (p ∷ ps) ]
    ]

  -- The loop over the names of the parents; the last project is the parent of the upload.
  unfoldable pub parent_projects : List String → Option Project → Action (Option Project)
  unfolding get_or_create_project
  parent_projects [] project = pure project
  parent_projects (name ∷ names) project = do
    found ← get_or_create_project name (parent_ref_of project) false
    parent_projects names (some found)

  -- The loop of the goroutine, over the ticks that come before the timeout: it ends with the first
  -- answer that is an error or that the upload is processed, and the caller takes how it ends.
  unfoldable pub await : String → ℕ → Action (Unit {0})
  await token zero = raise (new_error "timeout exceeded")
  await token (suc ticks) = do
    processing ← ask (is_being_processed token) (λ s. w.processing s token)
    if processing then await token ticks else pure tt

  unfoldable pub poll : String → Action (Unit {0})
  unfolding await
  poll token t = await token (w.heartbeats t) (start_ticker ∷ t)

-- The first of the payloads, in the order of the map, and nil without one.
abbrev pub first_payload : GoMap Bytes → Bytes
first_payload none = ""
first_payload (some []) = ""
first_payload (some ((k, v) ∷ m)) = v

abbrev pub environment_type : LagoonInsightsMessage → String
environment_type m = elim (at m.labels "lagoon.sh/environmentType") [ none ↦ "" | some v ↦ v ]

abbrev pub tags : LagoonInsightsMessage → List String
tags m = elim (at m.labels "lagoon.sh/environmentType") [
  | none ↦ []
  | some v ↦ ("lagoon-environmenttype-" ◂ v) ∷ []
]

abbrev pub is_skipped : Bool → LagoonInsightsMessage → Bool
is_skipped push_prod_only m =
    push_prod_only && not (environment_type m == lagoon_sh_environment_type_prod)

module _ (libraries : Libraries) (w : World) where
  abbrev pub upload_request : WriteInfo → LagoonInsightsMessage → Project → Bytes → BomUploadRequest
  upload_request info m parent bom = record {
    project_name = info.project_name;
    parent_uuid = parent.uuid;
    auto_create = true;
    project_version = info.project_version;
    bom = libraries.base64 bom;
    project_tags = tags m;
  }

  -- The parents, the upload below the last of them, and the wait for it. The UUID of a nil project
  -- is a panic.
  unfoldable pub store : WriteInfo → LagoonInsightsMessage → Action (Unit {0})
  unfolding parent_projects poll
  store info m = do
    project ← parent_projects w info.parent_project_names none
    bom ← lift (result (libraries.gunzip (first_payload m.binary_payload)))
    elim project [
      | none ↦ crash
      | some parent ↦ do
        token ←
            ask (upload_bom (upload_request info m parent bom))
              (λ s. w.uploaded s (upload_request info m parent bom))
        poll w token
    ]

  unfoldable pub post_process : Bool → Templates → LagoonInsightsMessage → Action (Unit {0})
  unfolding store
  post_process push_prod_only templates m = do
    info ← lift (result (get_write_info libraries.engine m templates))
    if is_skipped push_prod_only m then pure tt else store info m
