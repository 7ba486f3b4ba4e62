-- ===== src/PostProcess/DependencyTrack/Calls.antt =====
-- The post-processors for Dependency Track only add calls to those made before.
use mathlib.Core.List.{append_assoc}
use insights_remote.Base.{
  ◌++◌, sym, ◌∙◌, ℕ, zero, suc, String, Option, none, some, List, [], ◌∷◌, ◌⊎◌, inl, inr, Bool,
  false, ◌==◌, not, ◌||◌, if◌then◌else◌, ◌◂◌,
}
use insights_remote.Base.Maps.{GoMap}
use insights_remote.Base.Exec.{Error, pure, raise, crash, ◌>>=◌}
use insights_remote.Types.{Bytes, LagoonInsightsMessage, insights_type_sbom}
use insights_remote.World.{World, Project, Secret, ask, create_project, start_ticker, upload_bom}
use insights_remote.World.Extends.{
  Extends, pure-Extends, raise-Extends, lift-Extends, ask-Extends, crash-Extends, attempt-Extends,
  if-Extends, bind-Extends, perform-Extends,
}
use insights_remote.PostProcess.Templates.{Templates, WriteInfo}
use insights_remote.PostProcess.DependencyTrack.{
  Libraries, find_child, get_or_create_project, new_project, parent_projects, parent_ref_of, await,
  poll, store, post_process, is_skipped, upload_request,
}
use insights_remote.PostProcess.DependencyTrack.Processors.{
  DefaultPostProcess, CustomPostProcess, default_post_process, custom_with, custom_post_process,
  custom_endpoint, read, lagoon_env_dt_api_key,
}

module _ (w : World) where
  find_child-Extends :
      (name parent : String) (ps : List Project) → Extends (find_child w name parent ps)
  unfolding find_child
  find_child-Extends name parent [] = raise-Extends _
  find_child-Extends name parent (p ∷ ps) =
      bind-Extends _ _ (ask-Extends _ _)
        (λ full. here full.parent_ref full (find_child-Extends name parent ps))
    where
      here :
          (o : Option String) (full : Project)
          → Extends (find_child w name parent ps)
          → Extends (elim o [
            | none ↦ find_child w name parent ps
            | some uuid ↦ if uuid == parent then pure full else find_child w name parent ps
          ])
      here none full later = later
      here (some uuid) full later = if-Extends (uuid == parent) (pure-Extends full) later

  get_or_create_project-Extends :
      (name : String) (parent : Option String) (leaf : Bool)
      → Extends (get_or_create_project w name parent leaf)
  unfolding get_or_create_project
  get_or_create_project-Extends name parent leaf =
      bind-Extends _ _ (ask-Extends _ _) (λ projects. chosen projects parent)
    where
      chosen :
          (ps : List Project) (above : Option String)
          → Extends (elim ps [
            | [] ↦
                ask
                  (create_project (new_project w name parent leaf))
                  (λ s. w.project_created s (new_project w name parent leaf))
            | q ∷ qs ↦ elim above [ none ↦ pure q | some uuid ↦ find_child w name uuid (q ∷ qs) ]
          ])
      chosen [] above = ask-Extends _ _
      chosen (p ∷ ps) none = pure-Extends p
      chosen (p ∷ ps) (some uuid) = find_child-Extends name uuid (p ∷ ps)

  parent_projects-Extends :
      (names : List String) (project : Option Project) → Extends (parent_projects w names project)
  unfolding parent_projects
  parent_projects-Extends [] project = pure-Extends project
  parent_projects-Extends (name ∷ names) project =
      bind-Extends _ _ (get_or_create_project-Extends name (parent_ref_of project) false)
        (λ found. parent_projects-Extends names (some found))

  await-Extends : (token : String) (ticks : ℕ) → Extends (await w token ticks)
  unfolding await
  await-Extends token zero = raise-Extends _
  await-Extends token (suc ticks) =
      let later = await-Extends token ticks in
      bind-Extends _ _ (ask-Extends _ _) (λ busy. if-Extends busy later (pure-Extends tt))

  poll-Extends : (token : String) → Extends (poll w token)
  unfolding poll
  poll-Extends token = record {
    before = λ t.
        let (q, made) = (await-Extends token (w.heartbeats t)).before (start_ticker ∷ t) in
        (q ++ start_ticker ∷ [], made ∙ sym (append_assoc q (start_ticker ∷ []) t));
  }

module _ (libraries : Libraries) (w : World) where
  store-Extends :
      (info : WriteInfo) (m : LagoonInsightsMessage) → Extends (store libraries w info m)
  unfolding store
  store-Extends info m =
      bind-Extends _ _ (parent_projects-Extends w info.parent_project_names none)
        (λ project. bind-Extends _ _ (lift-Extends _) (λ bom. uploads project bom))
    where
      uploads :
          (project : Option Project) (bom : Bytes)
          → Extends {A = Unit {0}} (elim project [
            | none ↦ crash
            | some parent ↦ do
              token ←
                  ask
                    (upload_bom (upload_request libraries w info m parent bom))
                    (λ s. w.uploaded s (upload_request libraries w info m parent bom))
              poll w token
          ])
      uploads none bom = crash-Extends
      uploads (some parent) bom = bind-Extends _ _ (ask-Extends _ _) (poll-Extends w)

  post_process-Extends :
      (prod : Bool) (templates : Templates) (m : LagoonInsightsMessage)
      → Extends (post_process libraries w prod templates m)
  unfolding post_process
  post_process-Extends prod templates m =
      bind-Extends _ _ (lift-Extends _)
        (λ info. if-Extends (is_skipped prod m) (pure-Extends tt) (store-Extends info m))

  pub default_post_process-Extends :
      (d : DefaultPostProcess) (m : LagoonInsightsMessage)
      → Extends (default_post_process libraries w d m)
  unfolding default_post_process
  default_post_process-Extends d m =
      if-Extends (not (m.message_type == insights_type_sbom)) (pure-Extends tt) (
        bind-Extends _ _ (perform-Extends w _)
          (λ _. post_process-Extends d.push_prod_only d.templates m))

  custom_with-Extends :
      (d : CustomPostProcess) (m : LagoonInsightsMessage) (endpoint : String)
      (payload : GoMap Bytes)
      → Extends (custom_with libraries w d m endpoint payload)
  unfolding custom_with
  custom_with-Extends d m endpoint payload =
      if-Extends (read payload lagoon_env_dt_api_key == "") (raise-Extends _)
        (bind-Extends _ _ (perform-Extends w _) (λ _. post_process-Extends _ d.templates m))

  pub custom_post_process-Extends :
      (d : CustomPostProcess) (m : LagoonInsightsMessage)
      → Extends (custom_post_process libraries w d m)
  unfolding custom_post_process
  custom_post_process-Extends d m =
      if-Extends (not (m.message_type == insights_type_sbom) || custom_endpoint libraries w m == "")
        (pure-Extends tt) (bind-Extends _ _ (attempt-Extends _ (ask-Extends _ _)) loaded)
    where
      loaded :
          (held : Error ⊎ Secret)
          → Extends {A = Unit {0}} (elim held [
            | inl e ↦ raise (record e { text = "failed to load custom key: " ◂ e.text })
            | inr secret ↦
                custom_with libraries w d m (custom_endpoint libraries w m) secret.payload
          ])
      loaded (inl e) = raise-Extends _
      loaded (inr secret) = custom_with-Extends d m (custom_endpoint libraries w m) secret.payload
