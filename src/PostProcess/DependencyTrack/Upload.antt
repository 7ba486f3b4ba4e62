-- ===== src/PostProcess/DependencyTrack/Upload.antt =====
-- When a bill of materials is uploaded, and how the post-processor can end.
use insights_remote.Base.{
  ℕ, zero, suc, String, Option, none, some, List, [], ◌∷◌, ◌≡◌, ◌≢◌, ◌⊎◌, inl, inr, refl, arith,
  Bool, true, false, eq_iff, is_empty,
}
use insights_remote.Base.Exec.{Error, Outcome, ok, err, panic}
use insights_remote.Types.{LagoonInsightsMessage}
use insights_remote.World.{
  World, Trace, Project, get_project, projects_for_name, is_being_processed, start_ticker,
}
use insights_remote.PostProcess.Templates.{
  Templates, Engine, WriteInfo, get_write_info, process_all,
}
use insights_remote.PostProcess.DependencyTrack.{
  Libraries, find_child, get_or_create_project, parent_projects, await, poll, post_process,
  environment_type, parent_ref_of,
}

-- How `get_write_info` makes a message end that is not stored.
abbrev pub read_only : Error ⊎ WriteInfo → Outcome (Unit {0})
read_only (inl e) = err e
read_only (inr info) = ok tt

module _ (libraries : Libraries) (w : World) where
  -- With the flag for production only, a message of an environment of any other type, or of none,
  -- makes no call at all; the only error is the one of `getWriteInfo`.
  pub post_process_skips :
      (templates : Templates) (m : LagoonInsightsMessage) (t : Trace)
      → environment_type m ≢ "production"
      → post_process libraries w true templates m t
        ≡ (read_only (get_write_info libraries.engine m templates), t)
  unfolding post_process
  post_process_skips templates m t other =
      split_on (get_write_info libraries.engine m templates) refl
    where
      split_on :
          (x : Error ⊎ WriteInfo)
          → get_write_info libraries.engine m templates ≡ x
          → post_process libraries w true templates m t
            ≡ (read_only (get_write_info libraries.engine m templates), t)
      split_on (inl e) read = ground (arith, read)
      split_on (inr info) read =
          ground (arith, read, eq_iff (environment_type m) "production", other)

module _ (w : World) where
  find_child-ne-panic :
      (name parent : String) (ps : List Project) (t : Trace)
      → (find_child w name parent ps t).0 ≢ panic
  unfolding find_child
  find_child-ne-panic name parent [] t = ground arith
  find_child-ne-panic name parent (p ∷ ps) t =
      ground (arith, find_child-ne-panic name parent ps (get_project p.uuid ∷ t))

  get_or_create_project-ne-panic :
      (name : String) (parent : Option String) (leaf : Bool) (t : Trace)
      → (get_or_create_project w name parent leaf t).0 ≢ panic
  unfolding get_or_create_project
  get_or_create_project-ne-panic name parent leaf t = split_on (w.projects t name) parent refl refl
    where
      split_on :
          (x : Error ⊎ List Project) (o : Option String)
          → w.projects t name ≡ x
          → parent ≡ o
          → (get_or_create_project w name parent leaf t).0 ≢ panic
      split_on (inl e) o read is_parent = ground (arith, read)
      split_on (inr []) o read is_parent = ground (arith, read)
      split_on (inr (p ∷ ps)) none read is_parent = ground (arith, read, is_parent)
      split_on (inr (p ∷ ps)) (some uuid) read is_parent = ground (
        arith,
        read,
        is_parent,
        find_child-ne-panic name uuid (p ∷ ps) (projects_for_name name ∷ t),
      )

  await-ne-panic : (token : String) (n : ℕ) (t : Trace) → (await w token n t).0 ≢ panic
  unfolding await
  await-ne-panic token zero t = ground arith
  await-ne-panic token (suc n) t =
      ground (arith, await-ne-panic token n (is_being_processed token ∷ t))

  pub poll-ne-panic : (token : String) (t : Trace) → (poll w token t).0 ≢ panic
  unfolding poll
  poll-ne-panic token t = await-ne-panic token (w.heartbeats t) (start_ticker ∷ t)

  pub parent_projects-ne-panic :
      (names : List String) (o : Option Project) (t : Trace)
      → (parent_projects w names o t).0 ≢ panic
  unfolding parent_projects
  parent_projects-ne-panic [] o t = ground arith
  parent_projects-ne-panic (name ∷ names) o t =
      split_on (λ p. parent_projects-ne-panic names (some p))
        (get_or_create_project w name (parent_ref_of o) false t) refl
    where
      split_on :
          ((p : Project) (s : Trace) → (parent_projects w names (some p) s).0 ≢ panic)
          → (r : Outcome Project × Trace)
          → get_or_create_project w name (parent_ref_of o) false t ≡ r
          → (parent_projects w (name ∷ names) o t).0 ≢ panic
      split_on later (ok p, s) found = ground (arith, found, later p s)
      split_on later (err e, s) found = ground (arith, found)
      split_on later (panic, s) found =
          ground (arith, found, get_or_create_project-ne-panic name (parent_ref_of o) false t)

  parent_projects-ne-none :
      (names : List String) (p : Project) (t : Trace)
      → (parent_projects w names (some p) t).0 ≢ ok none
  unfolding parent_projects
  parent_projects-ne-none [] p t = ground arith
  parent_projects-ne-none (name ∷ names) p t =
      split_on (parent_projects-ne-none names) (get_or_create_project w name (some p.uuid) false t)
        refl
    where
      split_on :
          ((p : Project) (s : Trace) → (parent_projects w names (some p) s).0 ≢ ok none)
          → (r : Outcome Project × Trace) → get_or_create_project w name (some p.uuid) false t ≡ r
          → (parent_projects w (name ∷ names) (some p) t).0 ≢ ok none
      split_on later (ok q, s) found = ground (arith, found, later q s)
      split_on later (err e, s) found = ground (arith, found)
      split_on later (panic, s) found = ground (arith, found)

  pub first_parent-ne-none :
      (name : String) (names : List String) (t : Trace)
      → (parent_projects w (name ∷ names) none t).0 ≢ ok none
  unfolding parent_projects
  first_parent-ne-none name names t = split_on (get_or_create_project w name none false t) refl
    where
      split_on :
          (r : Outcome Project × Trace)
          → get_or_create_project w name none false t ≡ r
          → (parent_projects w (name ∷ names) none t).0 ≢ ok none
      split_on (ok q, s) found = ground (arith, found, parent_projects-ne-none names q s)
      split_on (err e, s) found = ground (arith, found)
      split_on (panic, s) found = ground (arith, found)

pub parents_kept :
    (engine : Engine) (m : LagoonInsightsMessage) (templates : Templates) (info : WriteInfo)
    → get_write_info engine m templates ≡ inr info
    → is_empty info.parent_project_names ≡ is_empty templates.parent_project_name_templates
unfolding get_write_info process_all
parents_kept engine m templates info h = split_on templates.parent_project_name_templates refl
  where
    split_on :
        (texts : List String)
        → templates.parent_project_name_templates ≡ texts
        → is_empty info.parent_project_names ≡ is_empty templates.parent_project_name_templates
    split_on [] is_texts = ground (arith, is_texts, h)
    split_on (text ∷ texts) is_texts = ground (arith, is_texts, h)
