-- ===== src/PostProcess/DependencyTrack/Chain.antt =====
-- The projects above an upload: each below the one before it.
use insights_remote.Base.{
  String, Option, none, some, List, [], ◌∷◌, ◌≡◌, ◌⊎◌, inl, inr, refl, ap, sym, ◌∙◌, arith, true,
  false,
}
use insights_remote.Base.Exec.{Error, Outcome, ok, err, panic}
use insights_remote.Types.{LagoonInsightsMessage, Bytes}
use insights_remote.World.{
  BomUploadRequest, World, Trace, Project, upload_bom, create_project, projects_for_name,
}
use insights_remote.PostProcess.Templates.{WriteInfo}
use insights_remote.PostProcess.DependencyTrack.{
  Libraries, get_or_create_project, parent_projects, parent_ref_of, store, poll, tags,
  first_payload,
}
use insights_remote.PostProcess.DependencyTrack.Projects.{
  child_of, get_or_create_project-parent_ref,
}

module _ (w : World) where
  -- From a project, if any, down the names: each is found below the one before, or was created when it
  -- was asked for below it; the traces say when.
  pub data Chain : Option Project → List String → Trace → Project → Trace → Type 0 where
    last :
        {above : Option Project} {p : Project} {t t' : Trace}
        → above ≡ some p
        → t' ≡ t
        → Chain above [] t p t'
    below :
        {above : Option Project} {p : Project} {name : String} {names : List String}
        {t s t' : Trace} {lowest : Project}
        → get_or_create_project w name (parent_ref_of above) false t ≡ (ok p, s)
        → ((a : Project)
            → above ≡ some a
            → (p.parent_ref ≡ some a.uuid)
              ⊎ (s ≡ create_project (child_of a.uuid name false) ∷ projects_for_name name ∷ t))
        → Chain (some p) names s lowest t'
        → Chain above (name ∷ names) t lowest t'

  parent_projects-Chain :
      (names : List String) (above : Option Project) (t t' : Trace) (lowest : Project)
      → parent_projects w names above t ≡ (ok (some lowest), t')
      → Chain above names t lowest t'
  unfolding parent_projects
  parent_projects-Chain [] above t t' lowest h = last (ground (arith, h)) (ground (arith, h))
  parent_projects-Chain (name ∷ names) above t t' lowest h =
      split_on (λ p s. parent_projects-Chain names (some p) s t' lowest)
        (get_or_create_project w name (parent_ref_of above) false t) refl
    where
      split_on :
          ((p : Project) (s : Trace)
            → parent_projects w names (some p) s ≡ (ok (some lowest), t')
            → Chain (some p) names s lowest t')
          → (r : Outcome Project × Trace)
          → get_or_create_project w name (parent_ref_of above) false t ≡ r
          → Chain above (name ∷ names) t lowest t'
      split_on later (ok p, s) found =
          below found
            (λ a e.
              get_or_create_project-parent_ref w name a.uuid false t s p
                (sym (ap (λ z. get_or_create_project w name (parent_ref_of z) false t) e) ∙ found))
            (later p s (ground (arith, found, h)))
      split_on later (err e, s) found = absurd (ground (arith, found, h))
      split_on later (panic, s) found = absurd (ground (arith, found, h))

module _ (libraries : Libraries) (w : World) (info : WriteInfo) (m : LagoonInsightsMessage) where
  -- The upload of a bill of materials below a project.
  abbrev pub upload_below : Project → Bytes → BomUploadRequest
  upload_below parent bom = record {
    project_name = info.project_name;
    parent_uuid = parent.uuid;
    auto_create = true;
    project_version = info.project_version;
    bom = libraries.base64 bom;
    project_tags = tags m;
  }

  -- The bill of materials was uploaded below the lowest of the chain, under the names of the message,
  -- and was waited for.
  abbrev pub IsStored : Trace → Trace → Type 0
  IsStored t s =
      (lowest : Project) × (t' : Trace) × (bom : Bytes) × (token : String) × Chain w none
        info.parent_project_names t lowest t'
      × (libraries.gunzip (first_payload m.binary_payload) ≡ inr bom)
      × (w.uploaded t' (upload_below lowest bom) ≡ inr token)
      × (poll w token (upload_bom (upload_below lowest bom) ∷ t') ≡ (ok tt, s))

  -- When storing a message ends with no error, the projects of its parents were found or created, each
  -- below the one before, and the unzipped bill of materials was uploaded below the last and processed.
  pub store-IsStored : (t s : Trace) → store libraries w info m t ≡ (ok tt, s) → IsStored t s
  unfolding store
  store-IsStored t s h = split_on (parent_projects w info.parent_project_names none t) refl
    where
      split_on :
          (r : Outcome (Option Project) × Trace)
          → parent_projects w info.parent_project_names none t ≡ r
          → IsStored t s
      split_on (err e, t') found = absurd (ground (arith, found, h))
      split_on (panic, t') found = absurd (ground (arith, found, h))
      split_on (ok none, t') found =
          split_none (libraries.gunzip (first_payload m.binary_payload)) refl
        where
          split_none :
              (x : Error ⊎ Bytes)
              → libraries.gunzip (first_payload m.binary_payload) ≡ x
              → IsStored t s
          split_none (inl e) unzipped = absurd (ground (arith, found, unzipped, h))
          split_none (inr bom) unzipped = absurd (ground (arith, found, unzipped, h))
      split_on (ok (some p), t') found =
          split_bom (libraries.gunzip (first_payload m.binary_payload)) refl
        where
          split_bom :
              (x : Error ⊎ Bytes)
              → libraries.gunzip (first_payload m.binary_payload) ≡ x
              → IsStored t s
          split_bom (inl e) unzipped = absurd (ground (arith, found, unzipped, h))
          split_bom (inr bom) unzipped = split_token (w.uploaded t' (upload_below p bom)) refl
            where
              split_token :
                  (x : Error ⊎ String) → w.uploaded t' (upload_below p bom) ≡ x → IsStored t s
              split_token (inl e) sent = absurd (ground (arith, found, unzipped, sent, h))
              split_token (inr token) sent = (
                p,
                t',
                bom,
                token,
                parent_projects-Chain w info.parent_project_names none t t' p found,
                unzipped,
                sent,
                ground (arith, found, unzipped, sent, h),
              )
