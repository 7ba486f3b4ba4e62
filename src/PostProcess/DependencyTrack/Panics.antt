-- ===== src/PostProcess/DependencyTrack/Panics.antt =====
-- When storing a bill of materials dereferences a project that is not there.
use insights_remote.Base.{
  String, Option, none, some, List, [], ◌∷◌, ◌≡◌, ◌≢◌, ◌⊎◌, inl, inr, refl, arith, Bool, false,
  eq_iff, is_empty,
}
use insights_remote.Base.Exec.{Error, Outcome, ok, err, panic}
use insights_remote.Types.{LagoonInsightsMessage, Bytes}
use insights_remote.World.{World, Trace, Project, upload_bom}
use insights_remote.PostProcess.Templates.{WriteInfo, new_template, get_write_info}
use insights_remote.PostProcess.DependencyTrack.{
  Libraries, parent_projects, store, is_skipped, post_process, first_payload, upload_request,
}
use insights_remote.PostProcess.DependencyTrack.Upload.{
  parents_kept, first_parent-ne-none, parent_projects-ne-panic, poll-ne-panic,
}

module _ (libraries : Libraries) (w : World) where
  store-ne-panic :
      (info : WriteInfo) (m : LagoonInsightsMessage) (t : Trace)
      → is_empty info.parent_project_names ≡ false
      → (store libraries w info m t).0 ≢ panic
  unfolding store
  store-ne-panic info m t parents = split_names info.parent_project_names refl
    where
      split_result :
          (r : Outcome (Option Project) × Trace)
          → parent_projects w info.parent_project_names none t ≡ r
          → r.0 ≢ panic
          → r.0 ≢ ok none
          → (store libraries w info m t).0 ≢ panic
      split_result (panic, s) found safe _ = absurd (safe refl)
      split_result (err e, s) found _ _ = ground (arith, found)
      split_result (ok none, s) found _ some_parent = absurd (some_parent refl)
      split_result (ok (some p), s) found _ _ =
          split_bom (libraries.gunzip (first_payload m.binary_payload)) refl
        where
          split_bom :
              (x : Error ⊎ Bytes)
              → libraries.gunzip (first_payload m.binary_payload) ≡ x
              → (store libraries w info m t).0 ≢ panic
          split_bom (inl e) unzipped = ground (arith, found, unzipped)
          split_bom (inr bom) unzipped =
              split_token (w.uploaded s (upload_request libraries w info m p bom)) refl
            where
              split_token :
                  (x : Error ⊎ String)
                  → w.uploaded s (upload_request libraries w info m p bom) ≡ x
                  → (store libraries w info m t).0 ≢ panic
              split_token (inl e) sent = ground (arith, found, unzipped, sent)
              split_token (inr token) sent = ground (
                arith,
                found,
                unzipped,
                sent,
                poll-ne-panic w token (upload_bom (upload_request libraries w info m p bom) ∷ s),
              )

      split_names :
          (names : List String)
          → info.parent_project_names ≡ names
          → (store libraries w info m t).0 ≢ panic
      split_names [] is_names = absurd (ground (arith, is_names, parents))
      split_names (name ∷ names) is_names =
          split_result (parent_projects w info.parent_project_names none t) refl
            (parent_projects-ne-panic w info.parent_project_names none t)
            (rw is_names (first_parent-ne-none w name names t))

  -- With a template for the parent, storing a message never panics, whatever the message, the
  -- templates and the answers of Dependency Track.
  pub post_process-ne-panic :
      (push_prod_only : Bool) (root parent name version : String) (m : LagoonInsightsMessage)
      (t : Trace)
      → parent ≢ ""
      → (post_process libraries w push_prod_only (new_template root parent name version) m t).0
        ≢ panic
  unfolding post_process new_template
  post_process-ne-panic push_prod_only root parent name version m t given =
      split_on (get_write_info libraries.engine m (new_template root parent name version)) refl
    where
      split_on :
          (x : Error ⊎ WriteInfo)
          → get_write_info libraries.engine m (new_template root parent name version) ≡ x
          → (post_process libraries w push_prod_only (new_template root parent name version) m t).0
            ≢ panic
      split_on (inl e) read = ground (arith, read)
      split_on (inr info) read = ground (
        arith,
        read,
        store-ne-panic info m t (
            ground (
              arith,
              parents_kept libraries.engine m (new_template root parent name version) info read,
              eq_iff parent "",
              eq_iff root "",
              given,
            )),
      )

  -- Without a template for the parent, a message that gets as far as the upload is a panic, whatever
  -- the other templates, and nothing is called before it.
  pub post_process_panics :
      (push_prod_only : Bool) (root name version : String) (m : LagoonInsightsMessage) (t : Trace)
      {info : WriteInfo} {bom : Bytes}
      → get_write_info libraries.engine m (new_template root "" name version) ≡ inr info
      → is_skipped push_prod_only m ≡ false
      → libraries.gunzip (first_payload m.binary_payload) ≡ inr bom
      → post_process libraries w push_prod_only (new_template root "" name version) m t ≡ (panic, t)
  unfolding post_process store parent_projects new_template
  post_process_panics push_prod_only root name version m t {info} {bom} read pushed unzipped =
      split_on info.parent_project_names refl
    where
      split_on :
          (names : List String)
          → info.parent_project_names ≡ names
          → post_process libraries w push_prod_only (new_template root "" name version) m t
            ≡ (panic, t)
      split_on [] is_names = ground (arith, read, pushed, unzipped, is_names)
      split_on (name_1 ∷ names) is_names = absurd (
          ground (
            arith,
            is_names,
            parents_kept libraries.engine m (new_template root "" name version) info read,
          ))
