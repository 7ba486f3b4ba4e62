-- ===== src/PostProcess/DependencyTrack/Projects.antt =====
-- Which project of Dependency Track is found or created.
use insights_remote.Base.{
  String, some, List, [], ◌∷◌, ◌≡◌, ◌⊎◌, inl, inr, refl, arith, Bool, true, if◌then◌else◌, ◌==◌,
  eq_iff, Option-cases, Bool-cases,
}
use insights_remote.Base.Exec.{Error, ok}
use insights_remote.World.{
  World, Trace, Project, collection_none, aggregate_direct_children, get_project, create_project,
  projects_for_name,
}
use insights_remote.PostProcess.DependencyTrack.{find_child, get_or_create_project}

-- A project as it is asked for below another one.
abbrev pub child_of : String → String → Bool → Project
child_of parent name leaf = record {
  uuid = "";
  name = name;
  active = true;
  parent_ref = some parent;
  collection_logic = some (if leaf then collection_none else aggregate_direct_children);
}

module _ (w : World) (name parent : String) where
  -- What is found has the parent.
  find_child-parent_ref :
      (ps : List Project) (t t' : Trace) (p : Project)
      → find_child w name parent ps t ≡ (ok p, t')
      → p.parent_ref ≡ some parent
  unfolding find_child
  find_child-parent_ref [] t t' p h = ground (arith, h)
  find_child-parent_ref (q ∷ ps) t t' p h =
      split_on (find_child-parent_ref ps (get_project q.uuid ∷ t) t' p) (w.project t q.uuid) refl
    where
      split_on :
          (find_child w name parent ps (get_project q.uuid ∷ t) ≡ (ok p, t')
            → p.parent_ref ≡ some parent)
          → (x : Error ⊎ Project) → w.project t q.uuid ≡ x
          → p.parent_ref ≡ some parent
      split_on later (inl e) read = ground (arith, read, h)
      split_on later (inr full) read = elim (Option-cases full.parent_ref) [
        | inl is_root ↦ later (ground (arith, read, is_root, h))
        | inr (uuid, is_child) ↦ elim (Bool-cases (uuid == parent)) [
          | inl same ↦ ground (arith, read, is_child, same, (eq_iff uuid parent).0 same, h)
          | inr other ↦ later (ground (arith, read, is_child, other, h))
        ]
      ]

  -- A project that is to have a parent and is found has it; one that is created was asked for with it.
  pub get_or_create_project-parent_ref :
      (leaf : Bool) (t t' : Trace) (p : Project)
      → get_or_create_project w name (some parent) leaf t ≡ (ok p, t')
      → (p.parent_ref ≡ some parent)
        ⊎ (t' ≡ create_project (child_of parent name leaf) ∷ projects_for_name name ∷ t)
  unfolding get_or_create_project
  get_or_create_project-parent_ref leaf t t' p h = split_on (w.projects t name) refl
    where
      split_on :
          (x : Error ⊎ List Project)
          → w.projects t name ≡ x
          → (p.parent_ref ≡ some parent)
            ⊎ (t' ≡ create_project (child_of parent name leaf) ∷ projects_for_name name ∷ t)
      split_on (inl e) read = ground (arith, read, h)
      split_on (inr []) read = inr (ground (arith, read, h))
      split_on (inr (q ∷ ps)) read = inl (
          find_child-parent_ref (q ∷ ps) (projects_for_name name ∷ t) t' p
            (ground (arith, read, h)))
