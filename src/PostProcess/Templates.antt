-- ===== src/PostProcess/Templates.antt =====
-- The templates of internal/postprocess/dependency_track/dependencyTrack.go: which names a message
-- is stored under.
use insights_remote.Base.{
  String, Option, none, some, List, [], ◌∷◌, ◌⊎◌, inl, inr, ◌==◌, if◌then◌else◌,
}
use insights_remote.Base.Maps.{at}
use insights_remote.Base.Exec.{Error, new_error}
use insights_remote.Types.{LagoonInsightsMessage}

pub record Templates : Type 0 where
  pub parent_project_name_templates : List String
  pub project_name_template : String
  pub version_template : String

pub record WriteInfo : Type 0 where
  pub parent_project_names : List String
  pub project_name : String
  pub project_version : String

-- What is available for templating. `Version` is always empty.
pub record TemplateValues : Type 0 where
  pub service_name : String
  pub environment_type : String
  pub project_name : String
  pub environment_name : String
  pub version : String

-- text/template: a text parses to what executes with values.
abbrev pub Engine : Type 0
Engine = String → Error ⊎ (TemplateValues → Error ⊎ String)

unfoldable pub new_template : (root parent name version : String) → Templates
new_template root parent name version = record {
  parent_project_name_templates =
      if parent == "" then [] else if root == "" then parent ∷ [] else root ∷ parent ∷ [];
  project_name_template = name;
  version_template = version;
}

unfoldable pub process_template : Engine → String → TemplateValues → Error ⊎ String
process_template engine text values = elim (engine text) [
  | inl e ↦ inl e
  | inr execute ↦ execute values
]

-- The value of a field of the message, or of the label that stands in for it.
abbrev named : String → Option String → Error → Error ⊎ String
named given label missing =
    if given == "" then elim label [ some v ↦ inr v | none ↦ inl missing ] else inr given

unfoldable pub template_values : LagoonInsightsMessage → Error ⊎ TemplateValues
template_values m =
    elim (named m.project (at m.labels "lagoon.sh/project")
      (new_error "no project name found - unable to populate info for dependency track")) [
        | inl e ↦ inl e
        | inr project ↦
            elim (named m.environment (at m.labels "lagoon.sh/environment") (
              new_error
                "no environment name found - unable to populate info for dependency track")) [
                  | inl e ↦ inl e
                  | inr environment ↦ elim (at m.labels "lagoon.sh/service") [
                    | none ↦ inl (
                        new_error
                          "no service annotation found - unable to populate info for dependency track")
                    | some service ↦ inr (record {
                      service_name = service;
                      environment_type = elim (at m.labels "lagoon.sh/environmentType") [
                        | none ↦ "unknown"
                        | some v ↦ v
                      ];
                      project_name = project;
                      environment_name = environment;
                      version = "";
                    })
                  ]
                ]
      ]

-- The loop over the templates of the parents, which ends at the first error.
unfoldable pub process_all : Engine → TemplateValues → List String → Error ⊎ List String
unfolding process_template
process_all engine values [] = inr []
process_all engine values (text ∷ texts) = elim (process_template engine text values) [
  | inl e ↦ inl e
  | inr name ↦ elim (process_all engine values texts) [
    | inl e ↦ inl e
    | inr names ↦ inr (name ∷ names)
  ]
]

unfoldable pub get_write_info : Engine → LagoonInsightsMessage → Templates → Error ⊎ WriteInfo
unfolding template_values process_all process_template
get_write_info engine m templates = elim (template_values m) [
  | inl e ↦ inl e
  | inr values ↦ elim (process_all engine values templates.parent_project_name_templates) [
    | inl e ↦ inl e
    | inr parents ↦ elim (process_template engine templates.project_name_template values) [
      | inl e ↦ inl e
      | inr name ↦ elim (process_template engine templates.version_template values) [
        | inl e ↦ inl e
        | inr version ↦ inr (record {
          parent_project_names = parents;
          project_name = name;
          project_version = version;
        })
      ]
    ]
  ]
]
