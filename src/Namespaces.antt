-- ===== src/Namespaces.antt =====
-- internal/controller/namespace_controller.go: the reconciler that keeps a token in each namespace.
pub mod Provision
pub mod Secrets
use insights_remote.Base.{
  String, Option, none, some, List, [], ◌∷◌, Bool, true, false, not, ◌&&◌, ◌||◌, is_some, ◌==◌, ◌⊎◌,
  inl, inr, if◌then◌else◌, ◌◂◌,
}
use insights_remote.Base.Maps.{Entries, GoMap, at}
use insights_remote.Base.Exec.{
  Error, new_error, ok, pure, raise, lift, attempt, ignore_not_found, ◌>>=◌, ◌>>◌,
}
use insights_remote.Events.{Event, create, delete, generic, update}
use insights_remote.Tokens.{
  NamespaceDetails, Jwt, generate_token_for_namespace,
  validate_and_extract_namespace_details_from_token,
}
use insights_remote.World.{
  World, Action, NamespacedName, Namespace, Secret, get_namespace, list_secrets, create_secret,
  delete_secret, ask, perform,
}

abbrev pub insights_token_label : String
insights_token_label = "lagoon.sh/insights-token"

abbrev pub token_key : String
token_key = "INSIGHTS_TOKEN"

abbrev pub environment_id_label : String
environment_id_label = "lagoon.sh/environmentId"

abbrev pub project_label : String
project_label = "lagoon.sh/project"

abbrev pub environment_label : String
environment_label = "lagoon.sh/environment"

-- getValueFromMap
unfoldable pub get_value_from_map : GoMap String → String → Error ⊎ String
get_value_from_map labels key = elim (at labels key) [
  | none ↦ inl (new_error "key not found")
  | some v ↦ inr v
]

-- The variables of the loop over the secrets; both outlive a round.
pub record Search : Type 0 where
  pub found_item : Bool
  pub delete_secret_message : String

abbrev pub mismatch : String → String → String
mismatch expected got = "Token is invalid - namespaces '" ◂ expected ◂ "'!='" ◂ got ◂ "'."

-- The two tests on a token that was read.
unfoldable pub judge : String → NamespaceDetails × Option Error → Search → Search
judge name (details, e) st =
    let message = if is_some e then mismatch name details.namespace else st.delete_secret_message in
    if not (message == "") && not (details.namespace == name)
    then record st { delete_secret_message = mismatch name details.namespace }
    else record { found_item = true; delete_secret_message = message }

module _ (w : World) (j : Jwt) (key : String) (ns : Namespace) where
  -- What the secret makes of the variables.
  unfoldable pub inspect : Secret → Search → Action Search
  inspect v st = elim (at v.payload token_key) [
    | none ↦ pure (record st {
      delete_secret_message = "key INSIGHTS_TOKEN does not exist. Secret is invalid.";
    })
    | some val ↦ do
      read ← lift (validate_and_extract_namespace_details_from_token j key val)
      pure (judge ns.name read st)
  ]

  -- One round of the loop: a secret is deleted if there is a message.
  unfoldable pub check_secret : Secret → Search → Action Search
  check_secret v st = do
    st' ← inspect v st
    if st'.delete_secret_message == "" then pure st' else do perform w (delete_secret v); pure st'

  unfoldable pub check_secrets : List Secret → Search → Action Search
  check_secrets [] st = pure st
  check_secrets (v ∷ vs) st = do st' ← check_secret v st; check_secrets vs st'

  -- The secret that carries a token.
  unfoldable pub token_secret : String → Secret
  token_secret token = record {
    name = "insights-token";
    namespace = ns.name;
    labels =
        some ((insights_token_label, "true") ∷ ("lagoon.sh/dynamic-secret", "insights-token") ∷ []);
    annotations = some [];
    payload = some ((token_key, token) ∷ []);
  }

  abbrev missing_label : String → String → Error
  missing_label label gap = new_error (
      "Unable to find " ◂ label ◂ " label in namespace" ◂ gap ◂ ns.name
      ◂ " failed creating insights token")

  -- An error of the signing is only logged, and the token is then empty.
  abbrev token_or_empty : Error ⊎ String → String
  token_or_empty (inl e) = ""
  token_or_empty (inr token) = token

  unfoldable pub create_token : Action (Unit {0})
  unfolding get_value_from_map
  create_token = elim (get_value_from_map ns.labels environment_id_label) [
    | inl _ ↦ raise (missing_label environment_id_label " ")
    | inr environment_id ↦ elim (get_value_from_map ns.labels project_label) [
      | inl _ ↦ raise (missing_label project_label "")
      | inr project_name ↦ elim (get_value_from_map ns.labels environment_label) [
        | inl _ ↦ raise (missing_label environment_label " ")
        | inr environment_name ↦
            let details : NamespaceDetails = record {
              namespace = ns.name;
              environment_id = environment_id;
              project_name = project_name;
              environment_name = environment_name;
            } in
            perform w (
              create_secret
                (token_secret (token_or_empty (generate_token_for_namespace j key details))))
      ]
    ]
  ]

  -- Everything behind the check of the phase.
  unfoldable pub ensure_token : Action (Unit {0})
  ensure_token = do
    vs ←
        ask (list_secrets insights_token_label ns.name)
          (λ t. w.secrets t insights_token_label ns.name)
    st ← check_secrets vs (record { found_item = false; delete_secret_message = "" })
    if st.found_item then pure tt else create_token

unfoldable pub reconcile : World → Jwt → String → NamespacedName → Action (Unit {0})
reconcile w j key req = do
  found ← attempt (ask (get_namespace req) (λ t. w.namespace t req))
  elim found [
    | inl e ↦ ignore_not_found e
    | inr ns ↦ if ns.phase == "Terminating" then pure tt else ensure_token w j key ns
  ]

abbrev has_value : GoMap String → String → Bool
has_value labels key = elim (get_value_from_map labels key) [ inl _ ↦ false | inr _ ↦ true ]

-- The label that the tokens are constrained to, if one is set.
abbrev pub is_active : String → Namespace → Bool
is_active target ns =
    has_value ns.labels environment_id_label
    && has_value ns.labels project_label
    && has_value ns.labels environment_label
    && (target == "" || has_value ns.labels target)

unfoldable pub active_namespace : String → Event Namespace → Bool
unfolding get_value_from_map
active_namespace target (create ns) = is_active target ns
active_namespace target (update old new) = is_active target new
active_namespace target (delete ns) = false
active_namespace target (generic ns) = false
