-- ===== src/Command/Tokens.antt =====
-- A token from the reconciler of namespaces at the web service, under the one secret that cmd/main.go
-- gives to both.
use insights_remote.Base.{String, some, [], ◌∷◌, Option, ◌≡◌, ◌∙◌, ap, sym, ◌==◌, false, inr}
use insights_remote.Base.Maps.{at, lookup}
use insights_remote.Namespaces.{
  token_secret, token_key, insights_token_label, environment_id_label, project_label,
  environment_label,
}
use insights_remote.Namespaces
use insights_remote.Namespaces.Provision.{listed, reconcile_creates}
use insights_remote.Service.{Json, Request, Route}
use insights_remote.Service.Access.{Serves, handle-Serves}
use insights_remote.Tokens.{
  Jwt, generate_token_for_namespace, validate_and_extract_namespace_details_from_token,
}
use insights_remote.Tokens.RoundTrip.{ReadsBack}
use insights_remote.World.{
  World, Trace, Namespace, NamespacedName, Secret, get_namespace, create_secret, perform,
}
use insights_remote.Command.{router}
use insights_remote.Command.Config.{Settings}

module _ (w : World) (j : Jwt) (s : Settings) (req : NamespacedName) (ns : Namespace)
    (trace : Trace) (environment_id project_name environment_name : String) where
  -- The reconciliation creates one secret, and each route serves a request that carries the token in
  -- it as one from the environment and the project of the labels.
  abbrev pub IsServed : Secret → Type 0
  IsServed v =
      (Namespaces.reconcile w j s.endpoint.token_secret req trace
        ≡ perform w (create_secret v) (listed req ns trace))
      × ((json : Json) (route : Route) (q : Request) (t : Trace)
          → at v.payload token_key ≡ some q.authorization
          → Serves j json (router w s) q t route (record {
            namespace = ns.name;
            environment_id = environment_id;
            project_name = project_name;
            environment_name = environment_name;
          }))

  -- In a namespace with the three labels and no token yet, that is not terminating, the reconciliation
  -- creates a secret; and every request to the web service with the token of that secret, whatever its
  -- route and its body, is served as one of the environment and the project in the labels.
  pub reconcile-IsServed :
      (token : String)
      → w.namespace trace req ≡ inr ns
      → (ns.phase == "Terminating") ≡ false
      → at ns.labels environment_id_label ≡ some environment_id
      → at ns.labels project_label ≡ some project_name
      → at ns.labels environment_label ≡ some environment_name
      → ReadsBack j
      → generate_token_for_namespace j s.endpoint.token_secret (record {
        namespace = ns.name;
        environment_id = environment_id;
        project_name = project_name;
        environment_name = environment_name;
      })
        ≡ inr token
      → w.secrets (get_namespace req ∷ trace) insights_token_label ns.name ≡ inr []
      → IsServed (token_secret w j s.endpoint.token_secret ns token)
  unfolding token_secret lookup
  reconcile-IsServed token found active has_id has_project has_environment laws signed no_secrets =
      let (creates, read) =
        reconcile_creates w j s.endpoint.token_secret req ns trace found active environment_id
          project_name environment_name token has_id has_project has_environment laws signed
          no_secrets in
      (
        creates,
        λ json route q t carried. handle-Serves j json (router w s) q t route _ (
            ap (validate_and_extract_namespace_details_from_token j s.endpoint.token_secret)
              (sym (same_token q carried))
            ∙ read),
      )
    where
      same_token :
          (q : Request)
          → ◌≡◌ {A = Option String} (some token) (some q.authorization)
          → token ≡ q.authorization
      same_token q carried = cc
