-- ===== src/Namespaces/Provision.antt =====
-- What a reconciliation of a namespace comes to.
use insights_remote.Base.{
  String, none, some, List, [], ◌∷◌, ◌≡◌, ◌≢◌, refl, ◌∙◌, false, inr, arith, ◌==◌, eq_iff, All,
}
use insights_remote.Base.Maps.{at, lookup}
use insights_remote.Base.Exec.{Error, ok}
use insights_remote.Tokens.{
  NamespaceDetails, Jwt, generate_token_for_namespace,
  validate_and_extract_namespace_details_from_token,
}
use insights_remote.Tokens.RoundTrip.{ReadsBack, validate-generate}
use insights_remote.World.{
  World, Trace, Namespace, NamespacedName, Secret, get_namespace, list_secrets, create_secret,
  delete_secret, perform,
}
use insights_remote.Namespaces.{
  check_secrets, create_token, token_secret, ensure_token, reconcile, token_key,
  insights_token_label, environment_id_label, project_label, environment_label,
}
use insights_remote.Namespaces.Secrets.{
  AcceptsWrites, deleted, IsReadable, IsTokenOf, no_token_message, check_readable,
  check_secrets_readable, check_own, check_secrets_own, check_without_token, check_unreadable,
}

module _ (req : NamespacedName) (ns : Namespace) (trace : Trace) where
  -- The calls before the loop.
  abbrev pub listed : Trace
  listed = list_secrets insights_token_label ns.name ∷ get_namespace req ∷ trace

module _ (w : World) (j : Jwt) (key : String) (req : NamespacedName) (ns : Namespace)
    (trace : Trace) where
  module _ (found : w.namespace trace req ≡ inr ns)
      (active : (ns.phase == "Terminating") ≡ false) where
    pub reconcile-ensure :
        reconcile w j key req trace ≡ ensure_token w j key ns (get_namespace req ∷ trace)
    unfolding reconcile
    reconcile-ensure = ground (arith, found, active)

    -- In a namespace that is not terminating and where every secret with the token label has a token
    -- that is read with no error, and there is such a secret, nothing is written. The namespace that
    -- the token names plays no part.
    pub reconcile_keeps :
        (v : Secret) (vs : List Secret)
        → w.secrets (get_namespace req ∷ trace) insights_token_label ns.name ≡ inr (v ∷ vs)
        → All (IsReadable j key) (v ∷ vs)
        → reconcile w j key req trace ≡ (ok tt, (listed req ns trace))
    unfolding ensure_token
    reconcile_keeps v vs secrets (h, hs) =
        reconcile-ensure
        ∙ rw secrets (
            unfold check_secrets in
            rw (check_readable w j key ns v false (listed req ns trace) h)
              (rw (check_secrets_readable w j key ns vs (listed req ns trace) hs) refl))

    -- In a namespace that is not terminating, and while writes are accepted: if the first secret with
    -- the token label has no token, and there are others, all with tokens of the namespace, then all of
    -- them are deleted and no new secret is created.
    pub reconcile_loses :
        (v u : Secret) (vs : List Secret)
        → w.secrets (get_namespace req ∷ trace) insights_token_label ns.name ≡ inr (v ∷ u ∷ vs)
        → AcceptsWrites w
        → at v.payload token_key ≡ none
        → All (IsTokenOf j key ns.name) (u ∷ vs)
        → reconcile w j key req trace ≡ (ok tt, deleted (v ∷ u ∷ vs) (listed req ns trace))
    unfolding ensure_token
    reconcile_loses v u vs secrets accepts bad (h, hs) =
        let stuck : no_token_message ≢ "" = ground (arith, eq_iff no_token_message "") in
        reconcile-ensure
        ∙ rw secrets (
            unfold check_secrets in
            rw (check_without_token w j key ns accepts v (listed req ns trace) bad) (
              rw (check_own w j key ns u false no_token_message _ accepts stuck h)
                (rw (check_secrets_own w j key ns vs no_token_message _ accepts stuck hs) refl)))

    module _ (environment_id project_name environment_name token : String)
        (has_id : at ns.labels environment_id_label ≡ some environment_id)
        (has_project : at ns.labels project_label ≡ some project_name)
        (has_environment : at ns.labels environment_label ≡ some environment_name)
        (laws : ReadsBack j) where
      abbrev pub details : NamespaceDetails
      details = record {
        namespace = ns.name;
        environment_id = environment_id;
        project_name = project_name;
        environment_name = environment_name;
      }

      module _ (signed : generate_token_for_namespace j key details ≡ inr token) where
        creates :
            (s : Trace)
            → create_token w j key ns s
              ≡ perform w (create_secret (token_secret w j key ns token)) s
        unfolding create_token
        creates s = ground (arith, has_id, has_project, has_environment, signed)

        -- One secret is created, and its token is read back.
        pub reconcile_creates :
            w.secrets (get_namespace req ∷ trace) insights_token_label ns.name ≡ inr []
            → (reconcile w j key req trace
                ≡ perform w (create_secret (token_secret w j key ns token)) (listed req ns trace))
              × (validate_and_extract_namespace_details_from_token j key token ≡ ok (details, none))
        unfolding ensure_token
        reconcile_creates secrets = (
          reconcile-ensure ∙ rw secrets (unfold check_secrets in creates (listed req ns trace)),
          validate-generate j key token details laws signed,
        )

        -- In a namespace that is not terminating, while writes are accepted: if the only secret with
        -- the token label has a token that is read with an error, and is not known to name the
        -- namespace, it is deleted first and the new one is created.
        pub reconcile_replaces :
            (v : Secret) (val : String) (d : NamespaceDetails) (e : Error)
            → w.secrets (get_namespace req ∷ trace) insights_token_label ns.name ≡ inr (v ∷ [])
            → AcceptsWrites w
            → at v.payload token_key ≡ some val
            → validate_and_extract_namespace_details_from_token j key val ≡ ok (d, some e)
            → d.namespace ≢ ns.name
            → reconcile w j key req trace ≡ (
              ok tt,
              create_secret (token_secret w j key ns token)
                  ∷ delete_secret v
                  ∷ (listed req ns trace),
            )
        unfolding ensure_token
        reconcile_replaces v val d e secrets accepts here read other =
            reconcile-ensure
            ∙ rw secrets (
                unfold check_secrets in
                rw
                  (check_unreadable w j key ns accepts v (listed req ns trace) val d e here read
                    other)
                  (rw
                    (
                      creates (delete_secret v ∷ (listed req ns trace)),
                      accepts (delete_secret v ∷ (listed req ns trace))
                          (create_secret (token_secret w j key ns token)),
                    )
                    refl))

module _ (w : World) (j : Jwt) (key : String) (req : NamespacedName) (ns : Namespace)
    (trace : Trace) (token : String) where
  -- What a reconciliation leaves behind that created a secret: it has the label that secrets of
  -- tokens are listed by and stands in the namespace, and where a later reconciliation lists it
  -- alone, in whatever state the cluster is else, it makes no write.
  abbrev pub Converges : Type 0
  Converges =
      (v : Secret) × (reconcile w j key req trace
        ≡ perform w (create_secret v) (listed req ns trace))
      × (v.namespace ≡ ns.name)
      × (at v.labels "lagoon.sh/insights-token" ≡ some "true")
      × (at v.payload "INSIGHTS_TOKEN" ≡ some token)
      × ((w' : World) (later : Trace)
          → w'.namespace later req ≡ inr ns
          → w'.secrets (get_namespace req ∷ later) "lagoon.sh/insights-token" ns.name ≡ inr (v ∷ [])
          → reconcile w' j key req later ≡ (ok tt, listed req ns later))

  -- In a namespace with the three labels and no secret with the token label, that is not
  -- terminating, one secret is created, with the token for the details of the namespace, in the
  -- namespace and with the label that it is listed by; and a later reconciliation that finds the
  -- namespace as it was and lists that secret alone makes no write.
  pub reconcile-Converges :
      (environment_id project_name environment_name : String)
      → w.namespace trace req ≡ inr ns
      → (ns.phase == "Terminating") ≡ false
      → at ns.labels environment_id_label ≡ some environment_id
      → at ns.labels project_label ≡ some project_name
      → at ns.labels environment_label ≡ some environment_name
      → ReadsBack j
      → generate_token_for_namespace j key (record {
        namespace = ns.name;
        environment_id = environment_id;
        project_name = project_name;
        environment_name = environment_name;
      })
        ≡ inr token
      → w.secrets (get_namespace req ∷ trace) insights_token_label ns.name ≡ inr []
      → Converges
  unfolding token_secret lookup
  reconcile-Converges environment_id project_name environment_name found active has_id has_project
        has_environment laws signed no_secrets =
      let (made, read) =
        reconcile_creates w j key req ns trace found active environment_id project_name
          environment_name token has_id has_project has_environment laws signed no_secrets in
      (
        token_secret w j key ns token,
        made,
        refl,
        refl,
        refl,
        λ w' later found' listed_alone.
            reconcile_keeps w' j key req ns later found' active (token_secret w j key ns token) []
              listed_alone ((_, (token, refl, read)), tt),
      )
