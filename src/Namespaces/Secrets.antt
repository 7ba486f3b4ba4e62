-- ===== src/Namespaces/Secrets.antt =====
-- What the loop over the secrets of a namespace does to each of them.
use text.Mathlib.TextLemmas.{append-eq-nil_iff, cons-ne-nil}
use insights_remote.Base.{
  String, none, some, List, [], ◌∷◌, ◌≡◌, ◌≢◌, refl, Bool, true, false, inr, arith, eq_iff, All,
}
use insights_remote.Base.Maps.{at}
use insights_remote.Base.Exec.{Error, ok}
use insights_remote.Tokens.{
  NamespaceDetails, Jwt, validate_and_extract_namespace_details_from_token,
}
use insights_remote.World.{World, Trace, Call, Namespace, Secret, delete_secret}
use insights_remote.Namespaces.{
  Search, judge, inspect, check_secret, check_secrets, token_key, mismatch,
}

-- The API server accepts every write.
abbrev pub AcceptsWrites : World → Type 0
AcceptsWrites w = (t : Trace) (c : Call) → w.written t c ≡ inr tt

-- The trace after each of the secrets was deleted, the first one first.
abbrev pub deleted : List Secret → Trace → Trace
deleted [] s = s
deleted (v ∷ vs) s = deleted vs (delete_secret v ∷ s)

module _ (j : Jwt) (key : String) where
  -- The secret has a token that is read with no error, to the details.
  abbrev pub Carries : Secret → NamespaceDetails → Type 0
  Carries v d =
      (val : String) × (at v.payload token_key ≡ some val)
      × (validate_and_extract_namespace_details_from_token j key val ≡ ok (d, none))

  abbrev pub IsReadable : Secret → Type 0
  IsReadable v = (d : NamespaceDetails) × Carries v d

  -- The token of the secret is read to details of the namespace with this name.
  abbrev pub IsTokenOf : String → Secret → Type 0
  IsTokenOf name v = (d : NamespaceDetails) × (d.namespace ≡ name) × Carries v d

module _ (w : World) (j : Jwt) (key : String) (ns : Namespace) where
  inspect_readable :
      (v : Secret) (d : NamespaceDetails) (st : Search) (s : Trace)
      → Carries j key v d
      → inspect w j key ns v st s ≡ (ok (judge ns.name (d, none) st), s)
  unfolding inspect
  inspect_readable v d st s (val, here, read) = ground (arith, here, read)

  pub check_readable :
      (v : Secret) (found : Bool) (s : Trace)
      → IsReadable j key v
      → check_secret w j key ns v (record { found_item = found; delete_secret_message = "" }) s
        ≡ (ok (record { found_item = true; delete_secret_message = "" }), s)
  unfolding check_secret judge
  check_readable v found s (d, carries) = ground (
    arith,
    inspect_readable v d (record { found_item = found; delete_secret_message = "" }) s carries,
  )

  -- Without a message, secrets with readable tokens are left alone, whichever namespace they name.
  pub check_secrets_readable :
      (vs : List Secret) (s : Trace)
      → All (IsReadable j key) vs
      → check_secrets w j key ns vs (record { found_item = true; delete_secret_message = "" }) s
        ≡ (ok (record { found_item = true; delete_secret_message = "" }), s)
  unfolding check_secrets
  check_secrets_readable [] s h = refl
  check_secrets_readable (v ∷ vs) s (h, hs) =
      rw (check_readable v true s h) (check_secrets_readable vs s hs)

  judge_own :
      (d : NamespaceDetails) (found : Bool) (message : String)
      → d.namespace ≡ ns.name
      → judge ns.name (d, none) (record { found_item = found; delete_secret_message = message })
        ≡ record { found_item = true; delete_secret_message = message }
  unfolding judge
  judge_own d found message own = ground (arith, eq_iff d.namespace ns.name)

  pub check_own :
      (v : Secret) (found : Bool) (message : String) (s : Trace)
      → AcceptsWrites w
      → message ≢ ""
      → IsTokenOf j key ns.name v
      → check_secret w j key ns v (record { found_item = found; delete_secret_message = message }) s
        ≡ (ok (record { found_item = true; delete_secret_message = message }), delete_secret v ∷ s)
  unfolding check_secret
  check_own v found message s accepts stuck (d, own, carries) = ground (
    arith,
    inspect_readable v d (record { found_item = found; delete_secret_message = message }) s carries,
    judge_own d found message own,
    eq_iff message "",
    accepts s (delete_secret v),
  )

  -- With a message that an earlier secret left, every later one is deleted, a token of the namespace
  -- too, and it counts as found.
  pub check_secrets_own :
      (vs : List Secret) (message : String) (s : Trace)
      → AcceptsWrites w
      → message ≢ ""
      → All (IsTokenOf j key ns.name) vs
      → check_secrets w j key ns vs
          (record { found_item = true; delete_secret_message = message })
          s
        ≡ (ok (record { found_item = true; delete_secret_message = message }), deleted vs s)
  unfolding check_secrets
  check_secrets_own [] message s accepts stuck h = refl
  check_secrets_own (v ∷ vs) message s accepts stuck (h, hs) =
      rw (check_own v true message s accepts stuck h)
        (check_secrets_own vs message (delete_secret v ∷ s) accepts stuck hs)

abbrev pub no_token_message : String
no_token_message = "key INSIGHTS_TOKEN does not exist. Secret is invalid."

abbrev pub empty_search : Search
empty_search = record { found_item = false; delete_secret_message = "" }

mismatch-ne-nil : (expected got : String) → mismatch expected got ≢ ""
mismatch-ne-nil expected got e =
    let text : String = "Token is invalid - namespaces '" in
    absurd (cons-ne-nil _ _ ((append-eq-nil_iff {p = text}).0 e).0)

module _ (w : World) (j : Jwt) (key : String) (ns : Namespace) (accepts : AcceptsWrites w) where
  -- A secret without a token is deleted, and leaves its message.
  pub check_without_token :
      (v : Secret) (s : Trace)
      → at v.payload token_key ≡ none
      → check_secret w j key ns v empty_search s ≡ (
        ok (record { found_item = false; delete_secret_message = no_token_message }),
        delete_secret v ∷ s,
      )
  unfolding check_secret inspect
  check_without_token v s none_there = ground (arith, none_there, accepts s (delete_secret v))

  -- So is a secret whose token is not read and is not known to name the namespace.
  pub check_unreadable :
      (v : Secret) (s : Trace) (val : String) (d : NamespaceDetails) (e : Error)
      → at v.payload token_key ≡ some val
      → validate_and_extract_namespace_details_from_token j key val ≡ ok (d, some e)
      → d.namespace ≢ ns.name
      → check_secret w j key ns v empty_search s ≡ (
        ok (record { found_item = false; delete_secret_message = mismatch ns.name d.namespace }),
        delete_secret v ∷ s,
      )
  unfolding check_secret inspect judge
  check_unreadable v s val d e here read other = ground (
    arith,
    here,
    read,
    eq_iff d.namespace ns.name,
    eq_iff (mismatch ns.name d.namespace) "",
    mismatch-ne-nil ns.name d.namespace,
    accepts s (delete_secret v),
  )
