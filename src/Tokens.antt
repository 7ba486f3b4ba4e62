-- ===== src/Tokens.antt =====
-- internal/tokens/jwt.go: the tokens that name a namespace. The library that signs and parses JSON
-- web tokens is the parameter `Jwt`.
pub mod RoundTrip
use insights_remote.Base.{
  String, Option, none, some, List, [], ◌∷◌, Bool, true, false, ◌⊎◌, inl, inr, if◌then◌else◌, ◌◂◌,
}
use insights_remote.Base.Maps.{Entries, lookup}
use insights_remote.Base.Exec.{Error, new_error, Outcome, ok, panic}

pub record NamespaceDetails : Type 0 where
  pub namespace : String
  pub environment_id : String
  pub project_name : String
  pub environment_name : String

abbrev pub no_details : NamespaceDetails
no_details = record {
  namespace = "";
  environment_id = "";
  project_name = "";
  environment_name = "";
}

-- The value of a claim: a text, or what is not one, by its print under `%v`.
pub data Claim : Type 0 where
  text other : String → Claim

-- fmt.Sprintf("%v", claim)
abbrev pub shown : Claim → String
shown (text s) = s
shown (other s) = s

-- The method in a token's header: one of the HMAC family, or another by its name.
pub data SigningMethod : Type 0 where
  hmac : SigningMethod
  unexpected : String → SigningMethod

-- `claims` is there if the type assertion to `jwt.MapClaims` succeeds.
pub record Token : Type 0 where
  pub claims : Option (Entries Claim)
  pub valid : Bool

-- `jwt.Parse` returns a token, which is nil for a text that is not of three parts, and an error.
pub record Parsed : Type 0 where
  pub token : Option Token
  pub error : Option Error

-- The library: signing with HS256, and parsing with a function that chooses the key by the method.
pub record Jwt : Type 0 where
  pub sign : String → Entries Claim → Error ⊎ String
  pub parse : String → (SigningMethod → Error ⊎ String) → Parsed

unfoldable pub claims_of : NamespaceDetails → Entries Claim
claims_of d =
    ("Namespace", text d.namespace)
    ∷ ("EnvironmentId", text d.environment_id)
    ∷ ("ProjectName", text d.project_name)
    ∷ ("EnvironmentName", text d.environment_name)
    ∷ []

unfoldable pub generate_token_for_namespace : Jwt → String → NamespaceDetails → Error ⊎ String
generate_token_for_namespace j secret details = j.sign secret (claims_of details)

unfoldable pub key_for : String → SigningMethod → Error ⊎ String
key_for key hmac = inr key
key_for key (unexpected alg) = inl (new_error ("unexpected signing method: " ◂ alg))

abbrev missing : String → Error
missing key = new_error ("unable to find key '" ◂ key ◂ "' in valid token")

-- The claims are read one after the other into the details; the first that is missing ends it.
unfoldable pub read_claims : Entries Claim → NamespaceDetails × Option Error
read_claims claims = elim (lookup "EnvironmentId" claims) [
  | none ↦ (no_details, some (missing "EnvironmentId"))
  | some e ↦
      let with_id = record no_details { environment_id = shown e } in
      elim (lookup "Namespace" claims) [
        | none ↦ (with_id, some (missing "Namespace"))
        | some n ↦
            let with_namespace = record with_id { namespace = shown n } in
            elim (lookup "EnvironmentName" claims) [
              | none ↦ (with_namespace, some (missing "EnvironmentName"))
              | some en ↦
                  let with_environment = record with_namespace { environment_name = shown en } in
                  elim (lookup "ProjectName" claims) [
                    | none ↦ (with_environment, some (missing "ProjectName"))
                    | some p ↦ (record with_environment { project_name = shown p }, none)
                  ]
            ]
      ]
]

-- What is made of a token that is not nil and the error beside it.
abbrev pub details_from : Token → Option Error → NamespaceDetails × Option Error
details_from t e = elim t.claims [
  | none ↦ (no_details, e)
  | some claims ↦ if t.valid then read_claims claims else (no_details, e)
]

-- The details are returned beside the error; a nil token is dereferenced.
abbrev pub extracted : Parsed → Outcome (NamespaceDetails × Option Error)
extracted p = elim p.token [ none ↦ panic | some t ↦ ok (details_from t p.error) ]

unfoldable pub validate_and_extract_namespace_details_from_token :
    Jwt → String → String → Outcome (NamespaceDetails × Option Error)
validate_and_extract_namespace_details_from_token j key token =
    extracted (j.parse token (key_for key))
