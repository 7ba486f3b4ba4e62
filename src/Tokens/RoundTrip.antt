-- ===== src/Tokens/RoundTrip.antt =====
-- Tokens are read back as they were generated, and only tokens signed with the key are read.
use mathlib.Core.Option
use insights_remote.Base.{
  String, Option, none, some, ◌≡◌, refl, Bool, true, ◌⊎◌, inl, inr, arith, Option-cases, Bool-cases,
}
use insights_remote.Base.Maps.{Entries, lookup}
use insights_remote.Base.Exec.{Error, ok}
use insights_remote.Tokens.{
  NamespaceDetails, Claim, shown, SigningMethod, hmac, unexpected, Token, Parsed, Jwt, claims_of,
  generate_token_for_namespace, key_for, read_claims, details_from, extracted,
  validate_and_extract_namespace_details_from_token,
}

-- What the code relies on: a token that was signed with a key is parsed with that key to its claims
-- and is valid, if the claims are texts and none is a time, as the four of a namespace.
pub record ReadsBack (j : Jwt) : Type 0 where
  pub reads_back :
      (key token : String) (d : NamespaceDetails) (f : SigningMethod → Error ⊎ String)
      → j.sign key (claims_of d) ≡ inr token
      → f hmac ≡ inr key
      → j.parse token f ≡ record {
        token = some (record { claims = some (claims_of d); valid = true });
        error = none;
      }

-- And: a valid token has a signature that verifies under the key chosen for the method of its
-- header and has claims, and where there is no error the token is valid.
pub record ChecksSignature (j : Jwt) : Type 0 where
  pub method : String → SigningMethod
  pub verifies : String → String → Bool
  pub valid_signed :
      (token : String) (f : SigningMethod → Error ⊎ String) (t : Token)
      → (j.parse token f).token ≡ some t
      → t.valid ≡ true
      → (key : String) × (f (method token) ≡ inr key) × (verifies key token ≡ true)
  pub valid_claims :
      (token : String) (f : SigningMethod → Error ⊎ String) (t : Token)
      → (j.parse token f).token ≡ some t
      → t.valid ≡ true
      → (claims : Entries Claim) × (t.claims ≡ some claims)
  pub no_error_valid :
      (token : String) (f : SigningMethod → Error ⊎ String) (t : Token)
      → (j.parse token f).token ≡ some t
      → (j.parse token f).error ≡ none
      → t.valid ≡ true

-- A token generated for the details of a namespace is read back to these details with no error.
pub validate-generate :
    (j : Jwt) (key token : String) (d : NamespaceDetails)
    → ReadsBack j
    → generate_token_for_namespace j key d ≡ inr token
    → validate_and_extract_namespace_details_from_token j key token ≡ ok (d, none)
unfolding generate_token_for_namespace validate_and_extract_namespace_details_from_token key_for
    claims_of read_claims lookup
validate-generate j key token d laws h = rw (laws.reads_back key token d (key_for key) h refl) refl

key_for_sound :
    (key k : String) (m : SigningMethod) → key_for key m ≡ inr k → (m ≡ hmac) × (k ≡ key)
unfolding key_for
key_for_sound key k hmac h = ground arith
key_for_sound key k (unexpected alg) h = ground arith

-- The claim with a name is printed as the text.
abbrev pub HasClaim : Entries Claim → String → String → Type 0
HasClaim claims name s = Option.map shown (lookup name claims) ≡ some s

read_claims_sound :
    (claims : Entries Claim) (d : NamespaceDetails)
    → read_claims claims ≡ (d, none)
    → HasClaim claims "Namespace" d.namespace
      × HasClaim claims "EnvironmentId" d.environment_id
      × HasClaim claims "ProjectName" d.project_name
      × HasClaim claims "EnvironmentName" d.environment_name
unfolding read_claims
read_claims_sound claims d h = ground arith

-- Only a valid token, or no error of the parser, gives details with no error.
details_from_cases :
    (t : Token) (e : Option Error) (d : NamespaceDetails)
    → details_from t e ≡ (d, none)
    → (t.valid ≡ true) ⊎ (e ≡ none)
details_from_cases t e d h = elim (Bool-cases t.valid) [
  | inl valid ↦ inl valid
  | inr invalid ↦ ground arith
]

details_from_valid :
    (t : Token) (e : Option Error) (d : NamespaceDetails) (claims : Entries Claim)
    → details_from t e ≡ (d, none)
    → t.valid ≡ true
    → t.claims ≡ some claims
    → read_claims claims ≡ (d, none)
details_from_valid t e d claims h valid c = ground arith

extracted_sound :
    (p : Parsed) (d : NamespaceDetails)
    → extracted p ≡ ok (d, none)
    → (t : Token) × (p.token ≡ some t) × (details_from t p.error ≡ (d, none))
extracted_sound p d h = elim (Option-cases p.token) [
  | inl nil ↦ absurd (ground arith)
  | inr (t, some_token) ↦ (t, some_token, ground arith)
]

-- Details that are returned with no error come from a token with an HMAC method, whose signature
-- verifies under the key and which has all four claims: the details are their prints.
pub validate_sound :
    (j : Jwt) (key token : String) (d : NamespaceDetails) (c : ChecksSignature j)
    → validate_and_extract_namespace_details_from_token j key token ≡ ok (d, none)
    → (c.method token ≡ hmac)
      × (c.verifies key token ≡ true)
      × ((claims : Entries Claim) × HasClaim claims "Namespace" d.namespace
          × HasClaim claims "EnvironmentId" d.environment_id
          × HasClaim claims "ProjectName" d.project_name
          × HasClaim claims "EnvironmentName" d.environment_name)
unfolding validate_and_extract_namespace_details_from_token
validate_sound j key token d c h =
    let (t, parsed, made) = extracted_sound (j.parse token (key_for key)) d h in
    let valid : t.valid ≡ true = elim (details_from_cases t _ d made) [
      | inl valid ↦ valid
      | inr no_error ↦ c.no_error_valid token (key_for key) t parsed no_error
    ] in
    let (claims, has) = c.valid_claims token (key_for key) t parsed valid in
    let (k, chosen, verified) = c.valid_signed token (key_for key) t parsed valid in
    let (n, e, p, en) =
      read_claims_sound claims d (details_from_valid t _ d claims made valid has) in
    let (is_hmac, same) = key_for_sound key k (c.method token) chosen in
    (is_hmac, rw same at verified, (claims, n, e, p, en))
