-- ===== src/Tests/Tokens.antt =====
-- A small signer of tokens that meets what is assumed of the library, and the theorems with it.
use insights_remote.Base.{
  String, none, some, [], ◌≡◌, refl, Bool, true, false, ◌&&◌, ◌⊎◌, inl, inr, arith, ◌==◌, eq_iff,
  if◌then◌else◌,
}
use insights_remote.Base.Maps.{Entries, lookup}
use insights_remote.Base.Exec.{Error, ok}
use insights_remote.Tokens
use insights_remote.Tokens.{
  Claim, shown, SigningMethod, hmac, Token, Parsed, Jwt, NamespaceDetails, claims_of,
  generate_token_for_namespace, validate_and_extract_namespace_details_from_token,
}
use insights_remote.Tokens.RoundTrip.{
  ReadsBack, ChecksSignature, HasClaim, validate-generate, validate_sound,
}
use insights_remote.Tests.Fixtures.{shop_details, broken}

abbrev claim_is : String → String → Entries Claim → Bool
claim_is name v claims = elim (lookup name claims) [ none ↦ false | some c ↦ shown c == v ]

-- It signs the details of one namespace with one key.
abbrev sign_shop : String → Entries Claim → Error ⊎ String
sign_shop key claims =
    if key == "key"
      && claim_is "Namespace" "shop" claims
      && claim_is "EnvironmentId" "7" claims
      && claim_is "ProjectName" "web" claims
      && claim_is "EnvironmentName" "main" claims
    then inr "signed"
    else inl broken

abbrev checked : Error ⊎ String → Parsed
checked (inl e) = record { token = some (record { claims = none; valid = false }); error = some e }
checked (inr key) =
    if key == "key"
    then record {
      token = some (record { claims = some (claims_of shop_details); valid = true });
      error = none;
    }
    else record { token = some (record { claims = some []; valid = false }); error = some broken }

abbrev parse_shop : String → (SigningMethod → Error ⊎ String) → Parsed
parse_shop token f =
    if token == "signed"
    then checked (f hmac)
    else if token == "forged"
    then record { token = some (record { claims = some []; valid = false }); error = some broken }
    else record { token = none; error = some broken }

abbrev pub shop_jwt : Jwt
shop_jwt = record { sign = sign_shop; parse = parse_shop }

reads_back_shop :
    (key token : String) (d : NamespaceDetails) (f : SigningMethod → Error ⊎ String)
    → sign_shop key (claims_of d) ≡ inr token
    → f hmac ≡ inr key
    → parse_shop token f
      ≡ record { token = some (record { claims = some (claims_of d); valid = true }); error = none }
unfolding claims_of lookup
reads_back_shop key token d f signed chosen = ground (
  arith,
  chosen,
  eq_iff key "key",
  eq_iff token "signed",
  eq_iff d.namespace "shop",
  eq_iff d.environment_id "7",
  eq_iff d.project_name "web",
  eq_iff d.environment_name "main",
)

pub shop-ReadsBack : ReadsBack shop_jwt
shop-ReadsBack = record { reads_back = reads_back_shop }

parse_valid :
    (token : String) (f : SigningMethod → Error ⊎ String) (t : Token)
    → (parse_shop token f).token ≡ some t
    → t.valid ≡ true
    → (token ≡ "signed") × (f hmac ≡ inr "key") × (t.claims ≡ some (claims_of shop_details))
parse_valid token f t parsed valid = go (f hmac) refl
  where
    go :
        (r : Error ⊎ String)
        → f hmac ≡ r
        → (token ≡ "signed") × (f hmac ≡ inr "key") × (t.claims ≡ some (claims_of shop_details))
    go (inl e) is_err =
        absurd (ground (arith, is_err, eq_iff token "signed", eq_iff token "forged"))
    go (inr k) is_key =
        ground (arith, is_key, eq_iff token "signed", eq_iff token "forged", eq_iff k "key")

no_error :
    (token : String) (f : SigningMethod → Error ⊎ String) (t : Token)
    → (parse_shop token f).token ≡ some t
    → (parse_shop token f).error ≡ none
    → t.valid ≡ true
no_error token f t parsed fine = go (f hmac) refl
  where
    go : (r : Error ⊎ String) → f hmac ≡ r → t.valid ≡ true
    go (inl e) is_err =
        absurd (ground (arith, is_err, eq_iff token "signed", eq_iff token "forged"))
    go (inr k) is_key =
        ground (arith, is_key, eq_iff token "signed", eq_iff token "forged", eq_iff k "key")

shop-ChecksSignature : ChecksSignature shop_jwt
shop-ChecksSignature = record {
  method = λ token. hmac;
  verifies = λ key token. key == "key" && token == "signed";
  valid_signed = λ token f t parsed valid.
      let (signed, chosen, _) = parse_valid token f t parsed valid in
      ("key", chosen, rw signed refl);
  valid_claims = λ token f t parsed valid.
      let (_, _, claims) = parse_valid token f t parsed valid in (claims_of shop_details, claims);
  no_error_valid = no_error;
}

-- The definitions that a token goes through.
unfoldable pub tokens : Unit {0}
unfolding generate_token_for_namespace validate_and_extract_namespace_details_from_token
    Tokens.key_for Tokens.read_claims claims_of lookup
tokens = tt

pub shop_token : generate_token_for_namespace shop_jwt "key" shop_details ≡ inr "signed"
unfolding tokens
shop_token = refl

pub shop_read :
    validate_and_extract_namespace_details_from_token shop_jwt "key" "signed"
    ≡ ok (shop_details, none)
unfolding tokens
shop_read = refl

validate-generate_example :
    validate_and_extract_namespace_details_from_token shop_jwt "key" "signed"
    ≡ ok (shop_details, none)
validate-generate_example =
    validate-generate shop_jwt "key" "signed" shop_details shop-ReadsBack shop_token

validate_sound_example :
    (shop-ChecksSignature.method "signed" ≡ hmac)
    × (shop-ChecksSignature.verifies "key" "signed" ≡ true)
    × ((claims : Entries Claim) × HasClaim claims "Namespace" "shop"
        × HasClaim claims "EnvironmentId" "7"
        × HasClaim claims "ProjectName" "web"
        × HasClaim claims "EnvironmentName" "main")
validate_sound_example =
    validate_sound shop_jwt "key" "signed" shop_details shop-ChecksSignature shop_read
