-- ===== src/Operators.antt =====
-- How an operator's token is authorised: `OIDCAuthenticator` and `OIDCAuthorizationAuthorizer` of
-- src/hosted_facilitator/hosted/auth.py. The verifier of a token's signature, the relationship check
-- and `str.strip` are parameters, as is what Python takes for an int; the clock is an argument.
pub mod Granted
use x402_hosted_facilitator.Common.{
  ℕ, String, Bool, true, false, not, ◌||◌, Option, none, some, List, [], ◌∷◌, ◌==◌, string_eq,
  if◌then◌else◌,
}
use x402_hosted_facilitator.Common.Int.{ℤ, int_ltb, plus, take_away}
use x402_hosted_facilitator.Json
use x402_hosted_facilitator.Json.{Value, Items, Fields}
use x402_hosted_facilitator.Tenancy.{contains}
use x402_hosted_facilitator.ControlPlane.Names.{after_prefix}

pub data OperationsPermission : Type 0 where
  ops_overview ops_pause ops_sellers ops_settlements ops_manual_review : OperationsPermission

pub record AuthorizationObject : Type 0 where
  pub type : String
  pub id : String

pub record Principal : Type 0 where
  pub subject : String
  pub issuer : String
  pub email : Option String
  pub tenant_id : Option String
  pub claims : Fields

-- AuthenticationError, AuthorizationDeniedError and AuthorizationUnavailableError
pub data Refusal : Type 0 where
  authentication : String → Refusal
  authorization_denied authorization_unavailable : Refusal

pub data Authorized : Type 0 where
  granted : Principal → Authorized
  refused : Refusal → Authorized

pub record OidcConfig : Type 0 where
  pub issuer : String
  pub audiences : List String
  pub accepted_token_types : List String
  pub clock_skew_seconds : ℕ

-- what the source takes from its surroundings; none is an exception
pub record Verifiers : Type 0 where
  pub strip : String → String
  -- `isinstance(value, int)`, and the int
  pub as_int : Value → Option ℤ
  -- the claims of a token whose signature holds
  pub verify : String → Option Fields
  pub check : Principal → OperationsPermission → AuthorizationObject → Option Bool

abbrev nonempty : String → Option String
nonempty text = if text == "" then none else some text

abbrev text_of : Option Value → Option String
text_of (some (Value.str text)) = nonempty text
text_of _ = none

-- `_optional_str_claim`; `_required_str_claim` raises where it is none
unfoldable pub str_claim : String → Fields → Option String
str_claim name claims = text_of (Json.get name claims)

abbrev or_claim : Option String → Option String → Option String
or_claim none other = other
or_claim (some text) other = some text

abbrev texts_of : Items → List String
texts_of Items.nil = []
texts_of (Items.cons (Value.str text) rest) = text ∷ texts_of rest
texts_of (Items.cons _ rest) = texts_of rest

-- `_audiences_from_claim`
abbrev pub audiences_from_claim : Option Value → List String
audiences_from_claim (some (Value.str text)) = text ∷ []
audiences_from_claim (some (Value.list items)) = texts_of items
audiences_from_claim _ = []

-- whether the sets meet
abbrev pub intersects : List String → List String → Bool
intersects [] others = false
intersects (text ∷ rest) others = contains text others || intersects rest others

abbrev pub first_refusal : Option Refusal → Option Refusal → Option Refusal
first_refusal none next = next
first_refusal (some refusal) next = some refusal

abbrev pub refuse_if : Bool → String → Option Refusal
refuse_if true message = some (Refusal.authentication message)
refuse_if false message = none

-- the token's use, or its type
abbrev pub token_type : Fields → Option String
token_type claims = or_claim (str_claim "token_use" claims) (str_claim "typ" claims)

module _ (v : Verifiers) (config : OidcConfig) where
  abbrev int_of : Option Value → Option ℤ
  int_of none = none
  int_of (some value) = v.as_int value

  -- `_optional_int_claim`
  unfoldable pub int_claim : String → Fields → Option ℤ
  int_claim name claims = int_of (Json.get name claims)

  abbrev pub check_issuer : Option String → Option Refusal
  check_issuer none = some (Refusal.authentication "OIDC claim iss is required")
  check_issuer (some issuer) =
      refuse_if (not (issuer == config.issuer)) "OIDC issuer is not allowed"

  abbrev pub check_expiry : ℕ → Option ℤ → Option Refusal
  check_expiry now none = some (Refusal.authentication "OIDC claim exp is required")
  check_expiry now (some exp) =
      refuse_if (int_ltb (plus exp config.clock_skew_seconds) (ℤ.pos now)) "OIDC token is expired"

  abbrev pub check_begun : ℕ → String → Option ℤ → Option Refusal
  check_begun now message none = none
  check_begun now message (some time) =
      refuse_if (int_ltb (ℤ.pos now) (take_away time config.clock_skew_seconds)) message

  abbrev pub check_type : Option String → Option Refusal
  check_type none = some (Refusal.authentication "OIDC token type is required")
  check_type (some type) =
      refuse_if (not (contains type config.accepted_token_types)) "OIDC token type is not allowed"

  -- `_validate_claims`; no common audience is also what an empty list of audiences has
  unfoldable pub validate_claims : ℕ → Fields → Option Refusal
  validate_claims now claims = first_refusal (check_issuer (str_claim "iss" claims)) (
      first_refusal
        (refuse_if
          (not (intersects (audiences_from_claim (Json.get "aud" claims)) config.audiences))
          "OIDC audience is not allowed")
        (first_refusal (check_expiry now (int_claim "exp" claims)) (
          first_refusal (check_begun now "OIDC token is not yet valid" (int_claim "nbf" claims)) (
            first_refusal
              (check_begun now "OIDC token was issued in the future" (int_claim "iat" claims))
              (check_type (token_type claims))))))

  abbrev token_of : Option String → Option String
  token_of none = none
  token_of (some rest) = nonempty (v.strip rest)

  abbrev header_text : Option String → String
  header_text none = ""
  header_text (some header) = header

  -- `_bearer_token`
  unfoldable pub bearer_token : Option String → Option String
  unfolding after_prefix
  bearer_token header = token_of (after_prefix "Bearer " (header_text header))

  abbrev issuer_text : Option Value → String
  issuer_text (some (Value.str text)) = text
  issuer_text _ = ""

  abbrev pub with_subject : Fields → Option String → Authorized
  with_subject claims none = refused (Refusal.authentication "OIDC claim sub is required")
  with_subject claims (some subject) = granted (record {
    subject = subject;
    issuer = issuer_text (Json.get "iss" claims);
    email = str_claim "email" claims;
    tenant_id = or_claim (str_claim "org_id" claims) (str_claim "tenant_id" claims);
    claims = claims;
  })

  abbrev pub validated : Fields → Option Refusal → Authorized
  validated claims (some refusal) = refused refusal
  validated claims none = with_subject claims (str_claim "sub" claims)

  abbrev pub verified : ℕ → Option Fields → Authorized
  verified now none = refused (Refusal.authentication "OIDC token signature is invalid")
  verified now (some claims) = validated claims (validate_claims now claims)

  abbrev pub with_token : ℕ → Option String → Authorized
  with_token now none = refused (Refusal.authentication "Bearer token is required")
  with_token now (some token) = verified now (v.verify token)

  -- `authenticate`
  unfoldable pub authenticate : Option String → ℕ → Authorized
  unfolding validate_claims
  authenticate header now = with_token now (bearer_token header)

  abbrev pub checked : Principal → Option Bool → Authorized
  checked principal none = refused Refusal.authorization_unavailable
  checked principal (some allowed) =
      if allowed then granted principal else refused Refusal.authorization_denied

  abbrev pub after_authentication :
      OperationsPermission → AuthorizationObject → Authorized → Authorized
  after_authentication permission obj (refused refusal) = refused refusal
  after_authentication permission obj (granted principal) =
      checked principal (v.check principal permission obj)

  -- `authorize`
  unfoldable pub authorize :
      Option String → OperationsPermission → AuthorizationObject → ℕ → Authorized
  unfolding authenticate
  authorize header permission obj now =
      after_authentication permission obj (authenticate header now)
