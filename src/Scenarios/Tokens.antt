-- ===== src/Scenarios/Tokens.antt =====
-- An operator with a token of the configured issuer.
use x402_hosted_facilitator.Common.{String, ◌≡◌, refl, true, Option, none, some, [], ◌∷◌}
use x402_hosted_facilitator.Common.Int.{ℤ}
use x402_hosted_facilitator.Json
use x402_hosted_facilitator.Json.{Value, Fields}
use x402_hosted_facilitator.ControlPlane.Names.{after_prefix}
use x402_hosted_facilitator.Operators.{
  OperationsPermission, AuthorizationObject, Principal, OidcConfig, Verifiers, granted,
  bearer_token, authorize, authenticate, validate_claims, str_claim, int_claim,
}
use x402_hosted_facilitator.Operators.Granted.{IsSubject, authorize-IsSubject}

abbrev config : OidcConfig
config = record {
  issuer = "https://id.example";
  audiences = "facilitator" ∷ [];
  accepted_token_types = "access" ∷ [];
  clock_skew_seconds = 60;
}

abbrev claims : Fields
claims = Fields.field "iss" (Value.str "https://id.example") (
    Fields.field "aud" (Value.str "facilitator") (
      Fields.field "exp" (Value.number "1000") (
        Fields.field "sub" (Value.str "ops-1")
          (Fields.field "typ" (Value.str "access") Fields.end))))

-- every number is 1000
abbrev a_thousand : Value → Option ℤ
a_thousand (Value.number digits) = some (ℤ.pos 1000)
a_thousand _ = none

abbrev verifiers : Verifiers
verifiers = record {
  strip = λ text. text;
  as_int = a_thousand;
  verify = λ token. some claims;
  check = λ principal permission obj. some true;
}

abbrev console : AuthorizationObject
console = record { type = "ops_console"; id = "default" }

abbrev operator : Principal
operator = record {
  subject = "ops-1";
  issuer = "https://id.example";
  email = none;
  tenant_id = none;
  claims = claims;
}

authorized :
    authorize verifiers config (some "Bearer token") OperationsPermission.ops_pause console 1030
    ≡ granted operator
unfolding authorize authenticate validate_claims bearer_token after_prefix str_claim int_claim
    Json.get
authorized = refl

authorize-IsSubject_example :
    ((token : String) × (bearer_token verifiers config (some "Bearer token") ≡ some token)
      × IsSubject verifiers config operator 1030 token)
    × (verifiers.check operator OperationsPermission.ops_pause console ≡ some true)
authorize-IsSubject_example =
    authorize-IsSubject verifiers config (some "Bearer token") OperationsPermission.ops_pause
      console 1030 operator authorized
