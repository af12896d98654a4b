-- ===== src/Scenarios/Messages.antt =====
-- Requests to the routes, and messages of nanopayments.
use x402_hosted_facilitator.Common.{
  ℕ, ◌+◌, String, ◌≡◌, ◌↔◌, refl, true, false, Option, none, some, [], ◌∷◌, ok, err,
  permission_error,
}
use x402_hosted_facilitator.Json.{Value, Fields}
use x402_hosted_facilitator.Engine.{FacilitatorEnvelope}
use x402_hosted_facilitator.Tenancy.Resolver.{ResolvedSellerAccess, default_account}
use x402_hosted_facilitator.Tenancy.{default_payment_profile}
use x402_hosted_facilitator.Application.{
  Services, Handler, Addresses, Request, answered, EngineResult, settle, verify,
}
use x402_hosted_facilitator.Application.Admission.{
  Serves, ServesLimited, settle-answers_iff, verify-answers_iff,
}
use x402_hosted_facilitator.Application.Penalties.{ChargesErrors, handlers-ChargesErrors}
use x402_hosted_facilitator.Nanopayments.{
  PaymentRequirements, PaymentRequirementsKind, requirements_to_dict, requirements_from_dict,
}
use x402_hosted_facilitator.Nanopayments.Payload.{
  PaymentPayload, Accepted, create, payload_to_dict, payload_from_dict,
}
use x402_hosted_facilitator.Nanopayments.RoundTrip.{
  requirements-from_dict-to_dict, payload-from_dict-to_dict,
}

abbrev access : ResolvedSellerAccess
access = record {
  seller_account = default_account;
  payment_profile = default_payment_profile default_account;
  api_key_prefix = none;
}

-- who has a key is let in, and the engine answers "settled"; the state counts the checks
abbrev services : Services ℕ String
services = record {
  check = λ request checks. (true, checks + 1);
  resolve_access = λ authorization require_auth. elim authorization [
    | some key ↦ ok access
    | none ↦ err (permission_error "Seller API-key authentication is required")
  ];
  provider_name_for_envelope = λ envelope. "exact_evm";
  allows = λ provider network checks. true;
  engine = λ handler envelope access checks. (EngineResult.returned "settled", checks);
}

abbrev addresses : Addresses
addresses = record {
  strip = λ text. text;
  before_comma = λ text. text;
  in_trusted_network = λ host. false;
}

abbrev request : Request
request = record {
  authorization = some "bearer k1";
  client = some "10.0.0.1";
  cf_connecting_ip = "";
  x_forwarded_for = "";
}

abbrev envelope : FacilitatorEnvelope
envelope = record {
  x402_version = 2;
  payment_payload = Fields.end;
  payment_requirements = Fields.end;
}

settle-answers_iff_example :
    ((settle services addresses envelope request 0).0 ≡ answered "settled") ↔ (
      (envelope.x402_version ≡ 2)
      × ((found : ResolvedSellerAccess) × (services.resolve_access request.authorization true
            ≡ ok found)
          × Serves services addresses Handler.settles envelope found 0 "settled"))
settle-answers_iff_example = settle-answers_iff services addresses envelope request 0 "settled"

verify-answers_iff_example :
    ((verify services addresses envelope request 0).0 ≡ answered "settled") ↔ (
      (envelope.x402_version ≡ 2)
      × ((found : ResolvedSellerAccess) × (services.resolve_access request.authorization true
            ≡ ok found)
          × ServesLimited services addresses envelope request found 0 "settled"))
verify-answers_iff_example = verify-answers_iff services addresses envelope request 0 "settled"

-- no key
abbrev anonymous : Request
anonymous = record request { authorization = none }

handlers-ChargesErrors_example :
    ChargesErrors services addresses anonymous (settle services addresses envelope anonymous 0)
    × ChargesErrors services addresses anonymous (verify services addresses envelope anonymous 0)
handlers-ChargesErrors_example = handlers-ChargesErrors services addresses envelope anonymous 0

abbrev int : Value → Option String
int (Value.number digits) = some digits
int _ = none

abbrev kind : PaymentRequirementsKind
kind = record {
  scheme = Value.str "exact";
  network = Value.str "eip155:5042002";
  asset = Value.str "0xusdc";
  amount = Value.str "1000";
  max_timeout_seconds = Value.number "604900";
  pay_to = Value.str "0xshop";
  extra = record {
    name = Value.str "GatewayWalletBatched";
    version = Value.str "1";
    verifying_contract = Value.str "0xgate";
    min_validity_seconds = some "259200";
    assets = Fields.field "symbol" (Value.str "USDC") Fields.end ∷ [];
  };
}

abbrev requirements : PaymentRequirements
requirements = record { x402_version = Value.number "2"; accepts = kind ∷ [] }

requirements-from_dict-to_dict_example :
    requirements_from_dict int (requirements_to_dict requirements) ≡ some requirements
requirements-from_dict-to_dict_example = requirements-from_dict-to_dict int requirements (refl, tt)

abbrev payload : PaymentPayload
payload = record {
  x402_version = Value.number "2";
  scheme = Value.str "exact";
  network = Value.str "eip155:5042002";
  payload = record {
    signature = Value.str "0x01";
    authorization =
        create (Value.str "0xbuyer") (Value.str "0xshop") (Value.str "1000") "1700000000"
          (Value.str "0x02");
  };
  resource = none;
  accepted = some (Accepted.kind kind);
}

payload-from_dict-to_dict_example : payload_from_dict int (payload_to_dict payload) ≡ some payload
payload-from_dict-to_dict_example = payload-from_dict-to_dict int payload refl
