-- ===== src/Scenarios/Sellers.antt =====
-- A seller account with one profile and one key, and a payment to it.
use x402_hosted_facilitator.Common.{
  String, ◌≡◌, ◌↔◌, refl, inl, inr, ap, ◌==◌, if◌then◌else◌, true, none, some, [], ◌∷◌, nat_eq,
  string_eq, ok, All, List, Option, Bool,
}
use x402_hosted_facilitator.Common.Dict
use x402_hosted_facilitator.Json
use x402_hosted_facilitator.Json.{Value, Fields}
use x402_hosted_facilitator.RateLimit.Buckets.{default_rate_limit_policy, first_chars}
use x402_hosted_facilitator.Tenancy.{SellerAccountConfig, PaymentProfileConfig, allows}
use x402_hosted_facilitator.Tenancy.Resolver
use x402_hosted_facilitator.Tenancy.Resolver.{
  ResolvedSellerAccess, StaticSellerAccountResolver, access_for, bearer_token, resolve_access,
}
use x402_hosted_facilitator.Tenancy.Keys.{IsIssued, resolve_access-IsIssued}
use x402_hosted_facilitator.Router
use x402_hosted_facilitator.Router.{RoutedProvider, Providers, provider_name_for_envelope, route}
use x402_hosted_facilitator.Router.Admission.{Permits, route-Permits}
use x402_hosted_facilitator.Application.{network_of}
use x402_hosted_facilitator.Application.Supported.{supported, provider_name_for_kind}
use x402_hosted_facilitator.Application.Offers.{IsOffered, supported-IsOffered}
use x402_hosted_facilitator.Engine.{FacilitatorEnvelope}
use x402_hosted_facilitator.Validation.{validate_settlement_envelope}
use x402_hosted_facilitator.Validation.Numerals.{Decimals, DecimalLaws}
use x402_hosted_facilitator.Validation.Agreement.{
  AgreesOn, AgreesIfGiven, IsText, IsAddress, IsAmount, validate-AgreesOn,
}
use x402_hosted_facilitator.Fingerprint.{
  CanonicalPayment, authorization_of_payload, payment_fingerprint,
}
use x402_hosted_facilitator.Fingerprint.Spelling.{SameAuthorization, fingerprint-SameAuthorization}

-- for texts that are lower case and have no surrounding space
abbrev same_text : String → String
same_text text = text

-- decimal texts in canonical form
abbrev plain_decimals : Decimals
plain_decimals = record {
  Decimal = String;
  parse = λ text. some text;
  is_integral = λ amount. true;
  int_text = λ amount. ok amount;
  normal_text = λ amount. amount;
  repr = λ value. "";
  equals_int = λ value version. true;
  equals = λ value other. true;
}

abbrev profile : PaymentProfileConfig
profile = record {
  payment_profile_id = "default";
  seller_account_id = "acme";
  name = "Acme";
  status = "active";
  enabled_networks = "eip155:5042002" ∷ [];
  enabled_schemes = "exact" ∷ [];
  enabled_providers = "exact_evm" ∷ [];
  api_keys = [];
  allowed_assets = [];
  allowed_pay_to = "0xshop" ∷ [];
  rate_limits = default_rate_limit_policy;
}

abbrev account : SellerAccountConfig
account = record {
  seller_account_id = "acme";
  tenant_id = "shops";
  name = "Acme";
  environment = "testnet";
  status = "active";
  api_keys = "k1" ∷ [];
  payment_profiles = profile ∷ [];
  enabled_networks = "eip155:5042002" ∷ [];
  enabled_schemes = "exact" ∷ [];
  enabled_providers = "exact_evm" ∷ [];
  allowed_assets = [];
  allowed_pay_to = [];
  rate_limits = default_rate_limit_policy;
}

abbrev access : ResolvedSellerAccess
access = record { seller_account = account; payment_profile = profile; api_key_prefix = some "k1" }

abbrev resolver : StaticSellerAccountResolver
resolver = record { seller_accounts = ("acme", account) ∷ []; api_key_index = ("k1", access) ∷ [] }

built : Resolver.init same_text same_text (account ∷ []) ≡ ok resolver
unfolding Resolver.init Dict.put Dict.get first_chars
built = refl

bearer : bearer_token same_text same_text (some "bearer k1") ≡ some "k1"
unfolding bearer_token
bearer = refl

resolved : resolve_access same_text same_text resolver (some "bearer k1") true ≡ ok access
unfolding resolve_access bearer_token Dict.get
resolved = refl

resolve_access-IsIssued_example :
    (access.seller_account.status ≡ "active")
    × (access.payment_profile.status ≡ "active")
    × IsIssued "k1" access
resolve_access-IsIssued_example =
    resolve_access-IsIssued same_text same_text (account ∷ []) resolver (some "bearer k1") true "k1"
      access built bearer resolved

abbrev authorization : String → Fields
authorization value =
    Fields.field "from" (Value.str "0xbuyer")
      (Fields.field "to" (Value.str "0xshop") (Fields.field "value" (Value.str value) Fields.end))

abbrev requirements : Fields
requirements = Fields.field "scheme" (Value.str "exact") (
    Fields.field "network" (Value.str "eip155:5042002") (
      Fields.field "asset" (Value.str "0xusdc") (
        Fields.field "amount" (Value.str "1000")
          (Fields.field "payTo" (Value.str "0xshop") Fields.end))))

abbrev payment : String → FacilitatorEnvelope
payment signature = record {
  x402_version = 2;
  payment_payload = Fields.field "accepted" (Value.dict requirements) (
      Fields.field "signature" (Value.str signature)
        (Fields.field "authorization" (Value.dict (authorization "1000")) Fields.end));
  payment_requirements = requirements;
}

abbrev exact_evm : RoutedProvider
exact_evm = record { name = "exact_evm"; matches = none; supported_networks = [] }

abbrev providers : Providers
providers = ("exact_evm", exact_evm) ∷ []

route-Permits_example : (route same_text providers (payment "0x01") profile ≡ ok exact_evm) ↔ (
    (Dict.get (provider_name_for_envelope providers (payment "0x01")) providers ≡ some exact_evm)
    × Permits same_text profile
        (payment "0x01")
        (provider_name_for_envelope providers (payment "0x01")))
route-Permits_example = route-Permits same_text providers (payment "0x01") profile exact_evm

-- the router does route it
routed : route same_text providers (payment "0x01") profile ≡ ok exact_evm
unfolding route provider_name_for_envelope allows Dict.get Json.get Router.provider_name_for
routed = refl

validated : validate_settlement_envelope same_text plain_decimals (payment "0x01") ≡ ok requirements
unfolding validate_settlement_envelope Json.get
validated = refl

validate-AgreesOn_example :
    (Json.get "accepted" (payment "0x01").payment_payload ≡ some (Value.dict requirements))
    × AgreesOn same_text plain_decimals
        (IsText same_text plain_decimals)
        requirements
        requirements
        "scheme"
    × AgreesOn same_text plain_decimals
        (IsText same_text plain_decimals)
        requirements
        requirements
        "network"
    × AgreesOn same_text plain_decimals
        (IsAddress same_text plain_decimals)
        requirements
        requirements
        "asset"
    × AgreesOn same_text plain_decimals
        (IsAmount same_text plain_decimals)
        requirements
        requirements
        "amount"
    × AgreesOn same_text plain_decimals
        (IsAddress same_text plain_decimals)
        requirements
        requirements
        "payTo"
    × AgreesIfGiven same_text plain_decimals requirements requirements "maxTimeoutSeconds"
    × (plain_decimals.equals_int (Json.get "x402Version" (payment "0x01").payment_payload) 2 ≡ true)
    × (plain_decimals.equals (Json.get "extra" requirements) (Json.get "extra" requirements) ≡ true)
validate-AgreesOn_example =
    validate-AgreesOn same_text plain_decimals (payment "0x01") requirements validated

abbrev digest_of : CanonicalPayment → String
digest_of payment = payment.provider

-- one text in upper case, and one number with a decimal point
abbrev lower_buyer : String → String
lower_buyer text = if text == "0XBUYER" then "0xbuyer" else text

abbrev pointed_decimals : Decimals
pointed_decimals = record plain_decimals {
  parse = λ text. if text == "1000.0" then some "1000" else some text;
}

abbrev pointed_laws : DecimalLaws pointed_decimals
pointed_laws = record {
  same = λ a b. a == b;
  is_integral-same = λ a b e. refl;
  int_text-same = λ a b e i. ap ok ((string_eq.beq_iff a b).0 e);
  normal_text-same = λ a b e i. (string_eq.beq_iff a b).0 e;
}

abbrev respelled : Fields
respelled =
    Fields.field "from" (Value.str "0XBUYER") (
      Fields.field "to" (Value.str "0xshop") (Fields.field "value" (Value.str "1000.0") Fields.end))

-- the payment of `payment "0x02"`, with its authorization spelled otherwise
abbrev respelled_payment : FacilitatorEnvelope
respelled_payment = record (payment "0x02") {
  payment_payload = Fields.field "accepted" (Value.dict requirements) (
      Fields.field "signature" (Value.str "0x02")
        (Fields.field "authorization" (Value.dict respelled) Fields.end));
}

accepted_first :
    Json.get "accepted" (payment "0x01").payment_payload ≡ some (Value.dict requirements)
unfolding Json.get
accepted_first = refl

accepted_respelled :
    Json.get "accepted" respelled_payment.payment_payload ≡ some (Value.dict requirements)
unfolding Json.get
accepted_respelled = refl

same_authorization :
    SameAuthorization lower_buyer pointed_decimals pointed_laws
      (authorization_of_payload (payment "0x01").payment_payload)
      (authorization_of_payload respelled_payment.payment_payload)
unfolding authorization_of_payload Json.get
same_authorization = (
  inr ("0xbuyer", "0XBUYER", refl, refl, (_, _, "buyer", refl, refl, refl), refl),
  inl refl,
  inl refl,
  inr (Value.str "1000", Value.str "1000.0", refl, refl, "1000", "1000", refl, refl, refl),
  inl refl,
  inl refl,
)

fingerprint-SameAuthorization_example :
    payment_fingerprint lower_buyer pointed_decimals digest_of (payment "0x01") "exact_evm"
    ≡ payment_fingerprint lower_buyer pointed_decimals digest_of respelled_payment "exact_evm"
fingerprint-SameAuthorization_example =
    fingerprint-SameAuthorization lower_buyer pointed_decimals pointed_laws digest_of
      (payment "0x01") respelled_payment "exact_evm" requirements refl accepted_first
      accepted_respelled same_authorization

-- each provider supports the kind of the payment
abbrev kinds_of : RoutedProvider → List Fields
kinds_of p = requirements ∷ []

abbrev nothing_paused : String → Option String → Bool
nothing_paused provider network = true

supported-IsOffered_example :
    All
      (λ kind.
        IsOffered same_text kinds_of nothing_paused profile providers kind
        × (nothing_paused
              (provider_name_for_kind providers kind)
              (network_of (Json.get "network" kind))
            ≡ true))
      (supported same_text kinds_of nothing_paused providers profile)
supported-IsOffered_example =
    supported-IsOffered same_text kinds_of nothing_paused profile providers
