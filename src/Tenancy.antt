-- ===== src/Tenancy.antt =====
-- Payment profiles and seller accounts (src/hosted_facilitator/hosted/tenancy.py). `str.lower` is a
-- parameter. A value that comes from a request is any JSON value; what the checks see of it is an
-- `Argument`.
pub mod Resolver
pub mod Keys
use x402_hosted_facilitator.Common.{
  ℕ, String, ◌≡◌, refl, Bool, true, false, not, ◌&&◌, ◌||◌, Option, none, some, List, [], ◌∷◌, ◌==◌,
  string_eq, if◌then◌else◌, arith,
}
use x402_hosted_facilitator.Json.{Value, Items, Fields}
use x402_hosted_facilitator.RateLimit.Buckets.{RateLimitPolicy}

-- A falsy value, a text that is not empty, or any other value.
pub data Argument : Type 0 where
  falsy other : Argument
  text : String → Argument

abbrev pub argument_of_text : String → Argument
argument_of_text s = if s == "" then Argument.falsy else Argument.text s

abbrev number_argument : String → Argument
number_argument n =
    if n == "0" || (n == "0.0" || n == "-0.0") then Argument.falsy else Argument.other

abbrev pub argument_of : Option Value → Argument
argument_of none = Argument.falsy
argument_of (some Value.null) = Argument.falsy
argument_of (some (Value.bool b)) = if b then Argument.other else Argument.falsy
argument_of (some (Value.number n)) = number_argument n
argument_of (some (Value.str s)) = argument_of_text s
argument_of (some (Value.list Items.nil)) = Argument.falsy
argument_of (some (Value.list (Items.cons _ _))) = Argument.other
argument_of (some (Value.dict Fields.end)) = Argument.falsy
argument_of (some (Value.dict (Fields.field _ _ _))) = Argument.other

-- `value in values`
abbrev pub contains : String → List String → Bool
contains s [] = false
contains s (t ∷ ts) = s == t || contains s ts

pub record PaymentProfileConfig : Type 0 where
  pub payment_profile_id : String
  pub seller_account_id : String
  pub name : String
  pub status : String
  pub enabled_networks : List String
  pub enabled_schemes : List String
  pub enabled_providers : List String
  pub api_keys : List String
  pub allowed_assets : List String
  pub allowed_pay_to : List String
  pub rate_limits : RateLimitPolicy

pub record SellerAccountConfig : Type 0 where
  pub seller_account_id : String
  pub tenant_id : String
  pub name : String
  pub environment : String
  pub status : String
  pub api_keys : List String
  pub payment_profiles : List PaymentProfileConfig
  pub enabled_networks : List String
  pub enabled_schemes : List String
  pub enabled_providers : List String
  pub allowed_assets : List String
  pub allowed_pay_to : List String
  pub rate_limits : RateLimitPolicy

-- `not (value and value not in values)`
abbrev pub is_enabled : Argument → List String → Bool
is_enabled Argument.falsy values = true
is_enabled Argument.other values = false
is_enabled (Argument.text s) values = contains s values

module _ (lower : String → String) where
  -- `not (value and allowed and value.lower() not in allowed)`
  abbrev pub is_allowed : Argument → List String → Bool
  is_allowed (Argument.text s) (a ∷ allowed) = contains (lower s) (a ∷ allowed)
  is_allowed Argument.other (a ∷ allowed) = false
  is_allowed _ _ = true

  -- `PaymentProfileConfig.allows`. A truthy asset or payee that is no text has no `lower`: the call
  -- raises there, which refuses the request as `false` does.
  unfoldable pub allows :
      PaymentProfileConfig → Argument → Argument → String → Argument → Argument → Bool
  allows p scheme network provider asset pay_to =
      if not (p.status == "active")
      then false
      else if not (contains provider p.enabled_providers)
      then false
      else if not (is_enabled scheme p.enabled_schemes)
      then false
      else if not (is_enabled network p.enabled_networks)
      then false
      else if not (is_allowed asset p.allowed_assets)
      then false
      else is_allowed pay_to p.allowed_pay_to

-- `SellerAccountConfig.default_payment_profile`
abbrev pub default_payment_profile : SellerAccountConfig → PaymentProfileConfig
default_payment_profile a = elim a.payment_profiles [
  | p ∷ _ ↦ p
  | [] ↦ record {
    payment_profile_id = "default";
    seller_account_id = a.seller_account_id;
    name = a.name;
    status = a.status;
    enabled_networks = a.enabled_networks;
    enabled_schemes = a.enabled_schemes;
    enabled_providers = a.enabled_providers;
    api_keys = [];
    allowed_assets = a.allowed_assets;
    allowed_pay_to = a.allowed_pay_to;
    rate_limits = a.rate_limits;
  }
]
