-- ===== src/Tenancy/Resolver.antt =====
-- `StaticSellerAccountResolver` and `_bearer_token` (src/hosted_facilitator/hosted/tenancy.py).
-- `str.lower` and `str.strip` are parameters.
use Prim.Native.Char.{code}
use x402_hosted_facilitator.Common.{
  String, Bool, true, false, not, ◌||◌, Option, none, some, List, [], ◌∷◌, ◌==◌, nat_eq, string_eq,
  if◌then◌else◌, ok, err, Result, key_error, value_error, permission_error,
}
use x402_hosted_facilitator.Common.Dict
use x402_hosted_facilitator.Common.Dict.{Dict, get-put}
use x402_hosted_facilitator.RateLimit.Buckets.{first_chars, default_rate_limit_policy}
use x402_hosted_facilitator.Tenancy.{
  SellerAccountConfig, PaymentProfileConfig, default_payment_profile,
}

pub record ResolvedSellerAccess : Type 0 where
  pub seller_account : SellerAccountConfig
  pub payment_profile : PaymentProfileConfig
  pub api_key_prefix : Option String

abbrev pub Index : Type 0
Index = Dict String ResolvedSellerAccess

-- `_seller_accounts` and `_api_key_index`
pub record StaticSellerAccountResolver : Type 0 where
  pub seller_accounts : Dict String SellerAccountConfig
  pub api_key_index : Index

-- SellerAccountConfig(seller_account_id="default")
abbrev pub default_account : SellerAccountConfig
default_account = record {
  seller_account_id = "default";
  tenant_id = "production";
  name = "Default seller";
  environment = "testnet";
  status = "active";
  api_keys = [];
  payment_profiles = [];
  enabled_networks = "eip155:5042002" ∷ [];
  enabled_schemes = "exact" ∷ [];
  enabled_providers = "exact_evm" ∷ [];
  allowed_assets = [];
  allowed_pay_to = [];
  rate_limits = default_rate_limit_policy;
}

-- the texts before and after the first space, as `str.partition` gives them
before_space : String → String
before_space String.[] = ""
before_space (String.◌∷◌ c s) = if code c == b' ' then "" else String.◌∷◌ c (before_space s)

after_space : String → String
after_space String.[] = ""
after_space (String.◌∷◌ c s) = if code c == b' ' then s else after_space s

module _ (lower strip : String → String) where
  -- `_bearer_token`
  unfoldable pub bearer_token : Option String → Option String
  unfolding before_space after_space
  bearer_token none = none
  bearer_token (some authorization) =
      let value = strip (after_space authorization) in
      if authorization == ""
      then none
      else if not (lower (before_space authorization) == "bearer") || value == ""
      then none
      else some value

  -- `seller_key_prefix`
  abbrev pub seller_key_prefix : String → String
  seller_key_prefix key = let value = strip key in if value == "" then "" else first_chars 16 value

  -- `_register_api_key`
  abbrev pub register_api_key : String → ResolvedSellerAccess → Index → Result Index
  register_api_key key access index = elim (Dict.get key index) [
    | some _ ↦ err (value_error "Duplicate seller API key configured")
    | none ↦ ok (Dict.put key access index)
  ]

  abbrev pub access_for : SellerAccountConfig → PaymentProfileConfig → String → ResolvedSellerAccess
  access_for account profile key = record {
    seller_account = account;
    payment_profile = profile;
    api_key_prefix = some (seller_key_prefix key);
  }

  -- what is registered next, unless a key was a duplicate
  abbrev pub and_then : Result Index → (Index → Result Index) → Result Index
  and_then (err e) next = err e
  and_then (ok index) next = next index

  unfoldable pub register_keys :
      SellerAccountConfig → PaymentProfileConfig → List String → Index → Result Index
  register_keys account profile [] index = ok index
  register_keys account profile (key ∷ keys) index =
      and_then (register_api_key key (access_for account profile key) index)
        (λ next. register_keys account profile keys next)

  unfoldable pub register_profiles :
      SellerAccountConfig → List PaymentProfileConfig → Index → Result Index
  unfolding register_keys
  register_profiles account [] index = ok index
  register_profiles account (profile ∷ profiles) index =
      and_then (register_keys account profile profile.api_keys index)
        (λ next. register_profiles account profiles next)

  abbrev pub register_account : SellerAccountConfig → Index → Result Index
  register_account account index =
      and_then (register_keys account (default_payment_profile account) account.api_keys index)
        (λ next. register_profiles account account.payment_profiles next)

  -- `for seller_account in self._seller_accounts.values()`
  unfoldable pub register_accounts : Dict String SellerAccountConfig → Index → Result Index
  unfolding register_profiles
  register_accounts [] index = ok index
  register_accounts ((id, account) ∷ accounts) index =
      and_then (register_account account index) (λ next. register_accounts accounts next)

  abbrev pub by_id :
      List SellerAccountConfig → Dict String SellerAccountConfig → Dict String SellerAccountConfig
  by_id [] accounts = accounts
  by_id (a ∷ rest) accounts = by_id rest (Dict.put a.seller_account_id a accounts)

  -- `seller_accounts or [default]`
  abbrev pub or_default : List SellerAccountConfig → List SellerAccountConfig
  or_default [] = default_account ∷ []
  or_default (a ∷ rest) = a ∷ rest

  abbrev pub with_index :
      Dict String SellerAccountConfig → Result Index → Result StaticSellerAccountResolver
  with_index accounts (err e) = err e
  with_index accounts (ok index) = ok (record { seller_accounts = accounts; api_key_index = index })

  -- `__init__`
  unfoldable pub init : List SellerAccountConfig → Result StaticSellerAccountResolver
  unfolding register_accounts
  init seller_accounts =
      let accounts = by_id (or_default seller_accounts) [] in
      with_index accounts (register_accounts accounts [])

  abbrev pub if_active : ResolvedSellerAccess → Result ResolvedSellerAccess
  if_active access =
      if not (access.seller_account.status == "active")
      then err (permission_error "Seller account is not active")
      else if not (access.payment_profile.status == "active")
      then err (permission_error "Payment profile is not active")
      else ok access

  abbrev pub by_key : Option ResolvedSellerAccess → Result ResolvedSellerAccess
  by_key none = err (permission_error "Invalid facilitator API key")
  by_key (some access) = if_active access

  abbrev pub default_access : Option SellerAccountConfig → Result ResolvedSellerAccess
  default_access none = err (key_error "default")
  default_access (some account) = ok (record {
    seller_account = account;
    payment_profile = default_payment_profile account;
    api_key_prefix = none;
  })

  abbrev pub resolve_token :
      StaticSellerAccountResolver → Bool → Option String → Result ResolvedSellerAccess
  resolve_token resolver require_auth (some token) = by_key (Dict.get token resolver.api_key_index)
  resolve_token resolver true none =
      err (permission_error "Seller API-key authentication is required")
  resolve_token resolver false none = default_access (Dict.get "default" resolver.seller_accounts)

  -- `resolve_access`
  unfoldable pub resolve_access :
      StaticSellerAccountResolver → Option String → Bool → Result ResolvedSellerAccess
  unfolding bearer_token
  resolve_access resolver authorization require_auth =
      resolve_token resolver require_auth (bearer_token authorization)
