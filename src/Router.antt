-- ===== src/Router.antt =====
-- `ProviderRouter` (src/hosted_facilitator/hosted/router.py). What a provider says of itself is a
-- parameter: its name, its networks and its `matches`, if it has one.
pub mod Admission
use x402_hosted_facilitator.Common.{
  ℕ, String, ◌≡◌, refl, inl, inr, Bool, true, false, not, ◌&&◌, ◌||◌, Option, none, some, List, [],
  ◌∷◌, ◌==◌, string_eq, if◌then◌else◌, arith, ok, err, Error, Result, lookup_error,
  permission_error, Bool-cases, Option-cases,
}
use x402_hosted_facilitator.Common.Dict
use x402_hosted_facilitator.Common.Dict.{Dict}
use x402_hosted_facilitator.Json
use x402_hosted_facilitator.Json.{Value, Fields}
use x402_hosted_facilitator.Tenancy.{Argument, argument_of, contains, PaymentProfileConfig, allows}
use x402_hosted_facilitator.Engine.{FacilitatorEnvelope}

pub record RoutedProvider : Type 0 where
  pub name : String
  pub matches : Option (Option Value → Option Value → Fields → Bool)
  pub supported_networks : List String

abbrev pub Providers : Type 0
Providers = Dict String RoutedProvider

-- `__init__`: a later provider of the same name takes the place of an earlier one
register : Providers → List RoutedProvider → Providers
register providers [] = providers
register providers (p ∷ ps) = register (Dict.put p.name p providers) ps

unfoldable pub init : List RoutedProvider → Providers
unfolding register
init ps = register [] ps

abbrev pub is_text : Option Value → String → Bool
is_text (some (Value.str s)) t = s == t
is_text _ t = false

abbrev in_texts : Option Value → List String → Bool
in_texts (some (Value.str s)) ts = contains s ts
in_texts _ ts = false

-- `_provider_supports_network`
abbrev provider_supports_network : RoutedProvider → Option Value → Bool
provider_supports_network p network = elim p.supported_networks [
  | [] ↦ true
  | n ∷ ns ↦ in_texts network (n ∷ ns)
]

abbrev matches_request : Option Value → Option Value → Fields → RoutedProvider → Bool
matches_request scheme network extra p = elim p.matches [
  | none ↦ false
  | some matches ↦ matches scheme network extra
]

-- the first provider whose `matches` says yes
first_match : Option Value → Option Value → Fields → Providers → Option String
first_match scheme network extra [] = none
first_match scheme network extra ((key, p) ∷ ps) =
    if matches_request scheme network extra p
    then some p.name
    else first_match scheme network extra ps

abbrev exact_evm_supports : Option RoutedProvider → Option Value → Bool
exact_evm_supports none network = false
exact_evm_supports (some p) network = provider_supports_network p network

-- `_provider_name_for`
unfoldable pub provider_name_for : Providers → Option Value → Option Value → Fields → String
unfolding first_match
provider_name_for providers scheme network extra =
    elim (first_match scheme network extra providers) [
      | some name ↦ name
      | none ↦
          if is_text scheme "exact" && exact_evm_supports (Dict.get "exact_evm" providers) network
          then "exact_evm"
          else if is_text scheme "exact"
          then "delegated_http"
          else "unsupported"
    ]

abbrev pub extra_of : Option Value → Fields
extra_of (some (Value.dict extra)) = extra
extra_of _ = Fields.end

-- `provider_name_for_envelope`
unfoldable pub provider_name_for_envelope : Providers → FacilitatorEnvelope → String
provider_name_for_envelope providers envelope =
    let requirements = envelope.payment_requirements in
    provider_name_for providers (Json.get "scheme" requirements) (Json.get "network" requirements)
      (extra_of (Json.get "extra" requirements))

module _ (lower : String → String) where
  -- `asset.lower() if isinstance(asset, str) else asset`
  abbrev pub lowered : Option Value → Option Value
  lowered (some (Value.str s)) = some (Value.str (lower s))
  lowered value = value

  -- `payment_profile.allows(..)` as `route` calls it
  abbrev pub profile_allows : PaymentProfileConfig → FacilitatorEnvelope → String → Bool
  profile_allows profile envelope provider =
      let requirements = envelope.payment_requirements in
      allows lower profile (argument_of (Json.get "scheme" requirements))
        (argument_of (Json.get "network" requirements)) provider
        (argument_of (lowered (Json.get "asset" requirements)))
        (argument_of (lowered (Json.get "payTo" requirements)))

  abbrev pub if_allowed : Bool → RoutedProvider → Result RoutedProvider
  if_allowed true p = ok p
  if_allowed false p = err (permission_error "Payment profile does not allow the provider")

  abbrev pub registered :
      PaymentProfileConfig
      → FacilitatorEnvelope
      → String
      → Option RoutedProvider
      → Result RoutedProvider
  registered profile envelope name none =
      err (lookup_error "No hosted facilitator provider registered")
  registered profile envelope name (some p) = if_allowed (profile_allows profile envelope name) p

  unfoldable pub route :
      Providers → FacilitatorEnvelope → PaymentProfileConfig → Result RoutedProvider
  route providers envelope profile =
      let name = provider_name_for_envelope providers envelope in
      registered profile envelope name (Dict.get name providers)
