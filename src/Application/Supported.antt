-- ===== src/Application/Supported.antt =====
-- What /supported lists: `HostedFacilitatorEngine.supported`
-- (src/hosted_facilitator/hosted/engine.py) and the handler's filter by the control plane (app.py).
-- The kinds that a provider supports, and what the control plane allows, are parameters. A kind's
-- asset and payee are texts or absent.
use x402_hosted_facilitator.Common.{
  String, Bool, true, false, not, ◌||◌, Option, none, some, List, [], ◌∷◌, ◌++◌, filter,
  if◌then◌else◌,
}
use x402_hosted_facilitator.Json
use x402_hosted_facilitator.Json.{Value, Fields}
use x402_hosted_facilitator.Tenancy.{PaymentProfileConfig, argument_of, contains, allows}
use x402_hosted_facilitator.Router.{RoutedProvider, Providers, provider_name_for, extra_of, lowered}
use x402_hosted_facilitator.Application.{network_of}

-- `provider_name_for_kind`
unfoldable pub provider_name_for_kind : Providers → Fields → String
provider_name_for_kind providers kind =
    provider_name_for providers (Json.get "scheme" kind) (Json.get "network" kind)
      (extra_of (Json.get "extra" kind))

abbrev pub listed : Providers → List RoutedProvider
listed [] = []
listed ((key, p) ∷ rest) = p ∷ listed rest

-- `providers_for_payment_profile`
abbrev pub providers_for_payment_profile : Providers → PaymentProfileConfig → List RoutedProvider
providers_for_payment_profile providers profile =
    filter (λ p. contains p.name profile.enabled_providers) (listed providers)

abbrev any_of : {A : Type 0} → (A → Bool) → List A → Bool
any_of test [] = false
any_of test (x ∷ xs) = test x || any_of test xs

module _ (lower : String → String) (supported_by : RoutedProvider → List Fields)
    (control_allows : String → Option String → Bool) where
  -- `_payment_profile_allows_kind`
  abbrev pub profile_allows_kind : PaymentProfileConfig → String → Fields → Bool
  profile_allows_kind profile name kind =
      allows lower profile (argument_of (Json.get "scheme" kind))
        (argument_of (Json.get "network" kind)) name
        (argument_of (lowered lower (Json.get "asset" kind)))
        (argument_of (lowered lower (Json.get "payTo" kind)))

  -- `_control_plane_allows_provider`
  abbrev pub allows_provider : RoutedProvider → Bool
  allows_provider p = control_allows p.name none

  -- the loop over the providers in the engine's `supported`
  unfoldable pub kinds_of_providers : PaymentProfileConfig → List RoutedProvider → List Fields
  kinds_of_providers profile [] = []
  kinds_of_providers profile (p ∷ ps) =
      (if allows_provider p
        then filter (profile_allows_kind profile p.name) (supported_by p)
        else [])
      ++ kinds_of_providers profile ps

  -- `_control_plane_allows_kind`
  abbrev pub allows_kind : Providers → Fields → Bool
  allows_kind providers kind =
      control_allows (provider_name_for_kind providers kind) (network_of (Json.get "network" kind))

  -- `_control_plane_blocks_supported`
  abbrev pub blocks_supported : PaymentProfileConfig → Bool
  blocks_supported profile =
      if not (any_of (λ name. control_allows name none) profile.enabled_providers)
      then true
      else not (
          any_of (λ network. control_allows "network_probe" (some network))
            profile.enabled_networks)

  -- the kinds of the handler's answer
  unfoldable pub supported : Providers → PaymentProfileConfig → List Fields
  unfolding kinds_of_providers
  supported providers profile =
      if blocks_supported profile
      then []
      else filter (allows_kind providers)
          (kinds_of_providers profile (providers_for_payment_profile providers profile))
