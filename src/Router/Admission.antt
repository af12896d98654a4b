-- ===== src/Router/Admission.antt =====
-- Which requests the router lets through to which provider.
use x402_hosted_facilitator.Common.{
  String, ◌≡◌, ◌↔◌, Bool, true, false, not, none, if◌then◌else◌, Option, some, arith, ok, inl, inr,
  Bool-cases, ◌==◌, string_eq,
}
use x402_hosted_facilitator.Common.Dict
use x402_hosted_facilitator.Json
use x402_hosted_facilitator.Tenancy.{
  PaymentProfileConfig, argument_of, contains, is_enabled, is_allowed, allows,
}
use x402_hosted_facilitator.Engine.{FacilitatorEnvelope}
use x402_hosted_facilitator.Router.{
  RoutedProvider, Providers, provider_name_for_envelope, registered, route, profile_allows, lowered,
}

-- a chain of `if not test: return False`
six_tests :
    (a b c d e f : Bool)
    → ((if not a
          then false
          else if not b
          then false
          else if not c
          then false
          else if not d
          then false
          else if not e
          then false
          else f)
        ≡ true)
      ↔ ((a ≡ true) × (b ≡ true) × (c ≡ true) × (d ≡ true) × (e ≡ true) × (f ≡ true))
six_tests a b c d e f = ground arith

module _ (lower : String → String) where
  -- What a payment profile says of a request to a provider.
  abbrev pub Permits : PaymentProfileConfig → FacilitatorEnvelope → String → Type 0
  Permits profile envelope provider =
      (profile.status ≡ "active")
      × (contains provider profile.enabled_providers ≡ true)
      × (is_enabled (argument_of (Json.get "scheme" envelope.payment_requirements))
            profile.enabled_schemes
          ≡ true)
      × (is_enabled (argument_of (Json.get "network" envelope.payment_requirements))
            profile.enabled_networks
          ≡ true)
      × (is_allowed lower
            (argument_of (lowered lower (Json.get "asset" envelope.payment_requirements)))
            profile.allowed_assets
          ≡ true)
      × (is_allowed lower
            (argument_of (lowered lower (Json.get "payTo" envelope.payment_requirements)))
            profile.allowed_pay_to
          ≡ true)

  profile_allows-Permits :
      (profile : PaymentProfileConfig) (envelope : FacilitatorEnvelope) (provider : String)
      → (profile_allows lower profile envelope provider ≡ true) ↔ Permits profile envelope provider
  unfolding allows
  profile_allows-Permits profile envelope provider =
      let tests =
        six_tests (profile.status == "active") (contains provider profile.enabled_providers)
          (is_enabled (argument_of (Json.get "scheme" envelope.payment_requirements))
            profile.enabled_schemes)
          (is_enabled (argument_of (Json.get "network" envelope.payment_requirements))
            profile.enabled_networks)
          (is_allowed lower
            (argument_of (lowered lower (Json.get "asset" envelope.payment_requirements)))
            profile.allowed_assets)
          (is_allowed lower
            (argument_of (lowered lower (Json.get "payTo" envelope.payment_requirements)))
            profile.allowed_pay_to) in
      let active = string_eq.beq_iff profile.status "active" in
      (
        (λ h. let (a, b, c, d, e, f) = tests.0 h in (active.0 a, b, c, d, e, f)),
        (λ h. tests.1 (active.1 h.0, h.1, h.2, h.3, h.4, h.5)),
      )

  registered-Permits :
      (profile : PaymentProfileConfig) (envelope : FacilitatorEnvelope) (name : String)
      (found : Option RoutedProvider) (p : RoutedProvider)
      → (registered lower profile envelope name found ≡ ok p)
        ↔ ((found ≡ some p) × Permits profile envelope name)
  registered-Permits profile envelope name none p = ((λ h. absurd (cc)), (λ h. absurd (cc (h.0))))
  registered-Permits profile envelope name (some q) p =
      elim (Bool-cases (profile_allows lower profile envelope name)) [
        | inl e ↦
            rw e ((λ h. (cc, (profile_allows-Permits profile envelope name).0 e)), (λ h. cc (h.0)))
        | inr e ↦ rw e (
          (λ h. absurd (cc)),
          (λ h. absurd (cc ((profile_allows-Permits profile envelope name).1 h.1))),
        )
      ]

  -- The router hands a request to a provider exactly if that provider is registered under the name
  -- that the request resolves to, and the payment profile is active and enables the provider, the
  -- scheme and the network, and allows the asset and the payee.
  pub route-Permits :
      (providers : Providers) (envelope : FacilitatorEnvelope) (profile : PaymentProfileConfig)
      (p : RoutedProvider)
      → (route lower providers envelope profile ≡ ok p) ↔ (
          (Dict.get (provider_name_for_envelope providers envelope) providers ≡ some p)
          × Permits profile envelope (provider_name_for_envelope providers envelope))
  unfolding route
  route-Permits providers envelope profile p =
      registered-Permits profile envelope (provider_name_for_envelope providers envelope)
        (Dict.get (provider_name_for_envelope providers envelope) providers) p
