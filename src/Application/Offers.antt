-- ===== src/Application/Offers.antt =====
-- What a kind that /supported lists has passed.
use x402_hosted_facilitator.Common.{
  String, ◌≡◌, refl, inl, inr, Bool, true, Option, none, List, [], ◌∷◌, filter, IsIn, All,
  All-append, Bool-cases,
}
use x402_hosted_facilitator.Json
use x402_hosted_facilitator.Json.{Fields}
use x402_hosted_facilitator.Tenancy.{PaymentProfileConfig, contains}
use x402_hosted_facilitator.Router.{RoutedProvider, Providers}
use x402_hosted_facilitator.Application.{network_of}
use x402_hosted_facilitator.Application.Supported.{
  listed, provider_name_for_kind, providers_for_payment_profile, profile_allows_kind,
  kinds_of_providers, allows_kind, blocks_supported, supported,
}

All-filter :
    {A : Type 0} (P : A → Type 0) (p : A → Bool) (xs : List A)
    → All P xs
    → All (λ x. P x × (p x ≡ true)) (filter p xs)
All-filter P p [] h = tt
All-filter P p (x ∷ xs) h = elim (Bool-cases (p x)) [
  | inl e ↦ rw e ((h.0, e), All-filter P p xs h.1)
  | inr e ↦ rw e (All-filter P p xs h.1)
]

All-map :
    {A : Type 0} (P Q : A → Type 0) → ((x : A) → P x → Q x) → (xs : List A) → All P xs → All Q xs
All-map P Q f [] h = tt
All-map P Q f (x ∷ xs) h = (f x h.0, All-map P Q f xs h.1)

All-IsIn : {A : Type 0} (xs : List A) → All (λ x. IsIn x xs) xs
All-IsIn [] = tt
All-IsIn (x ∷ xs) = (
  inl refl,
  All-map (λ y. IsIn y xs) (λ y. IsIn y (x ∷ xs)) (λ y member. inr member) xs (All-IsIn xs),
)

module _ (lower : String → String) (supported_by : RoutedProvider → List Fields)
    (control_allows : String → Option String → Bool) (profile : PaymentProfileConfig) where
  -- The provider is registered, and the profile enables it.
  abbrev IsEnabled : Providers → RoutedProvider → Type 0
  IsEnabled providers p =
      IsIn p (listed providers) × (contains p.name profile.enabled_providers ≡ true)

  -- A registered provider that is enabled and not paused supports the kind, and the profile allows
  -- it there.
  abbrev pub IsOffered : Providers → Fields → Type 0
  IsOffered providers kind =
      (p : RoutedProvider) × IsIn p (listed providers)
      × IsIn kind (supported_by p)
      × (contains p.name profile.enabled_providers ≡ true)
      × (control_allows p.name none ≡ true)
      × (profile_allows_kind lower supported_by control_allows profile p.name kind ≡ true)

  kinds_of_providers-IsOffered :
      (providers : Providers) (ps : List RoutedProvider)
      → All (IsEnabled providers) ps
      → All (IsOffered providers) (kinds_of_providers lower supported_by control_allows profile ps)
  unfolding kinds_of_providers
  kinds_of_providers-IsOffered providers [] h = tt
  kinds_of_providers-IsOffered providers (p ∷ ps) h =
      let rest = kinds_of_providers-IsOffered providers ps h.1 in
      let test = profile_allows_kind lower supported_by control_allows profile p.name in
      let supports = λ (kind : Fields). IsIn kind (supported_by p) in
      elim (Bool-cases (control_allows p.name none)) [
        | inl e ↦ rw e (
            All-append (IsOffered providers) (filter test (supported_by p)) _
              (All-map (λ kind. supports kind × (test kind ≡ true)) (IsOffered providers)
                (λ kind passed. (p, h.0.0, passed.0, h.0.1, e, passed.1))
                (filter test (supported_by p))
                (All-filter supports test (supported_by p) (All-IsIn (supported_by p))))
              rest)
        | inr e ↦ rw e rest
      ]

  -- Each kind that /supported lists is one that a registered provider supports. The profile enables
  -- that provider and allows the kind for it, and the control plane does not pause it; and the
  -- control plane lets through the provider and the network that a payment of that kind would be
  -- routed to.
  pub supported-IsOffered :
      (providers : Providers)
      → All
          (λ kind.
            IsOffered providers kind
            × (control_allows
                  (provider_name_for_kind providers kind)
                  (network_of (Json.get "network" kind))
                ≡ true))
          (supported lower supported_by control_allows providers profile)
  unfolding supported
  supported-IsOffered providers =
      elim (Bool-cases (blocks_supported lower supported_by control_allows profile)) [
        | inl e ↦ rw e tt
        | inr e ↦ rw e (
            All-filter (IsOffered providers)
              (allows_kind lower supported_by control_allows providers) _
              (kinds_of_providers-IsOffered providers
                (providers_for_payment_profile providers profile)
                (All-filter (λ p. IsIn p (listed providers))
                  (λ p. contains p.name profile.enabled_providers) (listed providers)
                  (All-IsIn (listed providers)))))
      ]
