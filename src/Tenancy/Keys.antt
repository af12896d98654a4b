-- ===== src/Tenancy/Keys.antt =====
-- What an API key gives access to.
use x402_hosted_facilitator.Common.{
  String, ◌≡◌, refl, sym, ap, ◌∙◌, ◌⊎◌, inl, inr, Bool, true, Option, none, some, List, [], ◌∷◌,
  ◌==◌, string_eq, if◌then◌else◌, arith, ok, err, Result, Option-cases, Bool-cases, eq_self,
}
use mathlib.Core.Path.{subst}
use x402_hosted_facilitator.Common.Dict
use x402_hosted_facilitator.Common.Dict.{Dict, get-put}
use x402_hosted_facilitator.Tenancy.{
  SellerAccountConfig, PaymentProfileConfig, default_payment_profile, contains,
}
use x402_hosted_facilitator.Tenancy.Resolver.{
  ResolvedSellerAccess, StaticSellerAccountResolver, Index, bearer_token, register_api_key,
  access_for, and_then, register_keys, register_profiles, register_accounts, by_id, or_default,
  with_index, init, if_active, by_key, resolve_token, resolve_access,
}

abbrev pub HasProfile : PaymentProfileConfig → List PaymentProfileConfig → Type 0
HasProfile p [] = ⊥
HasProfile p (q ∷ qs) = (q ≡ p) ⊎ HasProfile p qs

-- The account of the access has configured the key, for itself or for the profile of the access.
abbrev pub IsIssued : String → ResolvedSellerAccess → Type 0
IsIssued key access =
    ((contains key access.seller_account.api_keys ≡ true)
      × (access.payment_profile ≡ default_payment_profile access.seller_account))
    ⊎ ((contains key access.payment_profile.api_keys ≡ true)
        × HasProfile access.payment_profile access.seller_account.payment_profiles)

abbrev pub AllIssued : Index → Type 0
AllIssued index =
    (key : String) (access : ResolvedSellerAccess)
    → Dict.get key index ≡ some access
    → IsIssued key access

abbrev Indexed : Result Index → Type 0
Indexed (ok index) = AllIssued index
Indexed (err e) = Unit

first_contained : (key : String) (keys : List String) → contains key (key ∷ keys) ≡ true
first_contained key keys = rw (eq_self key) refl

rest_contained :
    (key other : String) (keys : List String)
    → contains key keys ≡ true
    → contains key (other ∷ keys) ≡ true
rest_contained key other keys h = ground arith

put-issued :
    (key : String) (access : ResolvedSellerAccess) (index : Index)
    → IsIssued key access
    → AllIssued index
    → AllIssued (Dict.put key access index)
put-issued key access index issued h k a found =
    let chosen : (if key == k then some access else Dict.get k index) ≡ some a =
      sym (get-put key k access index) ∙ found in
    elim (Bool-cases (key == k)) [
      | inl same ↦
          let is_key : key ≡ k = (string_eq.beq_iff key k).0 same in
          let taken : some access ≡ some a = rw same at chosen in
          let is_access : access ≡ a = cc (taken) in
          subst (λ x. IsIssued x a) is_key (subst (λ x. IsIssued key x) is_access issued)
      | inr other ↦ h k a (rw other at chosen)
    ]

module _ (lower strip : String → String) where
  and_then-Indexed :
      (m : Result Index) (next : Index → Result Index)
      → Indexed m
      → ((index : Index) → AllIssued index → Indexed (next index))
      → Indexed (and_then lower strip m next)
  and_then-Indexed (ok index) next h k = k index h
  and_then-Indexed (err e) next h k = tt

  register_api_key-Indexed :
      (key : String) (access : ResolvedSellerAccess) (index : Index)
      → IsIssued key access
      → AllIssued index
      → Indexed (register_api_key lower strip key access index)
  register_api_key-Indexed key access index issued h = elim (Option-cases (Dict.get key index)) [
    | inr (old, e) ↦ rw (e, Indexed) tt
    | inl e ↦ rw (e, Indexed) (λ k a found. put-issued key access index issued h k a found)
  ]

  register_keys-Indexed :
      (account : SellerAccountConfig) (profile : PaymentProfileConfig) (keys : List String)
      (index : Index)
      → ((key : String)
          → contains key keys ≡ true
          → IsIssued key (access_for lower strip account profile key))
      → AllIssued index
      → Indexed (register_keys lower strip account profile keys index)
  unfolding register_keys
  register_keys-Indexed account profile [] index issued h = h
  register_keys-Indexed account profile (key ∷ keys) index issued h =
      and_then-Indexed _ _
        (register_api_key-Indexed key _ index (issued key (first_contained key keys)) h)
        (λ next k.
          register_keys-Indexed account profile keys next
            (λ other found. issued other (rest_contained other key keys found)) k)

  register_profiles-Indexed :
      (account : SellerAccountConfig) (profiles : List PaymentProfileConfig) (index : Index)
      → ((profile : PaymentProfileConfig)
          → HasProfile profile profiles
          → HasProfile profile account.payment_profiles)
      → AllIssued index
      → Indexed (register_profiles lower strip account profiles index)
  unfolding register_profiles
  register_profiles-Indexed account [] index within h = h
  register_profiles-Indexed account (profile ∷ profiles) index within h =
      and_then-Indexed _ _
        (register_keys-Indexed account profile profile.api_keys index
          (λ key found. inr (found, within profile (inl refl))) h)
        (λ next k. register_profiles-Indexed account profiles next (λ p has. within p (inr has)) k)

  register_accounts-Indexed :
      (accounts : Dict String SellerAccountConfig) (index : Index)
      → AllIssued index
      → Indexed (register_accounts lower strip accounts index)
  unfolding register_accounts
  register_accounts-Indexed [] index h = h
  register_accounts-Indexed ((id, account) ∷ accounts) index h =
      and_then-Indexed _ _
        (and_then-Indexed _ _
          (register_keys-Indexed account (default_payment_profile account) account.api_keys index
            (λ key found. inl (found, refl)) h)
          (λ next k.
            register_profiles-Indexed account account.payment_profiles next (λ p has. has) k))
        (λ next k. register_accounts-Indexed accounts next k)

  with_index-AllIssued :
      (accounts : Dict String SellerAccountConfig) (index : Result Index)
      (resolver : StaticSellerAccountResolver)
      → Indexed index
      → with_index lower strip accounts index ≡ ok resolver
      → AllIssued resolver.api_key_index
  with_index-AllIssued accounts (err e) resolver h made = absurd (cc)
  with_index-AllIssued accounts (ok index) resolver h made =
      let same : index ≡ resolver.api_key_index = cc (made) in subst AllIssued same h

  init-AllIssued :
      (seller_accounts : List SellerAccountConfig) (resolver : StaticSellerAccountResolver)
      → init lower strip seller_accounts ≡ ok resolver
      → AllIssued resolver.api_key_index
  unfolding init Dict.get
  init-AllIssued seller_accounts resolver made =
      let accounts = by_id lower strip (or_default lower strip seller_accounts) [] in
      with_index-AllIssued accounts (register_accounts lower strip accounts []) resolver
        (register_accounts-Indexed accounts [] (λ key access found. absurd (cc (found)))) made

  if_active-active :
      (found access : ResolvedSellerAccess)
      → if_active lower strip found ≡ ok access
      → (found ≡ access)
        × (access.seller_account.status ≡ "active")
        × (access.payment_profile.status ≡ "active")
  if_active-active found access h = elim (Bool-cases (found.seller_account.status == "active")) [
    | inr e ↦ absurd (cc (rw e at h))
    | inl e ↦ elim (Bool-cases (found.payment_profile.status == "active")) [
      | inr f ↦ absurd (cc (rw (e, f) at h))
      | inl f ↦
          let same : found ≡ access = cc (rw (e, f) at h) in
          (
            same,
            subst (λ (a : ResolvedSellerAccess). a.seller_account.status ≡ "active") same
                ((string_eq.beq_iff found.seller_account.status "active").0 e),
            subst (λ (a : ResolvedSellerAccess). a.payment_profile.status ≡ "active") same
                ((string_eq.beq_iff found.payment_profile.status "active").0 f),
          )
    ]
  ]

  by_key-IsIssued :
      (token : String) (looked_up : Option ResolvedSellerAccess) (access : ResolvedSellerAccess)
      → ((found : ResolvedSellerAccess) → looked_up ≡ some found → IsIssued token found)
      → by_key lower strip looked_up ≡ ok access
      → (access.seller_account.status ≡ "active")
        × (access.payment_profile.status ≡ "active")
        × IsIssued token access
  by_key-IsIssued token none access issued h = absurd (cc)
  by_key-IsIssued token (some found) access issued h =
      let (same, account, profile) = if_active-active found access h in
      (account, profile, subst (IsIssued token) same (issued found refl))

  -- A resolver that was built from the accounts gives a bearer of an API key access only to an active
  -- account and an active profile, and only if that account has configured the key: for itself
  -- (then the profile is its default one) or for that profile of its own.
  pub resolve_access-IsIssued :
      (seller_accounts : List SellerAccountConfig) (resolver : StaticSellerAccountResolver)
      (authorization : Option String) (require_auth : Bool) (token : String)
      (access : ResolvedSellerAccess)
      → init lower strip seller_accounts ≡ ok resolver
      → bearer_token lower strip authorization ≡ some token
      → resolve_access lower strip resolver authorization require_auth ≡ ok access
      → (access.seller_account.status ≡ "active")
        × (access.payment_profile.status ≡ "active")
        × IsIssued token access
  unfolding resolve_access
  resolve_access-IsIssued seller_accounts resolver authorization require_auth token access made
        bearer resolved =
      let by_token : resolve_token lower strip resolver require_auth (some token) ≡ ok access =
        ap (resolve_token lower strip resolver require_auth) (sym bearer) ∙ resolved in
      by_key-IsIssued token (Dict.get token resolver.api_key_index) access
        (λ found e. init-AllIssued seller_accounts resolver made token found e) by_token
