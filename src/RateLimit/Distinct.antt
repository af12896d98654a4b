-- ===== src/RateLimit/Distinct.antt =====
-- The buckets of one request have different keys.
use Prim.Native.Char.{Char, code}
use Prim.Native.String.{◌++◌}
use text.Mathlib.TextLemmas.{append_cancel_left, cons-append, head-eq_of_cons-eq}
use x402_hosted_facilitator.Common.{
  ℕ, String, ◌≡◌, ◌≢◌, refl, sym, ap, ◌∙◌, Bool, Option, none, some, List, [], ◌∷◌, All, Bool-cases,
  inl, inr, string_eq, arith,
}
use x402_hosted_facilitator.RateLimit.Buckets.{
  RateLimitBucket, RateLimitRequest, HostedRateLimitEndpoint, endpoint_value, is_invalid, limit_for,
  truthy, limited, safe_key_part, ip_bucket, endpoint_bucket, seller_bucket, invalid_bucket,
  buckets_for_request,
}

-- No bucket has the key.
abbrev pub Fresh : String → List RateLimitBucket → Type 0
Fresh key = All (λ b. b.key ≢ key)

abbrev pub DistinctKeys : List RateLimitBucket → Type 0
DistinctKeys [] = Unit
DistinctKeys (b ∷ bs) = Fresh b.key bs × DistinctKeys bs

Fresh-limited :
    (key k : String) (limit : Option ℕ) (bs : List RateLimitBucket)
    → k ≢ key
    → Fresh key bs
    → Fresh key (limited k limit bs)
Fresh-limited key k none bs h hs = hs
Fresh-limited key k (some l) bs h hs = (h, hs)

DistinctKeys-limited :
    (key : String) (limit : Option ℕ) (bs : List RateLimitBucket)
    → Fresh key bs
    → DistinctKeys bs
    → DistinctKeys (limited key limit bs)
DistinctKeys-limited key none bs h hs = hs
DistinctKeys-limited key (some l) bs h hs = (h, hs)

abbrev letter_i : Char
letter_i = "i"

abbrev letter_s : Char
letter_s = "s"

ip-ne-seller : (s t : String) → "ip:" ++ s ≢ "seller_account:" ++ t
ip-ne-seller s t h =
    let ip = cons-append letter_i "p:" s in
    let seller = cons-append letter_s "eller_account:" t in
    let same : letter_i ≡ letter_s = head-eq_of_cons-eq (sym ip ∙ h ∙ seller) in
    let codes = ap code same in omega (arith, codes)

module _ (isalnum : Char → Bool) where
  abbrev ip_key : String → String → String
  ip_key host suffix = "ip:" ++ safe_key_part isalnum host ++ suffix

  abbrev seller_key : String → String → String
  seller_key id suffix = "seller_account:" ++ safe_key_part isalnum id ++ suffix

  ip_key-ne : (host a b : String) → a ≢ b → ip_key host a ≢ ip_key host b
  ip_key-ne host a b h e =
      h (append_cancel_left (safe_key_part isalnum host) a b (append_cancel_left "ip:" _ _ e))

  seller_key-ne : (id a b : String) → a ≢ b → seller_key id a ≢ seller_key id b
  seller_key-ne id a b h e = h (
      append_cancel_left (safe_key_part isalnum id) a b
        (append_cancel_left "seller_account:" _ _ e))

  endpoint-ne-all : (endpoint : HostedRateLimitEndpoint) → ":all" ≢ ":" ++ endpoint_value endpoint
  endpoint-ne-all HostedRateLimitEndpoint.supported h = cc
  endpoint-ne-all HostedRateLimitEndpoint.verify h = cc
  endpoint-ne-all HostedRateLimitEndpoint.settle h = cc
  endpoint-ne-all HostedRateLimitEndpoint.invalid h = cc

  all-ne-invalid : ◌≢◌ {A = String} ":invalid" ":all"
  all-ne-invalid h = cc

  -- the last bucket against a key before it
  invalid-Fresh :
      (key : String) (host : Option String) (endpoint : HostedRateLimitEndpoint) (l : Option ℕ)
      → ((address : String) → host ≡ some address → ip_key address ":invalid" ≢ key)
      → Fresh key (invalid_bucket isalnum host endpoint l)
  invalid-Fresh key none endpoint l h = tt
  invalid-Fresh key (some address) endpoint l h = elim (Bool-cases (is_invalid endpoint)) [
    | inl e ↦ rw e (Fresh-limited key (ip_key address ":invalid") l [] (h address refl) tt)
    | inr e ↦ rw e tt
  ]

  seller-Fresh :
      (key : String) (seller : Option String) (endpoint : HostedRateLimitEndpoint) (l : Option ℕ)
      (bs : List RateLimitBucket)
      → ((id : String) → seller ≡ some id → seller_key id ":all" ≢ key)
      → Fresh key bs
      → Fresh key (seller_bucket isalnum seller endpoint l bs)
  seller-Fresh key none endpoint l bs h hs = hs
  seller-Fresh key (some id) endpoint l bs h hs = elim (Bool-cases (is_invalid endpoint)) [
    | inl e ↦ rw e hs
    | inr e ↦ rw e (Fresh-limited key (seller_key id ":all") l bs (h id refl) hs)
  ]

  endpoint-Fresh :
      (key : String) (seller : Option String) (endpoint : HostedRateLimitEndpoint) (l : Option ℕ)
      (bs : List RateLimitBucket)
      → ((id : String) → seller_key id (":" ++ endpoint_value endpoint) ≢ key)
      → Fresh key bs
      → Fresh key (endpoint_bucket isalnum seller endpoint l bs)
  endpoint-Fresh key none endpoint l bs h hs = hs
  endpoint-Fresh key (some id) endpoint l bs h hs =
      Fresh-limited key (seller_key id (":" ++ endpoint_value endpoint)) l bs (h id) hs

  invalid-DistinctKeys :
      (host : Option String) (endpoint : HostedRateLimitEndpoint) (l : Option ℕ)
      → DistinctKeys (invalid_bucket isalnum host endpoint l)
  invalid-DistinctKeys none endpoint l = tt
  invalid-DistinctKeys (some host) endpoint l = elim (Bool-cases (is_invalid endpoint)) [
    | inl e ↦ rw e (DistinctKeys-limited (ip_key host ":invalid") l [] tt tt)
    | inr e ↦ rw e tt
  ]

  seller-DistinctKeys :
      (seller : Option String) (endpoint : HostedRateLimitEndpoint) (l : Option ℕ)
      (bs : List RateLimitBucket)
      → ((id : String) → Fresh (seller_key id ":all") bs)
      → DistinctKeys bs
      → DistinctKeys (seller_bucket isalnum seller endpoint l bs)
  seller-DistinctKeys none endpoint l bs fresh h = h
  seller-DistinctKeys (some id) endpoint l bs fresh h = elim (Bool-cases (is_invalid endpoint)) [
    | inl e ↦ rw e h
    | inr e ↦ rw e (DistinctKeys-limited (seller_key id ":all") l bs (fresh id) h)
  ]

  endpoint-DistinctKeys :
      (seller : Option String) (endpoint : HostedRateLimitEndpoint) (l : Option ℕ)
      (bs : List RateLimitBucket)
      → ((id : String)
          → seller ≡ some id
          → Fresh (seller_key id (":" ++ endpoint_value endpoint)) bs)
      → DistinctKeys bs
      → DistinctKeys (endpoint_bucket isalnum seller endpoint l bs)
  endpoint-DistinctKeys none endpoint l bs fresh h = h
  endpoint-DistinctKeys (some id) endpoint l bs fresh h =
      DistinctKeys-limited (seller_key id (":" ++ endpoint_value endpoint)) l bs (fresh id refl) h

  ip-DistinctKeys :
      (host : Option String) (l : Option ℕ) (bs : List RateLimitBucket)
      → ((address : String) → host ≡ some address → Fresh (ip_key address ":all") bs)
      → DistinctKeys bs
      → DistinctKeys (ip_bucket isalnum host l bs)
  ip-DistinctKeys none l bs fresh h = h
  ip-DistinctKeys (some host) l bs fresh h =
      DistinctKeys-limited (ip_key host ":all") l bs (fresh host refl) h

  same_some : {a b : String} {o : Option String} → o ≡ some a → o ≡ some b → a ≡ b
  same_some h g = cc

  pub buckets_for_request-DistinctKeys :
      (request : RateLimitRequest) → DistinctKeys (buckets_for_request isalnum request)
  unfolding buckets_for_request
  buckets_for_request-DistinctKeys request =
      let host = truthy request.client_host in
      let seller = truthy request.seller_account_id in
      let endpoint = request.endpoint in
      let policy = request.policy in
      let invalid = invalid_bucket isalnum host endpoint policy.invalid_requests_per_minute in
      let sellers =
        seller_bucket isalnum seller endpoint policy.seller_requests_per_minute invalid in
      let against_seller = λ (id suffix : String).
        invalid-Fresh (seller_key id suffix) host endpoint policy.invalid_requests_per_minute
          (λ address e. ip-ne-seller _ _) in
      let against_ip = λ (address : String) (e : host ≡ some address).
        invalid-Fresh (ip_key address ":all") host endpoint policy.invalid_requests_per_minute
          (λ other f. rw (same_some f e) (ip_key-ne address ":invalid" ":all" all-ne-invalid)) in
      ip-DistinctKeys host policy.ip_requests_per_minute _
        (λ address e.
          endpoint-Fresh (ip_key address ":all") seller endpoint (limit_for policy endpoint) sellers
            (λ id h. ip-ne-seller _ _ (sym h))
            (seller-Fresh (ip_key address ":all") seller endpoint policy.seller_requests_per_minute
              invalid (λ id f h. ip-ne-seller _ _ (sym h)) (against_ip address e)))
        (endpoint-DistinctKeys seller endpoint (limit_for policy endpoint) sellers
          (λ id e.
            seller-Fresh (seller_key id (":" ++ endpoint_value endpoint)) seller endpoint
              policy.seller_requests_per_minute invalid
              (λ other f. rw (same_some f e) (
                seller_key-ne id ":all" (":" ++ endpoint_value endpoint)
                  (endpoint-ne-all endpoint)))
              (against_seller id (":" ++ endpoint_value endpoint)))
          (seller-DistinctKeys seller endpoint policy.seller_requests_per_minute invalid
            (λ id. against_seller id ":all")
            (invalid-DistinctKeys host endpoint policy.invalid_requests_per_minute)))
