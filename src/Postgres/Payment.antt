-- ===== src/Postgres/Payment.antt =====
-- The payment that a record settles, as the provider-fingerprint lookups of
-- src/hosted_facilitator/hosted/postgres.py compare it: with no payment profile, and a missing
-- scheme or network read as ''.
use x402_hosted_facilitator.Common.{
  String, ◌≡◌, ◌↔◌, Bool, true, ◌&&◌, Option, none, some, arith, Eq, string_eq, ◌==◌,
}
use x402_hosted_facilitator.Settlement.{SettlementRecord, ClaimRequest}

pub record PaymentKey : Type 0 where
  pub seller_account_id : String
  pub provider : String
  pub scheme : String
  pub network : String
  pub fingerprint : String

-- COALESCE(value, '')
abbrev pub coalesce : Option String → String
coalesce none = ""
coalesce (some value) = value

abbrev pub payment_of_request : ClaimRequest → PaymentKey
payment_of_request q = record {
  seller_account_id = q.seller_account_id;
  provider = q.provider;
  scheme = coalesce q.scheme;
  network = coalesce q.network;
  fingerprint = q.fingerprint;
}

abbrev pub payment_of : SettlementRecord → PaymentKey
payment_of r = record {
  seller_account_id = r.seller_account_id;
  provider = r.provider;
  scheme = coalesce r.scheme;
  network = coalesce r.network;
  fingerprint = r.fingerprint;
}

abbrev pub payment_beq : PaymentKey → PaymentKey → Bool
payment_beq a b =
    a.seller_account_id == b.seller_account_id
    && (a.provider == b.provider
        && (a.scheme == b.scheme && (a.network == b.network && a.fingerprint == b.fingerprint)))

pub payment_beq_iff : (a b : PaymentKey) → (payment_beq a b ≡ true) ↔ (a ≡ b)
payment_beq_iff a b = ground (
  arith,
  string_eq.beq_iff a.seller_account_id b.seller_account_id,
  string_eq.beq_iff a.provider b.provider,
  string_eq.beq_iff a.scheme b.scheme,
  string_eq.beq_iff a.network b.network,
  string_eq.beq_iff a.fingerprint b.fingerprint,
)

instance abbrev pub payment_eq : Eq PaymentKey
payment_eq = record { beq = payment_beq; beq_iff = payment_beq_iff }
