-- ===== src/Settlement/Identity.antt =====
-- The tuples by which storage.py identifies a record: the key of `_records` and the key of
-- `_provider_fingerprint_index`.
use x402_hosted_facilitator.Common.{
  String, ◌≡◌, ◌↔◌, Bool, true, ◌&&◌, Option, arith, Eq, ◌==◌, string_eq, option_eq,
}
use x402_hosted_facilitator.Settlement.{SettlementRecord, ClaimRequest}

-- (seller_account_id, payment_profile_id, fingerprint)
pub record RecordKey : Type 0 where
  pub seller_account_id : String
  pub payment_profile_id : String
  pub fingerprint : String

-- (seller_account_id, provider, scheme, network, fingerprint)
pub record ReplayKey : Type 0 where
  pub seller_account_id : String
  pub provider : String
  pub scheme : Option String
  pub network : Option String
  pub fingerprint : String

abbrev pub record_key_beq : RecordKey → RecordKey → Bool
record_key_beq a b =
    a.seller_account_id == b.seller_account_id
    && (a.payment_profile_id == b.payment_profile_id && a.fingerprint == b.fingerprint)

pub record_key_beq_iff : (a b : RecordKey) → (record_key_beq a b ≡ true) ↔ (a ≡ b)
record_key_beq_iff a b = ground (
  arith,
  string_eq.beq_iff a.seller_account_id b.seller_account_id,
  string_eq.beq_iff a.payment_profile_id b.payment_profile_id,
  string_eq.beq_iff a.fingerprint b.fingerprint,
)

instance abbrev pub record_key_eq : Eq RecordKey
record_key_eq = record { beq = record_key_beq; beq_iff = record_key_beq_iff }

abbrev pub replay_key_beq : ReplayKey → ReplayKey → Bool
replay_key_beq a b =
    a.seller_account_id == b.seller_account_id
    && (a.provider == b.provider
        && (a.scheme == b.scheme && (a.network == b.network && a.fingerprint == b.fingerprint)))

pub replay_key_beq_iff : (a b : ReplayKey) → (replay_key_beq a b ≡ true) ↔ (a ≡ b)
replay_key_beq_iff a b = ground (
  arith,
  string_eq.beq_iff a.seller_account_id b.seller_account_id,
  string_eq.beq_iff a.provider b.provider,
  (option_eq {A = String}).beq_iff a.scheme b.scheme,
  (option_eq {A = String}).beq_iff a.network b.network,
  string_eq.beq_iff a.fingerprint b.fingerprint,
)

instance abbrev pub replay_key_eq : Eq ReplayKey
replay_key_eq = record { beq = replay_key_beq; beq_iff = replay_key_beq_iff }

abbrev pub record_key : SettlementRecord → RecordKey
record_key r = record {
  seller_account_id = r.seller_account_id;
  payment_profile_id = r.payment_profile_id;
  fingerprint = r.fingerprint;
}

abbrev pub replay_key : SettlementRecord → ReplayKey
replay_key r = record {
  seller_account_id = r.seller_account_id;
  provider = r.provider;
  scheme = r.scheme;
  network = r.network;
  fingerprint = r.fingerprint;
}

abbrev pub requested_key : ClaimRequest → RecordKey
requested_key q = record {
  seller_account_id = q.seller_account_id;
  payment_profile_id = q.payment_profile_id;
  fingerprint = q.fingerprint;
}

abbrev pub requested_replay_key : ClaimRequest → ReplayKey
requested_replay_key q = record {
  seller_account_id = q.seller_account_id;
  provider = q.provider;
  scheme = q.scheme;
  network = q.network;
  fingerprint = q.fingerprint;
}
