-- ===== src/Nanopayments/RoundTrip.antt =====
-- The dictionaries of the messages are read back as the messages.
use x402_hosted_facilitator.Common.{String, ◌≡◌, refl, ap, Option, none, some, List, [], ◌∷◌, All}
use x402_hosted_facilitator.Json
use x402_hosted_facilitator.Json.{Value, Items, Fields}
use x402_hosted_facilitator.Nanopayments.{
  PaymentRequirementsExtra, PaymentRequirementsKind, PaymentRequirements, dicts_of, items_of_dicts,
  items_of_kinds, extra_to_dict, extra_from_dict, kind_to_dict, kind_from_dict, kinds_of,
  requirements_to_dict, requirements_from_dict, get_or,
}
use x402_hosted_facilitator.Nanopayments.Payload.{
  PaymentPayload, PaymentPayloadInner, ResourceInfo, Accepted, payload_from_dict, payload_to_dict,
  inner_from_dict, inner_to_dict, authorization_from_dict, authorization_to_dict,
  resource_from_dict, resource_to_dict,
}

dicts_of-items_of_dicts : (assets : List Fields) → dicts_of (items_of_dicts assets) ≡ assets
unfolding dicts_of items_of_dicts
dicts_of-items_of_dicts [] = refl
dicts_of-items_of_dicts (asset ∷ rest) = ap (λ r. asset ∷ r) (dicts_of-items_of_dicts rest)

module _ (int : Value → Option String) where
  -- `int` of the int is the int.
  abbrev pub IsInt : Option String → Type 0
  IsInt none = Unit
  IsInt (some digits) = int (Value.number digits) ≡ some digits

  extra-from_dict-to_dict :
      (name version contract : Value) (seconds : Option String) (assets : List Fields)
      → IsInt seconds
      → let e : PaymentRequirementsExtra = record {
        name = name;
        version = version;
        verifying_contract = contract;
        min_validity_seconds = seconds;
        assets = assets;
      } in
        extra_from_dict int (extra_to_dict e) ≡ e
  unfolding extra_from_dict extra_to_dict get_or Json.get dicts_of items_of_dicts
  extra-from_dict-to_dict n v c none [] h = refl
  extra-from_dict-to_dict n v c none (asset ∷ rest) h = rw (dicts_of-items_of_dicts rest) refl
  extra-from_dict-to_dict n v c (some s) [] h = rw h refl
  extra-from_dict-to_dict n v c (some s) (asset ∷ rest) h =
      rw (h, dicts_of-items_of_dicts rest) refl

  abbrev pub HasInt : PaymentRequirementsKind → Type 0
  HasInt k = IsInt k.extra.min_validity_seconds

  extra_lem :
      (e : PaymentRequirementsExtra)
      → IsInt e.min_validity_seconds
      → extra_from_dict int (extra_to_dict e) ≡ e
  extra_lem e h =
      extra-from_dict-to_dict e.name e.version e.verifying_contract e.min_validity_seconds e.assets
        h

  kind-from_dict-to_dict :
      (k : PaymentRequirementsKind) → HasInt k → kind_from_dict int (kind_to_dict k) ≡ some k
  unfolding kind_from_dict kind_to_dict get_or Json.get
  kind-from_dict-to_dict k h = rw (extra_lem k.extra h) refl

  kinds_of-items_of_kinds :
      (ks : List PaymentRequirementsKind)
      → All HasInt ks
      → kinds_of int (items_of_kinds ks) ≡ some ks
  unfolding kinds_of items_of_kinds
  kinds_of-items_of_kinds [] h = refl
  kinds_of-items_of_kinds (k ∷ ks) h =
      rw (kind-from_dict-to_dict k h.0, kinds_of-items_of_kinds ks h.1) refl

  -- Payment requirements whose minimum validities are ints are read back from their dictionary.
  pub requirements-from_dict-to_dict :
      (r : PaymentRequirements)
      → All HasInt r.accepts
      → requirements_from_dict int (requirements_to_dict r) ≡ some r
  unfolding requirements_from_dict requirements_to_dict get_or Json.get
  requirements-from_dict-to_dict r h = rw (kinds_of-items_of_kinds r.accepts h) refl

  abbrev pub IsReadable : Option Accepted → Type 0
  IsReadable none = Unit
  IsReadable (some (Accepted.kind k)) = HasInt k
  IsReadable (some (Accepted.plain fields)) = ⊥

  payload_parts :
      (version scheme network : Value) (inner : PaymentPayloadInner)
      (resource : Option ResourceInfo) (accepted : Option Accepted)
      → IsReadable accepted
      → let p : PaymentPayload = record {
        x402_version = version;
        scheme = scheme;
        network = network;
        payload = inner;
        resource = resource;
        accepted = accepted;
      } in
        payload_from_dict int (payload_to_dict p) ≡ some p
  unfolding payload_from_dict payload_to_dict inner_from_dict inner_to_dict authorization_from_dict
      authorization_to_dict resource_from_dict resource_to_dict get_or Json.get kind_to_dict
      kind_from_dict
  payload_parts v s n i none none h = refl
  payload_parts v s n i (some r) none h = refl
  payload_parts v s n i none (some (Accepted.kind k)) h = rw (extra_lem k.extra h) refl
  payload_parts v s n i (some r) (some (Accepted.kind k)) h = rw (extra_lem k.extra h) refl
  payload_parts v s n i r (some (Accepted.plain fields)) h = absurd h

  -- A payment payload is read back from its dictionary, unless its accepted requirement is a plain
  -- dictionary, and where the minimum validity in that requirement is an int.
  pub payload-from_dict-to_dict :
      (p : PaymentPayload)
      → IsReadable p.accepted
      → payload_from_dict int (payload_to_dict p) ≡ some p
  payload-from_dict-to_dict p h =
      payload_parts p.x402_version p.scheme p.network p.payload p.resource p.accepted h
