-- ===== src/Nanopayments/Payload.antt =====
-- The payment payload of src/hosted_facilitator/nanopayments/types.py, with the authorization and
-- the resource in it.
use x402_hosted_facilitator.Common.{
  String, Option, none, some, ◌==◌, string_eq, ◌||◌, if◌then◌else◌,
}
use x402_hosted_facilitator.Json
use x402_hosted_facilitator.Json.{Value, Items, Fields}
use x402_hosted_facilitator.Nanopayments.{
  PaymentRequirementsKind, get_or, kind_to_dict, kind_from_dict,
}

pub record Eip3009Authorization : Type 0 where
  pub from_address : Value
  pub to : Value
  pub value : Value
  pub valid_after : Value
  pub valid_before : Value
  pub nonce : Value

-- `EIP3009Authorization.create`; the digits of `valid_before`
unfoldable pub create : Value → Value → Value → String → Value → Eip3009Authorization
create from_address to value valid_before nonce = record {
  from_address = from_address;
  to = to;
  value = value;
  valid_after = Value.str "0";
  valid_before = Value.str valid_before;
  nonce = nonce;
}

-- `EIP3009Authorization.to_dict`
unfoldable pub authorization_to_dict : Eip3009Authorization → Fields
authorization_to_dict a = Fields.field "from" a.from_address (
    Fields.field "to" a.to (
      Fields.field "value" a.value (
        Fields.field "validAfter" a.valid_after
          (Fields.field "validBefore" a.valid_before (Fields.field "nonce" a.nonce Fields.end)))))

-- `EIP3009Authorization.from_dict`
unfoldable pub authorization_from_dict : Fields → Eip3009Authorization
authorization_from_dict fields = record {
  from_address = get_or "from" (Value.str "") fields;
  to = get_or "to" (Value.str "") fields;
  value = get_or "value" (Value.str "") fields;
  valid_after = get_or "validAfter" (Value.str "0") fields;
  valid_before = get_or "validBefore" (Value.str "") fields;
  nonce = get_or "nonce" (Value.str "") fields;
}

pub record ResourceInfo : Type 0 where
  pub url : Value
  pub description : Value
  pub mime_type : Value

-- `ResourceInfo.to_dict`
unfoldable pub resource_to_dict : ResourceInfo → Fields
resource_to_dict r =
    Fields.field "url" r.url
      (Fields.field "description" r.description (Fields.field "mimeType" r.mime_type Fields.end))

-- `ResourceInfo.from_dict`
unfoldable pub resource_from_dict : Fields → ResourceInfo
resource_from_dict fields = record {
  url = get_or "url" (Value.str "") fields;
  description = get_or "description" (Value.str "") fields;
  mime_type = get_or "mimeType" (Value.str "") fields;
}

pub record PaymentPayloadInner : Type 0 where
  pub signature : Value
  pub authorization : Eip3009Authorization

-- `PaymentPayloadInner.to_dict`
unfoldable pub inner_to_dict : PaymentPayloadInner → Fields
inner_to_dict p =
    Fields.field "signature" p.signature
      (Fields.field "authorization" (Value.dict (authorization_to_dict p.authorization)) Fields.end)

abbrev pub inner_with : Fields → Value → Option PaymentPayloadInner
inner_with fields (Value.dict authorization) = some (record {
  signature = get_or "signature" (Value.str "") fields;
  authorization = authorization_from_dict authorization;
})
inner_with fields _ = none

-- `PaymentPayloadInner.from_dict`
unfoldable pub inner_from_dict : Fields → Option PaymentPayloadInner
inner_from_dict fields = inner_with fields (get_or "authorization" (Value.dict Fields.end) fields)

-- `PaymentRequirementsKind | dict[str, Any]`
pub data Accepted : Type 0 where
  kind : PaymentRequirementsKind → Accepted
  plain : Fields → Accepted

pub record PaymentPayload : Type 0 where
  pub x402_version : Value
  pub scheme : Value
  pub network : Value
  pub payload : PaymentPayloadInner
  pub resource : Option ResourceInfo
  pub accepted : Option Accepted

abbrev pub accepted_dict : Accepted → Fields
accepted_dict (Accepted.kind k) = kind_to_dict k
accepted_dict (Accepted.plain fields) = fields

abbrev pub with_accepted : Option Accepted → Fields
with_accepted none = Fields.end
with_accepted (some accepted) =
    Fields.field "accepted" (Value.dict (accepted_dict accepted)) Fields.end

abbrev pub with_resource : Option ResourceInfo → Fields → Fields
with_resource none fields = fields
with_resource (some resource) fields =
    Fields.field "resource" (Value.dict (resource_to_dict resource)) fields

-- `PaymentPayload.to_dict`
unfoldable pub payload_to_dict : PaymentPayload → Fields
payload_to_dict p = Fields.field "x402Version" p.x402_version (
    Fields.field "scheme" p.scheme (
      Fields.field "network" p.network (
        Fields.field "payload" (Value.dict (inner_to_dict p.payload))
          (with_resource p.resource (with_accepted p.accepted)))))

-- What `X.from_dict(value) if value else None` reads: nothing, a dictionary, or an exception.
pub data Read : Type 0 where
  absent failed : Read
  found : Fields → Read

abbrev pub read_dict : Option Value → Read
read_dict none = Read.absent
read_dict (some Value.null) = Read.absent
read_dict (some (Value.bool b)) = if b then Read.failed else Read.absent
read_dict (some (Value.number digits)) =
    if digits == "0"
    then Read.absent
    else if digits == "0.0" || digits == "-0.0"
    then Read.absent
    else Read.failed
read_dict (some (Value.str text)) = if text == "" then Read.absent else Read.failed
read_dict (some (Value.list Items.nil)) = Read.absent
read_dict (some (Value.list (Items.cons _ _))) = Read.failed
read_dict (some (Value.dict Fields.end)) = Read.absent
read_dict (some (Value.dict (Fields.field k v rest))) = Read.found (Fields.field k v rest)

abbrev pub resource_of : Read → Option (Option ResourceInfo)
resource_of Read.absent = some none
resource_of Read.failed = none
resource_of (Read.found fields) = some (some (resource_from_dict fields))

abbrev pub as_accepted : Option PaymentRequirementsKind → Option (Option Accepted)
as_accepted none = none
as_accepted (some k) = some (some (Accepted.kind k))

abbrev pub payload_dict : Value → Option PaymentPayloadInner
payload_dict (Value.dict fields) = inner_from_dict fields
payload_dict _ = none

abbrev pub payload_with :
    Fields
    → Option PaymentPayloadInner
    → Option (Option ResourceInfo)
    → Option (Option Accepted)
    → Option PaymentPayload
payload_with fields (some inner) (some resource) (some accepted) = some (record {
  x402_version = get_or "x402Version" (Value.number "2") fields;
  scheme = get_or "scheme" (Value.str "exact") fields;
  network = get_or "network" (Value.str "") fields;
  payload = inner;
  resource = resource;
  accepted = accepted;
})
payload_with fields _ _ _ = none

module _ (int : Value → Option String) where
  abbrev pub accepted_of : Read → Option (Option Accepted)
  accepted_of Read.absent = some none
  accepted_of Read.failed = none
  accepted_of (Read.found fields) = as_accepted (kind_from_dict int fields)

  -- `PaymentPayload.from_dict`
  unfoldable pub payload_from_dict : Fields → Option PaymentPayload
  payload_from_dict fields =
      payload_with fields (payload_dict (get_or "payload" (Value.dict Fields.end) fields))
        (resource_of (read_dict (Json.get "resource" fields)))
        (accepted_of (read_dict (Json.get "accepted" fields)))
