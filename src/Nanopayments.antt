-- ===== src/Nanopayments.antt =====
-- The messages of src/hosted_facilitator/nanopayments/types.py and their dictionaries. An attribute
-- holds whatever the dictionary held, since `from_dict` tests no type; `none` is an exception
-- (AttributeError or TypeError). `int(value)` is a parameter, none where it raises TypeError or
-- ValueError.
pub mod Payload
pub mod RoundTrip
use x402_hosted_facilitator.Common.{
  String, Bool, true, false, Option, none, some, List, [], ◌∷◌, ◌==◌, string_eq, if◌then◌else◌,
  find,
}
use x402_hosted_facilitator.Json
use x402_hosted_facilitator.Json.{Value, Items, Fields}

-- `data.get(key, default)`
unfoldable pub get_or : String → Value → Fields → Value
get_or key default fields = elim (Json.get key fields) [ none ↦ default | some v ↦ v ]

pub record PaymentRequirementsExtra : Type 0 where
  pub name : Value
  pub version : Value
  pub verifying_contract : Value
  -- the digits of an int
  pub min_validity_seconds : Option String
  pub assets : List Fields

-- `tuple(dict(asset) for asset in assets if isinstance(asset, dict))`
unfoldable pub dicts_of : Items → List Fields
dicts_of Items.nil = []
dicts_of (Items.cons (Value.dict asset) rest) = asset ∷ dicts_of rest
dicts_of (Items.cons _ rest) = dicts_of rest

abbrev pub parsed_assets : Option Value → List Fields
parsed_assets (some (Value.list assets)) = dicts_of assets
parsed_assets _ = []

unfoldable pub items_of_dicts : List Fields → Items
items_of_dicts [] = Items.nil
items_of_dicts (asset ∷ rest) = Items.cons (Value.dict asset) (items_of_dicts rest)

abbrev pub with_assets : List Fields → Fields
with_assets [] = Fields.end
with_assets (asset ∷ rest) =
    Fields.field "assets" (Value.list (items_of_dicts (asset ∷ rest))) Fields.end

abbrev pub with_min_validity : Option String → Fields → Fields
with_min_validity none fields = fields
with_min_validity (some digits) fields =
    Fields.field "minValiditySeconds" (Value.number digits) fields

-- `PaymentRequirementsExtra.to_dict`
unfoldable pub extra_to_dict : PaymentRequirementsExtra → Fields
extra_to_dict e = Fields.field "name" e.name (
    Fields.field "version" e.version (
      Fields.field "verifyingContract" e.verifying_contract
        (with_min_validity e.min_validity_seconds (with_assets e.assets))))

pub record PaymentRequirementsKind : Type 0 where
  pub scheme : Value
  pub network : Value
  pub asset : Value
  pub amount : Value
  pub max_timeout_seconds : Value
  pub pay_to : Value
  pub extra : PaymentRequirementsExtra

-- `PaymentRequirementsKind.to_dict`
unfoldable pub kind_to_dict : PaymentRequirementsKind → Fields
kind_to_dict k = Fields.field "scheme" k.scheme (
    Fields.field "network" k.network (
      Fields.field "asset" k.asset (
        Fields.field "amount" k.amount (
          Fields.field "maxTimeoutSeconds" k.max_timeout_seconds (
            Fields.field "payTo" k.pay_to
              (Fields.field "extra" (Value.dict (extra_to_dict k.extra)) Fields.end))))))

pub record PaymentRequirements : Type 0 where
  pub x402_version : Value
  pub accepts : List PaymentRequirementsKind

unfoldable pub items_of_kinds : List PaymentRequirementsKind → Items
items_of_kinds [] = Items.nil
items_of_kinds (kind ∷ rest) = Items.cons (Value.dict (kind_to_dict kind)) (items_of_kinds rest)

-- `PaymentRequirements.to_dict`
unfoldable pub requirements_to_dict : PaymentRequirements → Fields
requirements_to_dict r =
    Fields.field "x402Version" r.x402_version
      (Fields.field "accepts" (Value.list (items_of_kinds r.accepts)) Fields.end)

abbrev pub is_gateway : Value → Bool
is_gateway (Value.str name) = name == "GatewayWalletBatched"
is_gateway _ = false

-- `find_gateway_kind`
unfoldable pub find_gateway_kind : PaymentRequirements → Option PaymentRequirementsKind
find_gateway_kind r = find (λ kind. is_gateway kind.extra.name) r.accepts

module _ (int : Value → Option String) where
  -- an infinity, for which `int` raises an error that the code does not catch, is read as None here
  abbrev pub min_validity_of : Option Value → Option String
  min_validity_of none = none
  min_validity_of (some Value.null) = none
  min_validity_of (some value) = int value

  -- `PaymentRequirementsExtra.from_dict`
  unfoldable pub extra_from_dict : Fields → PaymentRequirementsExtra
  extra_from_dict fields = record {
    name = get_or "name" (Value.str "") fields;
    version = get_or "version" (Value.str "") fields;
    verifying_contract = get_or "verifyingContract" (Value.str "") fields;
    min_validity_seconds = min_validity_of (Json.get "minValiditySeconds" fields);
    assets = parsed_assets (Json.get "assets" fields);
  }

  abbrev pub kind_with_extra : Fields → Value → Option PaymentRequirementsKind
  kind_with_extra fields (Value.dict extra_data) = some (record {
    scheme = get_or "scheme" (Value.str "") fields;
    network = get_or "network" (Value.str "") fields;
    asset = get_or "asset" (Value.str "") fields;
    amount = get_or "amount" (Value.str "") fields;
    max_timeout_seconds = get_or "maxTimeoutSeconds" (Value.number "0") fields;
    pay_to = get_or "payTo" (Value.str "") fields;
    extra = extra_from_dict extra_data;
  })
  kind_with_extra fields _ = none

  -- `PaymentRequirementsKind.from_dict`
  unfoldable pub kind_from_dict : Fields → Option PaymentRequirementsKind
  kind_from_dict fields = kind_with_extra fields (get_or "extra" (Value.dict Fields.end) fields)

  abbrev pub kind_from_value : Value → Option PaymentRequirementsKind
  kind_from_value (Value.dict fields) = kind_from_dict fields
  kind_from_value _ = none

  abbrev pub both :
      Option PaymentRequirementsKind
      → Option (List PaymentRequirementsKind)
      → Option (List PaymentRequirementsKind)
  both (some kind) (some kinds) = some (kind ∷ kinds)
  both _ _ = none

  unfoldable pub kinds_of : Items → Option (List PaymentRequirementsKind)
  kinds_of Items.nil = some []
  kinds_of (Items.cons value rest) = both (kind_from_value value) (kinds_of rest)

  -- `tuple(PaymentRequirementsKind.from_dict(a) for a in accepts_list)`; the elements of a text and
  -- of a dictionary are texts, which have no `get`
  abbrev pub accepts_of : Value → Option (List PaymentRequirementsKind)
  accepts_of (Value.list accepts) = kinds_of accepts
  accepts_of (Value.dict Fields.end) = some []
  accepts_of (Value.str text) = if text == "" then some [] else none
  accepts_of _ = none

  abbrev pub requirements_with :
      Value → Option (List PaymentRequirementsKind) → Option PaymentRequirements
  requirements_with version none = none
  requirements_with version (some accepts) =
      some (record { x402_version = version; accepts = accepts })

  -- `PaymentRequirements.from_dict`
  unfoldable pub requirements_from_dict : Fields → Option PaymentRequirements
  requirements_from_dict fields =
      requirements_with (get_or "x402Version" (Value.number "2") fields)
        (accepts_of (get_or "accepts" (Value.list Items.nil) fields))
