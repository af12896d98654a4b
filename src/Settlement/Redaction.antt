-- ===== src/Settlement/Redaction.antt =====
-- `_safe_requirements` (src/hosted_facilitator/hosted/storage.py): what a store keeps of the payment
-- requirements. `sha256_hexdigest` of hashlib is a parameter.
use x402_hosted_facilitator.Common.{String, true, Option, none, some, List, [], ◌∷◌}
use x402_hosted_facilitator.Json
use x402_hosted_facilitator.Json.{Value, Fields}

abbrev pub kept_keys : List String
kept_keys = "scheme" ∷ "network" ∷ "asset" ∷ "amount" ∷ "payTo" ∷ "maxTimeoutSeconds" ∷ []

abbrev copy_one : String → Option Value → Fields → Fields
copy_one key none safe = safe
copy_one key (some value) safe = Json.put key value safe

-- the `for key in (...)` loop
copy_keys : List String → Fields → Fields → Fields
copy_keys [] requirements safe = safe
copy_keys (key ∷ keys) requirements safe =
    copy_keys keys requirements (copy_one key (Json.get key requirements) safe)

-- `if isinstance(extra, dict) and isinstance(extra.get("name"), str)`
abbrev extra_name : Option Value → Option String
extra_name (some (Value.dict extra)) = elim (Json.get "name" extra) [
  | some (Value.str name) ↦ some name
  | _ ↦ none
]
extra_name _ = none

abbrev put_extra : Option String → Fields → Fields
put_extra none safe = safe
put_extra (some name) safe =
    Json.put "extra" (Value.dict (Fields.field "name" (Value.str name) Fields.end)) safe

module _ (sha256_hexdigest : String → String) where
  abbrev put_resource : Option Value → Fields → Fields
  put_resource (some (Value.str resource)) safe =
      Json.put "resourceHash" (Value.str (sha256_hexdigest resource)) safe
  put_resource _ safe = safe

  unfoldable pub safe_requirements : Fields → Fields
  unfolding copy_keys
  safe_requirements requirements =
      let safe = copy_keys kept_keys requirements Fields.end in
      let safe_resource = put_resource (Json.get "resource" requirements) safe in
      let safe_extra = put_extra (extra_name (Json.get "extra" requirements)) safe_resource in
      Json.put "metadataRedacted" (Value.bool true) safe_extra
