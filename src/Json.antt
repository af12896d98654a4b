-- ===== src/Json.antt =====
-- Decoded JSON objects, as Python dictionaries hold them.
-- A number is kept by the text that `str` gives for it.
use x402_hosted_facilitator.Common.{
  String, Bool, Option, none, some, is_some, nat_eq, ◌==◌, string_eq, if◌then◌else◌,
}

mutual
  pub data Value : Type 0 where
    null : Value
    bool : Bool → Value
    number : String → Value
    str : String → Value
    list : Items → Value
    dict : Fields → Value

  pub data Items : Type 0 where
    nil : Items
    cons : Value → Items → Items

  pub data Fields : Type 0 where
    end : Fields
    field : String → Value → Fields → Fields

-- `fields.get(key)`
unfoldable pub get : String → Fields → Option Value
get key end = none
get key (field k v fs) = if k == key then some v else get key fs

-- `fields[key] = value`
unfoldable pub put : String → Value → Fields → Fields
put key value end = field key value end
put key value (field k v fs) = if k == key then field k value fs else field k v (put key value fs)

-- `key in fields`
abbrev pub has_key : String → Fields → Bool
has_key key fields = is_some (get key fields)
