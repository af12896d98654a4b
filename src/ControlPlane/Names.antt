-- ===== src/ControlPlane/Names.antt =====
-- The texts that the control plane lets into its state and its audit trail: the `_safe_*` functions
-- of src/hosted_facilitator/hosted/control_plane.py. What Python says of single characters, and
-- `str.strip`, are parameters; a uuid4 that a function falls back to is an argument.
use Prim.Native.Char.{Char, code}
use Prim.Native.String.{◌++◌}
use x402_hosted_facilitator.Common.{
  ℕ, suc, String, Bool, true, false, not, ◌&&◌, ◌||◌, Option, none, some, ◌==◌, nat_eq, string_eq,
  if◌then◌else◌, leb, ok, err, Result, value_error,
}
use x402_hosted_facilitator.RateLimit.Buckets.{first_chars}

pub record TextMethods : Type 0 where
  pub isalnum : Char → Bool
  pub isdigit : Char → Bool
  pub strip : String → String
  -- `"_".join(value.strip().split())`
  pub joined_words : String → String

-- `"".join(ch for ch in value if test(ch))`
unfoldable pub keep_chars : (Char → Bool) → String → String
keep_chars test String.[] = ""
keep_chars test (String.◌∷◌ c s) =
    if test c then String.◌∷◌ c (keep_chars test s) else keep_chars test s

-- `all(test(ch) for ch in value)`
unfoldable pub all_chars : (Char → Bool) → String → Bool
all_chars test String.[] = true
all_chars test (String.◌∷◌ c s) = test c && all_chars test s

-- `len(value)`
unfoldable pub text_length : String → ℕ
text_length String.[] = 0
text_length (String.◌∷◌ c s) = suc (text_length s)

-- `value[len(prefix):]`, if `value.startswith(prefix)`
unfoldable pub after_prefix : String → String → Option String
after_prefix String.[] s = some s
after_prefix (String.◌∷◌ c p) String.[] = none
after_prefix (String.◌∷◌ c p) (String.◌∷◌ e s) = if code c == code e then after_prefix p s else none

abbrev is_underscore_or_hyphen : Char → Bool
is_underscore_or_hyphen c = code c == b'_' || code c == b'-'

abbrev or_text : String → String → String
or_text text fallback = if text == "" then fallback else text

module _ (m : TextMethods) where
  abbrev pub name_char : Char → Bool
  name_char c = m.isalnum c || (is_underscore_or_hyphen c || code c == b'.')

  -- `_safe_provider_name`
  unfoldable pub safe_provider_name : String → String
  unfolding keep_chars
  safe_provider_name value = or_text (first_chars 64 (keep_chars name_char value)) "unknown"

  -- `_safe_actor`
  unfoldable pub safe_actor : String → String
  safe_actor value =
      or_text (first_chars 96 (keep_chars (λ c. name_char c || code c == b'@') value)) "unknown"

  -- `_safe_correlation_id`
  unfoldable pub safe_correlation_id : String → String → String
  safe_correlation_id uuid4 value = or_text (first_chars 96 (keep_chars name_char value)) uuid4

  -- `_safe_reason`
  unfoldable pub safe_reason : String → String
  safe_reason value = if m.strip value == "" then "unspecified" else "operator_supplied"

  -- `_safe_key_prefix`
  unfoldable pub safe_key_prefix : String → String
  safe_key_prefix value =
      or_text (first_chars 32 (keep_chars (λ c. m.isalnum c || is_underscore_or_hyphen c) value))
        "unknown"

  -- `_safe_audit_reason`
  unfoldable pub safe_audit_reason : String → String
  safe_audit_reason value =
      or_text (first_chars 160 (keep_chars (λ c. name_char c || code c == b':') value))
        "unspecified"

  -- `_seller_key_audit_reason`
  unfoldable pub seller_key_audit_reason : String → Option String → String
  unfolding safe_key_prefix safe_audit_reason
  seller_key_audit_reason key_prefix none = "api_key_prefix:" ++ safe_key_prefix key_prefix
  seller_key_audit_reason key_prefix (some reason) =
      safe_audit_reason
        ("api_key_prefix:" ++ safe_key_prefix key_prefix ++ ":reason:" ++ m.joined_words reason)

  abbrev is_chain_id : Option String → Bool
  is_chain_id none = false
  is_chain_id (some id) = not (id == "") && (all_chars m.isdigit id && leb (text_length id) 20)

  -- `_safe_network`
  unfoldable pub safe_network : String → Result String
  safe_network value =
      if is_chain_id (after_prefix "eip155:" value)
      then ok value
      else err (value_error "unsupported control-plane network target")

  -- `_safe_network_or_none`
  unfoldable pub safe_network_or_none : Option String → Option String
  unfolding safe_network
  safe_network_or_none none = none
  safe_network_or_none (some value) = elim (safe_network value) [
    | ok network ↦ some network
    | err e ↦ none
  ]

  abbrev starts_alnum : String → Bool
  starts_alnum String.[] = false
  starts_alnum (String.◌∷◌ c s) = m.isalnum c

  -- `_safe_seller_ref`
  unfoldable pub safe_seller_ref : String → Result String
  safe_seller_ref value =
      let text = m.strip value in
      if not (leb 3 (text_length text) && leb (text_length text) 64)
      then err (value_error "seller reference must be 3 to 64 characters")
      else if not (all_chars name_char text)
      then err (value_error "seller reference has an unsupported character")
      else if not (starts_alnum text)
      then err (value_error "seller reference must start with a letter or number")
      else ok text

-- `_safe_seller_key_action`
unfoldable pub safe_seller_key_action : String → Result String
safe_seller_key_action action =
    if action == "seller_api_key_issue" || action == "seller_api_key_revoke"
    then ok action
    else err (value_error "unsupported seller API-key audit action")
