-- ===== src/Validation/Numerals.antt =====
-- What the program uses of Python's `decimal` module, of `repr`, and of `==` between a decoded value
-- and an integer or between what `get` returns twice.
use x402_hosted_facilitator.Common.{ℕ, String, Bool, true, false, ◌≡◌, Option, Result}
use x402_hosted_facilitator.Json.{Value}

pub record Decimals : Type 1 where
  pub Decimal : Type 0
  -- `Decimal(text)`, where `none` is the `InvalidOperation` that it raises
  pub parse : String → Option Decimal
  -- `amount == amount.to_integral_value()`
  pub is_integral : Decimal → Bool
  -- `str(int(amount))`, which raises for an infinity
  pub int_text : Decimal → Result String
  -- `format(amount.normalize(), "f")`
  pub normal_text : Decimal → String
  pub repr : Value → String
  pub equals_int : Option Value → ℕ → Bool
  -- `a == b`, where a missing field is None
  pub equals : Option Value → Option Value → Bool

-- Decimals that compare equal are integers alike, and are written alike. (0 and -0 are equal
-- integers.)
pub record DecimalLaws (d : Decimals) : Type 0 where
  -- `a == b`
  pub same : d.Decimal → d.Decimal → Bool
  pub is_integral-same : (a b : d.Decimal) → same a b ≡ true → d.is_integral a ≡ d.is_integral b
  pub int_text-same :
      (a b : d.Decimal) → same a b ≡ true → d.is_integral a ≡ true → d.int_text a ≡ d.int_text b
  pub normal_text-same :
      (a b : d.Decimal)
      → same a b ≡ true
      → d.is_integral a ≡ false
      → d.normal_text a ≡ d.normal_text b
